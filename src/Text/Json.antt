-- ===== src/Text/Json.antt =====
-- src/network.cpp: the two extractors of values from a flat JSON message. The keys are the
-- program's own constants, which fit in the 128-byte pattern buffer.
use dirtybird_c_miner.Base.{
  ℕ, ◌≡◌, ◌≢◌, refl, ◌||◌, List, [], ◌∷◌, ◌++◌, none, some, All, All-append, ◌==◌, if◌then◌else◌, ℤ,
  pos, arith,
}
use dirtybird_c_miner.Text.Chars.{codes, c_str, strip_prefix, strstr_behind, before_char}
use dirtybird_c_miner.Text.Strtol.{strtoll}

-- The pattern `"key":"`.
abbrev pub str_pattern : List ℕ → List ℕ
str_pattern key = b'"' ∷ (key ++ codes "\":\"")

-- The value of `"key":"value"`, empty if there is none.
unfoldable pub json_str : List ℕ → List ℕ → List ℕ
unfolding c_str strstr_behind before_char
json_str json key = elim (strstr_behind (str_pattern key) (c_str json)) [
  | none ↦ []
  | some p ↦ (elim (before_char b'"' p) [ none ↦ [] | some value ↦ value ])
]

skip_blank : List ℕ → List ℕ
skip_blank [] = []
skip_blank (c ∷ s) = if c == 32 || c == 9 then skip_blank s else c ∷ s

int_at : List ℕ → ℤ
int_at [] = strtoll 10 []
int_at (c ∷ s) = if c == b'"' then pos 0 else strtoll 10 (c ∷ s)

-- The value of `"key":12345`, 0 if there is none or it is a string.
unfoldable pub json_int : List ℕ → List ℕ → ℤ
unfolding c_str strstr_behind skip_blank int_at strtoll
json_int json key = elim (strstr_behind (b'"' ∷ (key ++ codes "\":")) (c_str json)) [
  | none ↦ pos 0
  | some p ↦ int_at (skip_blank p)
]

abbrev pub HasNo : ℕ → List ℕ → Type 0
HasNo c s = All (λ x. x ≢ c) s

c_str-append : (xs ys : List ℕ) → HasNo 0 xs → c_str (xs ++ ys) ≡ xs ++ c_str ys
unfolding c_str
c_str-append [] ys h = refl
c_str-append (x ∷ xs) ys h = ground (arith, c_str-append xs ys h.1)

strip_prefix-append : (ps s : List ℕ) → strip_prefix ps (ps ++ s) ≡ some s
unfolding strip_prefix
strip_prefix-append [] s = refl
strip_prefix-append (p ∷ ps) s = ground (arith, strip_prefix-append ps s)

before_char-append : (c : ℕ) (v s : List ℕ) → HasNo c v → before_char c (v ++ c ∷ s) ≡ some v
unfolding before_char
before_char-append c [] s h = ground arith
before_char-append c (x ∷ v) s h = ground (arith, before_char-append c v s h.1)

-- A pattern is found at once behind text that lacks its first character.
strstr_behind-append :
    (p : ℕ) (ps pre s : List ℕ)
    → HasNo p pre
    → strstr_behind (p ∷ ps) (pre ++ p ∷ (ps ++ s)) ≡ some s
unfolding strstr_behind strip_prefix
strstr_behind-append p ps [] s h = ground (arith, strip_prefix-append ps s)
strstr_behind-append p ps (x ∷ pre) s h = ground (arith, strstr_behind-append p ps pre s h.1)

-- Where a message's first quotation mark opens the key, and the value holds none, the value is
-- what `json_str` returns, whatever follows it.
pub json_str_first :
    (pre key value rest : List ℕ)
    → HasNo b'"' pre
    → HasNo b'"' value
    → HasNo 0 pre
    → HasNo 0 key
    → HasNo 0 value
    → json_str (pre ++ (str_pattern key ++ (value ++ b'"' ∷ rest))) key ≡ value
unfolding json_str
json_str_first pre key value rest hp hv zp zk zv =
    ground (arith, found, before_char-append b'"' value (c_str rest) hv)
  where
    pattern : List ℕ
    pattern = str_pattern key

    zpat : HasNo 0 pattern
    zpat = (omega arith, All-append (λ x. x ≢ 0) key (codes "\":\"") zk (omega arith))

    found :
        strstr_behind pattern (c_str (pre ++ (pattern ++ (value ++ b'"' ∷ rest))))
        ≡ some (value ++ b'"' ∷ c_str rest)
    found =
        rw
          (
            c_str-append pre (pattern ++ (value ++ b'"' ∷ rest)) zp,
            c_str-append pattern (value ++ b'"' ∷ rest) zpat,
            c_str-append value (b'"' ∷ rest) zv,
          )
          (strstr_behind-append b'"' (key ++ codes "\":\"") pre (value ++ b'"' ∷ c_str rest) hp)
