-- ===== src/Text/Chars.antt =====
-- Strings as lists of character codes: literals, comparison, `strstr` and `strchr`.
use Prim.Native.Char.{code}
use Prim.Native.String.{String}
use dirtybird_c_miner.Base.{
  ℕ, ◌≡◌, ◌↔◌, Bool, true, false, ◌&&◌, List, [], ◌∷◌, Option, none, some, ◌==◌, if◌then◌else◌,
  arith,
}

-- The bytes of an ASCII literal.
abbrev pub codes : String → List ℕ
codes String.[] = []
codes (String.◌∷◌ c s) = code c ∷ codes s

-- `==` of two strings.
unfoldable pub str_eq : List ℕ → List ℕ → Bool
str_eq [] [] = true
str_eq [] (y ∷ ys) = false
str_eq (x ∷ xs) [] = false
str_eq (x ∷ xs) (y ∷ ys) = x == y && str_eq xs ys

pub str_eq_iff : (xs ys : List ℕ) → (str_eq xs ys ≡ true) ↔ (xs ≡ ys)
unfolding str_eq
str_eq_iff [] [] = ground arith
str_eq_iff [] (y ∷ ys) = ground arith
str_eq_iff (x ∷ xs) [] = ground arith
str_eq_iff (x ∷ xs) (y ∷ ys) = ground (arith, str_eq_iff xs ys)

-- What `c_str()` shows to a C function: the characters before the first NUL.
unfoldable pub c_str : List ℕ → List ℕ
c_str [] = []
c_str (c ∷ s) = if c == 0 then [] else c ∷ c_str s

-- The rest of a string behind a prefix.
unfoldable pub strip_prefix : List ℕ → List ℕ → Option (List ℕ)
strip_prefix [] s = some s
strip_prefix (p ∷ ps) [] = none
strip_prefix (p ∷ ps) (c ∷ s) = if p == c then strip_prefix ps s else none

-- The rest behind the first occurrence of a pattern: `strstr`, then a step over the pattern.
unfoldable pub strstr_behind : List ℕ → List ℕ → Option (List ℕ)
unfolding strip_prefix
strstr_behind pat [] = strip_prefix pat []
strstr_behind pat (c ∷ s) =
    let later = strstr_behind pat s in
    elim (strip_prefix pat (c ∷ s)) [ some rest ↦ some rest | none ↦ later ]

-- The characters before the first `c`, where there is one.
unfoldable pub before_char : ℕ → List ℕ → Option (List ℕ)
before_char c [] = none
before_char c (x ∷ s) =
    if x == c then some [] else (elim (before_char c s) [ some t ↦ some (x ∷ t) | none ↦ none ])
