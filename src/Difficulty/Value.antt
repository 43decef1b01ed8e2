-- ===== src/Difficulty/Value.antt =====
-- The number that a string of bytes stands for, most significant byte first.
use dirtybird_c_miner.Base.{
  ℕ, ◌+◌, ◌*◌, ◌<◌, ◌≡◌, refl, List, [], ◌∷◌, ◌++◌, reverse, length, All, arith,
}

-- `value_from a xs` reads the bytes `xs` behind the number `a`.
abbrev pub value_from : ℕ → List ℕ → ℕ
value_from a [] = a
value_from a (x ∷ xs) = value_from (a * 256 + x) xs

abbrev pub IsByte : ℕ → Type 0
IsByte x = x < 256

abbrev pub be_value : List ℕ → ℕ
be_value xs = value_from 0 xs

-- Least significant byte first.
abbrev pub le_value : List ℕ → ℕ
le_value xs = be_value (reverse xs)

pub value_from-append :
    (a : ℕ) (xs ys : List ℕ) → value_from a (xs ++ ys) ≡ value_from (value_from a xs) ys
value_from-append a [] ys = refl
value_from-append a (x ∷ xs) ys = value_from-append (a * 256 + x) xs ys

-- A smaller head outweighs all the bytes behind it.
pub value_from-lt :
    (a c : ℕ) (xs ys : List ℕ)
    → a < c
    → length xs ≡ length ys
    → All IsByte xs
    → value_from a xs < value_from c ys
value_from-lt a c [] [] h e b = h
value_from-lt a c [] (y ∷ ys) h e b = absurd (omega arith)
value_from-lt a c (x ∷ xs) [] h e b = absurd (omega arith)
value_from-lt a c (x ∷ xs) (y ∷ ys) h e b =
    value_from-lt (a * 256 + x) (c * 256 + y) xs ys (omega arith) (omega arith) b.1
