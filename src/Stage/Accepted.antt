-- ===== src/Stage/Accepted.antt =====
-- What the parser of the first stage promises to the encoder.
use dirtybird_c_miner.Base.{
  ℕ, zero, suc, ◌+◌, ◌/◌, ◌≤◌, ◌<◌, ◌≡◌, refl, sym, ap, ap₂, ◌∙◌, List, [], ◌∷◌, ◌++◌, length, take,
  drop, length-take, length-drop, drop-eq-nil, some, arith,
}
use dirtybird_c_miner.Stage.{Stage4InputView, descriptor_arena_index_count}
use dirtybird_c_miner.Stage.Parse.{parse_stage4_input, header_size}

-- A view that the encoders may read: at most 2 ^ 17 positions, all of them in the bytes, a flag for
-- each group and one more, and the input behind its header is the flags and then the bytes.
pub record IsView (input : List ℕ) (view : Stage4InputView) : Type 0 where
  pub some_position : 1 ≤ view.logical_len
  pub few : view.logical_len ≤ descriptor_arena_index_count
  pub text : view.logical_len ≤ view.data_len
  pub all_bytes : length view.bytes ≡ view.data_len
  pub all_flags : length view.flags ≡ view.flag_len
  pub flag_each : view.logical_len / 256 < view.flag_len
  pub parts : drop header_size input ≡ view.flags ++ view.bytes

take-drop : (n : ℕ) (xs : List ℕ) → take n xs ++ drop n xs ≡ xs
take-drop zero xs = refl
take-drop (suc n) [] = refl
take-drop (suc n) (x ∷ xs) = ap (λ l. x ∷ l) (take-drop n xs)

drop-drop : (m n k : ℕ) (xs : List ℕ) → k ≡ m + n → drop n (drop m xs) ≡ drop k xs
drop-drop zero n k xs h = let same : n ≡ k = omega arith in ap (λ j. drop j xs) same
drop-drop (suc m) n zero xs h = absurd (omega arith)
drop-drop (suc m) n (suc k) [] h = drop-eq-nil n [] (omega arith)
drop-drop (suc m) n (suc k) (x ∷ xs) h = drop-drop m n k xs (omega arith)

-- The tests of the parser, and the view that passes them.
record Passed (input : List ℕ) (view : Stage4InputView) : Type 0 where
  long : header_size ≤ length input
  nonzero : 1 ≤ view.logical_len
  few : view.logical_len ≤ descriptor_arena_index_count
  text : view.logical_len ≤ view.data_len
  sum : header_size + view.flag_len + view.data_len ≡ length input
  flags_left : view.logical_len / 256 < view.flag_len
  flags_are : view.flags ≡ take view.flag_len (drop header_size input)
  bytes_are : view.bytes ≡ drop (header_size + view.flag_len) input

parsed_lem :
    (input : List ℕ) (view : Stage4InputView)
    → parse_stage4_input input ≡ some view
    → Passed input view
unfolding parse_stage4_input
parsed_lem input view e = record {
  long = ground (arith, e);
  nonzero = ground (arith, e);
  few = ground (arith, e);
  text = ground (arith, e);
  sum = ground (arith, e);
  flags_left = ground (arith, e);
  flags_are = ground (arith, e);
  bytes_are = ground (arith, e);
}

-- Every input that the parser accepts gives a view that the encoders may read: between 1 and 2 ^ 17
-- positions, all within the bytes, a flag for each group and one more, and flags and bytes that
-- together are all of the input behind its header, so that neither pointer leads outside it.
pub parse_stage4_input-IsView :
    (input : List ℕ) (view : Stage4InputView)
    → parse_stage4_input input ≡ some view
    → IsView input view
parse_stage4_input-IsView input view e =
    let p = parsed_lem input view e in
    let sum = p.sum in
    let body = length-drop header_size input p.long in
    record {
      some_position = p.nonzero;
      few = p.few;
      text = p.text;
      all_bytes =
          ap length p.bytes_are
          ∙ omega
              (arith, sum, length-drop (header_size + view.flag_len) input (omega (arith, sum)));
      all_flags =
          ap length p.flags_are
          ∙ length-take view.flag_len (drop header_size input) (omega (arith, sum, body));
      flag_each = p.flags_left;
      parts = sym (
          ap₂ ◌++◌ p.flags_are (
            p.bytes_are
            ∙ sym (drop-drop header_size view.flag_len (header_size + view.flag_len) input refl))
          ∙ take-drop view.flag_len (drop header_size input));
    }
