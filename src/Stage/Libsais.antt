-- ===== src/Stage/Libsais.antt =====
-- `stage_v114_sa_build_libsais` in src/v114_stubs.cpp, the reference for the other forms. The vendored
-- libsais is a parameter: from a text and a length it gives an array, or an error.
use mathlib.Core.List.{Perm}
use mathlib.Core.List.Perm
use dirtybird_c_miner.Base.{
  ℕ, ◌-◌, ◌*◌, ◌^◌, ◌≤◌, ◌<◌, ◌≡◌, ap, ◌∙◌, Bool, true, List, length, get_or, Option, none, some,
  All, Ordered, Ordered-unique, ltb, ◌||◌, if◌then◌else◌, arith,
}
use dirtybird_c_miner.Stage.{Stage4InputView, identity_from}
use dirtybird_c_miner.Stage.Parse.{Stage5InputView}
use dirtybird_c_miner.Stage.Lex.{HasText, below, below-IsTransitive, below-IsIrreflexive}
use dirtybird_c_miner.Stage.Encode.{raw_view_ok}
use dirtybird_c_miner.Stage.Runs.{Stage5Run}
use dirtybird_c_miner.Stage.StdSort.{IsSort}
use dirtybird_c_miner.Stage.Finishes.{KeepsLength}
use dirtybird_c_miner.Stage.Fused.{FusedStage5Scratch}
use dirtybird_c_miner.Stage.Groups.{positions_bytes}
use dirtybird_c_miner.Stage.SuffixArray.{raw_view_ok_lem}
use dirtybird_c_miner.Stage.HashSink.{stage_v114_hash_compact_fused_raw, fused_stage5_view}
use dirtybird_c_miner.Stage.SinkLaws.{IsStreaming}
use dirtybird_c_miner.Stage.HashedArray.{stage_v114_hash_compact_fused_raw_lem}

unfoldable pub stage_v114_sa_build_libsais :
    (List ℕ → ℕ → Option (List ℕ)) → Stage5InputView → ℕ → Option (List ℕ)
stage_v114_sa_build_libsais libsais view out_cap =
    if ltb out_cap (view.logical_len * 4) || ltb (2 ^ 31 - 1) view.logical_len
    then none
    else elim (libsais view.bytes view.logical_len) [
      | none ↦ none
      | some sa ↦ some (positions_bytes sa)
    ]

-- What libsais documents: where it reports no error, the array is the suffix array of the text.
abbrev pub IsSuffixSorter : (List ℕ → ℕ → Option (List ℕ)) → Type 0
IsSuffixSorter libsais =
    (view : Stage4InputView) (sa : List ℕ)
    → HasText view
    → libsais view.bytes view.logical_len ≡ some sa
    → Ordered (below view) sa × Perm sa (identity_from 0 view.logical_len)

built-libsais :
    (libsais : List ℕ → ℕ → Option (List ℕ)) (view : Stage5InputView) (out_cap : ℕ) (sa : List ℕ)
    → view.logical_len * 4 ≤ out_cap
    → view.logical_len < 2 ^ 31
    → libsais view.bytes view.logical_len ≡ some sa
    → stage_v114_sa_build_libsais libsais view out_cap ≡ some (positions_bytes sa)
unfolding stage_v114_sa_build_libsais
built-libsais libsais view out_cap sa room small e = ground (arith, room, small, e)

module _ {Ctx Hash : Type 0} (update : Ctx → List ℕ → Ctx) (streaming : IsStreaming update)
    (start : Ctx) (final : Ctx → Hash) where
  -- The fused form of both stages agrees with the reference. Take a text that passes the checks and
  -- that zero bytes follow, for which libsais reports no error, and room for four bytes a position.
  -- Then the reference returns true, and the fused form returns true with the hash of the bytes that
  -- the reference writes, for all flags of groups, for both values of the flag for single positions,
  -- and whatever earlier calls left in the scratch areas. Of `std::sort`, libsais and the hash only
  -- what they document is used.
  pub hash_compact_fused-libsais :
      (libsais : List ℕ → ℕ → Option (List ℕ)) (std_sort : (ℕ → ℕ → Bool) → List ℕ → List ℕ)
      (count1_singletons : Bool) (view : Stage4InputView) (scratch : FusedStage5Scratch)
      (radix_tmp : List Stage5Run) (out_cap : ℕ) (sa : List ℕ)
      → IsSuffixSorter libsais
      → IsSort std_sort
      → KeepsLength std_sort
      → raw_view_ok view ≡ true
      → All (λ x. x < 256) view.bytes
      → length view.bytes ≡ view.data_len
      → ((p : ℕ) → view.logical_len ≤ p → get_or view.bytes p 0 ≡ 0)
      → view.logical_len * 4 ≤ out_cap
      → libsais view.bytes view.logical_len ≡ some sa
      → (out : List ℕ) × (stage_v114_sa_build_libsais libsais (fused_stage5_view view) out_cap
          ≡ some out)
        × (stage_v114_hash_compact_fused_raw update start final std_sort count1_singletons view
              scratch radix_tmp
            ≡ some (final (update start out)))
  hash_compact_fused-libsais libsais std_sort count1_singletons view scratch radix_tmp out_cap sa
        documented sorts lengths ok bytes whole padded room found =
      let (some_text, small, short) = raw_view_ok_lem view ok in
      let (up, perm) = documented view sa (omega (arith, whole)) found in
      let (positions, hashed, up', perm') =
        stage_v114_hash_compact_fused_raw_lem update streaming start final std_sort
          count1_singletons view scratch radix_tmp sorts lengths ok bytes whole padded in
      let same : positions ≡ sa =
        Ordered-unique (below view) (below-IsIrreflexive view) (below-IsTransitive view) positions
          sa up' up (Perm.trans perm' (Perm.symm perm)) in
      (
        positions_bytes sa,
        built-libsais libsais (fused_stage5_view view) out_cap sa room (omega arith) found,
        hashed ∙ ap (λ l. some (final (update start (positions_bytes l)))) same,
      )
