-- ===== src/Job.antt =====
-- src/network.cpp: `handle_job`, which takes a message of the daemon into the shared state.
pub mod Laws
mod Tests
use dirtybird_c_miner.Base.{
  ℕ, ◌+◌, ◌*◌, ◌%◌, ◌^◌, Bool, true, false, not, ◌||◌, List, [], ◌∷◌, length, add64, ◌==◌,
  if◌then◌else◌, ℤ, int_eq,
}
use dirtybird_c_miner.Text.Chars.{codes, str_eq}
use dirtybird_c_miner.Text.Strtol.{to_unsigned}
use dirtybird_c_miner.Text.Hex.{hexstr_to_bytes}
use dirtybird_c_miner.Text.Json.{json_str, json_int}
use dirtybird_c_miner.State.{MinerState, miniblock_size}

-- The values that `handle_job` reads from a message.
pub record JobMessage : Type 0 where
  pub blob : List ℕ
  pub jid : List ℕ
  pub h : ℤ
  pub diff : ℤ
  pub miniblks : ℤ
  pub blks : ℤ
  pub rej : ℤ

unfoldable pub parse_job : List ℕ → JobMessage
parse_job json = record {
  blob = json_str json (codes "blockhashing_blob");
  jid = json_str json (codes "jobid");
  h = json_int json (codes "height");
  diff = json_int json (codes "difficultyuint64");
  miniblks = json_int json (codes "miniblocks");
  blks = json_int json (codes "blocks");
  rej = json_int json (codes "rejected");
}

abbrev pub is_empty {ℓ} : {A : Type ℓ} → List A → Bool
is_empty [] = true
is_empty (x ∷ xs) = false

unfoldable pub work_changed : JobMessage → MinerState → Bool
work_changed m st =
    not (str_eq m.blob st.blob)
    || not (str_eq m.jid st.job_id)
    || not (int_eq m.h st.height)
    || not (to_unsigned (2 ^ 64) m.diff == st.difficulty)

-- What is written under `jobMutex`.
unfoldable pub store_job : JobMessage → MinerState → MinerState
store_job m st = record st {
  blob = m.blob;
  blob_bin = hexstr_to_bytes m.blob;
  job_id = m.jid;
  height = m.h;
  difficulty = to_unsigned (2 ^ 64) m.diff;
  accepted = m.miniblks;
  blocks = m.blks;
  rejected = m.rej;
  job_epoch = if work_changed m st then add64 st.job_epoch 1 else st.job_epoch;
}

unfoldable pub well_formed : JobMessage → Bool
well_formed m =
    if is_empty m.blob || is_empty m.jid then false else length m.blob == miniblock_size * 2

-- The result, the new state, and the new `g_session_has_job`.
unfoldable pub handle_job : List ℕ → MinerState → Bool → Bool × MinerState × Bool
handle_job json st has_job =
    let m = parse_job json in
    if well_formed m then (true, store_job m st, true) else (false, st, has_job)
