-- ===== src/State.antt =====
-- include/dluna.h: the state that all threads share. The 64-bit counters wrap; a signed value that
-- is only stored and shown is an integer.
use dirtybird_c_miner.Base.{ℕ, Bool, false, List, [], ℤ, pos, replicate}

-- A found share on its way to the network thread.
pub record PendingSubmit : Type 0 where
  pub job_id : List ℕ
  pub blob_hex : List ℕ
  pub epoch : ℕ

-- `MinerState`, without the mutexes, the condition variable and the configuration.
pub record MinerState : Type 0 where
  pub job_epoch : ℕ
  pub difficulty : ℕ
  pub connected : Bool
  pub quit : Bool
  pub blob : List ℕ
  pub blob_bin : List ℕ
  pub job_id : List ℕ
  pub height : ℤ
  pub submit_queue : List PendingSubmit
  pub total_hashes : ℕ
  pub accepted : ℤ
  pub rejected : ℤ
  pub blocks : ℤ
  pub submitted : ℕ
  pub send_fails : ℕ
  pub stale_drops : ℕ
  pub submit_drops : ℕ
  pub found : ℕ
  pub enqueued : ℕ
  pub stale_hashes_observed : ℕ

abbrev pub miniblock_size : ℕ
miniblock_size = 48

abbrev pub submit_queue_max : ℕ
submit_queue_max = 32

-- The state at the start of the program.
abbrev pub initial : MinerState
initial = record {
  job_epoch = 0;
  difficulty = 0;
  connected = false;
  quit = false;
  blob = [];
  blob_bin = replicate 48 0;
  job_id = [];
  height = pos 0;
  submit_queue = [];
  total_hashes = 0;
  accepted = pos 0;
  rejected = pos 0;
  blocks = pos 0;
  submitted = 0;
  send_fails = 0;
  stale_drops = 0;
  submit_drops = 0;
  found = 0;
  enqueued = 0;
  stale_hashes_observed = 0;
}
