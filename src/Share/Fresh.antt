-- ===== src/Share/Fresh.antt =====
-- How old the copies of the job are that the workers, the queue and the network thread hold.
use dirtybird_c_miner.Base.{
  ℕ, suc, ◌≤◌, ◌≡◌, Bool, true, List, [], ◌∷◌, length, pop_front, All, All-append, leb, inl, inr,
  Bool-cases, arith,
}
use dirtybird_c_miner.State.{MinerState, PendingSubmit}
use dirtybird_c_miner.Share.{submit_enqueue, count_found, stale_gate, discard_queue}
use dirtybird_c_miner.Share.System.{
  Worker, starting, mining, at_gate, waiting, locked, pushing, Network, swapped, sending, Move,
  first_snapshot, snapshot, find, drop_first, pass_first, lock, drop_second, pass_second, push,
}

-- What a copy of a job knows: it is no newer than epoch `e`, and at that epoch it is the job `j`.
abbrev pub KnownAt : ℕ → List ℕ → ℕ → List ℕ → Type 0
KnownAt e j epoch job_id = (epoch ≤ e) × (epoch ≡ e → job_id ≡ j)

abbrev pub ItemOk : ℕ → List ℕ → PendingSubmit → Type 0
ItemOk e j item = KnownAt e j item.epoch item.job_id

abbrev pub WorkerOk : ℕ → List ℕ → Worker → Type 0
WorkerOk e j starting = Unit
WorkerOk e j (mining s) = KnownAt e j s.epoch s.job_id
WorkerOk e j (at_gate s blob) = KnownAt e j s.epoch s.job_id
WorkerOk e j (waiting s hex) = KnownAt e j s.epoch s.job_id
WorkerOk e j (locked s hex) = KnownAt e j s.epoch s.job_id
WorkerOk e j (pushing s hex) = KnownAt e j s.epoch s.job_id

abbrev pub NetOk : ℕ → List ℕ → Bool → Network → Type 0
NetOk e j has_job (swapped batch) = All (ItemOk e j) batch × (has_job ≡ true)
NetOk e j has_job (sending batch cur) = All (ItemOk e j) batch × (has_job ≡ true) × (cur ≡ e)
NetOk e j has_job net = Unit {0}

-- The current epoch is `e`, its job is `j`, and every copy of a job is older or the same.
pub record StateOk (e : ℕ) (j : List ℕ) (st : MinerState) : Type 0 where
  pub epoch : st.job_epoch ≡ e
  pub job_id : st.job_id ≡ j
  pub queue : All (ItemOk e j) st.submit_queue

stale_gate-StateOk :
    {e : ℕ} {j : List ℕ} (k : ℕ) (st : MinerState)
    → StateOk e j st
    → StateOk e j (stale_gate st k).1
unfolding stale_gate
stale_gate-StateOk k st ok = ground arith

All-pop_front :
    (e : ℕ) (j : List ℕ) (xs : List PendingSubmit)
    → All (ItemOk e j) xs
    → All (ItemOk e j) (pop_front xs)
All-pop_front e j [] h = tt
All-pop_front e j (x ∷ xs) h = h.1

submit_enqueue-StateOk :
    (e : ℕ) (j : List ℕ) (st : MinerState) (job_id hex : List ℕ) (k : ℕ)
    → KnownAt e j k job_id
    → StateOk e j st
    → StateOk e j (submit_enqueue st job_id hex k).1
unfolding submit_enqueue
submit_enqueue-StateOk e j st job_id hex k known ok =
    elim (Bool-cases (leb 32 (length st.submit_queue))) [
      | inl full ↦ rw full (record {
        epoch = ok.epoch;
        job_id = ok.job_id;
        queue =
            All-append (ItemOk e j) (pop_front st.submit_queue) _
              (All-pop_front e j st.submit_queue ok.queue) (known, tt);
      })
      | inr room ↦ rw room (record {
        epoch = ok.epoch;
        job_id = ok.job_id;
        queue = All-append (ItemOk e j) st.submit_queue _ ok.queue (known, tt);
      })
    ]

pub Move-ok :
    (e : ℕ) (j : List ℕ) {st : MinerState} {free : Bool} {w : Worker} {st' : MinerState}
    {free' : Bool} {w' : Worker}
    → Move st free w st' free' w'
    → StateOk e j st
    → WorkerOk e j w
    → StateOk e j st' × WorkerOk e j w'
unfolding count_found
Move-ok e j first_snapshot ok h = (ok, (omega (arith, ok.epoch), λ _. ok.job_id))
Move-ok e j snapshot ok h = (ok, (omega (arith, ok.epoch), λ _. ok.job_id))
Move-ok e j (find blob) ok h =
    (record { epoch = ok.epoch; job_id = ok.job_id; queue = ok.queue }, h)
Move-ok e j {st} (drop_first {s = s} p) ok h = (stale_gate-StateOk s.epoch st ok, h)
Move-ok e j (pass_first p) ok h = (ok, h)
Move-ok e j lock ok h = (ok, h)
Move-ok e j {st} (drop_second {s = s} p) ok h = (stale_gate-StateOk s.epoch st ok, h)
Move-ok e j (pass_second p) ok h = (ok, h)
Move-ok e j {st} (push {s = s} {hex = hex}) ok h =
    (submit_enqueue-StateOk e j st s.job_id hex s.epoch h ok, h)

pub discard_queue-StateOk :
    (e : ℕ) (j : List ℕ) (st : MinerState) → StateOk e j st → StateOk e j (discard_queue st)
unfolding discard_queue
discard_queue-StateOk e j st ok = record { epoch = ok.epoch; job_id = ok.job_id; queue = tt }

pub KnownAt-older :
    (e : ℕ) (j j' : List ℕ) (k : ℕ) (job_id : List ℕ)
    → KnownAt e j k job_id
    → KnownAt (suc e) j' k job_id
KnownAt-older e j j' k job_id h = (omega arith, λ p. absurd (omega arith))

pub WorkerOk-older : (e : ℕ) (j j' : List ℕ) (w : Worker) → WorkerOk e j w → WorkerOk (suc e) j' w
WorkerOk-older e j j' starting h = tt
WorkerOk-older e j j' (mining s) h = KnownAt-older e j j' s.epoch s.job_id h
WorkerOk-older e j j' (at_gate s blob) h = KnownAt-older e j j' s.epoch s.job_id h
WorkerOk-older e j j' (waiting s hex) h = KnownAt-older e j j' s.epoch s.job_id h
WorkerOk-older e j j' (locked s hex) h = KnownAt-older e j j' s.epoch s.job_id h
WorkerOk-older e j j' (pushing s hex) h = KnownAt-older e j j' s.epoch s.job_id h
