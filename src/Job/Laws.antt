-- ===== src/Job/Laws.antt =====
-- What a job message changes, and what it leaves alone.
use dirtybird_c_miner.Base.{
  ℕ, ◌^◌, ◌<◌, ◌≡◌, ◌≢◌, ◌↔◌, ◌⊎◌, inl, inr, refl, sym, ap, ◌∙◌, Bool, true, false, List, [], ◌∷◌,
  length, add64, int_eq_iff, Bool-cases, arith,
}
use dirtybird_c_miner.Text.Chars.{str_eq_iff}
use dirtybird_c_miner.Text.Strtol.{to_unsigned}
use dirtybird_c_miner.Text.Hex.{hexstr_to_bytes, length-hexstr_to_bytes}
use dirtybird_c_miner.State.{MinerState}
use dirtybird_c_miner.Job.{
  JobMessage, is_empty, parse_job, work_changed, store_job, well_formed, handle_job,
}

-- The shared state holds exactly the work of a message.
pub record SameWork (m : JobMessage) (st : MinerState) : Type 0 where
  pub blob : m.blob ≡ st.blob
  pub jid : m.jid ≡ st.job_id
  pub h : m.h ≡ st.height
  pub diff : to_unsigned (2 ^ 64) m.diff ≡ st.difficulty

-- The test for new work says no exactly when the state holds the message's work already.
pub work_changed_iff :
    (m : JobMessage) (st : MinerState) → (work_changed m st ≡ false) ↔ SameWork m st
unfolding work_changed
work_changed_iff m st =
    ground (arith, str_eq_iff m.blob st.blob, str_eq_iff m.jid st.job_id, int_eq_iff m.h st.height)

-- A job leaves the shares and their counters alone.
pub record SameShares (st st' : MinerState) : Type 0 where
  pub submit_queue : st'.submit_queue ≡ st.submit_queue
  pub found : st'.found ≡ st.found
  pub stale_drops : st'.stale_drops ≡ st.stale_drops
  pub submit_drops : st'.submit_drops ≡ st.submit_drops
  pub submitted : st'.submitted ≡ st.submitted
  pub send_fails : st'.send_fails ≡ st.send_fails

-- The state after an accepted message: every value of the message is in its own field.
pub record Accepted (m : JobMessage) (st st' : MinerState) : Type 0 where
  pub id_given : 0 < length m.jid
  pub blob_whole : length m.blob ≡ 96
  pub holds : SameWork m st'
  pub decoded : st'.blob_bin ≡ hexstr_to_bytes m.blob
  pub bytes : length st'.blob_bin ≡ 48
  pub miniblks : st'.accepted ≡ m.miniblks
  pub blks : st'.blocks ≡ m.blks
  pub rej : st'.rejected ≡ m.rej
  pub shares : SameShares st st'
  pub epoch :
      (SameWork m st × (st'.job_epoch ≡ st.job_epoch))
      ⊎ ((¬ SameWork m st) × (st'.job_epoch ≡ add64 st.job_epoch 1))

length-blob : (m : JobMessage) → well_formed m ≡ true → length m.blob ≡ 96
unfolding well_formed
length-blob m h = ground arith

is_empty-length : (xs : List ℕ) → is_empty xs ≡ false → 0 < length xs
is_empty-length [] h = absurd (cc h)
is_empty-length (x ∷ xs) h = omega arith

is_empty-nil : (xs : List ℕ) → is_empty xs ≡ true → length xs ≡ 0
is_empty-nil [] h = refl
is_empty-nil (x ∷ xs) h = absurd (cc h)

length-jid : (m : JobMessage) → well_formed m ≡ true → 0 < length m.jid
unfolding well_formed
length-jid m h = let given : is_empty m.jid ≡ false = ground arith in is_empty-length m.jid given

-- What makes a message ill-formed.
refused_for : (m : JobMessage) → well_formed m ≡ false → (length m.jid ≡ 0) ⊎ (length m.blob ≢ 96)
unfolding well_formed
refused_for m h = elim (Bool-cases (is_empty m.jid)) [
  | inl e ↦ inl (is_empty-nil m.jid e)
  | inr e ↦ inr (λ whole. elim (Bool-cases (is_empty m.blob)) [
    | inl none ↦ absurd (omega (arith, is_empty-nil m.blob none, whole))
    | inr some ↦ absurd (ground (arith, e, some, whole))
  ])
]

store_job-Accepted :
    (m : JobMessage) (st : MinerState) → well_formed m ≡ true → Accepted m st (store_job m st)
unfolding store_job
store_job-Accepted m st h = record {
  id_given = length-jid m h;
  blob_whole = length-blob m h;
  holds = record { blob = refl; jid = refl; h = refl; diff = refl };
  decoded = refl;
  bytes = length-hexstr_to_bytes 48 m.blob (length-blob m h);
  miniblks = refl;
  blks = refl;
  rej = refl;
  shares = record {
    submit_queue = refl;
    found = refl;
    stale_drops = refl;
    submit_drops = refl;
    submitted = refl;
    send_fails = refl;
  };
  epoch = elim (Bool-cases (work_changed m st)) [
    | inl new ↦ rw new (inr (λ same. cc ((work_changed_iff m st).1 same), refl))
    | inr old ↦ rw old (inl ((work_changed_iff m st).0 old, refl))
  ];
}

pub handle_job_lem :
    (json : List ℕ) (st : MinerState) (has_job : Bool)
    → let (ok, st', has_job') = handle_job json st has_job in
      ((ok ≡ true) × (has_job' ≡ true) × Accepted (parse_job json) st st')
      ⊎ ((ok ≡ false)
          × (has_job' ≡ has_job)
          × (st' ≡ st)
          × let m = parse_job json in (length m.jid ≡ 0) ⊎ (length m.blob ≢ 96))
unfolding handle_job
handle_job_lem json st has_job = elim (Bool-cases (well_formed (parse_job json))) [
  | inl good ↦ rw good (inl (refl, refl, store_job-Accepted (parse_job json) st good))
  | inr bad ↦ rw bad (inr (refl, refl, refl, refused_for (parse_job json) bad))
]

-- Taking the same message a second time leaves the epoch where the first put it.
pub handle_job_twice :
    (json : List ℕ) (st : MinerState) (has_job : Bool)
    → let (ok, st', has_job') = handle_job json st has_job in
      (handle_job json st' has_job').1.job_epoch ≡ st'.job_epoch
unfolding handle_job
handle_job_twice json st has_job = elim (Bool-cases (well_formed (parse_job json))) [
  | inl good ↦
      let first = store_job-Accepted (parse_job json) st good in
      let second = store_job-Accepted (parse_job json) (store_job (parse_job json) st) good in
      rw good (elim second.epoch [
        | inl (same, kept) ↦ kept
        | inr (other, moved) ↦ absurd (other first.holds)
      ])
  | inr bad ↦ rw bad
]

pub handle_job-SameShares :
    (json : List ℕ) (st : MinerState) (has_job : Bool)
    → SameShares st (handle_job json st has_job).1
unfolding handle_job store_job
handle_job-SameShares json st has_job = ground arith

-- Either the job stays as it was, or the epoch moves on.
pub handle_job-job_epoch :
    (json : List ℕ) (st : MinerState) (has_job : Bool)
    → let st' = (handle_job json st has_job).1 in
      ((st'.job_epoch ≡ st.job_epoch) × (st'.job_id ≡ st.job_id))
      ⊎ (st'.job_epoch ≡ add64 st.job_epoch 1)
handle_job-job_epoch json st has_job = elim (handle_job_lem json st has_job) [
  | inr (a, b, same, c) ↦ inl (ap (λ s. s.job_epoch) same, ap (λ s. s.job_id) same)
  | inl (a, b, new) ↦ elim new.epoch [
    | inl (same, kept) ↦ inl (kept, sym new.holds.jid ∙ same.jid)
    | inr (other, moved) ↦ inr moved
  ]
]
