-- ===== src/Ws/Tls/Recv.antt =====
-- What `recv_all` returns on a reliable byte stream.
use mathlib.Core.List.{append_assoc, append-nil, head-eq_of_cons-eq, tail-eq_of_cons-eq}
use dirtybird_c_miner.Base.{
  ℕ, zero, suc, ◌+◌, ◌-◌, ◌*◌, ◌≤◌, ◌<◌, ◌≡◌, refl, sym, subst, ap, ap₂, ◌∙◌, Bool, true, false,
  not, List, [], ◌∷◌, ◌++◌, length, leb, if◌then◌else◌, length-append, arith,
}
use dirtybird_c_miner.Ws.Tls.{
  SslError, Errno, ReadResult, bytes, closed, failed, Tls, ssl_read_is_timeout, Received, done,
  no_message, dead, spinning, max_stall_polls, recv_round, recv_loop, recv_all,
}

-- A TLS connection hands over the peer's bytes in order: `pending s` are those not yet read.
pub record Reliable {ℓ} {S : Type ℓ} (tls : Tls S) : Type ℓ where
  pub pending : S → List ℕ
  pub in_order :
      (s : S) (k : ℕ) (got : List ℕ)
      → (tls.ssl_read s k).0 ≡ bytes got
      → (0 < length got) × (length got ≤ k) × (pending s ≡ got ++ pending (tls.ssl_read s k).1)
  pub kept :
      (s : S) (k : ℕ) (e : SslError) (n : Errno)
      → (tls.ssl_read s k).0 ≡ failed e n
      → pending (tls.ssl_read s k).1 ≡ pending s

-- The outcomes of reading `len` more bytes: exactly the next bytes of the stream behind those in
-- `buf`; no message, with the stream untouched, where that was asked for; or a lost connection.
abbrev pub Outcome {ℓ} : {S : Type ℓ} → (S → List ℕ) → ℕ → Bool → List ℕ → S → Received × S → Type 0
Outcome pending len fresh buf s (done all, s') =
    (got : List ℕ) × (all ≡ buf ++ got) × (length got ≡ len) × (pending s ≡ got ++ pending s')
Outcome pending len fresh buf s (no_message, s') = (fresh ≡ true) × (pending s' ≡ pending s)
Outcome pending len fresh buf s (dead, s') = Unit {0}
Outcome pending len fresh buf s (spinning, s') = ⊥

-- An outcome of the loop after a read is one of the loop before it.
Outcome-bytes {ℓ} :
    {S : Type ℓ} (pending : S → List ℕ) (need : ℕ) (fresh : Bool) (buf got : List ℕ) (s s' : S)
    (out : Received × S)
    → length got ≤ need
    → pending s ≡ got ++ pending s'
    → Outcome pending (need - length got) false (buf ++ got) s' out
    → Outcome pending need fresh buf s out
Outcome-bytes pending need fresh buf got s s' (done all, t) fits p (more, e, l, q) = (
  got ++ more,
  e ∙ append_assoc buf got more,
  omega (arith, length-append got more, l),
  p ∙ ap (λ l. got ++ l) q ∙ sym (append_assoc got more (pending t)),
)
Outcome-bytes pending need fresh buf got s s' (no_message, t) fits p h = absurd (cc h.0)
Outcome-bytes pending need fresh buf got s s' (dead, t) fits p h = tt
Outcome-bytes pending need fresh buf got s s' (spinning, t) fits p h = h

Outcome-kept {ℓ} :
    {S : Type ℓ} (pending : S → List ℕ) (need : ℕ) (fresh : Bool) (buf : List ℕ) (s s' : S)
    (out : Received × S)
    → pending s' ≡ pending s
    → Outcome pending need fresh buf s' out
    → Outcome pending need fresh buf s out
Outcome-kept pending need fresh buf s s' (done all, t) p (got, e, l, q) = (got, e, l, sym p ∙ q)
Outcome-kept pending need fresh buf s s' (no_message, t) p h = (h.0, h.1 ∙ p)
Outcome-kept pending need fresh buf s s' (dead, t) p h = tt
Outcome-kept pending need fresh buf s s' (spinning, t) p h = h

Outcome-if {ℓ} :
    {S : Type ℓ} (P : Received × S → Type 0) (c : Bool) (x y : Received × S)
    → (c ≡ true → P x)
    → (c ≡ false → P y)
    → P (if c then x else y)
Outcome-if P true x y h k = h refl
Outcome-if P false x y h k = k refl

module _ {ℓ} {S : Type ℓ} (tls : Tls S) (r : Reliable tls) where
  recv_round-Outcome :
      (again : ℕ → ℕ → Bool → List ℕ → S → Received × S) (need stall : ℕ) (fresh : Bool)
      (buf : List ℕ) (s : S) (read : ReadResult × S)
      → tls.ssl_read s need ≡ read
      → ((got : List ℕ)
          → 0 < length got
          → Outcome r.pending
              (need - length got)
              false
              (buf ++ got)
              read.1
              (again (need - length got) 0 false (buf ++ got) read.1))
      → (stall + 1 < 200
          → Outcome r.pending need fresh buf read.1 (again need (stall + 1) fresh buf read.1))
      → Outcome r.pending need fresh buf s (recv_round tls again need stall fresh buf read)
  unfolding recv_round
  recv_round-Outcome again need stall fresh buf s (bytes got, s') e more wait =
      let ok = r.in_order s need got (ap (λ p. p.0) e) in
      Outcome-bytes r.pending need fresh buf got s s' _ ok.1
        (ok.2 ∙ ap (λ p. got ++ r.pending p.1) e) (more got ok.0)
  recv_round-Outcome again need stall fresh buf s (closed, s') e more wait = tt
  recv_round-Outcome again need stall fresh buf s (failed er n, s') e more wait =
      let same : r.pending s' ≡ r.pending s =
        sym (ap (λ p. r.pending p.1) e) ∙ r.kept s need er n (ap (λ p. p.0) e) in
      let P = Outcome r.pending need fresh buf s in
      Outcome-if P (not (ssl_read_is_timeout er n)) _ _ (λ _. tt)
        (λ _.
          Outcome-if P fresh _ _ (λ f. (f, same))
            (λ _.
              Outcome-if P (tls.quit s') _ _ (λ _. tt)
                (λ _.
                  Outcome-if P (leb max_stall_polls (stall + 1)) _ _ (λ _. tt)
                    (λ few.
                      Outcome-kept r.pending need fresh buf s s' _ same (wait (ground arith))))))

  recv_loop-Outcome :
      (fuel need stall : ℕ) (fresh : Bool) (buf : List ℕ) (s : S)
      → need * 200 ≤ fuel + stall
      → stall < 200
      → Outcome r.pending need fresh buf s (recv_loop tls fuel need stall fresh buf s)
  unfolding recv_loop
  recv_loop-Outcome fuel zero stall fresh buf s enough small =
      ([], sym (append-nil buf), refl, refl)
  recv_loop-Outcome zero (suc need) stall fresh buf s enough small = absurd (omega arith)
  recv_loop-Outcome (suc fuel) (suc need) stall fresh buf s enough small =
      recv_round-Outcome (recv_loop tls fuel) (suc need) stall fresh buf s _ refl
        (λ got some_got.
          recv_loop-Outcome fuel (suc need - length got) 0 false (buf ++ got) _ (omega arith)
            (omega arith))
        (λ few. recv_loop-Outcome fuel (suc need) (stall + 1) fresh buf _ (omega arith) few)

  -- On a reliable connection, `recv_all` ends in one of three ways, however the bytes are split into
  -- reads and whatever timeouts come between: with exactly the next `len` bytes of the stream; with
  -- no message, nothing read, and only where the caller asked for that; or with a dead connection.
  -- Its loop makes at most 200 reads for each byte.
  pub recv_all_lem :
      (len : ℕ) (first : Bool) (s : S) → Outcome r.pending len first [] s (recv_all tls len first s)
  unfolding recv_all
  recv_all_lem len first s =
      recv_loop-Outcome (len * 200) len 0 first [] s (omega arith) (omega arith)

-- Bytes that are there are read without a timeout.
abbrev pub Prompt {ℓ} : {S : Type ℓ} (tls : Tls S) → (S → List ℕ) → Type ℓ
Prompt {S = S} tls pending =
    (s : S) (k : ℕ)
    → 0 < k
    → 0 < length (pending s)
    → (got : List ℕ) × ((tls.ssl_read s k).0 ≡ bytes got)

-- A list splits in one way at a given length.
same_split {ℓ} :
    {A : Type ℓ} (xs ys zs ts : List A)
    → length xs ≡ length zs
    → xs ++ ys ≡ zs ++ ts
    → (xs ≡ zs) × (ys ≡ ts)
same_split [] ys [] ts l e = (refl, e)
same_split [] ys (z ∷ zs) ts l e = absurd (omega (arith, l))
same_split (x ∷ xs) ys [] ts l e = absurd (omega (arith, l))
same_split (x ∷ xs) ys (z ∷ zs) ts l e =
    let heads = head-eq_of_cons-eq e in
    let rest = same_split xs ys zs ts (omega (arith, l)) (tail-eq_of_cons-eq e) in
    (ap₂ ◌∷◌ heads rest.0, rest.1)

module _ {ℓ} {S : Type ℓ} (tls : Tls S) (r : Reliable tls) (prompt : Prompt tls r.pending) where
  recv_round_bytes :
      (again : ℕ → ℕ → Bool → List ℕ → S → Received × S) (need stall : ℕ) (fresh : Bool)
      (buf got : List ℕ) (read : ReadResult × S)
      → read.0 ≡ bytes got
      → recv_round tls again need stall fresh buf read
        ≡ again (need - length got) 0 false (buf ++ got) read.1
  unfolding recv_round
  recv_round_bytes again need stall fresh buf got (result, s) e = rw e refl

  recv_loop_prompt :
      (fuel need stall : ℕ) (fresh : Bool) (buf : List ℕ) (s : S)
      → need ≤ fuel
      → need ≤ length (r.pending s)
      → (all : List ℕ) × ((recv_loop tls fuel need stall fresh buf s).0 ≡ done all)
  unfolding recv_loop
  recv_loop_prompt fuel zero stall fresh buf s enough there = (buf, refl)
  recv_loop_prompt zero (suc need) stall fresh buf s enough there = absurd (omega arith)
  recv_loop_prompt (suc fuel) (suc need) stall fresh buf s enough there =
      let (got, e) = prompt s (suc need) (omega arith) (omega (arith, there)) in
      let ok = r.in_order s (suc need) got e in
      let rest =
        recv_loop_prompt fuel (suc need - length got) 0 false (buf ++ got)
          (tls.ssl_read s (suc need)).1 (omega (arith, ok.0))
          (omega (
            arith,
            there,
            ap length ok.2,
            length-append got (r.pending (tls.ssl_read s (suc need)).1),
          )) in
      (
        rest.0,
        ap (λ o. o.0) (recv_round_bytes (recv_loop tls fuel) (suc need) stall fresh buf got _ e)
            ∙ rest.1,
      )

  -- Where the next bytes are there, `recv_all` returns them and leaves the rest.
  pub recv_all_prompt :
      (xs ys : List ℕ) (first : Bool) (s : S)
      → r.pending s ≡ xs ++ ys
      → (s' : S) × (recv_all tls (length xs) first s ≡ (done xs, s')) × (r.pending s' ≡ ys)
  unfolding recv_all
  recv_all_prompt xs ys first s e =
      let len = length xs in
      let out = recv_loop tls (len * 200) len 0 first [] s in
      let there : len ≤ length (r.pending s) = omega (arith, ap length e, length-append xs ys) in
      let (all, is_done) = recv_loop_prompt (len * 200) len 0 first [] s (omega arith) there in
      let outcome =
        recv_loop-Outcome tls r (len * 200) len 0 first [] s (omega arith) (omega arith) in
      let (got, same, l, split) =
        subst (λ o. Outcome r.pending len first [] s (o, out.1)) is_done outcome in
      let (front, behind) = same_split xs ys got (r.pending out.1) (sym l) (sym e ∙ split) in
      (out.1, ap (λ o. (o, out.1)) (is_done ∙ ap done (same ∙ sym front)), sym behind)
