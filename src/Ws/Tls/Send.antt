-- ===== src/Ws/Tls/Send.antt =====
-- What `send_all` hands to the connection.
use mathlib.Core.List.{append_assoc, append-nil}
use dirtybird_c_miner.Base.{
  ℕ, zero, suc, ◌≤◌, ◌<◌, ◌≡◌, refl, sym, subst, ap, ◌∙◌, Bool, true, false, List, [], ◌∷◌, ◌++◌,
  Option, none, some, length, take, drop, arith,
}
use dirtybird_c_miner.Ws.Tls.{
  Tls, Sending, all_sent, send_error, out_of_writes, send_round, send_loop, send_all,
}

-- A TLS connection takes bytes in order: `sent s` are those taken so far. The random bytes for a
-- mask are four.
pub record Writable {ℓ} {S : Type ℓ} (tls : Tls S) : Type ℓ where
  pub sent : S → List ℕ
  pub taken :
      (s : S) (buf : List ℕ) (n : ℕ)
      → (tls.ssl_write s buf).0 ≡ some n
      → (0 < n) × (sent (tls.ssl_write s buf).1 ≡ sent s ++ take n buf)
  pub untaken :
      (s : S) (buf : List ℕ)
      → (tls.ssl_write s buf).0 ≡ none
      → sent (tls.ssl_write s buf).1 ≡ sent s
  pub rand : (s : S) → (length (tls.rand_bytes s).0 ≡ 4) × (sent (tls.rand_bytes s).1 ≡ sent s)

-- Success with all of `buf` sent, or failure with a proper prefix sent.
abbrev pub Sent {ℓ} : {S : Type ℓ} → (S → List ℕ) → List ℕ → S → Bool × S → Type 0
Sent sent buf s (true, s') = sent s' ≡ sent s ++ buf
Sent sent buf s (false, s') =
    (front : List ℕ) × (rest : List ℕ) × (sent s' ≡ sent s ++ front)
    × (buf ≡ front ++ rest)
    × (0 < length rest)

-- The same for the whole of `send_all`, which does not run out of writes.
abbrev pub SentAll {ℓ} : {S : Type ℓ} → (S → List ℕ) → List ℕ → S → Sending × S → Type 0
SentAll sent buf s (all_sent, s') = Sent sent buf s (true, s')
SentAll sent buf s (send_error, s') = Sent sent buf s (false, s')
SentAll sent buf s (out_of_writes, s') = ⊥

pub Sent-more {ℓ} :
    {S : Type ℓ} (sent : S → List ℕ) (got rest : List ℕ) (s s' : S) (out : Bool × S)
    → sent s' ≡ sent s ++ got
    → Sent sent rest s' out
    → Sent sent (got ++ rest) s out
Sent-more sent got rest s s' (true, t) e h =
    h ∙ ap (λ l. l ++ rest) e ∙ append_assoc (sent s) got rest
Sent-more sent got rest s s' (false, t) e (front, behind, p, q, some_left) = (
  got ++ front,
  behind,
  p ∙ ap (λ l. l ++ front) e ∙ append_assoc (sent s) got front,
  ap (λ l. got ++ l) q ∙ sym (append_assoc got front behind),
  some_left,
)

SentAll-more {ℓ} :
    {S : Type ℓ} (sent : S → List ℕ) (got rest : List ℕ) (s s' : S) (out : Sending × S)
    → sent s' ≡ sent s ++ got
    → SentAll sent rest s' out
    → SentAll sent (got ++ rest) s out
SentAll-more sent got rest s s' (all_sent, t) e h = Sent-more sent got rest s s' (true, t) e h
SentAll-more sent got rest s s' (send_error, t) e h = Sent-more sent got rest s s' (false, t) e h
SentAll-more sent got rest s s' (out_of_writes, t) e h = absurd h

take-drop : (n : ℕ) (xs : List ℕ) → take n xs ++ drop n xs ≡ xs
take-drop zero xs = refl
take-drop (suc n) [] = refl
take-drop (suc n) (x ∷ xs) = ap (λ l. x ∷ l) (take-drop n xs)

length-drop_le : (n : ℕ) (x : ℕ) (xs : List ℕ) → 0 < n → length (drop n (x ∷ xs)) ≤ length xs
length-drop_le zero x xs h = absurd (omega arith)
length-drop_le (suc n) x xs h = shorter n xs
  where
    shorter : (n : ℕ) (xs : List ℕ) → length (drop n xs) ≤ length xs
    shorter zero xs = omega arith
    shorter (suc n) [] = omega arith
    shorter (suc n) (y ∷ ys) = omega (arith, shorter n ys)

module _ {ℓ} {S : Type ℓ} (tls : Tls S) (w : Writable tls) where
  send_round-Sent :
      (again : List ℕ → S → Sending × S) (b : ℕ) (rest : List ℕ) (s : S) (written : Option ℕ × S)
      → tls.ssl_write s (b ∷ rest) ≡ written
      → ((n : ℕ)
          → 0 < n
          → SentAll w.sent (drop n (b ∷ rest)) written.1 (again (drop n (b ∷ rest)) written.1))
      → SentAll w.sent (b ∷ rest) s (send_round again (b ∷ rest) written)
  unfolding send_round
  send_round-Sent again b rest s (none, s') e more = (
    [],
    b ∷ rest,
    sym (ap (λ p. w.sent p.1) e)
        ∙ w.untaken s (b ∷ rest) (ap (λ p. p.0) e)
        ∙ sym (append-nil (w.sent s)),
    refl,
    omega arith,
  )
  send_round-Sent again b rest s (some n, s') e more =
      let (some_taken, p) = w.taken s (b ∷ rest) n (ap (λ p. p.0) e) in
      subst (λ l. SentAll w.sent l s (again (drop n (b ∷ rest)) s')) (take-drop n (b ∷ rest))
        (SentAll-more w.sent (take n (b ∷ rest)) (drop n (b ∷ rest)) s s' _
          (sym (ap (λ p. w.sent p.1) e) ∙ p) (more n some_taken))

  send_loop-Sent :
      (fuel : ℕ) (buf : List ℕ) (s : S)
      → length buf ≤ fuel
      → SentAll w.sent buf s (send_loop tls fuel buf s)
  unfolding send_loop
  send_loop-Sent fuel [] s h = sym (append-nil (w.sent s))
  send_loop-Sent zero (b ∷ rest) s h = absurd (omega arith)
  send_loop-Sent (suc fuel) (b ∷ rest) s h =
      send_round-Sent (send_loop tls fuel) b rest s _ refl (λ n some_taken.
        send_loop-Sent fuel (drop n (b ∷ rest)) _
          (omega (arith, length-drop_le n b rest some_taken)))

  -- On a connection that takes bytes in order, the loop of `send_all` ends within one write for each
  -- byte. A success has sent all of `buf`, in order; a failure a proper prefix of it.
  pub send_all_lem : (buf : List ℕ) (s : S) → SentAll w.sent buf s (send_all tls buf s)
  unfolding send_all
  send_all_lem buf s = send_loop-Sent (length buf) buf s (omega arith)
