-- ===== src/Ws/Message/Send.antt =====
-- The bytes that `ws_send_message` hands to the connection.
use mathlib.Core.List.{append_assoc, append-nil}
use dirtybird_c_miner.Base.{
  ℕ, ◌≡◌, sym, subst, ap, ◌∙◌, Bool, true, false, List, [], ◌∷◌, ◌++◌, length, length-append, ltb,
  arith,
}
use dirtybird_c_miner.Ws.Tls.{Tls, Sending, all_sent, send_error, out_of_writes}
use dirtybird_c_miner.Ws.Tls.Send.{Writable, Sent, SentAll, Sent-more, send_all_lem}
use dirtybird_c_miner.Ws.Frame.{frame_header, mask_from}
use dirtybird_c_miner.Ws.Message.{is_sent, send_payload, ws_send_message}

SentAll-Sent {ℓ} :
    {S : Type ℓ} (sent : S → List ℕ) (buf : List ℕ) (s : S) (out : Sending × S)
    → SentAll sent buf s out
    → Sent sent buf s (is_sent out)
SentAll-Sent sent buf s (all_sent, t) h = h
SentAll-Sent sent buf s (send_error, t) h = h
SentAll-Sent sent buf s (out_of_writes, t) h = absurd h

module _ {ℓ} {S : Type ℓ} (tls : Tls S) (w : Writable tls) where
  send_payload-Sent :
      (mask payload header : List ℕ) (s : S) (first : Bool × S)
      → Sent w.sent header s first
      → Sent w.sent (header ++ mask_from mask 0 payload) s (send_payload tls mask payload first)
  unfolding send_payload mask_from
  send_payload-Sent mask payload header s (false, s') (front, rest, p, q, some_left) = (
    front,
    rest ++ mask_from mask 0 payload,
    p,
    ap (λ l. l ++ mask_from mask 0 payload) q ∙ append_assoc front rest _,
    omega (arith, some_left, length-append rest (mask_from mask 0 payload)),
  )
  send_payload-Sent mask [] header s (true, s') e =
      e ∙ ap (λ l. w.sent s ++ l) (sym (append-nil header))
  send_payload-Sent mask (b ∷ payload) header s (true, s') e =
      let some_bytes : ltb 0 (length (b ∷ payload)) ≡ true = ground arith in
      let masked = mask_from mask 0 (b ∷ payload) in
      rw some_bytes (
        Sent-more w.sent header masked s s' _ e
          (SentAll-Sent w.sent masked s' _ (send_all_lem tls w masked s')))

  -- A success of `ws_send_message` has sent exactly one frame, header, four mask bytes and masked
  -- payload; a failure a proper prefix of it.
  pub ws_send_message_lem :
      (payload : List ℕ) (opcode : ℕ) (s : S)
      → let mask = (tls.rand_bytes s).0 in
        (length mask ≡ 4)
        × Sent w.sent
            (frame_header (length payload) opcode ++ (mask ++ mask_from mask 0 payload))
            s
            (ws_send_message tls payload opcode s)
  unfolding ws_send_message
  ws_send_message_lem payload opcode s =
      let (mask, s1) = tls.rand_bytes s in
      let (four, same) = w.rand s in
      let header = frame_header (length payload) opcode in
      let masked = mask_from mask 0 payload in
      let out = ws_send_message tls payload opcode s in
      let body : Sent w.sent ((header ++ mask) ++ masked) s1 out =
        send_payload-Sent mask payload (header ++ mask) s1 _
          (SentAll-Sent w.sent (header ++ mask) s1 _ (send_all_lem tls w (header ++ mask) s1)) in
      (
        four,
        subst (λ l. Sent w.sent l s out) (append_assoc header mask masked)
            (Sent-more w.sent [] _ s s1 out (same ∙ sym (append-nil (w.sent s))) body),
      )
