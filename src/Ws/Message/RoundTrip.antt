-- ===== src/Ws/Message/RoundTrip.antt =====
-- A text frame as `ws_send_message` lays it out, read by `ws_read_message`.
use dirtybird_c_miner.Base.{
  ℕ, ◌*◌, ◌≤◌, ◌<◌, ◌≡◌, inl, inr, refl, sym, ap, ◌∙◌, true, false, List, [], ◌∷◌, ◌++◌, length,
  bit_and, bit_or, u8, u64, ◌<<<◌, ◌>>>◌, get_or, ltb, ◌==◌, if◌then◌else◌, Bool-cases, ltb→lt,
  arith,
}
use dirtybird_c_miner.Ws.Tls.{Tls, recv_all}
use dirtybird_c_miner.Ws.Tls.Recv.{Reliable, Prompt, recv_all_prompt}
use dirtybird_c_miner.Ws.Frame.{frame_header, mask_from, length_bytes, length_from}
use dirtybird_c_miner.Ws.Frame.Laws.{
  mask_from_twice, length-mask_from, length_16, length_64, short_length,
}
use dirtybird_c_miner.Ws.Message.{
  Message, message, received, first_received, finish, read_payload, read_header, ws_read_message,
}

not_ltb : (a b : ℕ) → b ≤ a → ltb a b ≡ false
not_ltb a b h = ground arith

is_ltb : (a b : ℕ) → a < b → ltb a b ≡ true
is_ltb a b h = ground arith

not_eq : (a b : ℕ) → b < a → (b == a) ≡ false
not_eq a b h = ground arith

nonzero : (a : ℕ) → 0 < a → (a == 0) ≡ false
nonzero a h = ground arith

module _ {ℓ} {S : Type ℓ} (tls : Tls S) (r : Reliable tls) (prompt : Prompt tls r.pending) where
  -- A read of bytes that are there, in the middle of a message.
  received_prompt :
      (k : List ℕ → S → Message × S) (xs ys : List ℕ) (n : ℕ) (s : S)
      → length xs ≡ n
      → r.pending s ≡ xs ++ ys
      → (s' : S) × (received k (recv_all tls n false s) ≡ k xs s') × (r.pending s' ≡ ys)
  received_prompt k xs ys n s l e =
      let (s', read, left) = recv_all_prompt tls r prompt xs ys false s e in
      (s', ap (λ m. received k (recv_all tls m false s)) (sym l) ∙ ap (received k) read, left)

  abbrev Reads : S → List ℕ → List ℕ → Message × S → Type ℓ
  Reads s payload rest out = (s' : S) × (out ≡ (message payload, s')) × (r.pending s' ≡ rest)

  read_payload_frame :
      (mask payload rest : List ℕ) (s : S)
      → length mask ≡ 4
      → 0 < length payload
      → length payload ≤ 1024 * 1024
      → r.pending s ≡ mask ++ (mask_from mask 0 payload ++ rest)
      → Reads s payload rest (read_payload tls true 1 true (length payload) s)
  unfolding read_payload finish
  read_payload_frame mask payload rest s four some few e =
      let len = length payload in
      let masked = mask_from mask 0 payload in
      let last : List ℕ → S → Message × S = λ out t. finish tls true 1 (mask_from mask 0 out) t in
      let then_payload : List ℕ → S → Message × S = λ key t.
        if ltb 0 len
        then received (λ out u. finish tls true 1 (mask_from key 0 out) u)
            (recv_all tls len false t)
        else finish tls true 1 [] t in
      let (s1, key_read, left) = received_prompt then_payload mask (masked ++ rest) 4 s four e in
      let (s2, payload_read, end) =
        received_prompt last masked rest len s1 (length-mask_from mask 0 payload) left in
      let guards : read_payload tls true 1 true len s
          ≡ received then_payload (recv_all tls 4 false s) =
        rw (not_ltb (1024 * 1024) len few) refl in
      let nonempty : then_payload mask s1 ≡ received last (recv_all tls len false s1) =
        rw (is_ltb 0 len some) refl in
      let finished : last masked s2 ≡ (message payload, s2) =
        ap (λ p. finish tls true 1 p s2) (mask_from_twice mask 0 payload)
        ∙ rw (nonzero len some) refl in
      (s2, guards ∙ key_read ∙ nonempty ∙ payload_read ∙ finished, end)

  ws_read_message_header :
      (first second : ℕ) (ys : List ℕ) (s : S)
      → r.pending s ≡ first ∷ second ∷ ys
      → (s' : S) × (ws_read_message tls s ≡ read_header tls (first ∷ second ∷ []) s')
        × (r.pending s' ≡ ys)
  unfolding ws_read_message
  ws_read_message_header first second ys s e =
      let (s', read, left) = recv_all_prompt tls r prompt (first ∷ second ∷ []) ys true s e in
      (s', ap (first_received (read_header tls)) read, left)

  -- Where the header leads to the payload's length, the payload follows.
  Leads : ℕ → List ℕ → List ℕ → Type ℓ
  Leads len header behind =
      (s : S)
      → r.pending s ≡ header ++ behind
      → (s' : S) × (ws_read_message tls s ≡ read_payload tls true 1 true len s')
        × (r.pending s' ≡ behind)

  short_header :
      (len : ℕ) (behind : List ℕ) → len < 126 → Leads len (0x81 ∷ bit_or 0x80 (u8 len) ∷ []) behind
  unfolding Leads read_header
  short_header len behind h s e =
      let (s1, read, left) = ws_read_message_header 0x81 (bit_or 0x80 (u8 len)) behind s e in
      let (same, masked) = short_length len h in
      (s1, read ∙ rw (same, masked, not_eq 126 len h, not_eq 127 len (omega arith)) refl, left)

  medium_header :
      (len : ℕ) (behind : List ℕ)
      → len < 65536
      → Leads len (0x81 ∷ 254 ∷ bit_and (len >>> 8) 0xff ∷ bit_and len 0xff ∷ []) behind
  unfolding Leads read_header
  medium_header len behind h s e =
      let ext = bit_and (len >>> 8) 0xff ∷ bit_and len 0xff ∷ [] in
      let (s1, read, left) = ws_read_message_header 0x81 254 (ext ++ behind) s e in
      let (s2, read2, left2) =
        received_prompt
          (λ ext t.
            read_payload tls true 1 true (bit_or (u64 (get_or ext 0 0 <<< 8)) (get_or ext 1 0)) t)
          ext behind 2 s1 refl left in
      (s2, read ∙ read2 ∙ ap (λ n. read_payload tls true 1 true n s2) (length_16 len h), left2)

  long_header :
      (len : ℕ) (behind : List ℕ)
      → len ≤ 1024 * 1024
      → Leads len (0x81 ∷ 255 ∷ length_bytes len 8) behind
  unfolding Leads read_header
  long_header len behind h s e =
      let ext = length_bytes len 8 in
      let (s1, read, left) = ws_read_message_header 0x81 255 (ext ++ behind) s e in
      let (s2, read2, left2) =
        received_prompt (λ ext t. read_payload tls true 1 true (length_from 0 ext) t) ext behind 8
          s1 (unfold length_bytes in refl) left in
      (s2, read ∙ read2 ∙ ap (λ n. read_payload tls true 1 true n s2) (length_64 len h), left2)

  frame_header-Leads :
      (len : ℕ) (behind : List ℕ) → len ≤ 1024 * 1024 → Leads len (frame_header len 1) behind
  unfolding frame_header
  frame_header-Leads len behind h = elim (Bool-cases (ltb len 126)) [
    | inl short ↦ rw short (short_header len behind (ltb→lt len 126 short))
    | inr more ↦ elim (Bool-cases (ltb len 65536)) [
      | inl medium ↦ rw (more, medium) (medium_header len behind (ltb→lt len 65536 medium))
      | inr long ↦ rw (more, long) (long_header len behind h)
    ]
  ]

  -- A text frame of 1 to 1,048,576 bytes, masked with any key and laid out as `ws_send_message` lays
  -- it out, is read back as its payload on a reliable connection that hands over bytes that are
  -- there, however they are split into reads; what follows the frame stays unread.
  pub ws_read_message_frame :
      (mask payload rest : List ℕ) (s : S)
      → length mask ≡ 4
      → 0 < length payload
      → length payload ≤ 1024 * 1024
      → r.pending s
        ≡ frame_header (length payload) 1 ++ (mask ++ (mask_from mask 0 payload ++ rest))
      → (s' : S) × (ws_read_message tls s ≡ (message payload, s')) × (r.pending s' ≡ rest)
  unfolding Leads
  ws_read_message_frame mask payload rest s four some few e =
      let (s1, header, left) = frame_header-Leads (length payload) _ few s e in
      let (s2, body, end) = read_payload_frame mask payload rest s1 four some few left in
      (s2, header ∙ body, end)
