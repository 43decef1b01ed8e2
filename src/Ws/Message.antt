-- ===== src/Ws/Message.antt =====
-- `ws_send_message` and `ws_read_message`.
pub mod Send
pub mod RoundTrip
use dirtybird_c_miner.Base.{
  ℕ, zero, suc, ◌+◌, ◌-◌, ◌*◌, Bool, true, false, not, ◌&&◌, List, [], ◌∷◌, ◌++◌, length, bit_and,
  bit_or, u64, ◌<<<◌, get_or, ltb, leb, ◌==◌, if◌then◌else◌,
}
use dirtybird_c_miner.Ws.Tls.{
  Tls, Received, done, no_message, dead, spinning, recv_all, Sending, all_sent, send_error,
  out_of_writes, send_all,
}
use dirtybird_c_miner.Ws.Frame.{frame_header, mask_from, length_from}

-- Not -1.
abbrev pub is_sent {ℓ} : {S : Type ℓ} → Sending × S → Bool × S
is_sent (all_sent, s) = (true, s)
is_sent (send_error, s) = (false, s)
is_sent (out_of_writes, s) = (false, s)

-- From the sent header on.
unfoldable pub send_payload {ℓ} : {S : Type ℓ} → Tls S → List ℕ → List ℕ → Bool × S → Bool × S
send_payload tls mask payload (false, s) = (false, s)
send_payload tls mask payload (true, s) =
    if ltb 0 (length payload)
    then is_sent (send_all tls (mask_from mask 0 payload) s)
    else (true, s)

-- False for -1.
unfoldable pub ws_send_message {ℓ} : {S : Type ℓ} → Tls S → List ℕ → ℕ → S → Bool × S
ws_send_message tls payload opcode s =
    let (mask, s1) = tls.rand_bytes s in
    send_payload tls mask payload
      (is_sent (send_all tls (frame_header (length payload) opcode ++ mask) s1))

-- What `ws_read_message` returns: a payload, 0 with nothing to handle, or -1.
pub data Message : Type 0 where
  message : List ℕ → Message
  nothing : Message
  lost : Message

-- Reads that must succeed: the rest of the function, or -1.
abbrev pub received {ℓ} : {S : Type ℓ} → (List ℕ → S → Message × S) → Received × S → Message × S
received k (done buf, s) = k buf s
received k (no_message, s) = (lost, s)
received k (dead, s) = (lost, s)
received k (spinning, s) = (lost, s)

-- The first read of a message, which may find none.
abbrev pub first_received {ℓ} :
    {S : Type ℓ} → (List ℕ → S → Message × S) → Received × S → Message × S
first_received k (done buf, s) = k buf s
first_received k (no_message, s) = (nothing, s)
first_received k (dead, s) = (lost, s)
first_received k (spinning, s) = (lost, s)

-- From a whole payload on: control frames, then fragments.
unfoldable pub finish {ℓ} : {S : Type ℓ} → Tls S → Bool → ℕ → List ℕ → S → Message × S
finish tls fin opcode out s =
    let (pong_sent, s') = ws_send_message tls out 0xA s in
    if opcode == 9
    then (if pong_sent then (nothing, s') else (lost, s'))
    else if opcode == 8
    then (lost, s)
    else if not fin
    then (lost, s)
    else if length out == 0
    then (nothing, s)
    else (message out, s)

-- From the decoded length on.
unfoldable pub read_payload {ℓ} : {S : Type ℓ} → Tls S → Bool → ℕ → Bool → ℕ → S → Message × S
read_payload tls fin opcode masked plen s =
    if ltb (1024 * 1024) plen
    then (lost, s)
    else if leb 8 opcode && ltb 125 plen
    then (lost, s)
    else if masked
    then received
        (λ mask s1.
          if ltb 0 plen
          then received (λ out s2. finish tls fin opcode (mask_from mask 0 out) s2)
              (recv_all tls plen false s1)
          else finish tls fin opcode [] s1)
        (recv_all tls 4 false s)
    else if ltb 0 plen
    then received (λ out s2. finish tls fin opcode out s2) (recv_all tls plen false s)
    else finish tls fin opcode [] s

unfoldable pub read_header {ℓ} : {S : Type ℓ} → Tls S → List ℕ → S → Message × S
read_header tls hdr s =
    let first = get_or hdr 0 0 in
    let second = get_or hdr 1 0 in
    let fin = not (bit_and first 0x80 == 0) in
    let opcode = bit_and first 0x0f in
    let masked = not (bit_and second 0x80 == 0) in
    let plen = bit_and second 0x7f in
    if plen == 126
    then received
        (λ ext s1.
          read_payload tls fin opcode masked (bit_or (u64 (get_or ext 0 0 <<< 8)) (get_or ext 1 0))
            s1)
        (recv_all tls 2 false s)
    else if plen == 127
    then received (λ ext s1. read_payload tls fin opcode masked (length_from 0 ext) s1)
        (recv_all tls 8 false s)
    else read_payload tls fin opcode masked plen s

unfoldable pub ws_read_message {ℓ} : {S : Type ℓ} → Tls S → S → Message × S
ws_read_message tls s = first_received (read_header tls) (recv_all tls 2 true s)
