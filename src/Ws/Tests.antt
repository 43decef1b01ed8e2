-- ===== src/Ws/Tests.antt =====
-- A connection that moves one byte at a time, and messages on it.
use dirtybird_c_miner.Base.{
  ℕ, zero, suc, ◌≤◌, ◌<◌, ◌≡◌, refl, subst, true, false, List, [], ◌∷◌, ◌++◌, Option, none, some,
  length, take, arith,
}
use dirtybird_c_miner.Text.Chars.{codes}
use dirtybird_c_miner.Ws.Tls.{
  ReadResult, bytes, failed, want_read, eagain, Tls, SslError, Errno, recv_all, send_all, recv_loop,
  recv_round, send_loop, send_round,
}
use dirtybird_c_miner.Ws.Tls.Recv.{Reliable, Prompt, Outcome, recv_all_lem}
use dirtybird_c_miner.Ws.Tls.Send.{Writable, Sent, SentAll, send_all_lem}
use dirtybird_c_miner.Ws.Frame.{frame_header, mask_from}
use dirtybird_c_miner.Ws.Message.{
  message, nothing, ws_send_message, ws_read_message, send_payload, finish, read_payload,
  read_header,
}
use dirtybird_c_miner.Ws.Message.Send.{ws_send_message_lem}
use dirtybird_c_miner.Ws.Message.RoundTrip.{ws_read_message_frame}

record Line : Type 0 where
  inbox : List ℕ
  outbox : List ℕ

abbrev read_one : Line → ℕ → ReadResult × Line
read_one s zero = (failed want_read eagain, s)
read_one s (suc k) = elim s.inbox [
  | [] ↦ (failed want_read eagain, s)
  | x ∷ rest ↦ (bytes (x ∷ []), record s { inbox = rest })
]

abbrev write_one : Line → List ℕ → Option ℕ × Line
write_one s [] = (none, s)
write_one s (b ∷ rest) = (some 1, record s { outbox = s.outbox ++ b ∷ [] })

abbrev key : List ℕ
key = 17 ∷ 250 ∷ 3 ∷ 99 ∷ []

abbrev line : Tls Line
line = record {
  ssl_read = read_one;
  ssl_write = write_one;
  rand_bytes = λ s. (key, s);
  quit = λ s. false;
}

read_one-in_order :
    (inbox outbox : List ℕ) (k : ℕ) (got : List ℕ)
    → let (result, s') = read_one (record { inbox = inbox; outbox = outbox }) k in
      result ≡ bytes got → (0 < length got) × (length got ≤ k) × (inbox ≡ got ++ s'.inbox)
read_one-in_order inbox outbox zero got e = absurd (cc e)
read_one-in_order [] outbox (suc k) got e = absurd (cc e)
read_one-in_order (x ∷ rest) outbox (suc k) got e =
    let one : x ∷ [] ≡ got = cc e in
    subst (λ l. (0 < length l) × (length l ≤ suc k) × (x ∷ rest ≡ l ++ rest)) one
      (omega arith, omega arith, refl)

read_one-kept :
    (inbox outbox : List ℕ) (k : ℕ) (er : SslError) (n : Errno)
    → let (result, s') = read_one (record { inbox = inbox; outbox = outbox }) k in
      result ≡ failed er n → s'.inbox ≡ inbox
read_one-kept inbox outbox zero er n e = refl
read_one-kept [] outbox (suc k) er n e = refl
read_one-kept (x ∷ rest) outbox (suc k) er n e = absurd (cc e)

line-Reliable : Reliable line
line-Reliable = record {
  pending = λ s. s.inbox;
  in_order = λ s k got e. read_one-in_order s.inbox s.outbox k got e;
  kept = λ s k er n e. read_one-kept s.inbox s.outbox k er n e;
}

read_one-prompt :
    (inbox outbox : List ℕ) (k : ℕ)
    → 0 < k
    → 0 < length inbox
    → (got : List ℕ) × ((read_one (record { inbox = inbox; outbox = outbox }) k).0 ≡ bytes got)
read_one-prompt inbox outbox zero h p = absurd (omega arith)
read_one-prompt [] outbox (suc k) h p = absurd (omega arith)
read_one-prompt (x ∷ rest) outbox (suc k) h p = (x ∷ [], refl)

line-Prompt : Prompt line line-Reliable.pending
unfolding line-Reliable
line-Prompt = λ s k h p. read_one-prompt s.inbox s.outbox k h p

write_one-taken :
    (inbox outbox buf : List ℕ) (n : ℕ)
    → let (result, s') = write_one (record { inbox = inbox; outbox = outbox }) buf in
      result ≡ some n → (0 < n) × (s'.outbox ≡ outbox ++ take n buf)
write_one-taken inbox outbox [] n e = absurd (cc e)
write_one-taken inbox outbox (b ∷ rest) n e =
    let one : 1 ≡ n = cc e in
    subst (λ m. (0 < m) × (outbox ++ b ∷ [] ≡ outbox ++ take m (b ∷ rest))) one (omega arith, refl)

write_one-untaken :
    (inbox outbox buf : List ℕ)
    → let (result, s') = write_one (record { inbox = inbox; outbox = outbox }) buf in
      result ≡ none → s'.outbox ≡ outbox
write_one-untaken inbox outbox [] e = refl
write_one-untaken inbox outbox (b ∷ rest) e = absurd (cc e)

line-Writable : Writable line
line-Writable = record {
  sent = λ s. s.outbox;
  taken = λ s buf n e. write_one-taken s.inbox s.outbox buf n e;
  untaken = λ s buf e. write_one-untaken s.inbox s.outbox buf e;
  rand = λ s. (refl, refl);
}

abbrev hello : List ℕ
hello = codes "{\"jobid\":\"7a\"}"

abbrev idle : Line
idle = record { inbox = []; outbox = [] }

abbrev framed : Line
framed = record idle { inbox = frame_header 14 1 ++ (key ++ (mask_from key 0 hello ++ [])) }

recv_all_lem_example : Outcome line-Reliable.pending 2 true [] framed (recv_all line 2 true framed)
recv_all_lem_example = recv_all_lem line line-Reliable 2 true framed

send_all_lem_example : SentAll line-Writable.sent hello idle (send_all line hello idle)
send_all_lem_example = send_all_lem line line-Writable hello idle

ws_send_message_lem_example :
    (length key ≡ 4)
    × Sent line-Writable.sent
        (frame_header 14 1 ++ (key ++ mask_from key 0 hello))
        idle
        (ws_send_message line hello 1 idle)
ws_send_message_lem_example = ws_send_message_lem line line-Writable hello 1 idle

ws_read_message_frame_example :
    (s' : Line) × (ws_read_message line framed ≡ (message hello, s'))
    × (line-Reliable.pending s' ≡ [])
unfolding line-Reliable
ws_read_message_frame_example =
    ws_read_message_frame line line-Reliable line-Prompt key hello [] framed refl (omega arith)
      (omega arith) refl

-- A ping without a payload is answered with a pong under a mask.
ping_answered :
    ws_read_message line (record idle { inbox = 0x89 ∷ 0 ∷ [] })
    ≡ (nothing, record idle { outbox = 0x8a ∷ 0x80 ∷ key })
unfolding ws_read_message read_header read_payload finish ws_send_message send_payload frame_header
    recv_all recv_loop recv_round send_all send_loop send_round
ping_answered = refl
