-- ===== src/Ws/Tls.antt =====
-- `send_all`, `ssl_read_is_timeout` and `recv_all`, over what OpenSSL returns on a POSIX system.
pub mod Recv
pub mod Send
use dirtybird_c_miner.Base.{
  ℕ, zero, suc, ◌+◌, ◌-◌, ◌*◌, Bool, true, false, not, List, [], ◌∷◌, ◌++◌, Option, none, some,
  length, drop, leb, if◌then◌else◌,
}

-- `SSL_get_error`, as far as the program tells its values apart.
pub data SslError : Type 0 where
  want_read : SslError
  want_write : SslError
  syscall : SslError
  other_error : SslError

pub data Errno : Type 0 where
  eagain : Errno
  ewouldblock : Errno
  eintr : Errno
  other_errno : Errno

-- What one `SSL_read` gives: at least one byte, 0, or a negative result with its two error codes.
pub data ReadResult : Type 0 where
  bytes : List ℕ → ReadResult
  closed : ReadResult
  failed : SslError → Errno → ReadResult

-- OpenSSL and the flag `quit`, on an outside state `S`. A write returns the number of bytes written,
-- or nothing where `SSL_write` returns 0 or less.
pub record Tls {ℓ} (S : Type ℓ) : Type ℓ where
  pub ssl_read : S → ℕ → ReadResult × S
  pub ssl_write : S → List ℕ → Option ℕ × S
  pub rand_bytes : S → List ℕ × S
  pub quit : S → Bool

unfoldable pub ssl_read_is_timeout : SslError → Errno → Bool
ssl_read_is_timeout want_read se = true
ssl_read_is_timeout want_write se = true
ssl_read_is_timeout syscall other_errno = false
ssl_read_is_timeout syscall se = true
ssl_read_is_timeout other_error se = false

-- What `recv_all` returns: the bytes, -2, or -1; `spinning` if the fuel were not enough.
pub data Received : Type 0 where
  done : List ℕ → Received
  no_message : Received
  dead : Received
  spinning : Received

abbrev pub max_stall_polls : ℕ
max_stall_polls = 200

-- One round of the loop with `need` bytes to go; `again` is the loop from the next round on. `fresh`
-- says that a timeout means that no message is pending.
unfoldable pub recv_round {ℓ} :
    {S : Type ℓ}
    → Tls S
    → (ℕ → ℕ → Bool → List ℕ → S → Received × S)
    → ℕ
    → ℕ
    → Bool
    → List ℕ
    → ReadResult × S
    → Received × S
recv_round tls again need stall fresh buf (bytes got, s) =
    again (need - length got) 0 false (buf ++ got) s
recv_round tls again need stall fresh buf (closed, s) = (dead, s)
recv_round tls again need stall fresh buf (failed sslerr se, s) =
    if not (ssl_read_is_timeout sslerr se)
    then (dead, s)
    else if fresh
    then (no_message, s)
    else if tls.quit s
    then (dead, s)
    else if leb max_stall_polls (stall + 1)
    then (dead, s)
    else again need (stall + 1) fresh buf s

unfoldable pub recv_loop {ℓ} : {S : Type ℓ} → Tls S → ℕ → ℕ → ℕ → Bool → List ℕ → S → Received × S
recv_loop tls fuel zero stall fresh buf s = (done buf, s)
recv_loop tls zero (suc need) stall fresh buf s = (spinning, s)
recv_loop tls (suc fuel) (suc need) stall fresh buf s =
    recv_round tls (recv_loop tls fuel) (suc need) stall fresh buf (tls.ssl_read s (suc need))

-- At most 200 reads for each byte.
unfoldable pub recv_all {ℓ} : {S : Type ℓ} → Tls S → ℕ → Bool → S → Received × S
recv_all tls len first s = recv_loop tls (len * max_stall_polls) len 0 first [] s

-- What `send_all` returns: the length, or -1; `out_of_writes` if the fuel were not enough.
pub data Sending : Type 0 where
  all_sent : Sending
  send_error : Sending
  out_of_writes : Sending

-- One write of the loop; `again` is the loop from the next write on.
unfoldable pub send_round {ℓ} :
    {S : Type ℓ} → (List ℕ → S → Sending × S) → List ℕ → Option ℕ × S → Sending × S
send_round again buf (none, s) = (send_error, s)
send_round again buf (some n, s) = again (drop n buf) s

unfoldable pub send_loop {ℓ} : {S : Type ℓ} → Tls S → ℕ → List ℕ → S → Sending × S
send_loop tls fuel [] s = (all_sent, s)
send_loop tls zero (b ∷ rest) s = (out_of_writes, s)
send_loop tls (suc fuel) (b ∷ rest) s =
    send_round (send_loop tls fuel) (b ∷ rest) (tls.ssl_write s (b ∷ rest))

-- Each write takes at least one byte, so the length is fuel enough.
unfoldable pub send_all {ℓ} : {S : Type ℓ} → Tls S → List ℕ → S → Sending × S
unfolding send_loop
send_all tls buf s = send_loop tls (length buf) buf s
