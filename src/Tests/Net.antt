-- ===== src/Tests/Net.antt =====
-- The connections of src/net.h, with a socket that is interrupted once and then moves two bytes at
-- a time.
use nvmeof_project.Prelude.{
  ℕ, zero, suc, ◌≡◌, ◌⊎◌, inl, inr, ◌≤◌, ◌<◌, length-replicate, refl, Bool, true, false, List, [],
  ◌∷◌, length, ℤ, pos, negsuc, replicate, arith,
}
use nvmeof_project.Outside.{Machine, Os, boot}
use nvmeof_project.Tcp.{
  Call, Reply, TcpConnection, accept, send_bytes, recv_bytes, with_address, send, recv, init,
  initiator, target,
}
use nvmeof_project.Tcp.Send.{TakesAtMost, Advances, SendReport, send-SendReport}
use nvmeof_project.Tcp.Recv.{GivesAtMost, Uninterrupted, RecvReport, recv-RecvReport}
use nvmeof_project.Tcp.Setup.{TargetEnds, InitiatorEnds, init_cases}

abbrev two_at_most : ℕ → ℕ
two_at_most zero = 0
two_at_most (suc zero) = 1
two_at_most (suc (suc n)) = 2

abbrev answer : ℤ → Bool → List ℕ → Reply
answer ret eintr bytes = record { ret = ret; eintr = eintr; bytes = bytes }

-- The first call is interrupted; `accept` fails.
abbrev slow_socket : Os Call Reply
slow_socket zero c = answer (negsuc 3) true []
slow_socket (suc n) (send_bytes sock bytes) = answer (pos (two_at_most (length bytes))) false []
slow_socket (suc n) (recv_bytes sock left) =
    answer (pos (two_at_most left)) false (replicate (two_at_most left) 7)
slow_socket (suc n) (accept sock) = answer (negsuc 0) false []
slow_socket (suc n) _ = answer (pos 0) false []

two_at_most-le : (n : ℕ) → two_at_most n ≤ n
two_at_most-le zero = omega arith
two_at_most-le (suc zero) = omega arith
two_at_most-le (suc (suc n)) = omega arith

two_at_most-pos : (n : ℕ) → 0 < n → 0 < two_at_most n
two_at_most-pos zero h = h
two_at_most-pos (suc zero) h = omega arith
two_at_most-pos (suc (suc n)) h = omega arith

slow_socket-TakesAtMost : TakesAtMost slow_socket
slow_socket-TakesAtMost zero sock bytes = omega arith
slow_socket-TakesAtMost (suc n) sock bytes = two_at_most-le (length bytes)

slow_socket-Advances : Advances 1 slow_socket
slow_socket-Advances zero sock bytes h some = absurd (omega arith)
slow_socket-Advances (suc n) sock bytes h some = inr (two_at_most-pos (length bytes) some)

slow_socket-GivesAtMost : GivesAtMost slow_socket
slow_socket-GivesAtMost zero sock left = (refl, omega arith)
slow_socket-GivesAtMost (suc n) sock left =
    (length-replicate (two_at_most left) 7, two_at_most-le left)

slow_socket-Uninterrupted : Uninterrupted 1 slow_socket
slow_socket-Uninterrupted zero sock left h e = absurd (omega arith)
slow_socket-Uninterrupted (suc n) sock left h e = refl

abbrev localhost : List ℕ
localhost = 127 ∷ 0 ∷ 0 ∷ 1 ∷ []

abbrev five_bytes : List ℕ
five_bytes = 1 ∷ 2 ∷ 3 ∷ 4 ∷ 5 ∷ []

abbrev connection : ℕ → Machine Call Reply TcpConnection
connection role = boot (with_address (pos 9) role localhost 8000)

send-SendReport_example :
    SendReport
      (connection initiator)
      five_bytes
      5
      (send 6 five_bytes 5 slow_socket (connection initiator))
send-SendReport_example =
    send-SendReport slow_socket 1 6 five_bytes 5 (connection initiator) slow_socket-TakesAtMost
      slow_socket-Advances (omega arith) (omega arith)

recv-RecvReport_example :
    RecvReport (connection target) 5 (recv 6 5 slow_socket (connection target))
recv-RecvReport_example =
    recv-RecvReport slow_socket 1 6 5 (connection target) slow_socket-GivesAtMost
      slow_socket-Uninterrupted (omega arith)

init_cases_example :
    let os = slow_socket in
    let s = connection target in
    ((s.mem.role ≡ target) × TargetEnds os s (init os s))
    ⊎ ((s.mem.role ≡ initiator) × InitiatorEnds os s (init os s))
init_cases_example = init_cases slow_socket (connection target) (inl refl)
