-- ===== src/Tcp.antt =====
-- src/net.h, class TCPConnection: set-up of a connection, and the two loops that move exactly
-- `len` bytes over it. The socket calls are outside calls; a byte is a number.

pub mod Send
pub mod Recv
pub mod Setup
use nvmeof_project.Prelude.{
  ℕ, zero, suc, ◌-◌, ◌==◌, if◌then◌else◌, Bool, List, [], ◌∷◌, ◌++◌, length, take, drop, ℤ, pos,
  negsuc, is_neg, nonzero, nat_part,
}
use nvmeof_project.Outside.{
  Machine, Exit, Os, Prog, ◌>>=◌, ◌>>◌, call, pure, return_now, get, modify, function, hung, done,
}

-- `send` carries the bytes that are offered, `buffer[0 .. left)`.
pub data Call : Type 0 where
  socket : Call
  bind : (sock : ℤ) (port : ℕ) → Call
  listen : (sock : ℤ) (backlog : ℕ) → Call
  accept : (sock : ℤ) → Call
  connect : (sock : ℤ) (address : List ℕ) (port : ℕ) → Call
  send_bytes : (sock : ℤ) (bytes : List ℕ) → Call
  recv_bytes : (sock : ℤ) (left : ℕ) → Call
  close : (sock : ℤ) → Call

-- The returned `int`, whether `errno` is EINTR, and what `recv` wrote to the buffer.
pub record Reply : Type 0 where
  pub ret : ℤ
  pub eintr : Bool
  pub bytes : List ℕ

-- enum { INITIATOR, TARGET }
abbrev pub initiator : ℕ
initiator = 0

abbrev pub target : ℕ
target = 1

pub record TcpConnection : Type 0 where
  pub peer_sock : ℤ
  pub address : List ℕ
  pub role : ℕ
  pub port : ℕ

abbrev pub Net : Type 0 → Type 0 → Type 0
Net E A = Prog Call Reply TcpConnection E A

-- The two constructors. Neither sets `peer_sock`, so the object holds what the memory held.
abbrev pub with_address : ℤ → ℕ → List ℕ → ℕ → TcpConnection
with_address garbage role address port = record {
  peer_sock = garbage;
  address = address;
  role = role;
  port = port;
}

abbrev pub without_address : ℤ → ℕ → ℕ → TcpConnection
without_address garbage role port = record {
  peer_sock = garbage;
  address = [];
  role = role;
  port = port;
}

pub close_connection : {E : Type 0} → Net E ℤ
close_connection = do c ← get; r ← call (close c.peer_sock); pure r.ret

-- `if (test) goto ret;`, where `ret` is `return close();`
goto_ret : Bool → Net ℤ (Unit {0})
unfolding close_connection
goto_ret test = if test then (do r ← close_connection; return_now r) else pure tt

init_target : Net ℤ ℤ
unfolding goto_ret
init_target = do
  c ← get
  sock ← call socket
  bound ← call (bind sock.ret c.port)
  goto_ret (nonzero bound.ret)
  listening ← call (listen sock.ret 5)
  goto_ret (nonzero listening.ret)
  peer ← call (accept sock.ret)
  modify (λ s. record s { peer_sock = peer.ret })
  goto_ret (is_neg peer.ret)
  call (close sock.ret)
  pure (pos 0)

init_initiator : Net ℤ ℤ
unfolding goto_ret
init_initiator = do
  c ← get
  sock ← call socket
  modify (λ s. record s { peer_sock = sock.ret })
  connected ← call (connect sock.ret c.address c.port)
  goto_ret (is_neg connected.ret)
  pure (pos 0)

init_role : ℕ → Net ℤ ℤ
unfolding init_target init_initiator
init_role role =
    if role == target
    then init_target
    else if role == initiator
    then init_initiator
    else pure (pos 0)

pub init : Net (Unit {0}) ℤ
unfolding init_role
init = do c ← get; function (init_role c.role)

-- One round of the loop of `send`: how many bytes were taken, or an early return.
sent : Reply → Net ℤ ℕ
sent r =
    if is_neg r.ret
    then (if r.eintr then pure 0 else return_now (negsuc 0))
    else pure (nat_part r.ret)

-- The loop of `send`, with fuel; `left - w` stops at 0, where the loop ends as it does below 0.
send_loop : ℕ → ℤ → List ℕ → ℕ → Net ℤ (Unit {0})
send_loop fuel sock buffer zero = pure tt
send_loop zero sock buffer (suc left) = λ os s. (hung, s)
send_loop (suc fuel) sock buffer (suc left) = do
  r ← call (send_bytes sock (take (suc left) buffer))
  w ← sent r
  send_loop fuel sock (drop w buffer) (suc left - w)

pub send : ℕ → List ℕ → ℕ → Net (Unit {0}) ℤ
unfolding send_loop
send fuel buffer len = do
  c ← get
  function (do send_loop fuel c.peer_sock buffer len; pure (pos len))

-- The loop of `recv`; `got` is what it has written to the buffer, and is returned with the result.
recv_loop : ℕ → ℤ → ℕ → List ℕ → ℕ → Net (ℤ × List ℕ) (List ℕ)
recv_loop fuel sock len got zero = pure got
recv_loop zero sock len got (suc left) = λ os s. (hung, s)
recv_loop (suc fuel) sock len got (suc left) = do
  r ← call (recv_bytes sock (suc left))
  if is_neg r.ret
      then (if r.eintr then recv_loop fuel sock len got (suc left) else return_now (negsuc 0, got))
      else (if nat_part r.ret == 0
          then return_now (pos (len - suc left), got)
          else recv_loop fuel sock len (got ++ r.bytes) (suc left - nat_part r.ret))

pub recv : ℕ → ℕ → Net (Unit {0}) (ℤ × List ℕ)
unfolding recv_loop
recv fuel len = do
  c ← get
  function (do got ← recv_loop fuel c.peer_sock len [] len; pure (pos len, got))
