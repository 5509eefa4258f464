-- ===== src/BlockClient.antt =====
-- src/block_initiator.cc: the client that writes one block through a gRPC server, by an asynchronous
-- call on a completion queue of its own. What an unused size is set to is left out.
pub mod Served
use nvmeof_project.Prelude.{ℕ, ltb, ◌==◌, Bool, not, if◌then◌else◌, List, [], ◌∷◌, ◌++◌, ℤ, pos}
use nvmeof_project.Outside.{Machine, Exit, Os, Prog, ◌>>=◌, ◌>>◌, call, pure, return_if}
use nvmeof_project.Nvme
use nvmeof_project.Nvme.{DeviceConfig, init_device_config}
use nvmeof_project.Block.{BlockRequest}
use nvmeof_project.FileClient.{int_to_string}

pub data Call : Type 0 where
  create_channel : (address : List ℕ) → Call
  -- StartCall, and Finish with the tag
  write_async : BlockRequest → (tag : ℕ) → Call
  sleep : (seconds : ℕ) → Call
  next : Call
  print_end_block : ℤ → Call
  print_failed : Call

-- The result of Next, the tag and `ok` that it gives, and the status and the reply that the call has
-- by then.
pub record Reply : Type 0 where
  pub got : Bool
  pub tag : ℕ
  pub ok : Bool
  pub status_ok : Bool
  pub end_block : ℤ

-- A GPR_ASSERT that fails aborts.
pub data Aborted : Type 0 where
  assertion_failed : Aborted

abbrev pub ClientProg : Type 0 → Type 0
ClientProg A = Prog Call Reply (Unit {0}) Aborted A

-- "0.0.0.0"
abbrev pub any_address : List ℕ
any_address = b'0' ∷ b'.' ∷ b'0' ∷ b'.' ∷ b'0' ∷ b'.' ∷ b'0' ∷ []

-- The address and the port of the command line, the second as atoi has read it, or their defaults.
pub server_addr : ℕ → List ℕ → ℤ → List ℕ
server_addr argc addr port =
    (if ltb argc 3 then any_address else addr)
    ++ (b':' ∷ int_to_string (if ltb argc 4 then pos 9876 else port))

-- The start block is not set.
pub write_request : BlockRequest
write_request = record { size = pos 10; start_block = pos 0; bytes = b'1' ∷ b'2' ∷ b'3' ∷ [] }

pub remote_write : List ℕ → ClientProg (Unit {0})
remote_write address = do
  call (create_channel address)
  call (write_async write_request 1)
  call (sleep 5)
  r ← call next
  return_if (not r.got) assertion_failed
  return_if (not (r.tag == 1)) assertion_failed
  return_if (not r.ok) assertion_failed
  call (if r.status_ok then print_end_block r.end_block else print_failed)
  pure tt

-- The device is asked for its configuration first.
pub main :
    ℕ
    → ℕ
    → List ℕ
    → ℤ
    → Os Nvme.Call Nvme.Reply
    → Machine Nvme.Call Nvme.Reply DeviceConfig
    → Os Call Reply
    → Machine Call Reply (Unit {0})
    → Machine Nvme.Call Nvme.Reply DeviceConfig
      × (Exit Aborted (Unit {0}) × Machine Call Reply (Unit {0}))
main literal argc addr port nvme d os s =
    ((init_device_config literal nvme d).1, remote_write (server_addr argc addr port) os s)
