-- ===== src/Block/Handlers.antt =====
-- ReadBlock and WriteBlock of src/net.h: the one command that a request becomes, and the memory
-- that it is copied through.
use nvmeof_project.Prelude.{
  ℕ, suc, ◌+◌, ◌*◌, ◌≤◌, ◌<◌, ◌≡◌, ◌≢◌, ap, ◌⊎◌, true, false, none, some, List, [], ◌∷◌, length, ℤ,
  pos, nonzero, ◌+ℤ◌, ◌%◌, arith,
}
use nvmeof_project.Outside.{Machine, Os, Exit, done}
use nvmeof_project.Nvme.{Call, Reply, IoArgs, nvme_read, nvme_write}
use nvmeof_project.Block.{
  BlockRequest, BlockServer, Process, sync_read, sync_write, Outcome, replied, status_unknown,
  divided_by_zero, overflowed, actual_len, command_args, read_block, write_block,
}
use nvmeof_project.Block.Rounding.{actual_len-rounds}

-- The commands sent to the device, the last first.
abbrev pub commands : List (Call × Reply) → List Call
commands [] = []
commands ((nvme_read args, _) ∷ t) = nvme_read args ∷ commands t
commands ((nvme_write args bytes, _) ∷ t) = nvme_write args bytes ∷ commands t
commands (_ ∷ t) = commands t

abbrev pub block_size : Machine Call Reply Process → ℕ
block_size s = s.mem.server.config.logical_block_size

-- What a handler does, on every path, with the arguments `args` of its command and the device's
-- answer `err`.
abbrev pub Handles :
    IoArgs
    → Call
    → ℤ
    → BlockRequest
    → Machine Call Reply Process
    → Exit Outcome Outcome × Machine Call Reply Process
    → Type 0
Handles args sent err request s (r, t) =
    ((block_size s ≡ 0) × (r ≡ done divided_by_zero) × (commands t.trace ≡ commands s.trace))
    ⊎ ((0 < block_size s)
        × (args.data_len < length request.bytes)
        × (r ≡ done overflowed)
        × (commands t.trace ≡ commands s.trace))
    ⊎ ((0 < block_size s)
        × (length request.bytes ≤ args.data_len)
        × (commands t.trace ≡ sent ∷ commands s.trace)
        × (((nonzero err ≡ false) × (r ≡ done (replied (request.start_block +ℤ pos args.nlb))))
            ⊎ ((nonzero err ≡ true) × (r ≡ done status_unknown))))

module _ (m : ℕ) (request : BlockRequest) (os : Os Call Reply)
    (s : Machine Call Reply Process) where
  abbrev pub write_args : IoArgs
  write_args = command_args m sync_write request s.mem

  abbrev pub write_command : Call
  write_command = nvme_write write_args request.bytes

  -- The clock is read four times before the command.
  abbrev pub answer : Call → ℤ
  answer c = (os (suc (suc (suc (suc s.clock)))) c).ret

  pub write_block-Handles :
      Handles write_args write_command (answer write_command) request s (write_block m request os s)
  unfolding write_block
  write_block-Handles = ground arith

  abbrev pub read_args : IoArgs
  read_args = command_args m sync_read request s.mem

  abbrev pub read_command : Call
  read_command = nvme_read read_args

  read_block-Handles :
      Handles read_args read_command (answer read_command) request s (read_block m request os s)
  unfolding read_block
  read_block-Handles = ground arith

  -- WriteBlock, on every path: where the block size is 0 it divides by it and sends nothing.
  -- Otherwise data longer than the buffer is copied past its end before any command is sent; and if
  -- they are not longer, exactly one write is sent, with all of the data, and the reply is the last
  -- block if the device answers 0, and UNKNOWN if it answers anything else. ReadBlock is the same
  -- with a read in place of the write: it too divides by the block size and copies the request's data into its buffer first.
  pub write_block-read_block-Handles :
      Handles write_args write_command (answer write_command) request s (write_block m request os s)
      × Handles read_args read_command (answer read_command) request s (read_block m request os s)
  write_block-read_block-Handles = (write_block-Handles, read_block-Handles)

pub write_block_fits :
    (m n : ℕ) (request : BlockRequest) (os : Os Call Reply) (s : Machine Call Reply Process)
    → 0 < block_size s
    → 0 < n
    → n ≤ m * block_size s
    → request.size ≡ pos n
    → length request.bytes ≡ n
    → let (r, t) = write_block m request os s in
      let args = write_args m request os s in
      (r ≢ done overflowed)
      × (commands t.trace ≡ nvme_write args request.bytes ∷ commands s.trace)
      × (n ≤ args.data_len)
      × (args.data_len < n + block_size s)
      × (args.data_len % block_size s ≡ 0)
write_block_fits m n request os s hl hn hm size len =
    let rounds = actual_len-rounds m (block_size s) n hl hn hm in
    let same : (write_args m request os s).data_len ≡ actual_len m (block_size s) (pos n) =
      ap (actual_len m (block_size s)) size in
    let fits : n ≤ (write_args m request os s).data_len = rw same rounds.0 in
    (
      ground (arith, write_block-Handles m request os s),
      ground (arith, write_block-Handles m request os s),
      fits,
      rw same rounds.1,
      rw same rounds.2,
    )

-- The first call, where it does not divide by zero, leaves its arguments in the `static`.
write_block_static :
    (m : ℕ) (request : BlockRequest) (os : Os Call Reply) (s : Machine Call Reply Process)
    → 0 < block_size s
    → (write_block m request os s).1.mem.sync_write_args ≡ some (write_args m request os s)
unfolding write_block
write_block_static m request os s has_size = ground arith

abbrev pub served_by : BlockServer → Machine Call Reply Process → Machine Call Reply Process
served_by other t = record t { mem = record t.mem { server = other } }

-- The `static` arguments outlive the server that set them. If no WriteBlock has been served before,
-- a first one on a server and a second one on any other server of the process, both servers with a
-- block size that is not 0 and both calls within their buffers, then the second call sends its
-- command to the first server's device and namespace.
pub write_block_keeps_device :
    (m : ℕ) (request request' : BlockRequest) (other : BlockServer) (os : Os Call Reply)
    (s : Machine Call Reply Process)
    → s.mem.sync_write_args ≡ none
    → 0 < block_size s
    → 0 < other.config.logical_block_size
    → (write_block m request os s).0 ≢ done overflowed
    → (write_block m request' os (served_by other (write_block m request os s).1)).0
      ≢ done overflowed
    → let t = (write_block m request os s).1 in
      let u = (write_block m request' os (served_by other t)).1 in
      (args : IoArgs) × (commands u.trace ≡ nvme_write args request'.bytes ∷ commands t.trace)
      × (args.fd ≡ s.mem.server.blk_fd)
      × (args.nsid ≡ s.mem.server.config.namespace_id)
write_block_keeps_device m request request' other os s fresh has_size other_size first sends =
    let t = served_by other (write_block m request os s).1 in
    (
      write_args m request' os t,
      ground (arith, write_block-Handles m request' os t),
      ground (arith, write_block_static m request os s has_size),
      ground (arith, write_block_static m request os s has_size),
    )
