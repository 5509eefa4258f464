-- ===== src/Block.antt =====
-- src/net.h, class GRPCSyncServer, and the body that GRPCAsyncServer's read handler shares with it:
-- an RPC on blocks becomes one NVMe command. `m` is the number of values of libnvme's field `nlb`,
-- which is not this program's to choose. Products of `int`s are taken without overflow.
pub mod Rounding
pub mod Handlers
pub mod Server
use nvmeof_project.Prelude.{
  ℕ, ◌+◌, ◌*◌, ◌^◌, leb, ◌==◌, if◌then◌else◌, Option, none, some, List, length, ℤ, pos, nonzero,
  ◌+ℤ◌, ◌-ℤ◌, c_div, c_rem_nonzero, wrap,
}
use nvmeof_project.Outside.{Prog, ◌>>=◌, ◌>>◌, call, pure, return_now, get, modify, function}
use nvmeof_project.Nvme.{Call, Reply, IoArgs, DeviceConfig, nvme_read, nvme_write, now, written}

-- `int32 size, start_block; bytes data`
pub record BlockRequest : Type 0 where
  pub size : ℤ
  pub start_block : ℤ
  pub bytes : List ℕ

pub record BlockServer : Type 0 where
  pub blk_fd : ℤ
  pub config : DeviceConfig
  pub time_on_allocation : ℤ
  pub time_on_rw : ℤ
  pub time_total : ℤ

-- The function-local `static struct nvme_io_args args` of each handler: one for the process, and
-- set up by the first call alone.
pub data Slot : Type 0 where
  sync_read sync_write async_read : Slot

pub record Process : Type 0 where
  pub server : BlockServer
  pub sync_read_args : Option IoArgs
  pub sync_write_args : Option IoArgs
  pub async_read_args : Option IoArgs

abbrev pub static_args : Slot → Process → Option IoArgs
static_args sync_read p = p.sync_read_args
static_args sync_write p = p.sync_write_args
static_args async_read p = p.async_read_args

abbrev pub set_static : Slot → IoArgs → Process → Process
set_static sync_read a p = record p { sync_read_args = some a }
set_static sync_write a p = record p { sync_write_args = some a }
set_static async_read a p = record p { async_read_args = some a }

-- How a handler ends: Status::OK with the reply's end_block, Status UNKNOWN, a copy of the
-- request's data past the end of the buffer, or a division by a block size of 0, which ends the
-- process.
pub data Outcome : Type 0 where
  replied : (end_block : ℤ) → Outcome
  status_unknown : Outcome
  overflowed : Outcome
  divided_by_zero : Outcome

-- `args.nlb`: the number of blocks minus one.
unfoldable pub block_count : ℕ → ℕ → ℤ → ℕ
unfolding ◌-ℤ◌
block_count m lbs size =
    wrap m (if c_rem_nonzero size lbs then c_div size lbs else c_div size lbs -ℤ pos 1)

unfoldable pub actual_len : ℕ → ℕ → ℤ → ℕ
actual_len m lbs size = (block_count m lbs size + 1) * lbs

abbrev pub first_args : Process → Slot → IoArgs
first_args p slot = elim (static_args slot p) [
  | none ↦ record {
    fd = p.server.blk_fd;
    nsid = p.server.config.namespace_id;
    slba = 0;
    nlb = 0;
    data_len = 0;
  }
  | some a ↦ a
]

-- The arguments of the command for a request.
abbrev pub command_args : ℕ → Slot → BlockRequest → Process → IoArgs
command_args m slot request p = record (first_args p slot) {
  slba = wrap (2 ^ 64) request.start_block;
  nlb = block_count m p.server.config.logical_block_size request.size;
  data_len = actual_len m p.server.config.logical_block_size request.size;
}

abbrev pub command : Slot → IoArgs → List ℕ → Call
command sync_read args bytes = nvme_read args
command sync_write args bytes = nvme_write args bytes
command async_read args bytes = nvme_read args

abbrev ServerProg : Type 0 → Type 0
ServerProg A = Prog Call Reply Process Outcome A

-- `system_clock::now()`
tick : ServerProg ℤ
tick = do r ← call now; pure (pos (written r 0))

abbrev add_allocation : ℤ → Process → Process
add_allocation d p = record p {
  server = record p.server { time_on_allocation = p.server.time_on_allocation +ℤ d };
}

abbrev add_rw : ℤ → Process → Process
add_rw d p = record p { server = record p.server { time_on_rw = p.server.time_on_rw +ℤ d } }

abbrev add_total : ℤ → Process → Process
add_total d p = record p { server = record p.server { time_total = p.server.time_total +ℤ d } }

-- The common body of the handlers.
block_io : ℕ → Slot → BlockRequest → ServerProg Outcome
unfolding tick
block_io m slot request = do
  total_start ← tick
  p ← get
  if p.server.config.logical_block_size == 0 then return_now divided_by_zero else pure tt
  let args = command_args m slot request p
  modify (set_static slot args)
  start ← tick
  if leb (length request.bytes) args.data_len then pure tt else return_now overflowed
  end ← tick
  modify (add_allocation (end -ℤ start))
  start ← tick
  err ← call (command slot args request.bytes)
  end ← tick
  modify (add_rw (end -ℤ start))
  total_end ← tick
  modify (add_total (total_end -ℤ total_start))
  if nonzero err.ret then return_now status_unknown else pure tt
  pure (replied (request.start_block +ℤ pos args.nlb))

pub read_block : ℕ → BlockRequest → ServerProg Outcome
unfolding block_io
read_block m request = function (block_io m sync_read request)

pub write_block : ℕ → BlockRequest → ServerProg Outcome
unfolding block_io
write_block m request = function (block_io m sync_write request)

-- The texts of GetStat are the three durations, in this order, with fixed words around them.
pub record Stat : Type 0 where
  pub allocation : ℤ
  pub writes : ℤ
  pub total : ℤ

-- `duration_cast<milliseconds>` of nanoseconds
abbrev pub millis : ℤ → ℤ
millis t = c_div t 1000000

pub get_stat : BlockServer → Stat
get_stat s = record {
  allocation = millis s.time_on_allocation;
  writes = millis s.time_on_rw;
  total = millis s.time_total;
}

pub reset_stat : BlockServer → BlockServer
reset_stat s = record s { time_on_allocation = pos 0; time_on_rw = pos 0; time_total = pos 0 }
