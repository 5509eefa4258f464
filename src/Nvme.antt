-- ===== src/Nvme.antt =====
-- src/nvme.h: the configuration of a block device, and the outside calls of all code that submits
-- NVMe commands (libnvme, the clock, the random source).
pub mod Setup
use nvmeof_project.Prelude.{
  ℕ, ◌==◌, Bool, if◌then◌else◌, Option, none, some, List, ℤ, pos, negsuc, nonzero,
}
use nvmeof_project.Outside.{Prog, ◌>>=◌, ◌>>◌, call, pure, return_now, get, modify}

-- A `char *`: where it points, and the text there.
pub record CString : Type 0 where
  pub address : ℕ
  pub text : List ℕ

pub record DeviceConfig : Type 0 where
  pub namespace_id : ℕ  -- __u32
  pub name : CString
  pub number_of_logical_blocks : ℕ  -- __le64
  pub logical_block_size : ℕ  -- int, never negative

-- The fields of libnvme's struct nvme_io_args that the program sets and that differ between calls.
pub record IoArgs : Type 0 where
  pub fd : ℤ
  pub nsid : ℕ
  pub slba : ℕ
  pub nlb : ℕ
  pub data_len : ℕ

pub data Access : Type 0 where
  rdonly rdwr_direct wronly_direct : Access

pub data Call : Type 0 where
  open_device : CString → Access → Call
  get_nsid : (fd : ℤ) → Call
  get_logical_block_size : (fd : ℤ) (nsid : ℕ) → Call
  identify_ns : (fd : ℤ) (nsid : ℕ) → Call
  close_fd : (fd : ℤ) → Call
  nvme_read : IoArgs → Call
  -- the bytes at the front of the buffer that the program has set
  nvme_write : IoArgs → List ℕ → Call
  now : Call
  random : Call
  -- the connection of block_target.cc
  recv : (len : ℤ) → Call
  send : List ℕ → Call

-- The returned `int`; what was written through an out pointer, if anything was, or the time or the
-- number that was asked for; the bytes that a connection has put at the front of the buffer.
pub record Reply : Type 0 where
  pub ret : ℤ
  pub wrote : Option ℕ
  pub bytes : List ℕ

abbrev pub written : Reply → ℕ → ℕ
written r old = elim r.wrote [ none ↦ old | some v ↦ v ]

unfoldable pub open_bdev : {S E : Type 0} → CString → Access → Prog Call Reply S E ℤ
open_bdev dev flags = do r ← call (open_device dev flags); pure r.ret

abbrev ConfigProg : Type 0 → Type 0
ConfigProg A = Prog Call Reply DeviceConfig ℤ A

-- `goto ret` on an error: the descriptor is closed and the function returns 0.
goto_ret : ℤ → Bool → ConfigProg (Unit {0})
goto_ret fd test = if test then (do call (close_fd fd); return_now (pos 0)) else pure tt

-- `config.name == ""` compares the pointer with the address of the literal, an argument here.
unfoldable pub init_device_config : ℕ → ConfigProg ℤ
unfolding open_bdev goto_ret
init_device_config literal = do
  c ← get
  if c.name.address == literal then return_now (negsuc 0) else pure tt
  fd ← open_bdev c.name rdonly
  nsid ← call (get_nsid fd)
  modify (λ s. record s { namespace_id = written nsid s.namespace_id })
  goto_ret fd (nonzero nsid.ret)
  c ← get
  size ← call (get_logical_block_size fd c.namespace_id)
  modify (λ s. record s { logical_block_size = written size s.logical_block_size })
  goto_ret fd (nonzero size.ret)
  ns ← call (identify_ns fd c.namespace_id)
  goto_ret fd (nonzero ns.ret)
  modify (λ s. record s { number_of_logical_blocks = written ns s.number_of_logical_blocks })
  call (close_fd fd)
  pure (pos 0)
