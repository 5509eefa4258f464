-- ===== src/BlockTarget.antt =====
-- src/block_target.cc: the test that writes what a connection brings to a block device. `m` is, as
-- in Block, the number of values of libnvme's field `nlb`, and `count` the constant N of the source.
pub mod Writes
use nvmeof_project.Prelude.{
  ℕ, zero, suc, ◌%◌, ◌==◌, if◌then◌else◌, List, [], ◌∷◌, ◌++◌, length, drop, ℤ, is_neg, nonzero,
  c_div, wrap,
}
use nvmeof_project.Outside.{Prog, ◌>>=◌, ◌>>◌, call, pure, return_now, get, modify}
use nvmeof_project.Nvme.{
  Call, Reply, IoArgs, DeviceConfig, wronly_direct, open_bdev, recv, send, nvme_write, random,
  written,
}

-- How the test ends early: a write that fails, or a division by a number of blocks or a block size
-- of 0.
pub data TargetExit : Type 0 where
  write_failed divided_by_zero : TargetExit

-- The state is the front of the buffer, as far as it was written.
abbrev pub TargetProg : Type 0 → Type 0
TargetProg A = Prog Call Reply (List ℕ) TargetExit A

-- No line of the file calls it. The device's count is a `__le64`, so the remainder is unsigned.
pub random_start_block : DeviceConfig → TargetProg ℕ
random_start_block config = do
  r ← call random
  if config.number_of_logical_blocks == 0 then return_now divided_by_zero else pure tt
  pure (written r 0 % config.number_of_logical_blocks)

-- The arguments of every command. `nlb` counts from 0, but is not decremented.
pub target_args : ℕ → DeviceConfig → ℤ → ℤ → IoArgs
target_args m config fd size = record {
  fd = fd;
  nsid = config.namespace_id;
  slba = 0;
  nlb = wrap m (c_div size config.logical_block_size);
  data_len = config.logical_block_size;
}

-- What a read has put at the front of a buffer.
pub received : List ℕ → List ℕ → List ℕ
received bytes buffer = bytes ++ drop (length bytes) buffer

-- One write of the buffer.
pub write_buffer : IoArgs → TargetProg (Unit {0})
write_buffer args = do
  buffer ← get
  err ← call (nvme_write args buffer)
  if nonzero err.ret then return_now write_failed else pure tt

-- A read that fails breaks the loop; a short one, or the end of the stream, does not.
pub write_loop : ℕ → IoArgs → ℤ → TargetProg (Unit {0})
write_loop zero args size = pure tt
write_loop (suc count) args size = do
  r ← call (recv size)
  if is_neg r.ret
      then pure tt
      else (do modify (received r.bytes); write_buffer args; write_loop count args size)

-- The four letters and the NUL.
abbrev pub done_text : List ℕ
done_text = b'd' ∷ b'o' ∷ b'n' ∷ b'e' ∷ 0 ∷ []

pub test_write_throughput_random : ℕ → ℕ → DeviceConfig → ℤ → TargetProg (Unit {0})
test_write_throughput_random count m config size = do
  fd ← open_bdev config.name wronly_direct
  if config.logical_block_size == 0 then return_now divided_by_zero else pure tt
  write_loop count (target_args m config fd size) size
  call (send done_text)
  pure tt
