-- ===== src/Local.antt =====
-- src/block_rw_nvmeof.cc: the random writes of a local block device. `m` is, as in Block, the number
-- of values of libnvme's field `nlb`, and `count` the constant N of the source.
pub mod Writes
use nvmeof_project.Prelude.{
  ℕ, zero, suc, ◌+◌, ◌-◌, ◌*◌, ◌%◌, ◌^◌, ltb, ◌==◌, if◌then◌else◌, [], ℤ, pos, nonzero, ◌+ℤ◌, ◌-ℤ◌,
  c_div, c_rem_nonzero, wrap,
}
use nvmeof_project.Outside.{Machine, Exit, Os, Prog, ◌>>=◌, ◌>>◌, call, pure, return_now, modify}
use nvmeof_project.Nvme.{
  Call, Reply, IoArgs, DeviceConfig, rdwr_direct, open_bdev, nvme_write, now, random, written,
  init_device_config,
}

-- How the test ends early: a write that fails, or a division by a number of blocks or a block size
-- of 0.
pub data LocalExit : Type 0 where
  write_failed divided_by_zero : LocalExit

-- The state is `total_time`.
abbrev pub LocalProg : Type 0 → Type 0
LocalProg A = Prog Call Reply ℤ LocalExit A

-- The magnitude of the `int` that `number_of_logical_blocks` becomes as an argument.
abbrev pub magnitude : ℕ → ℕ
magnitude blocks = let low = blocks % 2 ^ 32 in if ltb low (2 ^ 31) then low else 2 ^ 32 - low

-- The remainder of a number that is not negative does not depend on the divisor's sign.
pub random_start_block : ℕ → LocalProg ℕ
random_start_block blocks = do
  r ← call random
  if magnitude blocks == 0 then return_now divided_by_zero else pure tt
  pure (written r 0 % magnitude blocks)

-- `args.nlb = data_size / logical_block_size; if (data_size % logical_block_size == 0) args.nlb--;`
pub nlb_of : ℕ → ℕ → ℤ → ℕ
nlb_of m lbs size =
    let nlb = wrap m (c_div size lbs) in if c_rem_nonzero size lbs then nlb else (nlb + m - 1) % m

-- The arguments of every command but for `slba`, which is not set yet.
pub local_args : ℕ → DeviceConfig → ℤ → ℤ → IoArgs
unfolding nlb_of
local_args m config fd size = record {
  fd = fd;
  nsid = config.namespace_id;
  slba = 0;
  nlb = nlb_of m config.logical_block_size size;
  data_len = (nlb_of m config.logical_block_size size + 1) * config.logical_block_size;
}

-- One round. Nothing in the buffer was set.
pub write_round : ℕ → IoArgs → LocalProg (Unit {0})
unfolding random_start_block
write_round blocks args = do
  slba ← random_start_block blocks
  start ← call now
  err ← call (nvme_write (record args { slba = slba }) [])
  end ← call now
  modify (λ t. t +ℤ (pos (written end 0) -ℤ pos (written start 0)))
  if nonzero err.ret then return_now write_failed else pure tt

pub write_loop : ℕ → ℕ → IoArgs → LocalProg (Unit {0})
unfolding write_round
write_loop zero blocks args = pure tt
write_loop (suc count) blocks args = do write_round blocks args; write_loop count blocks args

pub test_write_throughput_random : ℕ → ℕ → DeviceConfig → ℤ → LocalProg (Unit {0})
unfolding write_loop local_args
test_write_throughput_random count m config size = do
  fd ← open_bdev config.name rdwr_direct
  if config.logical_block_size == 0 then return_now divided_by_zero else pure tt
  write_loop count config.number_of_logical_blocks (local_args m config fd size)

-- The block size unless the command line has one argument more than the device, of which `arg` is
-- what atoi makes; with still more arguments it stays 512.
pub data_size_of : ℕ → ℤ → DeviceConfig → ℤ
data_size_of argc arg config =
    if ltb argc 3 then pos config.logical_block_size else (if argc == 3 then arg else pos 512)

-- `main`, from the configuration with the device's name. The result of init_device_config is not
-- looked at.
pub main :
    ℕ
    → ℕ
    → ℕ
    → ℕ
    → ℤ
    → Os Call Reply
    → Machine Call Reply DeviceConfig
    → Exit LocalExit (Unit {0}) × Machine Call Reply ℤ
main count m literal argc arg os s =
    let t = (init_device_config literal os s).1 in
    test_write_throughput_random count m t.mem (data_size_of argc arg t.mem) os
      (record { clock = t.clock; trace = t.trace; mem = pos 0 })
