-- ===== src/Tests/Blocks.antt =====
-- The block servers of src/net.h and the configuration of src/nvme.h, with blocks of 512 bytes.
use nvmeof_project.Prelude.{
  ℕ, ◌+◌, ◌*◌, ◌≤◌, ◌<◌, ◌%◌, ◌≡◌, ◌≢◌, ◌⊎◌, refl, true, false, none, some, List, [], ◌∷◌,
  replicate, length-replicate, ℤ, pos, nonzero, arith,
}
use nvmeof_project.Outside.{Machine, Os, boot, done}
use nvmeof_project.Nvme.{
  DeviceConfig, IoArgs, Call, Reply, open_device, rdwr_direct, nvme_write, written,
  init_device_config,
}
use nvmeof_project.Nvme.Setup.{
  Yields, opens, closes, device, id_reply, size_reply, ns_reply, init_device_config_cases,
}
use nvmeof_project.Block.{
  BlockRequest, BlockServer, Process, overflowed, block_count, actual_len, read_block, write_block,
}
use nvmeof_project.Block.Rounding.{actual_len_cases}
use nvmeof_project.Outside.Laws.{Ensures}
use nvmeof_project.Block.Server.{FirstWrite, open_server, open_server-write_block}
use nvmeof_project.Block.Handlers.{
  commands, Handles, write_args, write_command, answer, read_args, served_by, read_command,
  write_block-read_block-Handles, write_block_fits, write_block_keeps_device,
}
use nvmeof_project.Local.{nlb_of, local_args, data_size_of, main}
use nvmeof_project.Local.Writes.{TestReport, nlb_of-block_count, main-TestReport}

abbrev zero_reply : Reply
zero_reply = record { ret = pos 0; wrote = some 5; bytes = [] }

abbrev good_device : Os Call Reply
good_device n c = zero_reply

abbrev device_config : DeviceConfig
device_config = record {
  namespace_id = 1;
  name = record { address = 100; text = 47 ∷ [] };
  number_of_logical_blocks = 1000;
  logical_block_size = 512;
}

abbrev server_on : ℤ → BlockServer
server_on fd = record {
  blk_fd = fd;
  config = device_config;
  time_on_allocation = pos 0;
  time_on_rw = pos 0;
  time_total = pos 0;
}

abbrev fresh_process : Machine Call Reply Process
fresh_process = boot (record {
  server = server_on (pos 3);
  sync_read_args = none;
  sync_write_args = none;
  async_read_args = none;
})

abbrev request_of : ℕ → List ℕ → BlockRequest
request_of size bytes = record { size = pos size; start_block = pos 8; bytes = bytes }

abbrev six_hundred : BlockRequest
six_hundred = request_of 600 (replicate 600 7)

abbrev too_long : BlockRequest
too_long = request_of 600 (replicate 1112 7)

write_block-read_block-Handles_example :
    let m : ℕ = 65536 in
    let request = too_long in
    let os = good_device in
    let s = fresh_process in
    Handles
      (write_args m request os s)
      (write_command m request os s)
      (answer m request os s (write_command m request os s))
      request
      s
      (write_block m request os s)
    × Handles
        (read_args m request os s)
        (read_command m request os s)
        (answer m request os s (read_command m request os s))
        request
        s
        (read_block m request os s)
write_block-read_block-Handles_example =
    write_block-read_block-Handles 65536 too_long good_device fresh_process

first_write_fits : (write_block 65536 six_hundred good_device fresh_process).0 ≢ done overflowed
first_write_fits =
    (write_block_fits 65536 600 six_hundred good_device fresh_process (omega arith) (omega arith)
      (omega arith) refl (length-replicate {A = ℕ} 600 7)).0

second_write_fits :
    (write_block 65536 six_hundred good_device
      (served_by (server_on (pos 4)) (write_block 65536 six_hundred good_device fresh_process).1)).0
    ≢ done overflowed
second_write_fits =
    (write_block_fits 65536 600 six_hundred good_device
      (served_by (server_on (pos 4)) (write_block 65536 six_hundred good_device fresh_process).1)
      (omega arith) (omega arith) (omega arith) refl (length-replicate {A = ℕ} 600 7)).0

write_block_keeps_device_example :
    let m : ℕ = 65536 in
    let request = six_hundred in
    let request' = six_hundred in
    let other = server_on (pos 4) in
    let os = good_device in
    let s = fresh_process in
    let t = (write_block m request os s).1 in
    let u = (write_block m request' os (served_by other t)).1 in
    (args : IoArgs) × (commands u.trace ≡ nvme_write args request'.bytes ∷ commands t.trace)
    × (args.fd ≡ s.mem.server.blk_fd)
    × (args.nsid ≡ s.mem.server.config.namespace_id)
write_block_keeps_device_example =
    write_block_keeps_device 65536 six_hundred six_hundred (server_on (pos 4)) good_device
      fresh_process refl (omega arith) (omega arith) first_write_fits second_write_fits

actual_len_cases_example :
    let n : ℕ = 600 in
    let len = actual_len 65536 512 (pos n) in
    ((n ≡ 0) × (len ≡ 65536 * 512))
    ⊎ ((0 < n) × (n ≤ 65536 * 512) × (n ≤ len) × (len < n + 512) × (len % 512 ≡ 0))
    ⊎ ((65536 * 512 < n) × (len ≤ 65536 * 512))
actual_len_cases_example = actual_len_cases 65536 512 600 (omega arith) (omega arith)

init_device_config_cases_example :
    let literal : ℕ = 7 in
    let os = good_device in
    let s = boot device_config in
    let (r, t) = init_device_config literal os s in
    Yields (r, t) (pos 0)
    × (opens t.trace ≡ (device literal os s) ∷ opens s.trace)
    × (closes t.trace ≡ (device literal os s) ∷ closes s.trace)
    × (((nonzero (id_reply literal os s).ret ≡ false)
          × (nonzero (size_reply literal os s).ret ≡ false)
          × (nonzero (ns_reply literal os s).ret ≡ false)
          × (t.mem.namespace_id ≡ written (id_reply literal os s) s.mem.namespace_id)
          × (t.mem.logical_block_size ≡ written (size_reply literal os s) s.mem.logical_block_size)
          × (t.mem.number_of_logical_blocks
              ≡ written (ns_reply literal os s) s.mem.number_of_logical_blocks))
        ⊎ (((nonzero (id_reply literal os s).ret ≡ true)
              ⊎ (nonzero (size_reply literal os s).ret ≡ true)
              ⊎ (nonzero (ns_reply literal os s).ret ≡ true))
            × (t.mem.number_of_logical_blocks ≡ s.mem.number_of_logical_blocks)))
init_device_config_cases_example =
    init_device_config_cases 7 good_device (boot device_config) (λ e. omega arith)

nlb_of-block_count_example : nlb_of 65536 512 (pos 0) ≡ block_count 65536 512 (pos 0)
nlb_of-block_count_example = nlb_of-block_count 65536 512 0 (omega arith) (omega arith)

main-TestReport_example :
    let t = (init_device_config 7 good_device (boot device_config)).1 in
    let fd = (good_device t.clock (open_device t.mem.name rdwr_direct)).ret in
    TestReport 3 t.mem.logical_block_size t.mem.number_of_logical_blocks
      (local_args 65536 t.mem fd (data_size_of 3 (pos 600) t.mem))
      (main 3 65536 7 3 (pos 600) good_device (boot device_config))
main-TestReport_example = main-TestReport 3 65536 7 3 (pos 600) device_config good_device

open_server-write_block_example :
    Ensures {E = Unit {0}}
      (FirstWrite 7 device_config.name good_device device_config 65536 600 six_hundred good_device)
      (λ e t. ⊥)
      (λ t. ⊥)
      (open_server 7 device_config.name good_device (boot device_config))
open_server-write_block_example =
    open_server-write_block 7 device_config.name good_device device_config 65536 600 six_hundred
      good_device (λ e. omega arith) refl refl refl refl (omega arith) (omega arith) (omega arith)
      refl refl
