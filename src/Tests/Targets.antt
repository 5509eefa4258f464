-- ===== src/Tests/Targets.antt =====
-- The block device programs of src/block_target.cc and src/block_initiator.cc.
use nvmeof_project.Prelude.{zero, suc, none, [], ◌∷◌, pos, negsuc, true, refl, sym, inl, inr}
use nvmeof_project.Outside.{Os, boot}
use nvmeof_project.Nvme.{Call, Reply, DeviceConfig, open_device, wronly_direct, recv}
use mathlib.Core.Path.{subst}
use nvmeof_project.Block.{status_unknown}
use nvmeof_project.Async.{completed, written}
use nvmeof_project.Async.Answers.{exec_first_call}
use nvmeof_project.BlockClient
use nvmeof_project.BlockClient.Served.{Prints, IsSent, main-Prints}
use nvmeof_project.BlockTarget.{target_args, test_write_throughput_random}
use nvmeof_project.BlockTarget.Writes.{TargetReport, test_write_throughput_random-TargetReport}

abbrev device_config : DeviceConfig
device_config = record {
  namespace_id = 1;
  name = record { address = 100; text = 47 ∷ [] };
  number_of_logical_blocks = 1000;
  logical_block_size = 512;
}

-- A peer that sends two bytes, then one, and is then gone.
abbrev short_peer : Os Call Reply
short_peer (suc zero) (recv size) = record { ret = pos 2; wrote = none; bytes = 5 ∷ 6 ∷ [] }
short_peer (suc (suc (suc zero))) (recv size) = record { ret = pos 1; wrote = none; bytes = 7 ∷ [] }
short_peer n (recv size) = record { ret = negsuc 0; wrote = none; bytes = [] }
short_peer n c = record { ret = pos 0; wrote = none; bytes = [] }

test_write_throughput_random-TargetReport_example :
    let fd = (short_peer 0 (open_device device_config.name wronly_direct)).ret in
    TargetReport 5 512
      (target_args 65536 device_config fd (pos 512))
      (test_write_throughput_random 5 65536 device_config (pos 512) short_peer (boot []))
test_write_throughput_random-TargetReport_example =
    test_write_throughput_random-TargetReport 5 65536 device_config (pos 512) short_peer

-- The reply of the first call that the server answers.
abbrev served : Os BlockClient.Call BlockClient.Reply
served n c = record { got = true; tag = 1; ok = true; status_ok = true; end_block = pos 114514 }

main-Prints_example :
    let s = boot tt in
    Prints s (BlockClient.main 7 2 [] (pos 0) short_peer (boot device_config) served s).1
main-Prints_example =
    let first = exec_first_call status_unknown in
    main-Prints 7 2 [] (pos 0) short_peer (boot device_config) served (boot tt) (
      inr (
        completed 0 status_unknown ∷ [],
        first.0,
        first.1,
        subst (λ sent. IsSent (written (pos 114514)) sent) (sym first.2) (inl refl),
      ))
