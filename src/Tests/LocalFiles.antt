-- ===== src/Tests/LocalFiles.antt =====
-- The tests of src/file_rw_nvmeof.cc with two rounds.
use nvmeof_project.Prelude.{ℕ, length, refl, true, false, [], negsuc, pos, arith}
use nvmeof_project.Outside.{Os, boot}
use nvmeof_project.Outside.Laws.{Ensures}
use nvmeof_project.FileRw.{Options, Call, Reply, write, io_submit}
use nvmeof_project.FileRw.Trace.{offsets}
use nvmeof_project.FileRw.Blocking.{test_large_blocking, test_small_blocking}
use nvmeof_project.FileRw.Blocking.Files.{LargeReport, first_fd, test_large_blocking-LargeReport}
use nvmeof_project.FileRw.Blocking.Small.{Written, PartlyWritten, test_small_blocking-Written}
use nvmeof_project.FileRw.Uring.{test_large_io_uring}
use nvmeof_project.FileRw.Uring.Offsets.{
  LargeEnds, AllFit, test_large_io_uring-LargeEnds, test_large_io_uring-AllFit,
}
use nvmeof_project.FileRw.Aio.Waits.{Waits}
use nvmeof_project.FileRw.Aio.{test_small_aio, test_large_aio}
use nvmeof_project.FileRw.Aio.Batches.{
  AllSubmitted, SmallBatches, WaitsForThread, aio_tests-AllSubmitted,
}

abbrev local_options : Options
local_options = record {
  n = pos 2;
  buffer_size = 4096;
  blk_size = 512;
  queue_depth = pos 8;
  idle_threshold = pos 2000;
  large = true;
  poll = false;
  closed_loop = true;
  test_read = false;
  aio = false;
  exprm = [];
  fn = pos 1;
  numthreads = pos 1;
}

abbrev reply_of : ℕ → Reply
reply_of n = record { ret = pos n; res = pos 4096; some_pointer = true; ended = true }

-- All bytes are written, all requests are submitted, and every other call returns 0.
abbrev quiet_system : Os Call Reply
quiet_system n (write fd bytes) = reply_of (length bytes)
quiet_system n (io_submit count) = reply_of count
quiet_system n _ = reply_of 0

test_large_blocking-LargeReport_example :
    LargeReport local_options
      (first_fd quiet_system)
      (test_large_blocking local_options quiet_system (boot tt))
test_large_blocking-LargeReport_example = test_large_blocking-LargeReport local_options quiet_system

test_small_blocking-Written_example :
    Ensures
      (λ _ t. Written local_options 2 t)
      (PartlyWritten local_options)
      (λ t. ⊥)
      (test_small_blocking local_options quiet_system (boot tt))
test_small_blocking-Written_example = test_small_blocking-Written local_options quiet_system

test_large_io_uring-LargeEnds_example :
    Ensures
      (λ _ t. ⊥)
      (LargeEnds local_options)
      (λ t. ⊥)
      (test_large_io_uring local_options quiet_system (boot tt))
test_large_io_uring-LargeEnds_example = test_large_io_uring-LargeEnds local_options quiet_system

test_large_io_uring-AllFit_example :
    Ensures
      (λ _ t. ⊥)
      (λ e t. AllFit local_options (offsets t.trace))
      (λ t. ⊥)
      (test_large_io_uring local_options quiet_system (boot tt))
test_large_io_uring-AllFit_example =
    test_large_io_uring-AllFit local_options 2621440 (omega arith) refl (omega arith) quiet_system

-- No request is taken, so none completes.
abbrev refusing_system : Os Call Reply
refusing_system n (io_submit count) = record (reply_of 0) { ret = negsuc 10 }
refusing_system n _ = reply_of 0

aio_tests-AllSubmitted_example :
    Ensures
      (λ _ t. AllSubmitted local_options t)
      (SmallBatches local_options)
      (WaitsForThread local_options)
      (test_small_aio 2 local_options quiet_system (boot tt))
    × Ensures
        (λ _ t. AllSubmitted local_options t)
        (SmallBatches local_options)
        (WaitsForThread local_options)
        (test_large_aio 2 local_options quiet_system (boot tt))
aio_tests-AllSubmitted_example =
    aio_tests-AllSubmitted 2 local_options quiet_system (omega arith) (omega arith)
