-- ===== src/Worker/Launch.antt =====
-- src/benchmark.cc: launch_worker, set_worker_cpu, and what parse_args makes of the numbers.
use nvmeof_project.Prelude.{
  ℕ, ◌*◌, ◌%◌, ◌^◌, Bool, true, false, if◌then◌else◌, not, nonzero, ℤ, pos, wrap,
}
use nvmeof_project.Outside.{◌>>=◌, ◌>>◌, call, pure, return_now, modify, function}
use nvmeof_project.Worker.{Options, IoWorker, Code, pthread_create, set_affinity, free_worker}

-- `memset(worker, 0, sizeof(worker))` clears as many bytes as a pointer has: `worker_id` and no
-- other field. Then six fields are set; the rest is what malloc found.
unfoldable pub initial_worker : Options → IoWorker → IoWorker
initial_worker o garbage =
    let w = record garbage {
      free_io_units_io_uring = o.io_uring_queue_depth;
      free_io_units_rdma = o.rdma_queue_depth;
      rdma_wr_posted = 0;
      worker_id = 0;
      stopped = false;
    } in
    if not o.client then record w { data_pool_size = 33554432 } else w

unfoldable pub set_worker_cpu : {E : Type 0} → ℕ → Code E ℤ
set_worker_cpu cpu = do r ← call (set_affinity cpu); pure (if nonzero r.ret then pos 1 else pos 0)

-- The worker's memory before the call is the machine's; the result says whether a worker was
-- returned. The thread runs by then, on the same memory.
unfoldable pub launch_worker : {E : Type 0} → Options → ℕ → Code E Bool
unfolding set_worker_cpu initial_worker
launch_worker o cpu = function (do
  modify (initial_worker o)
  call (pthread_create o.user_rdma)
  r ← set_worker_cpu cpu
  if nonzero r then (do call free_worker; return_now false) else pure true)

abbrev pub kb : ℕ
kb = 1024

abbrev pub gb : ℕ
gb = 1073741824

-- The two sizes in parse_args: an `int` times an `unsigned`, and an `int` times an `unsigned long`.
unfoldable pub parsed_bs : ℤ → ℕ
parsed_bs arg = wrap (2 ^ 32) arg * kb % 2 ^ 32

unfoldable pub parsed_file_size : ℤ → ℕ
parsed_file_size arg = wrap (2 ^ 64) arg * gb % 2 ^ 64
