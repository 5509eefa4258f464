-- ===== src/Tests/Workers.antt =====
-- The benchmark's worker of src/benchmark.cc, with a file of four blocks and a ring of depth 2.
use nvmeof_project.Prelude.{
  ℕ, suc, ◌+◌, ◌*◌, ◌≡◌, refl, true, false, none, some, [], ◌∷◌, pos, negsuc, arith,
}
use nvmeof_project.Outside.{Machine, Os, done, hung, boot}
use nvmeof_project.Outside.Laws.{Ensures}
use nvmeof_project.Worker.{
  Options, RmtBuf, IoWorker, Call, Reply, other_event, now, submit, next_cqe, poll_cq,
}
use nvmeof_project.Worker.Ring.{do_io_io_uring}
use nvmeof_project.Worker.Ring.Flow.{Quiet, Writes, free}
use nvmeof_project.Worker.Launch.{kb, gb, initial_worker}
use nvmeof_project.Worker.Cm.{Keys, rdma_setup, poll_one}
use nvmeof_project.Worker.Cm.Handles.{IsSetUp, rdma_setup-IsSetUp}
use nvmeof_project.Worker.Cm.Polling.{poll_one_never_ends}
use nvmeof_project.Worker.Rdma.{client_io}
use nvmeof_project.Worker.Rdma.Pools.{InPools, client_io-InPools}
use nvmeof_project.Worker.Monitor
use nvmeof_project.Worker.Monitor.{load_stopped, load_io_completed, calculate_stats}
use nvmeof_project.Worker.Monitor.Rates.{
  Rates, calculate_stats-Rates, do_io_io_uring-calculate_stats,
}
use nvmeof_project.Worker.Main.{Arguments, options_of, parse_args, worker_thread, main}
use nvmeof_project.Worker.Main.Ends.{MainEnds, main-MainEnds, worker_thread-Writes}

abbrev options : Options
options = record {
  bs = 4096;
  io_uring_batch_submit = 1;
  rdma_batch_submit = 1;
  test_file = 47 ∷ [];
  file_size = 16384;
  io_uring_queue_depth = 2;
  rdma_queue_depth = 2;
  runtime = 1;
  client = true;
  user_rdma = true;
  host = 49 ∷ [];
  base_port = 9000;
  event = false;
}

abbrev buf : ℕ → RmtBuf
buf addr = record { addr = addr; size = 32768; rkey = 5 }

abbrev cleared : IoWorker
cleared = record {
  worker_id = 0;
  in_flight = 0;
  io_uring_sqe_queued = 0;
  rdma_wr_posted = 0;
  cur_offset = 0;
  io_completed = 0;
  free_io_units_io_uring = 0;
  free_io_units_rdma = 0;
  fd = pos 3;
  stopped = false;
  start_time = 0;
  cm_id = 1;
  cm_listen_id = 0;
  comp_channel = 0;
  cm_channel = 0;
  cq = 6;
  pd = 0;
  qp = 0;
  rmt_buf = buf 65536;
  data_pool = 1048576;
  data_pool_size = 32768;
  data_pool_mr = 0;
  port = 9000;
  iovecs = record { iov_len = 0; iov_base = 0 };
}

abbrev plain : Reply
plain = record {
  ret = pos 0;
  value = 8;
  cqe = none;
  cm_event = other_event;
  wcs = [];
  token = buf 0;
}

-- Every submission takes one request, whatever is in flight completes at once, a second passes with
-- each call, and polls fail.
abbrev kernel : Os Call Reply
kernel n now = record plain { value = n * 1000000000 }
kernel n (submit queued iovec) = record plain { ret = pos 1 }
kernel n (next_cqe (suc in_flight)) = record plain { cqe = some (pos 4096) }
kernel n (poll_cq cq entries) = record plain { ret = negsuc 0 }
kernel n _ = plain

kernel-Quiet : Quiet kernel
kernel-Quiet n = refl

rdma_setup-IsSetUp_example : IsSetUp (rdma_setup options kernel (boot cleared))
rdma_setup-IsSetUp_example = rdma_setup-IsSetUp options kernel (boot cleared)

poll_one_never_ends_example : (poll_one 50 kernel (boot cleared)).0 ≡ hung
poll_one_never_ends_example = poll_one_never_ends kernel 50 (boot cleared) (λ n. refl)

abbrev keys : Keys
keys = record { lkey = λ mr. mr + 1; rkey = λ mr. mr + 2; token_addr = 512 }

client_io-InPools_example :
    let s = boot cleared in
    let start = cleared in
    Ensures {E = Unit {0}}
      (λ _ t. InPools options kernel start.rmt_buf start.data_pool t)
      (λ _ t. InPools options kernel start.rmt_buf start.data_pool t)
      (InPools options kernel start.rmt_buf start.data_pool)
      (client_io 9 9 options keys kernel s)
client_io-InPools_example =
    client_io-InPools options kernel keys 9 9 (boot cleared)
      (record {
        block = omega arith;
        small = omega arith;
        remote_end = omega arith;
        local_end = omega arith;
      })
      tt

abbrev arguments : Arguments
arguments = record {
  bs = pos 4;
  file = 47 ∷ [];
  iouring_qd = 2;
  rdma_qd = 2;
  runtime = pos 1;
  filesize = pos 1;
  iouring_batch_submit = pos 1;
  rdma_batch_submit = pos 1;
  client = true;
  host = 49 ∷ [];
  port = 9000;
  user_rdma = false;
  event = false;
}

worker_thread-Writes_example :
    let o = options_of arguments in
    let t = (worker_thread 9 9 o keys kernel (boot (initial_worker o cleared))).1 in
    let n : ℕ = 4 in
    let g : ℕ = 1 in
    (o.bs ≡ n * kb)
    × (o.file_size ≡ g * gb)
    × Writes o t.trace
    × (free t + t.mem.in_flight ≡ arguments.iouring_qd)
worker_thread-Writes_example =
    worker_thread-Writes arguments kernel keys cleared 9 9 4 1 kernel-Quiet refl refl (omega arith)
      (omega arith) (omega arith) (omega arith) (omega arith) refl refl

main-MainEnds_example :
    MainEnds kernel
      (boot cleared)
      (main 3 (some arguments) kernel (boot cleared))
      (parse_args 3 (some arguments))
main-MainEnds_example = main-MainEnds kernel (boot cleared) 3 (some arguments)

abbrev local_options : Options
local_options = record options { user_rdma = false }

-- Five completions and two seconds after every start, and `stopped` as the worker left it.
abbrev watches : Machine Call Reply IoWorker → Os Monitor.Call Monitor.Reply
watches t n load_stopped = record { flag = t.mem.stopped; value = 0 }
watches t n load_io_completed = record { flag = false; value = 5 }
watches t n Monitor.now = record { flag = false; value = 2000000000 }
watches t n _ = record { flag = false; value = 0 }

do_io_io_uring-calculate_stats_example :
    let m = boot tt in
    Ensures
      (λ _ t. (calculate_stats 4 local_options (watches t) m).0 ≡ done tt)
      (λ _ t. (calculate_stats 3 local_options (watches t) m).0 ≡ hung)
      (λ t. (calculate_stats 3 local_options (watches t) m).0 ≡ hung)
      (do_io_io_uring 9 9 local_options kernel (boot cleared))
do_io_io_uring-calculate_stats_example =
    do_io_io_uring-calculate_stats local_options kernel 9 9 3 (boot cleared) watches (boot tt) refl
      refl (λ t n. refl)

calculate_stats-Rates_example :
    Rates (calculate_stats 3 local_options (watches (boot cleared)) (boot tt)).1.trace
calculate_stats-Rates_example =
    calculate_stats-Rates 3 local_options (watches (boot cleared)) (boot tt) tt
