-- ===== src/Worker/Main.antt =====
-- src/benchmark.cc: parse_args and main.
pub mod Ends
use nvmeof_project.Prelude.{
  ℕ, ◌==◌, ◌^◌, Bool, if◌then◌else◌, not, Option, none, some, List, ℤ, pos, wrap,
}
use nvmeof_project.Outside.{Prog, ◌>>=◌, ◌>>◌, call, pure, return_now}
use nvmeof_project.Worker.{Options, IoWorker, Code, create_monitor, join_worker, join_thread}
use nvmeof_project.Worker.Ring.{do_io_io_uring}
use nvmeof_project.Worker.Cm.{Keys}
use nvmeof_project.Worker.Rdma.{do_io_user_rdma}
use nvmeof_project.Worker.Launch.{parsed_bs, parsed_file_size, launch_worker}

-- What the argument parser holds after it has read the command line; the two depths and the port,
-- which stay `int`s, are not negative.
pub record Arguments : Type 0 where
  pub bs : ℤ
  pub file : List ℕ
  pub iouring_qd : ℕ
  pub rdma_qd : ℕ
  pub runtime : ℤ
  pub filesize : ℤ
  pub iouring_batch_submit : ℤ
  pub rdma_batch_submit : ℤ
  pub client : Bool
  pub host : List ℕ
  pub port : ℕ
  pub user_rdma : Bool
  pub event : Bool

pub options_of : Arguments → Options
options_of args = record {
  bs = parsed_bs args.bs;
  io_uring_batch_submit = wrap (2 ^ 32) args.iouring_batch_submit;
  rdma_batch_submit = wrap (2 ^ 32) args.rdma_batch_submit;
  test_file = args.file;
  file_size = parsed_file_size args.filesize;
  io_uring_queue_depth = args.iouring_qd;
  rdma_queue_depth = args.rdma_qd;
  runtime = wrap (2 ^ 32) args.runtime;
  client = args.client;
  user_rdma = args.user_rdma;
  host = args.host;
  base_port = args.port;
  event = args.event;
}

-- The options, or none for the result 1: without an argument, or when the parser throws (no
-- `Arguments`).
pub parse_args : ℕ → Option Arguments → Option Options
parse_args argc read =
    if argc == 1 then none else elim read [ none ↦ none | some args ↦ some (options_of args) ]

-- The thread that launch_worker starts.
pub worker_thread : ℕ → ℕ → Options → Keys → Code (Unit {0}) (Unit {0})
worker_thread rounds inner o keys =
    if o.user_rdma then do_io_user_rdma rounds inner o keys else do_io_io_uring rounds inner o

-- How `main` ends: it returns, or it reads `tid` through the NULL of a failed launch_worker.
pub data MainExit : Type 0 where
  null_worker : MainExit

-- The handle of the monitor is overwritten with what pthread_create returns.
pub run_benchmark : Options → Code MainExit ℤ
run_benchmark o = do
  launched ← launch_worker o 0
  monitor ← call (create_monitor launched)
  if not launched then return_now null_worker else pure tt
  call join_worker
  call (join_thread monitor.ret)
  pure (pos 0)

-- `if (parse_args(argc, argv)) return 1;` and the rest.
pub run_parsed : Option Options → Code MainExit ℤ
run_parsed none = pure (pos 1)
run_parsed (some o) = run_benchmark o

pub main : ℕ → Option Arguments → Code MainExit ℤ
main argc read = run_parsed (parse_args argc read)
