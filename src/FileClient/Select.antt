-- ===== src/FileClient/Select.antt =====
-- parse_args and main of src/file_initiator.cc: the test that the options select.
use nvmeof_project.Prelude.{ℕ, if◌then◌else◌, Bool, List, [], ◌∷◌, ℤ, wrap, ◌^◌, ◌&&◌}
use nvmeof_project.Outside.{pure}
use nvmeof_project.Names.{equal_text}
use nvmeof_project.FileClient.{
  Options, ClientProg, test_large_blocking, test_small_blocking, test_small_async, test_large_async,
  test_large_async_expr, test_large_async_multithreads,
}

-- What the argument parser holds after the command line was read.
pub record Arguments : Type 0 where
  pub d : ℤ
  pub b : ℤ
  pub bs : ℤ
  pub n : ℤ
  pub t : ℤ
  pub l : Bool
  pub p : Bool
  pub c : Bool
  pub r : Bool
  pub addr : List ℕ
  pub port : ℤ
  pub exp : List ℕ
  pub fn : ℤ
  pub threads : ℤ

-- The two sizes are `int`s made size_t.
pub options_of : Arguments → Options
options_of args = record {
  server_addr = args.addr;
  server_port = args.port;
  buffer_size = wrap (2 ^ 64) args.b;
  blk_size = wrap (2 ^ 64) args.bs;
  n = args.n;
  queue_depth = args.d;
  idle_threshold = args.t;
  large = args.l;
  poll = args.p;
  closed_loop = args.c;
  test_read = args.r;
  exprm = args.exp;
  fn = args.fn;
  numthreads = args.threads;
}

-- `exprm != ""`: "ml", or "mt" where the test of small files is empty.
pub main_experiment : Options → List ℕ → ClientProg (Unit {0})
unfolding equal_text
main_experiment o behind =
    if equal_text o.exprm (b'm' ∷ b'l' ∷ [])
    then test_large_async_expr o behind
    else (if equal_text o.exprm (b'm' ∷ b't' ∷ []) && o.large
        then test_large_async_multithreads o
        else pure tt)

pub main : Arguments → List ℕ → ClientProg (Unit {0})
unfolding options_of main_experiment
main args behind =
    let o = options_of args in
    if equal_text o.exprm []
    then (if o.closed_loop
        then (if o.large then test_large_blocking o behind else test_small_blocking o behind)
        else (if o.large then test_large_async o behind else test_small_async o behind))
    else main_experiment o behind
