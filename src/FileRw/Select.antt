-- ===== src/FileRw/Select.antt =====
-- parse_args and main of src/file_rw_nvmeof.cc: the test that the options select.
use nvmeof_project.Prelude.{ℕ, Bool, if◌then◌else◌, List, [], ◌∷◌, ℤ, wrap, ◌^◌, ◌&&◌}
use nvmeof_project.Outside.{pure}
use nvmeof_project.Names.{equal_text}
use nvmeof_project.FileRw.{Options, TestProg}
use nvmeof_project.FileRw.Blocking.{test_large_blocking, test_small_blocking}
use nvmeof_project.FileRw.Uring.{
  test_large_io_uring_poll, test_large_io_uring, test_small_io_uring, test_io_uring_exp_contention,
  test_io_uring_exp_multithreads_large,
}
use nvmeof_project.FileRw.Aio.{test_small_aio, test_large_aio}

-- What the argument parser holds after the command line was read.
pub record Arguments : Type 0 where
  pub d : ℤ
  pub b : ℤ
  pub bs : ℤ
  pub n : ℤ
  pub t : ℤ
  pub l : Bool
  pub p : Bool
  pub c : Bool
  pub r : Bool
  pub a : Bool
  pub exp : List ℕ
  pub fn : ℤ
  pub threads : ℤ

-- The two sizes are `int`s made size_t.
pub options_of : Arguments → Options
options_of args = record {
  n = args.n;
  buffer_size = wrap (2 ^ 64) args.b;
  blk_size = wrap (2 ^ 64) args.bs;
  queue_depth = args.d;
  idle_threshold = args.t;
  large = args.l;
  poll = args.p;
  closed_loop = args.c;
  test_read = args.r;
  aio = args.a;
  exprm = args.exp;
  fn = args.fn;
  numthreads = args.threads;
}

-- `exprm != ""`: "ml", or "mt" where the test of small files is empty.
pub main_experiment : ℕ → Options → TestProg (Unit {0})
unfolding equal_text
main_experiment fuel o =
    if equal_text o.exprm (b'm' ∷ b'l' ∷ [])
    then test_io_uring_exp_contention fuel o
    else (if equal_text o.exprm (b'm' ∷ b't' ∷ []) && o.large
        then test_io_uring_exp_multithreads_large o
        else pure tt)

-- The rest of main; the polling test of small files is not implemented.
pub main_plain : ℕ → Options → TestProg (Unit {0})
main_plain fuel o =
    if o.closed_loop
    then (if o.large then test_large_blocking o else test_small_blocking o)
    else (if o.large
        then (if o.aio
            then test_large_aio fuel o
            else (if o.poll then test_large_io_uring_poll fuel o else test_large_io_uring o))
        else (if o.aio
            then test_small_aio fuel o
            else (if o.poll then pure tt else test_small_io_uring fuel o)))

pub main : ℕ → Arguments → TestProg (Unit {0})
unfolding options_of main_experiment main_plain
main fuel args =
    let o = options_of args in
    if equal_text o.exprm [] then main_plain fuel o else main_experiment fuel o
