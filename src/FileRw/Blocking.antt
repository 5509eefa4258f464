-- ===== src/FileRw/Blocking.antt =====
-- test_large_blocking and test_small_blocking of src/file_rw_nvmeof.cc.
pub mod Files
pub mod Small
use nvmeof_project.Prelude.{ℕ, zero, suc, ◌+◌, is_neg, nonzero, ℤ}
use nvmeof_project.Outside.{◌>>=◌, ◌>>◌, call, pure, for_range}
use nvmeof_project.Names.{large_file, small_file}
use nvmeof_project.FileRw.{
  Options, TestProg, open_file, write, close, now, write_append_truncate,
  read_write_append_truncate, returned, leave_if, rounds, filled, allocate,
}

-- One write of the buffer.
pub large_round : Options → ℤ → ℕ → TestProg (Unit {0})
unfolding leave_if
large_round o fd i = do r ← call (write fd (filled o)); leave_if (is_neg r.ret) returned

-- What test_large_blocking does before its loop.
pub open_large : Options → TestProg ℤ
unfolding leave_if allocate
open_large o = do
  fd ← call (open_file large_file write_append_truncate)
  leave_if (is_neg fd.ret) returned
  allocate o returned
  call now
  pure fd.ret

pub test_large_blocking : Options → TestProg (Unit {0})
unfolding open_large large_round
test_large_blocking o = do
  fd ← open_large o
  for_range (large_round o fd) 0 (rounds o)
  call now
  call (close fd)
  pure tt

-- One round: the file `i` is made, written and closed.
pub small_round : Options → ℕ → TestProg (Unit {0})
unfolding leave_if
small_round o i = do
  fd ← call (open_file (small_file i) read_write_append_truncate)
  leave_if (is_neg fd.ret) returned
  r ← call (write fd.ret (filled o))
  leave_if (is_neg r.ret) returned
  r ← call (close fd.ret)
  leave_if (nonzero r.ret) returned

pub start_small : Options → TestProg (Unit {0})
unfolding allocate
start_small o = do allocate o returned; call now; pure tt

pub test_small_blocking : Options → TestProg (Unit {0})
unfolding start_small small_round
test_small_blocking o = do start_small o; for_range (small_round o) 0 (rounds o); call now; pure tt
