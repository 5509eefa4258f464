-- ===== src/FileRw/Uring.antt =====
-- The tests of src/file_rw_nvmeof.cc that write through io_uring, and their completion threads.

pub mod Offsets
use nvmeof_project.Prelude.{
  ℕ, zero, suc, ◌+◌, ◌*◌, ◌%◌, ◌^◌, ◌==◌, not, Bool, true, false, if◌then◌else◌, List, [], ◌∷◌,
  ◌++◌, Option, none, some, ℤ, pos, is_neg, nonzero, nat_part,
}
use nvmeof_project.Outside.{◌>>=◌, ◌>>◌, call, pure, return_now, hung, for_range}
use nvmeof_project.Names.{large_file, small_file, large_file_of, large_file_of_thread}
use nvmeof_project.FileRw.{
  Options, TestProg, Ending, open_file, close, now, start_thread, join, queue_init, register_files,
  sqring_wait, get_sqe, prep_write, link, prep_close, submit, wait_cqe, cqe_seen, queue_exit,
  write_append_truncate, read_write_append_truncate, write_only, returned, terminated,
  divided_by_zero, leave_if, rounds, filled, allocate,
}

-- One round of a completion thread. A failed wait ends the thread; that of the polling test ends at
-- a failed write as well.
pub reap_round : Bool → ℕ → TestProg (Unit {0})
unfolding leave_if
reap_round stops i = do
  r ← call wait_cqe
  leave_if (is_neg r.ret) returned
  if stops then leave_if (is_neg r.res) returned else pure tt
  call cqe_seen
  pure tt

-- The thread waits for `count` completions: N, and 2 * N in the test of small files.
pub reap_thread : Bool → ℕ → TestProg (Unit {0})
unfolding reap_round
reap_thread stops count = for_range (reap_round stops) 0 count

-- `while (!sqe) sqe = io_uring_get_sqe(&ring);` after a first call, with fuel.
pub spin_sqe : ℕ → TestProg (Unit {0})
spin_sqe zero = λ os s. (hung, s)
spin_sqe (suc fuel) = do r ← call get_sqe; if r.some_pointer then pure tt else spin_sqe fuel

-- `io_uring_queue_init_params` and its check.
pub init_ring : Options → Bool → TestProg (Unit {0})
unfolding leave_if
init_ring o sqpoll = do
  r ← call (queue_init o.queue_depth sqpoll (if sqpoll then o.idle_threshold else pos 0))
  leave_if (nonzero r.ret) returned

-- One round of test_large_io_uring_poll. Its file is registered, and written by its index 0.
pub poll_round : ℕ → Options → ℕ → TestProg (Unit {0})
unfolding leave_if spin_sqe
poll_round fuel o i = do
  r ← call sqring_wait
  leave_if (nonzero r.ret) terminated
  spin_sqe fuel
  call (prep_write true (pos 0) (filled o) 0)
  call submit
  pure tt

pub test_large_io_uring_poll : ℕ → Options → TestProg (Unit {0})
unfolding init_ring leave_if allocate poll_round
test_large_io_uring_poll fuel o = do
  init_ring o true
  fd ← call (open_file large_file write_append_truncate)
  leave_if (is_neg fd.ret) returned
  r ← call (register_files fd.ret)
  leave_if (nonzero r.ret) returned
  allocate o returned
  call start_thread
  call now
  for_range (poll_round fuel o) 0 (rounds o)
  join
  call now
  call (close fd.ret)
  call queue_exit
  pure tt

-- 10 * 1024UL * 1024 * 1024
abbrev pub filesize : ℕ
filesize = 10737418240

-- `(i * buffer_size) % filesize`, on unsigned long values
pub offset_of : Options → ℕ → ℕ
offset_of o i = i * o.buffer_size % 2 ^ 64 % filesize

-- One round of test_large_io_uring.
pub large_round : Options → ℤ → ℕ → TestProg (Unit {0})
unfolding leave_if offset_of
large_round o fd i = do
  r ← call get_sqe
  leave_if (not r.some_pointer) terminated
  call (prep_write false fd (filled o) (offset_of o i))
  call submit
  pure tt

-- What test_large_io_uring does before its loop; the file is "/mnt/test".
pub open_test_file : Options → TestProg ℤ
unfolding init_ring leave_if allocate
open_test_file o = do
  init_ring o false
  fd ←
      call
        (open_file (b'/' ∷ b'm' ∷ b'n' ∷ b't' ∷ b'/' ∷ b't' ∷ b'e' ∷ b's' ∷ b't' ∷ []) write_only)
  leave_if (is_neg fd.ret) returned
  allocate o returned
  call start_thread
  call now
  pure fd.ret

-- The thread is not joined, so its destructor ends the process at the end of the function.
pub test_large_io_uring : Options → TestProg (Unit {0})
unfolding open_test_file large_round
test_large_io_uring o = do
  fd ← open_test_file o
  for_range (large_round o fd) 0 (rounds o)
  call now
  call queue_exit
  call (close fd)
  return_now terminated

-- One round of test_small_io_uring: a write and a close, linked.
pub small_round : ℕ → Options → ℕ → TestProg (Unit {0})
unfolding leave_if spin_sqe
small_round fuel o i = do
  fd ← call (open_file (small_file i) read_write_append_truncate)
  leave_if (is_neg fd.ret) terminated
  spin_sqe fuel
  call (prep_write false fd.ret (filled o) 0)
  call link
  spin_sqe fuel
  call (prep_close fd.ret)
  call submit
  pure tt

-- Its thread waits for 2 * N completions.
pub test_small_io_uring : ℕ → Options → TestProg (Unit {0})
unfolding init_ring allocate small_round
test_small_io_uring fuel o = do
  init_ring o false
  allocate o returned
  call start_thread
  call now
  for_range (small_round fuel o) 0 (rounds o)
  join
  call now
  call queue_exit
  pure tt

-- The files `i`, `i + 1`, …, `count` of them, by their names; `fds` is what was opened before.
pub open_files : (ℕ → List ℕ) → List ℤ → ℕ → ℕ → TestProg (List ℤ)
unfolding leave_if
open_files name fds i zero = pure fds
open_files name fds i (suc count) = do
  fd ← call (open_file (name i) write_append_truncate)
  leave_if (is_neg fd.ret) terminated
  open_files name (fds ++ (fd.ret ∷ [])) (i + 1) count

-- `fds[k]`, within the array
pub nth : ℕ → List ℤ → Option ℤ
nth k [] = none
nth zero (fd ∷ fds) = some fd
nth (suc k) (fd ∷ fds) = nth k fds

-- `fds[i % n_files]`
pub pick_file : List ℤ → ℕ → ℕ → TestProg ℤ
unfolding nth
pick_file fds n_files i =
    if n_files == 0
    then return_now divided_by_zero
    else (elim (nth (i % n_files) fds) [ none ↦ return_now divided_by_zero | some fd ↦ pure fd ])

-- One round of test_io_uring_exp_contention.
pub spread_round : ℕ → Options → List ℤ → ℕ → TestProg (Unit {0})
unfolding spin_sqe pick_file
spread_round fuel o fds i = do
  spin_sqe fuel
  fd ← pick_file fds (nat_part o.fn) i
  call (prep_write false fd (filled o) 0)
  call submit
  pure tt

pub test_io_uring_exp_contention : ℕ → Options → TestProg (Unit {0})
unfolding init_ring allocate open_files spread_round
test_io_uring_exp_contention fuel o = do
  init_ring o false
  allocate o returned
  call start_thread
  fds ← open_files large_file_of [] 0 (nat_part o.fn)
  call now
  for_range (spread_round fuel o fds) 0 (rounds o)
  join
  call now
  call queue_exit
  pure tt

-- The thread `nonce` of test_io_uring_exp_multithreads_large.
pub contention_thread : ℕ → Options → ℕ → TestProg (Unit {0})
unfolding init_ring allocate open_files spread_round
contention_thread fuel o nonce = do
  init_ring o false
  allocate o returned
  call start_thread
  fds ← open_files (large_file_of_thread nonce) [] 0 (nat_part o.fn)
  for_range (spread_round fuel o fds) 0 (rounds o)
  join
  call queue_exit
  pure tt

-- The threads are started one after another and then joined.
pub test_io_uring_exp_multithreads_large : Options → TestProg (Unit {0})
test_io_uring_exp_multithreads_large o = do
  call now
  for_range (λ i. (do call start_thread; pure tt)) 0 (nat_part o.numthreads)
  for_range (λ i. join) 0 (nat_part o.numthreads)
  call now
  pure tt
