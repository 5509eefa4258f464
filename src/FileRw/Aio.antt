-- ===== src/FileRw/Aio.antt =====
-- test_small_aio and test_large_aio of src/file_rw_nvmeof.cc.
pub mod Batches
pub mod Waits
use nvmeof_project.Prelude.{
  ℕ, zero, suc, ◌+◌, ◌-◌, ltb, if◌then◌else◌, Bool, Option, none, some, ℤ, pos, is_neg, nonzero,
  nat_part, ◌+ℤ◌, ◌-ℤ◌, c_div,
}
use nvmeof_project.Outside.{◌>>=◌, ◌>>◌, call, pure, hung, for_range}
use nvmeof_project.Names.{large_file, small_file}
use nvmeof_project.FileRw.{
  Options, TestProg, open_file, close, now, start_thread, join, io_setup, prep_pwrite, io_submit,
  io_getevents, event_fd, delete_event, io_destroy, write_append_truncate, returned, terminated,
  leave_if, rounds, filled, allocate,
}

-- A completion: the file of a small test is closed, the request is deleted.
pub take_event : Bool → ℕ → TestProg (Unit {0})
take_event closes i = do
  if closes then (do fd ← call (event_fd i); call (close fd.ret); pure tt) else pure tt
  call (delete_event i)
  pure tt

-- `max_nr / 2`, on `int`s
abbrev pub half : ℤ → ℤ
half d = c_div d 2

-- The completion thread, `while (cnt < N)`; a failed call makes `cnt` smaller.
pub reap_thread : ℕ → Bool → Options → ℤ → TestProg (Unit {0})
unfolding take_event
reap_thread zero closes o cnt = λ os s. (hung, s)
reap_thread (suc fuel) closes o cnt =
    if is_neg (cnt -ℤ o.n)
    then (do
      n ← call (io_getevents (half o.queue_depth) o.queue_depth)
      for_range (take_event closes) 0 (nat_part n.ret)
      reap_thread fuel closes o (cnt +ℤ n.ret))
    else pure tt

-- One request of a batch: `prep` is the file of a small test, opened here, or the large one.
pub queue_one : Option ℤ → Options → ℕ → ℕ → TestProg (Unit {0})
unfolding leave_if
queue_one (some fd) o n cnt = do call (prep_pwrite n fd (filled o)); pure tt
queue_one none o n cnt = do
  fd ← call (open_file (small_file cnt) write_append_truncate)
  leave_if (is_neg fd.ret) terminated
  call (prep_pwrite n fd.ret (filled o))
  pure tt

-- `for (; n < queue_depth && cnt < N; n++, cnt++)`, with the requests that are left to N; it ends
-- with the size of the batch.
pub fill_batch : Option ℤ → Options → ℕ → ℕ → ℕ → TestProg ℕ
unfolding queue_one
fill_batch file o n cnt zero = pure n
fill_batch file o n cnt (suc left) =
    if ltb n (nat_part o.queue_depth)
    then (do queue_one file o n cnt; fill_batch file o (n + 1) (cnt + 1) left)
    else pure n

-- `while (cnt < N)`, with fuel. The result of io_submit is not looked at.
pub batch_loop : ℕ → Option ℤ → Options → ℕ → ℕ → TestProg (Unit {0})
unfolding fill_batch
batch_loop fuel file o cnt zero = pure tt
batch_loop zero file o cnt (suc left) = λ os s. (hung, s)
batch_loop (suc fuel) file o cnt (suc left) = do
  n ← fill_batch file o 0 cnt (suc left)
  call (io_submit n)
  batch_loop fuel file o (cnt + n) (suc left - n)

-- The set-up that both tests share.
pub setup_aio : Options → TestProg (Unit {0})
unfolding leave_if allocate
setup_aio o = do
  r ← call (io_setup 10)
  leave_if (nonzero r.ret) returned
  allocate o returned
  call start_thread
  pure tt

-- What each test does before its loop, and the large file that its requests write to.
pub start_small_aio : Options → TestProg (Option ℤ)
unfolding setup_aio
start_small_aio o = do setup_aio o; call now; pure none

pub start_large_aio : Options → TestProg (Option ℤ)
unfolding setup_aio leave_if
start_large_aio o = do
  setup_aio o
  fd ← call (open_file large_file write_append_truncate)
  leave_if (is_neg fd.ret) terminated
  call now
  pure (some fd.ret)

-- What each test does after its loop.
pub finish_aio : Option ℤ → TestProg (Unit {0})
finish_aio file = do
  join
  call io_destroy
  elim file [ none ↦ pure tt | some fd ↦ (do call (close fd); pure tt) ]
  call now
  pure tt

pub test_small_aio : ℕ → Options → TestProg (Unit {0})
unfolding start_small_aio batch_loop finish_aio
test_small_aio fuel o = do
  file ← start_small_aio o
  batch_loop fuel file o 0 (rounds o)
  finish_aio file

pub test_large_aio : ℕ → Options → TestProg (Unit {0})
unfolding start_large_aio batch_loop finish_aio
test_large_aio fuel o = do
  file ← start_large_aio o
  batch_loop fuel file o 0 (rounds o)
  finish_aio file
