-- ===== src/Worker/Ring.antt =====
-- src/benchmark.cc: the io_uring side of the worker.
pub mod Flow
pub mod Frame
pub mod Stopped
pub mod Rounds
pub mod Run
use nvmeof_project.Prelude.{
  ℕ, zero, suc, ◌+◌, ◌-◌, ◌%◌, ◌^◌, ltb, leb, ◌==◌, if◌then◌else◌, Bool, true, none, some, ℤ, pos,
  negsuc, is_neg, is_pos, nonzero, nat_part, ◌-ℤ◌, c_div, not,
}
use nvmeof_project.Outside.{◌>>=◌, ◌>>◌, call, pure, return_now, get, modify, function, hung}
use nvmeof_project.Worker.{
  Options, IoWorker, Code, open_test_file, fstat, fallocate, memalign, now, queue_init, get_sqe,
  prep_writev, submit, next_cqe, cqe_seen,
}

abbrev pub u32 : ℕ → ℕ
u32 n = n % 2 ^ 32

abbrev pub u16 : ℕ → ℕ
u16 n = n % 2 ^ 16

abbrev pub u64 : ℕ → ℕ
u64 n = n % 2 ^ 64

-- The cast of an `int` that is not negative, subtracted from an `unsigned`.
abbrev pub sub_u32 : ℕ → ℕ → ℕ
sub_u32 a b = (a + 2 ^ 32 - b) % 2 ^ 32

-- `x--` of an `unsigned long`
abbrev pub pred_u64 : ℕ → ℕ
pred_u64 a = (a + 2 ^ 64 - 1) % 2 ^ 64

abbrev pub pagesize : ℕ
pagesize = 4096

abbrev pub out_of_fuel : {E A : Type 0} → Code E A
out_of_fuel os s = (hung, s)

-- `duration_cast<seconds>(now - start).count() > runtime`, on a clock of nanoseconds.
pub runtime_exceeded : {E : Type 0} → Options → Code E Bool
runtime_exceeded o = do
  w ← get
  r ← call now
  pure (is_pos (c_div (pos r.value -ℤ pos w.start_time) 1000000000 -ℤ pos o.runtime))

-- One completion taken: io_uring_cqe_seen and the counters.
abbrev pub reaped_one : IoWorker → IoWorker
reaped_one w = record w {
  in_flight = w.in_flight - 1;
  io_completed = u64 (w.io_completed + 1);
  free_io_units_io_uring = u64 (w.free_io_units_io_uring + 1);
}

-- Both loops of reap_io_uring_cq: `io_uring_for_each_cqe` ends when no completion is there, and the
-- outer loop starts it again while fewer than `min` were reaped.
pub reap_loop : ℕ → ℕ → ℕ → Code ℤ ℤ
reap_loop zero min reaped = out_of_fuel
reap_loop (suc fuel) min reaped = do
  w ← get
  r ← call (next_cqe w.in_flight)
  elim r.cqe [
    | none ↦ (if ltb reaped min then reap_loop fuel min reaped else pure (pos reaped))
    | some res ↦
        (if is_neg res
          then return_now (negsuc 0)
          else (do call cqe_seen; modify reaped_one; reap_loop fuel min (reaped + 1)))
  ]

pub reap_io_uring_cq : {E : Type 0} → ℕ → ℕ → Code E ℤ
unfolding reap_loop
reap_io_uring_cq fuel min = function (reap_loop fuel min 0)

-- `if (reap_io_uring_cq(worker, min) < 0) goto err;`, where `e` is what the error path returns.
pub reap_or_fail : {E : Type 0} → ℕ → ℕ → E → Code E (Unit {0})
reap_or_fail fuel min e = do
  n ← reap_io_uring_cq fuel min
  if is_neg n then return_now e else pure tt

-- The loop that reaps until a submission entry is free.
pub get_sqe_loop : {E : Type 0} → ℕ → ℕ → E → Code E (Unit {0})
get_sqe_loop zero inner e = out_of_fuel
get_sqe_loop (suc fuel) inner e = do
  sqe ← call get_sqe
  if not (sqe.value == 0) then pure tt else (do reap_or_fail inner 0 e; get_sqe_loop fuel inner e)

-- `cur_offset += bs; if (cur_offset + bs >= file_size) cur_offset = 0;`
pub next_offset : Options → ℕ → ℕ
next_offset o offset =
    let moved = u64 (offset + o.bs) in if leb o.file_size (u64 (moved + o.bs)) then 0 else moved

-- The counters after a request was prepared.
abbrev pub prepared_one : Options → IoWorker → IoWorker
prepared_one o w = record w {
  in_flight = w.in_flight + 1;
  cur_offset = next_offset o w.cur_offset;
  free_io_units_io_uring = pred_u64 w.free_io_units_io_uring;
  io_uring_sqe_queued = u32 (w.io_uring_sqe_queued + 1);
}

-- From `iovecs.iov_len = bs` to `io_uring_sqe_queued++`.
pub prepare_write : {E : Type 0} → Options → ℕ → Code E (Unit {0})
prepare_write o base = do
  modify (λ w. record w { iovecs = record { iov_len = o.bs; iov_base = base } })
  w ← get
  call (prep_writev w.fd w.cur_offset w.in_flight)
  modify (prepared_one o)

-- One submission; a busy ring is reaped.
pub submit_once : {E : Type 0} → ℕ → E → Code E (Unit {0})
submit_once inner e = do
  w ← get
  r ← call (submit w.io_uring_sqe_queued w.iovecs)
  if is_pos r.ret
      then modify
          (λ v. record v { io_uring_sqe_queued = sub_u32 v.io_uring_sqe_queued (nat_part r.ret) })
      else reap_or_fail inner 0 e

-- The loop that submits until nothing is queued.
pub submit_loop : {E : Type 0} → ℕ → ℕ → E → Code E (Unit {0})
submit_loop zero inner e = out_of_fuel
submit_loop (suc fuel) inner e = do
  w ← get
  if w.io_uring_sqe_queued == 0 then pure tt else (do submit_once inner e; submit_loop fuel inner e)

-- `if (io_uring_sqe_queued == io_uring_batch_submit)` and its body
pub submit_batch : {E : Type 0} → Options → ℕ → E → Code E (Unit {0})
submit_batch o inner e = do
  w ← get
  if w.io_uring_sqe_queued == o.io_uring_batch_submit then submit_loop inner inner e else pure tt

-- `if (free_io_units_io_uring == 0)` and its body
pub reap_when_busy : {E : Type 0} → ℕ → E → Code E (Unit {0})
reap_when_busy inner e = do
  w ← get
  if w.free_io_units_io_uring == 0 then reap_or_fail inner 1 e else pure tt

-- One write of the worker, from `base`: the body that do_io_io_uring and reap_rdma_cq share.
pub write_block : {E : Type 0} → Options → ℕ → ℕ → E → Code E (Unit {0})
write_block o inner base e = do
  get_sqe_loop inner inner e
  prepare_write o base
  submit_batch o inner e
  reap_when_busy inner e

-- The set-up that do_io_io_uring and the client of do_io_user_rdma share: the file, resized where
-- its size differs, and the ring.
pub open_file_and_ring : {E : Type 0} → Options → E → Code E (Unit {0})
open_file_and_ring o e = do
  fd ← call (open_test_file o.test_file)
  modify (λ w. record w { fd = fd.ret })
  if is_neg fd.ret then return_now e else pure tt
  st ← call (fstat fd.ret)
  if nonzero st.ret then return_now e else pure tt
  if st.value == o.file_size then pure tt else (do
    r ← call (fallocate fd.ret o.file_size)
    if nonzero r.ret then return_now e else pure tt)
  r ← call (queue_init o.io_uring_queue_depth)
  if nonzero r.ret then return_now e else pure tt

-- The main loop, a round for each unit of `rounds`.
pub io_loop : ℕ → ℕ → Options → ℕ → Code (Unit {0}) (Unit {0})
io_loop zero inner o buffer = out_of_fuel
io_loop (suc rounds) inner o buffer = do
  over ← runtime_exceeded o
  if over then pure tt else (do write_block o inner buffer tt; io_loop rounds inner o buffer)

-- The rest of do_io_io_uring, once its buffer is there.
pub timed_io : ℕ → ℕ → Options → ℕ → Code (Unit {0}) (Unit {0})
timed_io rounds inner o buffer = do
  t ← call now
  modify (λ w. record w { start_time = t.value })
  io_loop rounds inner o buffer
  modify (λ w. record w { stopped = true })

-- `stop` is `pthread_exit((void *)1)`.
pub do_io_io_uring : ℕ → ℕ → Options → Code (Unit {0}) (Unit {0})
do_io_io_uring rounds inner o = do
  open_file_and_ring o tt
  buffer ← call (memalign pagesize o.bs)
  if buffer.value == 0 then return_now tt else timed_io rounds inner o buffer.value
