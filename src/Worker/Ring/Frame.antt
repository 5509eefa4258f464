-- ===== src/Worker/Ring/Frame.antt =====
-- src/benchmark.cc: what the io_uring side of the worker leaves alone, the two RDMA pools, the
-- end of the work, and any property of the calls that its own calls do not touch.
use nvmeof_project.Prelude.{
  ℕ, zero, suc, ◌+◌, ltb, ◌==◌, Bool, not, List, ◌∷◌, ◌≡◌, refl, ℤ, pos, negsuc, is_neg, is_pos,
  nonzero, nat_part, ◌-ℤ◌, c_div,
}
use nvmeof_project.Outside.{Machine, Os}
use nvmeof_project.Outside.Keeps.{
  Contract, callee, Keeps, Kept, kept_bind, kept_then, kept_if, kept_call, kept_modify, kept_get,
  kept_pure, kept_return, kept_function, kept_option,
}
use nvmeof_project.Worker.{
  Options, IoWorker, Iovec, Call, Reply, RmtBuf, memalign, open_test_file, fstat, fallocate,
  queue_init, now, get_sqe, prep_writev, submit, next_cqe, cqe_seen,
}
use nvmeof_project.Worker.Ring.{
  open_file_and_ring, sub_u32, reaped_one, prepared_one, runtime_exceeded, reap_loop,
  reap_io_uring_cq, reap_or_fail, get_sqe_loop, prepare_write, submit_once, submit_loop,
  submit_batch, reap_when_busy, write_block,
}

-- The fields of a worker that its ring does not touch.
pub record Aside : Type 0 where
  pub stopped : Bool
  pub rmt_buf : RmtBuf
  pub data_pool : ℕ

abbrev pub aside : IoWorker → Aside
aside w = record { stopped = w.stopped; rmt_buf = w.rmt_buf; data_pool = w.data_pool }

-- A property of these fields and of the calls made, which the calls of the ring keep.
pub record Untouched (Q : Aside → List (Call × Reply) → Type 0) : Type 0 where
  pub at_now : {a : Aside} {t : List (Call × Reply)} {r : Reply} → Q a t → Q a ((now, r) ∷ t)
  pub at_get_sqe :
      {a : Aside} {t : List (Call × Reply)} {r : Reply} → Q a t → Q a ((get_sqe, r) ∷ t)
  pub at_prep_writev :
      {a : Aside} {t : List (Call × Reply)} {r : Reply} (fd : ℤ) (offset in_flight : ℕ)
      → Q a t
      → Q a ((prep_writev fd offset in_flight, r) ∷ t)
  pub at_submit :
      {a : Aside} {t : List (Call × Reply)} {r : Reply} (queued : ℕ) (vec : Iovec)
      → Q a t
      → Q a ((submit queued vec, r) ∷ t)
  pub at_next_cqe :
      {a : Aside} {t : List (Call × Reply)} {r : Reply} (in_flight : ℕ)
      → Q a t
      → Q a ((next_cqe in_flight, r) ∷ t)
  pub at_cqe_seen :
      {a : Aside} {t : List (Call × Reply)} {r : Reply} → Q a t → Q a ((cqe_seen, r) ∷ t)
  pub at_open :
      {a : Aside} {t : List (Call × Reply)} {r : Reply} (name : List ℕ)
      → Q a t
      → Q a ((open_test_file name, r) ∷ t)
  pub at_fstat :
      {a : Aside} {t : List (Call × Reply)} {r : Reply} (fd : ℤ) → Q a t → Q a ((fstat fd, r) ∷ t)
  pub at_fallocate :
      {a : Aside} {t : List (Call × Reply)} {r : Reply} (fd : ℤ) (size : ℕ)
      → Q a t
      → Q a ((fallocate fd size, r) ∷ t)
  pub at_queue_init :
      {a : Aside} {t : List (Call × Reply)} {r : Reply} (depth : ℕ)
      → Q a t
      → Q a ((queue_init depth, r) ∷ t)
  pub at_memalign :
      {a : Aside} {t : List (Call × Reply)} {r : Reply} (align size : ℕ)
      → Q a t
      → Q a ((memalign align size, r) ∷ t)

module _ (o : Options) (os : Os Call Reply) (Q : Aside → List (Call × Reply) → Type 0)
    (untouched : Untouched Q) where
  abbrev pub Pools : Machine Call Reply IoWorker → Type 0
  Pools s = Q (aside s.mem) s.trace

  -- An early return gives `e`.
  abbrev pub ends : (E : Type 0) → E → Contract Call Reply IoWorker E
  ends E e = record { os = os; here = Pools; returned = λ x t. (x ≡ e) × Pools t; no_fuel = Pools }

  pub runtime_exceeded-Keeps : (E : Type 0) (e : E) → Keeps (ends E e) (runtime_exceeded o)
  unfolding runtime_exceeded
  runtime_exceeded-Keeps E e =
      (kept_bind (ends E e) (kept_get (ends E e)) (λ w.
        kept_bind (ends E e) (kept_call (ends E e) now (λ s p. untouched.at_now p)) (λ r.
          kept_pure (ends E e)
            (is_pos (c_div (pos r.value -ℤ pos w.start_time) 1000000000 -ℤ pos o.runtime))))).1

  abbrev reaping : Contract Call Reply IoWorker ℤ
  reaping = callee (ends ℤ (pos 0)) ℤ

  reap_loop-Keeps : (fuel min reaped : ℕ) → Keeps reaping (reap_loop fuel min reaped)
  unfolding reap_loop
  reap_loop-Keeps zero min reaped = λ s p. p
  reap_loop-Keeps (suc fuel) min reaped =
      (kept_bind reaping (kept_get reaping) (λ w.
        kept_bind reaping
          (kept_call reaping (next_cqe w.in_flight) (λ s p. untouched.at_next_cqe w.in_flight p))
          (λ r.
            kept_option reaping r.cqe
              (kept_if reaping (ltb reaped min)
                (reap_loop fuel min reaped, reap_loop-Keeps fuel min reaped)
                (kept_pure reaping (pos reaped)))
              (λ res. kept_if reaping (is_neg res) (kept_return reaping (negsuc 0) (λ s p. p)) (
                kept_then reaping (kept_call reaping cqe_seen (λ s p. untouched.at_cqe_seen p)) (
                  kept_then reaping (kept_modify reaping reaped_one (λ s p. p))
                    (reap_loop fuel min (reaped + 1), reap_loop-Keeps fuel min (reaped + 1)))))))).1

  reap_or_fail-Keeps :
      (E : Type 0) (fuel min : ℕ) (e : E) → Keeps (ends E e) (reap_or_fail fuel min e)
  unfolding reap_or_fail reap_io_uring_cq
  reap_or_fail-Keeps E fuel min e =
      (kept_bind (ends E e)
        (kept_function (ends E e) (reap_loop fuel min 0, reap_loop-Keeps fuel min 0))
        (λ n.
          kept_if (ends E e) (is_neg n) (kept_return (ends E e) e (λ s p. (refl, p)))
            (kept_pure (ends E e) tt))).1

  get_sqe_loop-Keeps :
      (E : Type 0) (fuel inner : ℕ) (e : E) → Keeps (ends E e) (get_sqe_loop fuel inner e)
  unfolding get_sqe_loop
  get_sqe_loop-Keeps E zero inner e = λ s p. p
  get_sqe_loop-Keeps E (suc fuel) inner e =
      (kept_bind (ends E e) (kept_call (ends E e) get_sqe (λ s p. untouched.at_get_sqe p)) (λ sqe.
        kept_if (ends E e) (not (sqe.value == 0)) (kept_pure (ends E e) tt) (
          kept_then (ends E e) (reap_or_fail inner 0 e, reap_or_fail-Keeps E inner 0 e)
            (get_sqe_loop fuel inner e, get_sqe_loop-Keeps E fuel inner e)))).1

  prepare_write-Keeps : (E : Type 0) (e : E) (base : ℕ) → Keeps (ends E e) (prepare_write o base)
  unfolding prepare_write
  prepare_write-Keeps E e base =
      (kept_then (ends E e)
        (kept_modify (ends E e)
          (λ w. record w { iovecs = record { iov_len = o.bs; iov_base = base } }) (λ s p. p))
        (kept_bind (ends E e) (kept_get (ends E e)) (λ w.
          kept_then (ends E e)
            (kept_call (ends E e) (prep_writev w.fd w.cur_offset w.in_flight)
              (λ s p. untouched.at_prep_writev w.fd w.cur_offset w.in_flight p))
            (kept_modify (ends E e) (prepared_one o) (λ s p. p))))).1

  submit_once-Keeps : (E : Type 0) (inner : ℕ) (e : E) → Keeps (ends E e) (submit_once inner e)
  unfolding submit_once
  submit_once-Keeps E inner e =
      (kept_bind (ends E e) (kept_get (ends E e)) (λ w.
        kept_bind (ends E e)
          (kept_call (ends E e) (submit w.io_uring_sqe_queued w.iovecs)
            (λ s p. untouched.at_submit w.io_uring_sqe_queued w.iovecs p))
          (λ r.
            kept_if (ends E e) (is_pos r.ret)
              (kept_modify (ends E e)
                (λ v. record v {
                  io_uring_sqe_queued = sub_u32 v.io_uring_sqe_queued (nat_part r.ret);
                })
                (λ s p. p))
              (reap_or_fail inner 0 e, reap_or_fail-Keeps E inner 0 e)))).1

  submit_loop-Keeps :
      (E : Type 0) (fuel inner : ℕ) (e : E) → Keeps (ends E e) (submit_loop fuel inner e)
  unfolding submit_loop
  submit_loop-Keeps E zero inner e = λ s p. p
  submit_loop-Keeps E (suc fuel) inner e =
      (kept_bind (ends E e) (kept_get (ends E e)) (λ w.
        kept_if (ends E e) (w.io_uring_sqe_queued == 0) (kept_pure (ends E e) tt) (
          kept_then (ends E e) (submit_once inner e, submit_once-Keeps E inner e)
            (submit_loop fuel inner e, submit_loop-Keeps E fuel inner e)))).1

  -- One write of the worker leaves the pools alone.
  pub write_block-Keeps :
      (E : Type 0) (inner base : ℕ) (e : E) → Keeps (ends E e) (write_block o inner base e)
  unfolding write_block submit_batch reap_when_busy
  write_block-Keeps E inner base e =
      (kept_then (ends E e) (get_sqe_loop inner inner e, get_sqe_loop-Keeps E inner inner e)
        (kept_then (ends E e) (prepare_write o base, prepare_write-Keeps E e base)
          (kept_then (ends E e)
            (kept_bind (ends E e) (kept_get (ends E e)) (λ w.
              kept_if (ends E e) (w.io_uring_sqe_queued == o.io_uring_batch_submit)
                (submit_loop inner inner e, submit_loop-Keeps E inner inner e)
                (kept_pure (ends E e) tt)))
            (kept_bind (ends E e) (kept_get (ends E e)) (λ w.
              kept_if (ends E e) (w.free_io_units_io_uring == 0)
                (reap_or_fail inner 1 e, reap_or_fail-Keeps E inner 1 e)
                (kept_pure (ends E e) tt)))))).1

  abbrev leave_if : (E : Type 0) (e : E) → Bool → Kept (ends E e) (Unit {0})
  leave_if E e test =
      kept_if (ends E e) test (kept_return (ends E e) e (λ s p. (refl, p)))
        (kept_pure (ends E e) tt)

  -- The set-up of the file and the ring leaves the pools alone.
  pub open_file_and_ring-Keeps : (E : Type 0) (e : E) → Keeps (ends E e) (open_file_and_ring o e)
  unfolding open_file_and_ring
  open_file_and_ring-Keeps E e =
      (kept_bind (ends E e)
        (kept_call (ends E e) (open_test_file o.test_file) (λ s p. untouched.at_open o.test_file p))
        (λ fd.
          kept_then (ends E e) (kept_modify (ends E e) (λ w. record w { fd = fd.ret }) (λ s p. p)) (
            kept_then (ends E e) (leave_if E e (is_neg fd.ret)) (
              kept_bind (ends E e)
                (kept_call (ends E e) (fstat fd.ret) (λ s p. untouched.at_fstat fd.ret p))
                (λ st. kept_then (ends E e) (leave_if E e (nonzero st.ret)) (
                  kept_then (ends E e)
                    (kept_if (ends E e) (st.value == o.file_size) (kept_pure (ends E e) tt) (
                      kept_bind (ends E e)
                        (kept_call (ends E e) (fallocate fd.ret o.file_size)
                          (λ s p. untouched.at_fallocate fd.ret o.file_size p))
                        (λ r. leave_if E e (nonzero r.ret))))
                    (kept_bind (ends E e)
                      (kept_call (ends E e) (queue_init o.io_uring_queue_depth)
                        (λ s p. untouched.at_queue_init o.io_uring_queue_depth p))
                      (λ r. leave_if E e (nonzero r.ret))))))))).1
