-- ===== src/Worker/Ring/Stopped.antt =====
-- src/benchmark.cc: the field `stopped` at each end of a worker on io_uring.
use nvmeof_project.Prelude.{
  ℕ, zero, suc, ◌≡◌, refl, ◌==◌, if◌then◌else◌, if_cases, true, false, List,
}
use nvmeof_project.Outside.{Machine, Os, Prog, return_now, modify, ◌>>=◌}
use nvmeof_project.Outside.Laws.{Ensures, bind_Ensures}
use nvmeof_project.Outside.Keeps.{
  Contract, Keeps, Kept, Meets, kept_bind, kept_then, kept_if, kept_call, kept_modify, kept_pure,
}
use nvmeof_project.Worker.{Options, IoWorker, Call, Reply, now, memalign}
use nvmeof_project.Worker.Ring.{
  pagesize, runtime_exceeded, write_block, open_file_and_ring, io_loop, timed_io, do_io_io_uring,
}
use nvmeof_project.Worker.Ring.Frame.{
  Aside, Untouched, ends, runtime_exceeded-Keeps, write_block-Keeps, open_file_and_ring-Keeps,
}

abbrev Runs : Aside → List (Call × Reply) → Type 0
Runs a t = a.stopped ≡ false

Runs-Untouched : Untouched Runs
Runs-Untouched = record {
  at_now = λ h. h;
  at_get_sqe = λ h. h;
  at_prep_writev = λ fd offset in_flight h. h;
  at_submit = λ queued vec h. h;
  at_next_cqe = λ in_flight h. h;
  at_cqe_seen = λ h. h;
  at_open = λ name h. h;
  at_fstat = λ fd h. h;
  at_fallocate = λ fd size h. h;
  at_queue_init = λ depth h. h;
  at_memalign = λ align size h. h;
}

module _ (o : Options) (os : Os Call Reply) where
  abbrev K : Contract Call Reply IoWorker (Unit {0})
  K = ends o os Runs Runs-Untouched (Unit {0}) tt

  io_loop-Keeps : (rounds inner buffer : ℕ) → Keeps K (io_loop rounds inner o buffer)
  unfolding io_loop
  io_loop-Keeps zero inner buffer = λ s p. p
  io_loop-Keeps (suc rounds) inner buffer =
      (kept_bind K
        (runtime_exceeded o, runtime_exceeded-Keeps o os Runs Runs-Untouched (Unit {0}) tt)
        (λ over. kept_if K over (kept_pure K tt) (
          kept_then K
            (
              write_block o inner buffer tt,
              write_block-Keeps o os Runs Runs-Untouched (Unit {0}) inner buffer tt,
            )
            (io_loop rounds inner o buffer, io_loop-Keeps rounds inner buffer)))).1

  -- Code that keeps `stopped` false until it sets it at its end.
  abbrev Finish : Type 0
  Finish =
      (m : Prog Call Reply IoWorker (Unit {0}) (Unit {0})) × ((s : Machine Call Reply IoWorker)
        → K.here s
        → Meets K (λ _ t. t.mem.stopped ≡ true) m s)

  abbrev before : {A : Type 0} → Kept K A → (A → Finish) → Finish
  before m f = (
    m.0 >>= λ a. (f a).0,
    λ s p.
        bind_Ensures os (λ _ t. K.here t) (λ _ t. t.mem.stopped ≡ true) K.returned K.no_fuel m.0
          (λ a. (f a).0) s (m.1 s p) (λ a t q. (f a).1 t q),
  )

  -- How a worker's thread ends on io_uring: it has set `stopped` if its loop has come to an end, and
  -- has not on an early return.
  pub do_io_io_uring-Stops :
      (rounds inner : ℕ) (s : Machine Call Reply IoWorker)
      → s.mem.stopped ≡ false
      → Ensures
          (λ _ t. t.mem.stopped ≡ true)
          (λ e t. (e ≡ tt) × (t.mem.stopped ≡ false))
          (λ t. t.mem.stopped ≡ false)
          (do_io_io_uring rounds inner o os s)
  unfolding do_io_io_uring timed_io
  do_io_io_uring-Stops rounds inner s p =
      let finish : Finish = (modify (λ w. record w { stopped = true }), λ t q. refl) in
      (before
          (open_file_and_ring o tt, open_file_and_ring-Keeps o os Runs Runs-Untouched (Unit {0}) tt)
          (λ _. before (kept_call K (memalign pagesize o.bs) (λ t q. q)) (λ buffer. (
            if buffer.value == 0 then return_now tt else timed_io rounds inner o buffer.value,
            λ t q.
                if_cases
                  (λ (m : Prog Call Reply IoWorker (Unit {0}) (Unit {0})).
                    Meets K (λ _ u. u.mem.stopped ≡ true) m t)
                  (buffer.value == 0) (return_now tt) (timed_io rounds inner o buffer.value)
                  (λ _. (refl, q))
                  (λ _.
                    (before (kept_call K now (λ u r. r)) (λ start.
                        before
                          (kept_modify K (λ w. record w { start_time = start.value }) (λ u r. r))
                          (λ _.
                            before
                              (
                                io_loop rounds inner o buffer.value,
                                io_loop-Keeps rounds inner buffer.value,
                              )
                              (λ _. finish)))).1
                      t q),
          )))).1
        s p
