-- ===== src/Worker/Ring/Run.antt =====
-- src/benchmark.cc: every request of do_io_io_uring is within the file and the queue's depth.
use native.Mathlib.Nat.{zero-mod}
use nvmeof_project.Prelude.{
  ℕ, zero, suc, ◌+◌, ◌<◌, ◌^◌, ◌≡◌, refl, ◌∷◌, true, ◌==◌, if◌then◌else◌, if_cases, arith,
}
use nvmeof_project.Outside.{
  Machine, Exit, Os, Prog, done, stop, hung, ◌>>=◌, ◌>>◌, call, pure, return_now, modify, boot,
}
use nvmeof_project.Outside.Laws.{Ensures, bind_Ensures}
use nvmeof_project.Worker.{Options, IoWorker, Call, Reply, now, memalign}
use nvmeof_project.Worker.Launch.{initial_worker}
use nvmeof_project.Worker.Ring.{
  pagesize, write_block, io_loop, timed_io, runtime_exceeded, do_io_io_uring, open_file_and_ring,
}
use nvmeof_project.Worker.Ring.Flow.{Quiet, Writes, Inv, free, Fails}
use nvmeof_project.Worker.Ring.Rounds.{Ready, kept, then_Ensures, write_block-Ready}

module _ (o : Options) (os : Os Call Reply) (quiet : Quiet os) where
  pub runtime_exceeded-Ready :
      (E : Type 0) (s : Machine Call Reply IoWorker)
      → Inv o s
      → 0 < free s
      → Ensures {E = E}
          (λ _ t. Ready o os quiet tt t)
          (Fails o os quiet)
          (Inv o)
          (runtime_exceeded o os s)
  unfolding runtime_exceeded
  runtime_exceeded-Ready E s h room = (kept o os quiet s _ refl refl refl refl h, room)

  pub io_loop-Inv :
      (rounds inner buffer : ℕ) (s : Machine Call Reply IoWorker)
      → Inv o s
      → 0 < free s
      → Ensures (λ _ t. Inv o t) (Fails o os quiet) (Inv o) (io_loop rounds inner o buffer os s)
  unfolding io_loop
  io_loop-Inv zero inner buffer s h room = h
  io_loop-Inv (suc rounds) inner buffer s h room =
      bind_Ensures os (λ _ t. Ready o os quiet tt t) (λ _ t. Inv o t) (Fails o os quiet) (Inv o)
        (runtime_exceeded o)
        (λ over.
          if over
          then pure tt
          else (do write_block o inner buffer tt; io_loop rounds inner o buffer))
        s (runtime_exceeded-Ready (Unit {0}) s h room)
        (λ over t q.
          if_cases
            (λ (m : Prog Call Reply IoWorker (Unit {0}) (Unit {0})).
              Ensures (λ _ u. Inv o u) (Fails o os quiet) (Inv o) (m os t))
            over (pure tt) (do write_block o inner buffer tt; io_loop rounds inner o buffer)
            (λ _. q.0)
            (λ _.
              then_Ensures o os quiet (λ _ u. Ready o os quiet tt u) (λ _ u. Inv o u)
                (write_block o inner buffer tt) (io_loop rounds inner o buffer) t
                (write_block-Ready o os quiet (Unit {0}) inner buffer tt t q.0 q.1)
                (λ u a k. io_loop-Inv rounds inner buffer u k.0 k.1)))

  pub open_file_and_ring-Ready :
      (s : Machine Call Reply IoWorker)
      → Inv o s
      → 0 < free s
      → Ensures
          (λ _ t. Ready o os quiet tt t)
          (Fails o os quiet)
          (Inv o)
          (open_file_and_ring o tt os s)
  unfolding open_file_and_ring
  open_file_and_ring-Ready s h room = ground arith

  timed_io-Inv :
      (rounds inner buffer : ℕ) (s : Machine Call Reply IoWorker)
      → Inv o s
      → 0 < free s
      → Ensures (λ _ t. Inv o t) (Fails o os quiet) (Inv o) (timed_io rounds inner o buffer os s)
  unfolding timed_io
  timed_io-Inv rounds inner buffer s h room =
      let u : Machine Call Reply IoWorker = record s {
        clock = suc s.clock;
        trace = (now, os s.clock now) ∷ s.trace;
        mem = record s.mem { start_time = (os s.clock now).value };
      } in
      then_Ensures o os quiet (λ _ t. Inv o t) (λ _ t. Inv o t) (io_loop rounds inner o buffer)
        (modify (λ w. record w { stopped = true })) u
        (io_loop-Inv rounds inner buffer u (kept o os quiet s u refl refl refl refl h) room)
        (λ t a k. kept o os quiet t _ refl refl refl refl k)

  do_io_io_uring-Inv :
      (rounds inner : ℕ) (s : Machine Call Reply IoWorker)
      → Inv o s
      → 0 < free s
      → Ensures (λ _ t. Inv o t) (Fails o os quiet) (Inv o) (do_io_io_uring rounds inner o os s)
  unfolding do_io_io_uring
  do_io_io_uring-Inv rounds inner s h room =
      then_Ensures o os quiet (λ _ t. Ready o os quiet tt t) (λ _ t. Inv o t)
        (open_file_and_ring o tt)
        (do
          buffer ← call (memalign pagesize o.bs)
          if buffer.value == 0 then return_now tt else timed_io rounds inner o buffer.value)
        s (open_file_and_ring-Ready s h room)
        (λ t a q.
          let r = os t.clock (memalign pagesize o.bs) in
          let u : Machine Call Reply IoWorker = record t {
            clock = suc t.clock;
            trace = (memalign pagesize o.bs, r) ∷ t.trace;
          } in
          let same : Inv o u = kept o os quiet t u refl refl refl refl q.0 in
          if_cases
            (λ (m : Prog Call Reply IoWorker (Unit {0}) (Unit {0})).
              Ensures (λ _ v. Inv o v) (Fails o os quiet) (Inv o) (m os u))
            (r.value == 0) (return_now tt) (timed_io rounds inner o r.value) (λ _. same)
            (λ _. timed_io-Inv rounds inner r.value u same q.1))

  pub end-Inv :
      (out : Exit (Unit {0}) (Unit {0}) × Machine Call Reply IoWorker)
      → Ensures (λ _ t. Inv o t) (Fails o os quiet) (Inv o) out
      → Inv o out.1
  end-Inv (done a, t) h = h
  end-Inv (stop e, t) h = h
  end-Inv (hung, t) h = h

-- A worker as it was launched satisfies the invariant, with a free unit.
pub launched-Inv :
    (o : Options) (garbage : IoWorker)
    → 0 < o.io_uring_queue_depth
    → o.io_uring_queue_depth < 2 ^ 64
    → o.bs < o.file_size
    → o.file_size < 2 ^ 63
    → garbage.cur_offset ≡ 0
    → garbage.in_flight ≡ 0
    → let s = boot (initial_worker o garbage) in Inv o s × (0 < free s)
unfolding initial_worker
launched-Inv o garbage some depth fits file zero_offset idle = (
  record {
    depth = depth;
    file = file;
    flow = ground arith;
    fits = fits;
    offset = ground arith;
    aligned = ground (arith, zero-mod o.bs);
    writes = tt;
  },
  ground arith,
)

pub do_io_io_uring-Writes :
    (o : Options) (os : Os Call Reply) (garbage : IoWorker) (rounds inner : ℕ)
    → Quiet os
    → 0 < o.io_uring_queue_depth
    → o.io_uring_queue_depth < 2 ^ 64
    → o.bs < o.file_size
    → o.file_size < 2 ^ 63
    → garbage.cur_offset ≡ 0
    → garbage.in_flight ≡ 0
    → let t = (do_io_io_uring rounds inner o os (boot (initial_worker o garbage))).1 in
      Writes o t.trace × (free t + t.mem.in_flight ≡ o.io_uring_queue_depth)
do_io_io_uring-Writes o os garbage rounds inner quiet some depth fits file zero_offset idle =
    let s = boot (initial_worker o garbage) in
    let p = launched-Inv o garbage some depth fits file zero_offset idle in
    let end =
      end-Inv o os quiet (do_io_io_uring rounds inner o os s)
        (do_io_io_uring-Inv o os quiet rounds inner s p.0 p.1) in
    (end.writes, end.flow)
