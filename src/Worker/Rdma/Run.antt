-- ===== src/Worker/Rdma/Run.antt =====
-- src/benchmark.cc: the whole of do_io_user_rdma, from the launch of the worker to its end.
use nvmeof_project.Prelude.{
  ℕ, ◌+◌, ◌<◌, ◌^◌, ◌≡◌, refl, ap, ◌∙◌, ◌%◌, ◌==◌, Bool, not, is_neg, nonzero, nat_part, arith,
}
use nvmeof_project.Outside.{Machine, Os, Prog, boot}
use nvmeof_project.Outside.Laws.{Ensures-mono}
use nvmeof_project.Outside.Keeps.{
  Contract, after_call, Keeps, Kept, kept_bind, kept_then, kept_if, kept_call, kept_get, kept_pure,
  kept_return,
}
use nvmeof_project.Worker.{
  Options, IoWorker, Call, Reply, post_recv, get_cq_event, poll_cq, ack_cq_events,
}
use nvmeof_project.Worker.Launch.{initial_worker}
use nvmeof_project.Worker.Ring.Flow.{Quiet, Writes, Inv, free, Fails}
use nvmeof_project.Worker.Ring.Rounds.{kept}
use nvmeof_project.Worker.Ring.Run.{end-Inv, launched-Inv}
use nvmeof_project.Worker.Cm.{Keys, rdma_setup, rdma_handshake}
use nvmeof_project.Worker.Cm.Flow.{Same, same, rdma_setup-Same, rdma_handshake-Same}
use nvmeof_project.Worker.Rdma.{serve, client_io, do_io_user_rdma}
use nvmeof_project.Worker.Rdma.Frame.{outer}
use nvmeof_project.Worker.Rdma.Flow.{IsReady, IsReady-Rules, client_io-IsReady}

module _ (o : Options) (os : Os Call Reply) (quiet : Quiet os) (keys : Keys) where
  abbrev K : Contract Call Reply IoWorker (Unit {0})
  K = outer o os (IsReady o os quiet) (Inv o) (IsReady-Rules o os quiet)

  Same-IsReady :
      (s t : Machine Call Reply IoWorker)
      → Same o os s t
      → IsReady o os quiet s
      → IsReady o os quiet t
  Same-IsReady s t (f, i, c, w) (h, room) = (
    record {
      depth = h.depth;
      file = h.file;
      flow = omega (arith, h.flow, f, i);
      fits = h.fits;
      offset = omega (arith, h.offset, c);
      aligned = ap (λ n. n % o.bs) c ∙ h.aligned;
      writes = w h.writes;
    },
    omega (arith, room, f),
  )

  -- What the set-up keeps, in terms of the bounds.
  abbrev keeps_bounds :
      {A : Type 0} (m : Prog Call Reply IoWorker (Unit {0}) A)
      → ((s : Machine Call Reply IoWorker) → Keeps (same o os s (Unit {0})) m)
      → Kept K A
  keeps_bounds m k = (
    m,
    λ s p.
        Ensures-mono (λ _ t. Same o os s t) (λ _ t. IsReady o os quiet t) (λ _ t. Same o os s t)
          (λ _ t. Inv o t) (Same o os s) (Inv o) (m os s) (λ a t q. Same-IsReady s t q p)
          (λ e t q. (Same-IsReady s t q p).0) (λ t q. (Same-IsReady s t q p).0)
          (k s s (refl, refl, refl, λ w. w)),
  )

  abbrev leave_if : Bool → Kept K (Unit {0})
  leave_if test = kept_if K test (kept_return K tt (λ s p. p.0)) (kept_pure K tt)

  abbrev quietly :
      (c : Call)
      → ((s : Machine Call Reply IoWorker) → Inv o s → Inv o (after_call os c s))
      → Kept K Reply
  quietly c f = kept_call K c (λ s p. (f s p.0, p.1))

  serve-IsReady : Keeps K (serve keys)
  unfolding serve
  serve-IsReady =
      (kept_bind K (kept_get K) (λ w.
        kept_then K
          (quietly (post_recv w.qp w.data_pool 4 (keys.lkey w.data_pool_mr))
            (λ s h. kept o os quiet s _ refl refl refl refl h))
          (kept_bind K
            (quietly (get_cq_event w.comp_channel)
              (λ s h. kept o os quiet s _ refl refl refl refl h))
            (λ ev. kept_then K (leave_if (nonzero ev.ret)) (
              kept_then K (leave_if (not (ev.value == w.cq))) (
                kept_bind K
                  (quietly (poll_cq w.cq 1) (λ s h. kept o os quiet s _ refl refl refl refl h))
                  (λ r.
                    kept_then K
                      (kept_if K (is_neg r.ret) (kept_return K tt (λ s p. p.0))
                        (leave_if (not (nat_part r.ret == 1))))
                      (kept_then K
                        (quietly (ack_cq_events w.cq 1)
                          (λ s h. kept o os quiet s _ refl refl refl refl h))
                        (kept_pure K tt))))))))).1

  do_io_user_rdma-IsReady : (rounds inner : ℕ) → Keeps K (do_io_user_rdma rounds inner o keys)
  unfolding do_io_user_rdma
  do_io_user_rdma-IsReady rounds inner =
      (kept_bind K (keeps_bounds (rdma_setup o) (λ s. rdma_setup-Same o os s (Unit {0}))) (λ r.
        kept_then K (leave_if (nonzero r)) (
          kept_bind K
            (keeps_bounds (rdma_handshake o keys inner)
              (λ s. rdma_handshake-Same o os s (Unit {0}) keys inner))
            (λ q. kept_then K (leave_if (nonzero q)) (
              kept_if K (not o.client) (serve keys, serve-IsReady)
                (
                  client_io rounds inner o keys,
                  client_io-IsReady o os quiet keys rounds inner,
                )))))).1

pub do_io_user_rdma-Writes :
    (o : Options) (os : Os Call Reply) (keys : Keys) (garbage : IoWorker) (rounds inner : ℕ)
    → Quiet os
    → 0 < o.io_uring_queue_depth
    → o.io_uring_queue_depth < 2 ^ 64
    → o.bs < o.file_size
    → o.file_size < 2 ^ 63
    → garbage.cur_offset ≡ 0
    → garbage.in_flight ≡ 0
    → let t = (do_io_user_rdma rounds inner o keys os (boot (initial_worker o garbage))).1 in
      Writes o t.trace × (free t + t.mem.in_flight ≡ o.io_uring_queue_depth)
do_io_user_rdma-Writes o os keys garbage rounds inner quiet some depth fits file zero_offset idle =
    let s = boot (initial_worker o garbage) in
    let p = launched-Inv o garbage some depth fits file zero_offset idle in
    let run = do_io_user_rdma rounds inner o keys os s in
    let end = end-Inv o os quiet run (
      Ensures-mono (λ _ t. IsReady o os quiet t) (λ _ t. Inv o t) (λ _ t. Inv o t)
        (Fails o os quiet) (Inv o) (Inv o) run (λ a t q. q.0) (λ e t q. q) (λ t q. q)
        (do_io_user_rdma-IsReady o os quiet keys rounds inner s p)) in
    (end.writes, end.flow)
