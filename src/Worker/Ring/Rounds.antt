-- ===== src/Worker/Ring/Rounds.antt =====
-- src/benchmark.cc: the bounds of Ring/Flow, carried through do_io_io_uring.
use mathlib.Core.Path.{subst}
use nvmeof_project.Prelude.{
  ℕ, zero, suc, ◌+◌, ◌≤◌, ◌<◌, ◌≡◌, refl, sym, ◌∷◌, not, is_pos, nat_part, ◌==◌, if_cases, arith,
}
use nvmeof_project.Outside.{Machine, Exit, Os, Prog, ◌>>◌, pure, modify}
use nvmeof_project.Outside.Laws.{Ensures, Ensures-mono, bind_Ensures}
use nvmeof_project.Worker.{Options, IoWorker, Call, Reply, get_sqe as sqe_call, submit}
use nvmeof_project.Worker.Ring.{
  sub_u32, reap_or_fail, get_sqe_loop, prepare_write, submit_once, submit_loop, submit_batch,
  reap_when_busy, write_block,
}
use nvmeof_project.Worker.Ring.Flow.{
  Quiet, Writes, Inv, free, Frees, Fails, reap_or_fail-Frees, prepare_write-Inv,
}

module _ (o : Options) (os : Os Call Reply) (quiet : Quiet os) where
  abbrev Rest :
      (E A : Type 0)
      → Machine Call Reply IoWorker
      → ℕ
      → Exit E A × Machine Call Reply IoWorker
      → Type 0
  Rest E A s min = Ensures (Frees o os quiet s min) (Fails o os quiet) (Inv o)

  Frees-trans :
      {E A : Type 0} (s t : Machine Call Reply IoWorker) (m n : ℕ)
      (out : Exit E A × Machine Call Reply IoWorker)
      → m + free s ≤ n + free t
      → Rest E A t n out
      → Rest E A s m out
  Frees-trans s t m n out le =
      Ensures-mono (Frees o os quiet t n) (Frees o os quiet s m) (Fails o os quiet)
        (Fails o os quiet) (Inv o) (Inv o) out (λ a u q. (q.0, omega (arith, q.1))) (λ e u q. q)
        (λ u q. q)

  -- A change of the machine that the invariant does not see.
  pub kept :
      (s u : Machine Call Reply IoWorker)
      → free u ≡ free s
      → u.mem.in_flight ≡ s.mem.in_flight
      → u.mem.cur_offset ≡ s.mem.cur_offset
      → Writes o u.trace ≡ Writes o s.trace
      → Inv o s
      → Inv o u
  kept s u f i c w h = record {
    depth = h.depth;
    file = h.file;
    flow = omega (arith, h.flow);
    fits = h.fits;
    offset = ground (arith, h.offset);
    aligned = ground (arith, h.aligned);
    writes = subst (λ x. x) (sym w) h.writes;
  }

  get_sqe_loop-Frees :
      (E : Type 0) (fuel inner : ℕ) (e : E) (s : Machine Call Reply IoWorker)
      → Inv o s
      → Rest E (Unit {0}) s 0 (get_sqe_loop fuel inner e os s)
  unfolding get_sqe_loop
  get_sqe_loop-Frees E zero inner e s h = h
  get_sqe_loop-Frees E (suc fuel) inner e s h =
      let r = os s.clock sqe_call in
      let u : Machine Call Reply IoWorker = record s {
        clock = suc s.clock;
        trace = (sqe_call, r) ∷ s.trace;
      } in
      let same : Inv o u = kept s u refl refl refl refl h in
      if_cases (λ (m : Prog Call Reply IoWorker E (Unit {0})). Rest E (Unit {0}) s 0 (m os u))
        (not (r.value == 0)) (pure tt) (do reap_or_fail inner 0 e; get_sqe_loop fuel inner e)
        (λ got. (same, omega arith))
        (λ full.
          bind_Ensures os (Frees o os quiet u 0) (Frees o os quiet s 0) (Fails o os quiet) (Inv o)
            (reap_or_fail inner 0 e) (λ _. get_sqe_loop fuel inner e) u
            (reap_or_fail-Frees o os quiet E inner 0 e u same)
            (λ a t q.
              Frees-trans s t 0 0 (get_sqe_loop fuel inner e os t) (omega (arith, q.1))
                (get_sqe_loop-Frees E fuel inner e t q.0)))

  submit_once-Frees :
      (E : Type 0) (inner : ℕ) (e : E) (s : Machine Call Reply IoWorker)
      → Inv o s
      → Rest E (Unit {0}) s 0 (submit_once inner e os s)
  unfolding submit_once
  submit_once-Frees E inner e s h =
      let c = submit s.mem.io_uring_sqe_queued s.mem.iovecs in
      let r = os s.clock c in
      let u : Machine Call Reply IoWorker = record s {
        clock = suc s.clock;
        trace = (c, r) ∷ s.trace;
      } in
      let same : Inv o u = kept s u refl refl refl refl h in
      if_cases (λ (m : Prog Call Reply IoWorker E (Unit {0})). Rest E (Unit {0}) s 0 (m os u))
        (is_pos r.ret)
        (modify
          (λ v. record v { io_uring_sqe_queued = sub_u32 v.io_uring_sqe_queued (nat_part r.ret) }))
        (reap_or_fail inner 0 e) (λ some. (kept u _ refl refl refl refl same, omega arith))
        (λ busy. reap_or_fail-Frees o os quiet E inner 0 e u same)

  submit_loop-Frees :
      (E : Type 0) (fuel inner : ℕ) (e : E) (s : Machine Call Reply IoWorker)
      → Inv o s
      → Rest E (Unit {0}) s 0 (submit_loop fuel inner e os s)
  unfolding submit_loop
  submit_loop-Frees E zero inner e s h = h
  submit_loop-Frees E (suc fuel) inner e s h =
      if_cases (λ (m : Prog Call Reply IoWorker E (Unit {0})). Rest E (Unit {0}) s 0 (m os s))
        (s.mem.io_uring_sqe_queued == 0) (pure tt)
        (do submit_once inner e; submit_loop fuel inner e) (λ empty. (h, omega arith))
        (λ queued.
          bind_Ensures os (Frees o os quiet s 0) (Frees o os quiet s 0) (Fails o os quiet) (Inv o)
            (submit_once inner e) (λ _. submit_loop fuel inner e) s
            (submit_once-Frees E inner e s h)
            (λ a t q.
              Frees-trans s t 0 0 (submit_loop fuel inner e os t) (omega (arith, q.1))
                (submit_loop-Frees E fuel inner e t q.0)))

  submit_batch-Inv :
      (E : Type 0) (inner : ℕ) (e : E) (s : Machine Call Reply IoWorker)
      → Inv o s
      → Ensures (λ _ t. Inv o t) (Fails o os quiet) (Inv o) (submit_batch o inner e os s)
  unfolding submit_batch
  submit_batch-Inv E inner e s h =
      if_cases
        (λ (m : Prog Call Reply IoWorker E (Unit {0})).
          Ensures (λ _ t. Inv o t) (Fails o os quiet) (Inv o) (m os s))
        (s.mem.io_uring_sqe_queued == o.io_uring_batch_submit) (submit_loop inner inner e) (pure tt)
        (λ full.
          Ensures-mono (Frees o os quiet s 0) (λ _ t. Inv o t) (Fails o os quiet) (Fails o os quiet)
            (Inv o) (Inv o) (submit_loop inner inner e os s) (λ a t q. q.0) (λ x t q. q) (λ t q. q)
            (submit_loop-Frees E inner inner e s h))
        (λ not_full. h)

  -- A round needs one free unit, and leaves one.
  abbrev pub Ready : {A : Type 0} → A → Machine Call Reply IoWorker → Type 0
  Ready x t = Inv o t × (0 < free t)

  reap_when_busy-Ready :
      (E : Type 0) (inner : ℕ) (e : E) (s : Machine Call Reply IoWorker)
      → Inv o s
      → Ensures Ready (Fails o os quiet) (Inv o) (reap_when_busy inner e os s)
  unfolding reap_when_busy
  reap_when_busy-Ready E inner e s h =
      if_cases
        (λ (m : Prog Call Reply IoWorker E (Unit {0})).
          Ensures Ready (Fails o os quiet) (Inv o) (m os s))
        (s.mem.free_io_units_io_uring == 0) (reap_or_fail inner 1 e) (pure tt)
        (λ none_free.
          Ensures-mono (Frees o os quiet s 1) Ready (Fails o os quiet) (Fails o os quiet) (Inv o)
            (Inv o) (reap_or_fail inner 1 e os s) (λ a t q. (q.0, omega (arith, q.1))) (λ x t q. q)
            (λ t q. q) (reap_or_fail-Frees o os quiet E inner 1 e s h))
        (λ some_free. (h, ground arith))

  -- Statements one after the other, each of which keeps the invariant.
  pub then_Ensures :
      {E A B : Type 0} (Q : A → Machine Call Reply IoWorker → Type 0)
      (P : B → Machine Call Reply IoWorker → Type 0) (m : Prog Call Reply IoWorker E A)
      (k : Prog Call Reply IoWorker E B) (s : Machine Call Reply IoWorker)
      → Ensures Q (Fails o os quiet) (Inv o) (m os s)
      → ((t : Machine Call Reply IoWorker) (a : A)
          → Q a t
          → Ensures P (Fails o os quiet) (Inv o) (k os t))
      → Ensures P (Fails o os quiet) (Inv o) ((m >> k) os s)
  then_Ensures Q P m k s h f =
      bind_Ensures os Q P (Fails o os quiet) (Inv o) m (λ _. k) s h (λ a t q. f t a q)

  pub write_block-Ready :
      (E : Type 0) (inner base : ℕ) (e : E) (s : Machine Call Reply IoWorker)
      → Inv o s
      → 0 < free s
      → Ensures Ready (Fails o os quiet) (Inv o) (write_block o inner base e os s)
  unfolding write_block
  write_block-Ready E inner base e s h room =
      then_Ensures (Frees o os quiet s 0) Ready (get_sqe_loop inner inner e)
        (do prepare_write o base; submit_batch o inner e; reap_when_busy inner e) s
        (get_sqe_loop-Frees E inner inner e s h)
        (λ t a q.
          then_Ensures (λ _ u. Inv o u) Ready (prepare_write o base)
            (do submit_batch o inner e; reap_when_busy inner e) t
            (Ensures-mono (λ _ u. Inv o u) (λ _ u. Inv o u) (λ _ _. ⊥) (Fails o os quiet) (λ _. ⊥)
              (Inv o) (prepare_write {E = E} o base os t) (λ _ _ k. k) (λ _ _ k. absurd k)
              (λ _ k. absurd k) (prepare_write-Inv o os quiet E base t q.0 (omega (arith, q.1))))
            (λ u b k.
              then_Ensures (λ _ v. Inv o v) Ready (submit_batch o inner e) (reap_when_busy inner e)
                u (submit_batch-Inv E inner e u k) (λ v c l. reap_when_busy-Ready E inner e v l)))
