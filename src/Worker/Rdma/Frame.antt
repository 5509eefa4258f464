-- ===== src/Worker/Rdma/Frame.antt =====
-- src/benchmark.cc: what the loops of the RDMA client keep. `here` is any property that the calls of
-- reap_rdma_cq and the writes of the ring keep, and `lost` what remains of it after an error.
use nvmeof_project.Prelude.{
  ℕ, zero, suc, ◌+◌, ltb, ◌==◌, ◌≡◌, refl, sym, ap, ◌∙◌, ◌⊎◌, inl, inr, if◌then◌else◌, if_cases,
  Bool, true, false, not, List, [], ◌∷◌, ℤ, pos, negsuc, is_neg, nonzero, nat_part,
}
use nvmeof_project.Outside.{Machine, Os, Prog, pure, return_now}
use nvmeof_project.Outside.Laws.{Ensures, Ensures-mono, bind_Ensures, function-Ensures}
use nvmeof_project.Outside.Keeps.{
  Contract, Keeps, Kept, after_call, kept_bind, kept_then, kept_if, kept_call, kept_modify,
  kept_get, kept_pure, kept_return,
}
use nvmeof_project.Worker.{
  Options, IoWorker, Call, Reply, Wc, get_cq_event, req_notify_cq, poll_cq, ack_cq_events,
}
use nvmeof_project.Worker.Ring.{u32, u64, write_block}
use nvmeof_project.Worker.Rdma.{
  poll_batch, write_completions, poll_loop, wait_for_event, again, reap_rdma_cq, reap_rdma_or_exit,
}

-- What a property has to satisfy.
pub record Rules (o : Options) (os : Os Call Reply)
    (here lost : Machine Call Reply IoWorker → Type 0) : Type 0 where
  pub lose : (s : Machine Call Reply IoWorker) → here s → lost s
  pub at_poll :
      (cq n : ℕ) (s : Machine Call Reply IoWorker) → here s → here (after_call os (poll_cq cq n) s)
  pub at_event :
      (ch : ℕ) (s : Machine Call Reply IoWorker) → here s → here (after_call os (get_cq_event ch) s)
  pub at_notify :
      (cq : ℕ) (s : Machine Call Reply IoWorker)
      → here s
      → here (after_call os (req_notify_cq cq) s)
  pub at_ack :
      (cq n : ℕ) (s : Machine Call Reply IoWorker)
      → here s
      → here (after_call os (ack_cq_events cq n) s)
  pub at_units :
      (n : ℕ) (s : Machine Call Reply IoWorker)
      → here s
      → here (record s { mem = record s.mem { free_io_units_rdma = n } })
  pub at_block :
      (inner base : ℕ) (s : Machine Call Reply IoWorker)
      → here s
      → Ensures
          (λ _ t. here t)
          (λ e t. (e ≡ negsuc 0) × lost t)
          lost
          (write_block o inner base (negsuc 0) os s)

module _ (o : Options) (os : Os Call Reply) (here lost : Machine Call Reply IoWorker → Type 0)
    (rules : Rules o os here lost) where
  -- reap_rdma_cq fails with -1.
  abbrev K : Contract Call Reply IoWorker ℤ
  K = record { os = os; here = here; returned = λ e t. (e ≡ negsuc 0) × lost t; no_fuel = lost }

  -- What the callers of the loops end with.
  abbrev pub outer : Contract Call Reply IoWorker (Unit {0})
  outer = record { os = os; here = here; returned = λ _ t. lost t; no_fuel = lost }

  abbrev give_up : Bool → Kept K (Unit {0})
  give_up test =
      kept_if K test (kept_return K (negsuc 0) (λ s p. (refl, rules.lose s p))) (kept_pure K tt)

  write_completions-Keeps : (inner : ℕ) (wcs : List Wc) → Keeps K (write_completions o inner wcs)
  unfolding write_completions
  write_completions-Keeps inner [] = λ s p. p
  write_completions-Keeps inner (wc ∷ wcs) =
      (kept_then K (give_up (not (wc.status == 0))) (
        kept_then K (write_block o inner wc.wr_id (negsuc 0), rules.at_block inner wc.wr_id)
          (write_completions o inner wcs, write_completions-Keeps inner wcs))).1

  poll_loop-Keeps : (inner fuel reaped : ℕ) → Keeps K (poll_loop o inner fuel reaped)
  unfolding poll_loop
  poll_loop-Keeps inner zero reaped = rules.lose
  poll_loop-Keeps inner (suc fuel) reaped =
      (kept_bind K (kept_get K) (λ w.
        kept_bind K (kept_call K (poll_cq w.cq poll_batch) (rules.at_poll w.cq poll_batch)) (λ r.
          kept_then K (give_up (is_neg r.ret)) (
            kept_if K (nat_part r.ret == 0) (kept_pure K reaped) (
              kept_then K (write_completions o inner r.wcs, write_completions-Keeps inner r.wcs)
                (kept_then K
                  (kept_modify K
                    (λ w. record w {
                      free_io_units_rdma = u64 (w.free_io_units_rdma + nat_part r.ret);
                    })
                    (λ s p. rules.at_units (u64 (s.mem.free_io_units_rdma + nat_part r.ret)) s p))
                  (
                    poll_loop o inner fuel (u32 (reaped + nat_part r.ret)),
                    poll_loop-Keeps inner fuel (u32 (reaped + nat_part r.ret)),
                  ))))))).1

  wait_for_event-Keeps : Keeps K wait_for_event
  unfolding wait_for_event
  wait_for_event-Keeps =
      (kept_bind K (kept_get K) (λ w.
        kept_bind K (kept_call K (get_cq_event w.comp_channel) (rules.at_event w.comp_channel))
          (λ ev. kept_then K (give_up (nonzero ev.ret)) (
            kept_then K (give_up (not (ev.value == w.cq))) (
              kept_bind K (kept_call K (req_notify_cq w.cq) (rules.at_notify w.cq))
                (λ r. give_up (nonzero r.ret))))))).1

  again-Keeps : (inner fuel min reaped : ℕ) → Keeps K (again o inner fuel min reaped)
  unfolding again
  again-Keeps inner zero min reaped = rules.lose
  again-Keeps inner (suc fuel) min reaped =
      (kept_then K (kept_if K o.event (wait_for_event, wait_for_event-Keeps) (kept_pure K tt)) (
        kept_bind K (poll_loop o inner inner reaped, poll_loop-Keeps inner inner reaped)
          (λ total.
            kept_if K (ltb total min)
              (again o inner fuel min total, again-Keeps inner fuel min total)
              (kept_bind K (kept_get K) (λ w.
                kept_then K
                  (kept_if K o.event
                    (kept_then K (kept_call K (ack_cq_events w.cq total) (rules.at_ack w.cq total))
                      (kept_pure K tt))
                    (kept_pure K tt))
                  (kept_pure K (pos 0))))))).1

  -- The result of reap_rdma_cq.
  abbrev Reaped : ℤ → Machine Call Reply IoWorker → Type 0
  Reaped r t = here t ⊎ ((r ≡ negsuc 0) × lost t)

  reap_rdma_cq-Reaped :
      (inner min : ℕ) (s : Machine Call Reply IoWorker)
      → here s
      → Ensures {E = Unit {0}} Reaped (λ _ t. lost t) lost (reap_rdma_cq o inner min os s)
  unfolding reap_rdma_cq
  reap_rdma_cq-Reaped inner min s p =
      function-Ensures os Reaped (λ _ t. lost t) lost (again o inner inner min 0) s
        (Ensures-mono (λ _ t. here t) Reaped (λ e t. (e ≡ negsuc 0) × lost t) Reaped lost lost
          (again o inner inner min 0 os s) (λ a t q. inl q) (λ e t q. inr q) (λ t q. q)
          (again-Keeps inner inner min 0 s p))

  -- Reaping keeps the property, or ends the thread.
  pub reap_rdma_or_exit-Keeps : (inner min : ℕ) → Keeps outer (reap_rdma_or_exit o inner min)
  unfolding reap_rdma_or_exit
  reap_rdma_or_exit-Keeps inner min s p =
      bind_Ensures os Reaped (λ _ t. here t) (λ _ t. lost t) lost (reap_rdma_cq o inner min)
        (λ r. if is_neg r then return_now tt else pure tt) s (reap_rdma_cq-Reaped inner min s p)
        (λ r t q.
          if_cases
            (λ (m : Prog Call Reply IoWorker (Unit {0}) (Unit {0})).
              Ensures (λ _ u. here u) (λ _ u. lost u) lost (m os t))
            (is_neg r) (return_now tt) (pure tt)
            (λ bad. elim q [ inl h ↦ rules.lose t h | inr (e, l) ↦ l ])
            (λ good. elim q [
              | inl h ↦ h
              | inr (e, l) ↦ (let x : true ≡ false = ap is_neg (sym e) ∙ good in cc)
            ]))
