-- ===== src/Worker/Cm/Handles.antt =====
-- src/benchmark.cc: what a worker holds after rdma_setup and rdma_handshake.
use nvmeof_project.Prelude.{
  ◌≡◌, ◌≢◌, refl, ap, sym, ◌∙◌, ◌⊎◌, inl, inr, if◌then◌else◌, if_cases, ℤ, pos, arith,
}
use nvmeof_project.Outside.{Machine, Exit, Os, Prog, done, stop, hung, ◌>>◌, pure}
use nvmeof_project.Outside.Laws.{Ensures, bind_Ensures, Returned, function_lem}
use nvmeof_project.Worker.{Options, IoWorker, CmEvent, Call, Reply}
use nvmeof_project.Worker.Cm.{
  create_ids, resolve_client, await_client, create_queues, rdma_setup, await_event,
  get_next_channel_event, event_id,
}

-- After rdma_setup has returned 0 nothing that the worker needs is NULL; else it has returned 1.
abbrev pub IsSetUp : Exit (Unit {0}) ℤ × Machine Call Reply IoWorker → Type 0
IsSetUp (r, t) =
    ((r ≡ done (pos 0))
      × (t.mem.cm_channel ≢ 0)
      × (t.mem.pd ≢ 0)
      × (t.mem.comp_channel ≢ 0)
      × (t.mem.cq ≢ 0))
    ⊎ (r ≡ done (pos 1))

-- A part of the set-up: it keeps the event channel, and makes the function return 1 when it fails.
abbrev KeepsChannel :
    {A : Type 0} → Machine Call Reply IoWorker → Exit ℤ A × Machine Call Reply IoWorker → Type 0
KeepsChannel s = Ensures (λ _ t. t.mem.cm_channel ≡ s.mem.cm_channel) (λ e _. e ≡ pos 1) (λ _. ⊥)

create_ids-Ensures :
    (o : Options) (os : Os Call Reply) (s : Machine Call Reply IoWorker)
    → Ensures (λ _ t. t.mem.cm_channel ≢ 0) (λ e _. e ≡ pos 1) (λ _. ⊥) (create_ids o os s)
unfolding create_ids
create_ids-Ensures o os s = ground arith

await_event-KeepsChannel :
    (e : CmEvent) (os : Os Call Reply) (s : Machine Call Reply IoWorker)
    → KeepsChannel s (await_event e os s)
unfolding await_event get_next_channel_event event_id
await_event-KeepsChannel e os s = ground arith

resolve_client-KeepsChannel :
    (o : Options) (os : Os Call Reply) (s : Machine Call Reply IoWorker)
    → KeepsChannel s (resolve_client o os s)
unfolding resolve_client await_event get_next_channel_event event_id
resolve_client-KeepsChannel o os s = ground arith

await_client-KeepsChannel :
    (o : Options) (os : Os Call Reply) (s : Machine Call Reply IoWorker)
    → KeepsChannel s (await_client o os s)
unfolding await_client await_event get_next_channel_event event_id
await_client-KeepsChannel o os s = ground arith

create_queues-Ensures :
    (o : Options) (os : Os Call Reply) (s : Machine Call Reply IoWorker)
    → Ensures
        (λ _ t.
          (t.mem.cm_channel ≡ s.mem.cm_channel)
          × (t.mem.pd ≢ 0)
          × (t.mem.comp_channel ≢ 0)
          × (t.mem.cq ≢ 0))
        (λ e _. e ≡ pos 1)
        (λ _. ⊥)
        (create_queues o os s)
unfolding create_queues
create_queues-Ensures o os s = ground arith

abbrev Handles : Machine Call Reply IoWorker → Type 0
Handles t = (t.mem.cm_channel ≢ 0) × (t.mem.pd ≢ 0) × (t.mem.comp_channel ≢ 0) × (t.mem.cq ≢ 0)

abbrev Fail : ℤ → Machine Call Reply IoWorker → Type 0
Fail e t = e ≡ pos 1

set_up :
    (out : Exit ℤ ℤ × Machine Call Reply IoWorker)
    → Ensures (λ v t. (v ≡ pos 0) × Handles t) Fail (λ _. ⊥) out
    → Returned IsSetUp out
set_up (done v, t) (e, h) = inl (ap done e, h.0, h.1, h.2, h.3)
set_up (stop v, t) e = inr (ap done e)
set_up (hung, t) h = absurd h

-- rdma_setup ends for either role. If it returns 0, the worker's event channel, protection domain,
-- completion channel and completion queue are not NULL; otherwise it returns 1.
pub rdma_setup-IsSetUp :
    (o : Options) (os : Os Call Reply) (s : Machine Call Reply IoWorker)
    → IsSetUp (rdma_setup o os s)
unfolding rdma_setup
rdma_setup-IsSetUp o os s =
    let route = if o.client then resolve_client o else await_client o in
    let body : Prog Call Reply IoWorker ℤ ℤ = (do
      create_ids o
      route
      create_queues o
      pure (pos 0)) in
    function_lem IsSetUp body os s (
      set_up (body os s) (
        bind_Ensures os (λ _ t. t.mem.cm_channel ≢ 0) (λ v t. (v ≡ pos 0) × Handles t) Fail (λ _. ⊥)
          (create_ids o) (λ _. do route; create_queues o; pure (pos 0)) s
          (create_ids-Ensures o os s)
          (λ _ t channel.
            bind_Ensures os (λ _ u. u.mem.cm_channel ≡ t.mem.cm_channel)
              (λ v u. (v ≡ pos 0) × Handles u) Fail (λ _. ⊥) route
              (λ _. do create_queues o; pure (pos 0)) t
              (if_cases (λ (m : Prog Call Reply IoWorker ℤ (Unit {0})). KeepsChannel t (m os t))
                o.client (resolve_client o) (await_client o)
                (λ _. resolve_client-KeepsChannel o os t) (λ _. await_client-KeepsChannel o os t))
              (λ _ u same.
                bind_Ensures os
                  (λ _ v.
                    (v.mem.cm_channel ≡ u.mem.cm_channel)
                    × (v.mem.pd ≢ 0)
                    × (v.mem.comp_channel ≢ 0)
                    × (v.mem.cq ≢ 0))
                  (λ x v. (x ≡ pos 0) × Handles v) Fail (λ _. ⊥) (create_queues o)
                  (λ _. pure (pos 0)) u (create_queues-Ensures o os u)
                  (λ _ v q. (refl, (λ e. channel (sym same ∙ sym q.0 ∙ e), q.1, q.2, q.3)))))))
