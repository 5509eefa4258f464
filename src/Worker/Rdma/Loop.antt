-- ===== src/Worker/Rdma/Loop.antt =====
-- src/benchmark.cc: the main loop of the RDMA client, for any property that its reads keep.
use nvmeof_project.Prelude.{ℕ, zero, suc, ◌+◌, ◌%◌, ◌==◌, if◌then◌else◌, Bool, true, nonzero}
use nvmeof_project.Outside.{Machine, Os, pure, get, ◌>>=◌, ◌>>◌}
use nvmeof_project.Outside.Laws.{Ensures, bind_Ensures}
use nvmeof_project.Outside.Keeps.{
  Contract, Keeps, Kept, after_call, kept_bind, kept_then, kept_if, kept_call, kept_modify,
  kept_get, kept_pure, kept_return,
}
use nvmeof_project.Worker.{Options, IoWorker, Call, Reply, now, post_send}
use nvmeof_project.Worker.Ring.{u64, pred_u64, runtime_exceeded, open_file_and_ring}
use nvmeof_project.Worker.Cm.{Keys}
use nvmeof_project.Worker.Rdma.{
  rdma_reap_freq, reap_rdma_or_exit, rdma_client_terminate, next_remote, read_request, rdma_round,
  rdma_loop, client_io,
}
use nvmeof_project.Worker.Rdma.Frame.{Rules, outer, reap_rdma_or_exit-Keeps}

-- What a property has to satisfy besides; `fits` is what the loop knows of its offset.
pub record LoopRules (o : Options) (os : Os Call Reply) (keys : Keys)
    (here lost : Machine Call Reply IoWorker → Type 0) (fits : ℕ → Type 0) : Type 0 where
  pub rules : Rules o os here lost
  pub at_posted :
      (n : ℕ) (s : Machine Call Reply IoWorker)
      → here s
      → here (record s { mem = record s.mem { rdma_wr_posted = n } })
  pub at_read :
      (offset : ℕ) (s : Machine Call Reply IoWorker)
      → fits offset
      → here s
      → here (after_call os (post_send s.mem.qp (read_request o keys offset s.mem)) s)
  pub at_next :
      (offset : ℕ) (s : Machine Call Reply IoWorker)
      → fits offset
      → here s
      → fits (next_remote o s.mem.rmt_buf.size offset)
  pub at_start :
      (n : ℕ) (s : Machine Call Reply IoWorker)
      → here s
      → here (record s { mem = record s.mem { start_time = n } })
  pub at_stop :
      (b : Bool) (s : Machine Call Reply IoWorker)
      → here s
      → here (record s { mem = record s.mem { stopped = b } })
  pub at_now : (s : Machine Call Reply IoWorker) → here s → here (after_call os now s)
  pub at_test :
      (s : Machine Call Reply IoWorker)
      → here s
      → Ensures {E = Unit {0}} (λ _ t. here t) (λ _ t. lost t) lost (runtime_exceeded o os s)
  pub at_setup :
      (s : Machine Call Reply IoWorker)
      → here s
      → Ensures (λ _ t. here t) (λ _ t. lost t) lost (open_file_and_ring o tt os s)
  pub at_end :
      (s : Machine Call Reply IoWorker)
      → here s
      → Ensures {E = Unit {0}}
          (λ _ t. here t)
          (λ _ t. lost t)
          lost
          (rdma_client_terminate keys os s)

module _ (o : Options) (os : Os Call Reply) (keys : Keys)
    (here lost : Machine Call Reply IoWorker → Type 0) (fits : ℕ → Type 0)
    (laws : LoopRules o os keys here lost fits) where
  abbrev K : Contract Call Reply IoWorker (Unit {0})
  K = outer o os here lost laws.rules

  abbrev reap : (inner min : ℕ) → Kept K (Unit {0})
  reap inner min =
      (reap_rdma_or_exit o inner min, reap_rdma_or_exit-Keeps o os here lost laws.rules inner min)

  -- A round after its read was posted.
  abbrev after_read : ℕ → IoWorker → Reply → Kept K (Unit {0})
  after_read inner w r =
      kept_then K (kept_if K (nonzero r.ret) (kept_return K tt laws.rules.lose) (kept_pure K tt)) (
        kept_then K
          (kept_if K (w.rdma_wr_posted % rdma_reap_freq == 0) (reap inner 0) (kept_pure K tt))
          (kept_then K
            (kept_modify K (λ w. record w { free_io_units_rdma = pred_u64 w.free_io_units_rdma })
              (λ s p. laws.rules.at_units (pred_u64 s.mem.free_io_units_rdma) s p))
            (kept_bind K (kept_get K)
              (λ w. kept_if K (w.free_io_units_rdma == 0) (reap inner 1) (kept_pure K tt)))))

  rdma_round-Keeps : (inner offset : ℕ) → fits offset → Keeps K (rdma_round o keys inner offset)
  unfolding rdma_round
  rdma_round-Keeps inner offset ok s p =
      let u : Machine Call Reply IoWorker = record s {
        mem = record s.mem { rdma_wr_posted = u64 (s.mem.rdma_wr_posted + 1) };
      } in
      let c = post_send u.mem.qp (read_request o keys offset u.mem) in
      (after_read inner u.mem (os u.clock c)).1 (after_call os c u)
        (laws.at_read offset u ok (laws.at_posted (u64 (s.mem.rdma_wr_posted + 1)) s p))

  rdma_loop-Keeps :
      (rounds inner offset : ℕ) → fits offset → Keeps K (rdma_loop rounds inner o keys offset)
  unfolding rdma_loop
  rdma_loop-Keeps zero inner offset ok s p = laws.rules.lose s p
  rdma_loop-Keeps (suc rounds) inner offset ok s p =
      bind_Ensures os (λ _ t. here t) (λ _ t. here t) (λ _ t. lost t) lost (runtime_exceeded o)
        (λ over. get >>= λ w. if over then pure tt else (do
          rdma_round o keys inner offset
          rdma_loop rounds inner o keys (next_remote o w.rmt_buf.size offset)))
        s (laws.at_test s p)
        (λ over t q.
          (kept_if K over (kept_pure K tt) (
              kept_then K (rdma_round o keys inner offset, rdma_round-Keeps inner offset ok)
                (
                  rdma_loop rounds inner o keys (next_remote o t.mem.rmt_buf.size offset),
                  rdma_loop-Keeps rounds inner (next_remote o t.mem.rmt_buf.size offset)
                      (laws.at_next offset t ok q),
                ))).1
            t q)

  -- All of the client's work keeps the property.
  pub client_io-Keeps : (rounds inner : ℕ) → fits 0 → Keeps K (client_io rounds inner o keys)
  unfolding client_io
  client_io-Keeps rounds inner ok =
      (kept_then K (open_file_and_ring o tt, laws.at_setup)
        (kept_bind K (kept_call K now laws.at_now) (λ t.
          kept_then K
            (kept_modify K (λ w. record w { start_time = t.value }) (laws.at_start t.value))
            (kept_then K (rdma_loop rounds inner o keys 0, rdma_loop-Keeps rounds inner 0 ok)
              (kept_then K (kept_modify K (λ w. record w { stopped = true }) (laws.at_stop true))
                (rdma_client_terminate keys, laws.at_end)))))).1
