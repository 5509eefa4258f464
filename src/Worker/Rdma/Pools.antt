-- ===== src/Worker/Rdma/Pools.antt =====
-- src/benchmark.cc: what the code of the RDMA client leaves alone, apart from its reads: the two
-- pools, and the requests posted so far.
use nvmeof_project.Prelude.{ℕ, ◌+◌, ◌<◌, ◌^◌, ◌≡◌, refl, ap, arith, List, [], ◌∷◌, ℤ, negsuc}
use nvmeof_project.Outside.{Machine, Os}
use nvmeof_project.Outside.Laws.{Ensures, Ensures-mono}
use nvmeof_project.Worker.{
  Options, IoWorker, Call, Reply, RmtBuf, Opcode, op_send, op_rdma_read, op_unset, WorkRequest,
  post_send,
}
use nvmeof_project.Worker.Ring.{runtime_exceeded, open_file_and_ring}
use nvmeof_project.Worker.Ring.Frame.{
  Aside, Untouched, Pools, write_block-Keeps, runtime_exceeded-Keeps, open_file_and_ring-Keeps,
}
use nvmeof_project.Worker.Rdma.Frame.{Rules}
use nvmeof_project.Worker.Rdma.Loop.{LoopRules, client_io-Keeps}
use nvmeof_project.Worker.Rdma.Reads.{read_request_in_pools}
use nvmeof_project.Worker.Cm.{Keys}
use nvmeof_project.Worker.Rdma.{read_request, next_remote, rdma_client_terminate, client_io}

-- A read takes a block of the server's pool to the same place of the client's, before the end of
-- either; other requests read nothing.
abbrev pub IsInside : RmtBuf → ℕ → Opcode → WorkRequest → Type 0
IsInside buf pool op_rdma_read r =
    (offset : ℕ) × (r.remote_addr ≡ buf.addr + offset)
    × (r.sge_addr ≡ pool + offset)
    × (offset + r.sge_length < buf.size)
IsInside buf pool op_send r = Unit {0}
IsInside buf pool op_unset r = Unit {0}

abbrev pub ReadsInside : RmtBuf → ℕ → List (Call × Reply) → Type 0
ReadsInside buf pool [] = Unit {0}
ReadsInside buf pool ((post_send qp r, _) ∷ t) =
    IsInside buf pool r.opcode r × ReadsInside buf pool t
ReadsInside buf pool (_ ∷ t) = ReadsInside buf pool t

-- The pools are these, and every read posted so far is inside.
abbrev pub ReadsOf : RmtBuf → ℕ → Aside → List (Call × Reply) → Type 0
ReadsOf buf pool a t = (a.rmt_buf ≡ buf) × (a.data_pool ≡ pool) × ReadsInside buf pool t

pub ReadsOf-Untouched : (buf : RmtBuf) (pool : ℕ) → Untouched (ReadsOf buf pool)
ReadsOf-Untouched buf pool = record {
  at_now = λ h. h;
  at_get_sqe = λ h. h;
  at_prep_writev = λ fd offset in_flight h. h;
  at_submit = λ queued vec h. h;
  at_next_cqe = λ in_flight h. h;
  at_cqe_seen = λ h. h;
  at_open = λ name h. h;
  at_fstat = λ fd h. h;
  at_fallocate = λ fd size h. h;
  at_queue_init = λ depth h. h;
  at_memalign = λ align size h. h;
}

module _ (o : Options) (os : Os Call Reply) (buf : RmtBuf) (pool : ℕ) where
  abbrev pub InPools : Machine Call Reply IoWorker → Type 0
  InPools s = Pools o os (ReadsOf buf pool) (ReadsOf-Untouched buf pool) s

  pub InPools-Rules : Rules o os InPools InPools
  InPools-Rules = record {
    lose = λ s p. p;
    at_poll = λ cq n s p. p;
    at_event = λ ch s p. p;
    at_notify = λ cq s p. p;
    at_ack = λ cq n s p. p;
    at_units = λ n s p. p;
    at_block = λ inner base s p.
        write_block-Keeps o os (ReadsOf buf pool) (ReadsOf-Untouched buf pool) ℤ inner base
          (negsuc 0) s p;
  }

-- The pools hold a block at `offset` and more, and their ends do not wrap.
pub record Fits (o : Options) (buf : RmtBuf) (pool : ℕ) : Type 0 where
  pub block : o.bs < buf.size
  pub small : buf.size < 2 ^ 31
  pub remote_end : buf.addr + buf.size < 2 ^ 64
  pub local_end : pool + buf.size < 2 ^ 64

module _ (o : Options) (os : Os Call Reply) (keys : Keys) (buf : RmtBuf) (pool : ℕ)
    (fit : Fits o buf pool) where
  abbrev AtOffset : ℕ → Type 0
  AtOffset offset = offset + o.bs < buf.size

  read_request-IsInside :
      (offset : ℕ) (s : Machine Call Reply IoWorker)
      → AtOffset offset
      → InPools o os buf pool s
      → IsInside buf pool op_rdma_read (read_request o keys offset s.mem)
        × (next_remote o s.mem.rmt_buf.size offset + o.bs < buf.size)
  read_request-IsInside offset s ok p =
      let same : s.mem.rmt_buf.size ≡ buf.size = ap (λ b. b.size) p.0 in
      let addr : s.mem.rmt_buf.addr ≡ buf.addr = ap (λ b. b.addr) p.0 in
      let r =
        read_request_in_pools o keys offset s.mem (omega (arith, same, fit.block))
          (omega (arith, same, fit.small)) (omega (arith, same, ok))
          (omega (arith, same, addr, fit.remote_end)) (omega (arith, same, p.1, fit.local_end)) in
      (
        (
          offset,
          omega (arith, r.0, addr),
          omega (arith, r.1, p.1),
          omega (arith, r.0, r.2, addr, same),
        ),
        omega (arith, r.4, same),
      )

  pub InPools-LoopRules :
      LoopRules o os keys (InPools o os buf pool) (InPools o os buf pool) AtOffset
  unfolding rdma_client_terminate read_request
  InPools-LoopRules = record {
    rules = InPools-Rules o os buf pool;
    at_posted = λ n s p. p;
    at_read = λ offset s ok p. (p.0, p.1, ((read_request-IsInside offset s ok p).0, p.2));
    at_next = λ offset s ok p. (read_request-IsInside offset s ok p).1;
    at_start = λ n s p. p;
    at_stop = λ b s p. p;
    at_now = λ s p. p;
    at_test = λ s p.
        Ensures-mono (λ _ t. InPools o os buf pool t) (λ _ t. InPools o os buf pool t)
          (λ x t. (x ≡ tt) × InPools o os buf pool t) (λ _ t. InPools o os buf pool t)
          (InPools o os buf pool) (InPools o os buf pool) (runtime_exceeded o os s) (λ x t q. q)
          (λ x t q. q.1) (λ t q. q)
          (runtime_exceeded-Keeps o os (ReadsOf buf pool) (ReadsOf-Untouched buf pool) (Unit {0}) tt
            s p);
    at_setup = λ s p.
        Ensures-mono (λ _ t. InPools o os buf pool t) (λ _ t. InPools o os buf pool t)
          (λ x t. (x ≡ tt) × InPools o os buf pool t) (λ _ t. InPools o os buf pool t)
          (InPools o os buf pool) (InPools o os buf pool) (open_file_and_ring o tt os s)
          (λ x t q. q) (λ x t q. q.1) (λ t q. q)
          (open_file_and_ring-Keeps o os (ReadsOf buf pool) (ReadsOf-Untouched buf pool) (Unit {0})
            tt s p);
    at_end = λ s p. (p.0, p.1, (tt, p.2));
  }

-- However the RDMA client's work ends, whatever the device, the kernel and the clock answered, a
-- client whose blocks fit in its two pools posted only RDMA reads that take a block of the server's
-- pool to the same place of its own pool, before the end of either, and the pools are the same.
pub client_io-InPools :
    (o : Options) (os : Os Call Reply) (keys : Keys) (rounds inner : ℕ)
    (s : Machine Call Reply IoWorker)
    → Fits o s.mem.rmt_buf s.mem.data_pool
    → ReadsInside s.mem.rmt_buf s.mem.data_pool s.trace
    → Ensures {E = Unit {0}}
        (λ _ t. InPools o os s.mem.rmt_buf s.mem.data_pool t)
        (λ _ t. InPools o os s.mem.rmt_buf s.mem.data_pool t)
        (InPools o os s.mem.rmt_buf s.mem.data_pool)
        (client_io rounds inner o keys os s)
client_io-InPools o os keys rounds inner s fit inside =
    let buf = s.mem.rmt_buf in
    let pool = s.mem.data_pool in
    client_io-Keeps o os keys (InPools o os buf pool) (InPools o os buf pool)
      (AtOffset o os keys buf pool fit) (InPools-LoopRules o os keys buf pool fit) rounds inner
      (omega (arith, fit.block)) s (refl, refl, inside)
