-- ===== src/Worker/Cm/Polling.antt =====
-- src/benchmark.cc: the loops of rdma_handshake that poll for one completion.
use nvmeof_project.Prelude.{ℕ, zero, suc, ◌≡◌, refl, ◌∷◌, true, is_neg, arith}
use nvmeof_project.Outside.{Machine, Os, hung}
use nvmeof_project.Worker.{IoWorker, Call, Reply, poll_cq}
use nvmeof_project.Worker.Cm.{poll_one}

-- The loop tests for fewer than one completion only, so a queue whose polls fail, with a negative
-- answer, is polled for ever: no fuel is enough.
pub poll_one_never_ends :
    (os : Os Call Reply) (fuel : ℕ) (s : Machine Call Reply IoWorker)
    → ((n : ℕ) → is_neg (os n (poll_cq s.mem.cq 1)).ret ≡ true)
    → (poll_one fuel os s).0 ≡ hung
unfolding poll_one
poll_one_never_ends os zero s bad = refl
poll_one_never_ends os (suc fuel) s bad = ground (
  arith,
  bad s.clock,
  poll_one_never_ends os fuel
      (record s {
        clock = suc s.clock;
        trace = (poll_cq s.mem.cq 1, os s.clock (poll_cq s.mem.cq 1)) ∷ s.trace;
      })
      bad,
)
