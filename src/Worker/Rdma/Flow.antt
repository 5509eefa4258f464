-- ===== src/Worker/Rdma/Flow.antt =====
-- src/benchmark.cc: the bounds of Ring/Flow, carried through the loops of the RDMA client.
use nvmeof_project.Prelude.{ℕ, ◌≡◌, refl, ℤ, negsuc, List}
use nvmeof_project.Outside.{Machine, Os}
use nvmeof_project.Outside.Laws.{Ensures, Ensures-mono, Ensures-both}
use nvmeof_project.Outside.Keeps.{Keeps}
use nvmeof_project.Worker.{Options, IoWorker, Call, Reply}
use nvmeof_project.Worker.Ring.{write_block}
use nvmeof_project.Worker.Ring.Flow.{Quiet, Inv}
use nvmeof_project.Worker.Ring.Rounds.{Ready, kept, write_block-Ready}
use nvmeof_project.Worker.Ring.Run.{runtime_exceeded-Ready, open_file_and_ring-Ready}
use nvmeof_project.Worker.Ring.Frame.{Aside, Untouched, write_block-Keeps}
use nvmeof_project.Worker.Cm.{Keys}
use nvmeof_project.Worker.Rdma.{client_io, rdma_client_terminate, read_request}
use nvmeof_project.Worker.Rdma.Frame.{Rules, outer}
use nvmeof_project.Worker.Rdma.Loop.{LoopRules, client_io-Keeps}

abbrev Nothing : Aside → List (Call × Reply) → Type 0
Nothing a t = Unit {0}

Nothing-Untouched : Untouched Nothing
Nothing-Untouched = record {
  at_now = λ h. h;
  at_get_sqe = λ h. h;
  at_prep_writev = λ fd offset in_flight h. h;
  at_submit = λ queued vec h. h;
  at_next_cqe = λ in_flight h. h;
  at_cqe_seen = λ h. h;
  at_open = λ name h. h;
  at_fstat = λ fd h. h;
  at_fallocate = λ fd size h. h;
  at_queue_init = λ depth h. h;
  at_memalign = λ align size h. h;
}

module _ (o : Options) (os : Os Call Reply) (quiet : Quiet os) where
  abbrev pub IsReady : Machine Call Reply IoWorker → Type 0
  IsReady s = Ready o os quiet tt s

  write_block-IsReady :
      (inner base : ℕ) (s : Machine Call Reply IoWorker)
      → IsReady s
      → Ensures
          (λ _ t. IsReady t)
          (λ e t. (e ≡ negsuc 0) × Inv o t)
          (Inv o)
          (write_block o inner base (negsuc 0) os s)
  write_block-IsReady inner base s p =
      Ensures-mono (λ a t. IsReady t × Unit {0}) (λ _ t. IsReady t)
        (λ e t. Inv o t × ((e ≡ negsuc 0) × Unit {0})) (λ e t. (e ≡ negsuc 0) × Inv o t)
        (λ t. Inv o t × Unit {0}) (Inv o) (write_block o inner base (negsuc 0) os s) (λ a t q. q.0)
        (λ e t q. (q.1.0, q.0)) (λ t q. q.0)
        (Ensures-both (λ _ t. IsReady t) (λ _ t. Unit {0}) (λ _ t. Inv o t)
          (λ e t. (e ≡ negsuc 0) × Unit {0}) (Inv o) (λ t. Unit {0})
          (write_block o inner base (negsuc 0) os s)
          (write_block-Ready o os quiet ℤ inner base (negsuc 0) s p.0 p.1)
          (write_block-Keeps o os Nothing Nothing-Untouched ℤ inner base (negsuc 0) s tt))

  pub IsReady-Rules : Rules o os IsReady (Inv o)
  IsReady-Rules = record {
    lose = λ s p. p.0;
    at_poll = λ cq n s p. (kept o os quiet s _ refl refl refl refl p.0, p.1);
    at_event = λ ch s p. (kept o os quiet s _ refl refl refl refl p.0, p.1);
    at_notify = λ cq s p. (kept o os quiet s _ refl refl refl refl p.0, p.1);
    at_ack = λ cq n s p. (kept o os quiet s _ refl refl refl refl p.0, p.1);
    at_units = λ n s p. (kept o os quiet s _ refl refl refl refl p.0, p.1);
    at_block = write_block-IsReady;
  }

  pub IsReady-LoopRules : (keys : Keys) → LoopRules o os keys IsReady (Inv o) (λ offset. Unit {0})
  unfolding rdma_client_terminate read_request
  IsReady-LoopRules keys = record {
    rules = IsReady-Rules;
    at_posted = λ n s p. (kept o os quiet s _ refl refl refl refl p.0, p.1);
    at_read = λ offset s ok p. (kept o os quiet s _ refl refl refl refl p.0, p.1);
    at_next = λ offset s ok p. ok;
    at_start = λ n s p. (kept o os quiet s _ refl refl refl refl p.0, p.1);
    at_stop = λ b s p. (kept o os quiet s _ refl refl refl refl p.0, p.1);
    at_now = λ s p. (kept o os quiet s _ refl refl refl refl p.0, p.1);
    at_test = λ s p. runtime_exceeded-Ready o os quiet (Unit {0}) s p.0 p.1;
    at_setup = λ s p. open_file_and_ring-Ready o os quiet s p.0 p.1;
    at_end = λ s p. (kept o os quiet s _ refl refl refl refl p.0, p.1);
  }

  pub client_io-IsReady :
      (keys : Keys) (rounds inner : ℕ)
      → Keeps (outer o os IsReady (Inv o) IsReady-Rules) (client_io rounds inner o keys)
  client_io-IsReady keys rounds inner =
      client_io-Keeps o os keys IsReady (Inv o) (λ offset. Unit {0}) (IsReady-LoopRules keys) rounds
        inner tt
