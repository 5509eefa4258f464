-- ===== src/FileClient/Trace.antt =====
-- What the tests of src/file_initiator.cc have sent, the last first.
use nvmeof_project.Prelude.{ℕ, zero, suc, ◌≡◌, List, [], ◌∷◌}
use nvmeof_project.Outside.{Machine, Os}
use nvmeof_project.FileTarget.{FileRequest, Parameters}
use nvmeof_project.FileClient.{
  Method, Call, Reply, set_parameters, open_stream, write_stream, read_stream,
}

abbrev pub ClientMachine : Type 0
ClientMachine = Machine Call Reply (Unit {0})

abbrev pub ClientOs : Type 0
ClientOs = Os Call Reply

-- The requests that were sent, the last first, and likewise below.
abbrev pub sent : List (Call × Reply) → List FileRequest
sent [] = []
sent ((write_stream request, r) ∷ t) = request ∷ sent t
sent (_ ∷ t) = sent t

abbrev pub parameters : List (Call × Reply) → List Parameters
parameters [] = []
parameters ((set_parameters p, r) ∷ t) = p ∷ parameters t
parameters (_ ∷ t) = parameters t

abbrev pub streams : List (Call × Reply) → List Method
streams [] = []
streams ((open_stream method, r) ∷ t) = method ∷ streams t
streams (_ ∷ t) = streams t

-- How many replies were read.
abbrev pub taken : List (Call × Reply) → ℕ
taken [] = 0
taken ((read_stream, r) ∷ t) = suc (taken t)
taken (_ ∷ t) = taken t

-- The requests of the numbers below `k`, the last first.
abbrev pub numbered : (ℕ → FileRequest) → ℕ → List FileRequest
numbered request zero = []
numbered request (suc k) = request k ∷ numbered request k

-- The parameters were sent, a stream of `method` was opened, the first `k` requests were written to
-- it, and `replies` were read.
pub record Sent (p : Parameters) (method : Method) (request : ℕ → FileRequest) (k replies : ℕ)
    (t : ClientMachine) : Type 0 where
  pub set_once : parameters t.trace ≡ p ∷ []
  pub one_stream : streams t.trace ≡ method ∷ []
  pub all_sent : sent t.trace ≡ numbered request k
  pub all_taken : taken t.trace ≡ replies

-- Nothing but parameters was sent.
abbrev pub NoneSent : Parameters → ClientMachine → Type 0
NoneSent p t = (parameters t.trace ≡ p ∷ []) × (streams t.trace ≡ []) × (sent t.trace ≡ [])
