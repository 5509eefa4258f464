-- ===== src/Async.antt =====
-- src/net.h, class GRPCAsyncServer: the objects that serve one call each, and the loop of
-- RPCHandler::exec that drives them by the tags of the completion queue.
pub mod Objects
pub mod Invariant
pub mod Answers
use nvmeof_project.Prelude.{
  ℕ, zero, suc, ◌+◌, ◌==◌, if◌then◌else◌, Bool, true, false, Option, none, some, List, [], ◌∷◌, ℤ,
  pos,
}
use nvmeof_project.Block.{Outcome, divided_by_zero}

-- enum class CallStatus
pub data CallStatus : Type 0 where
  create process finish : CallStatus

-- The subclasses of CallData that handle blocks.
pub data Kind : Type 0 where
  write_block read_block : Kind

pub record CallData : Type 0 where
  pub id : ℕ  -- the address, which is also the tag
  pub kind : Kind
  pub status : CallStatus

-- What `responder.Finish` sends: WriteBlock's end_block, or how ReadBlock's command went.
pub data Answer : Type 0 where
  written : (end_block : ℤ) → Answer
  read : Outcome → Answer

-- The objects that are allocated, the tags of the operations that the queue has not completed, the
-- next address, and the answers sent, with the object of each, the last first.
pub record Handler : Type 0 where
  pub objects : List CallData
  pub tags : List ℕ
  pub next : ℕ
  pub answers : List (ℕ × Answer)

pub find : ℕ → List CallData → Option CallData
find t [] = none
find t (o ∷ os) = if o.id == t then some o else find t os

pub set_status : ℕ → CallStatus → List CallData → List CallData
set_status t st [] = []
set_status t st (o ∷ os) =
    if o.id == t then record o { status = st } ∷ os else o ∷ set_status t st os

pub delete : ℕ → List CallData → List CallData
delete t [] = []
delete t (o ∷ os) = if o.id == t then os else o ∷ delete t os

-- `proceed` in CREATE, the same for both kinds: the object asks for a call, and its tag is with the
-- queue until one arrives. (ReadBlockCallData too asks for calls of WriteBlock.)
pub request_call : ℕ → Handler → Handler
request_call t h = record h { objects = set_status t process h.objects; tags = t ∷ h.tags }

-- `new WriteBlockCallData(…)` or `new ReadBlockCallData(…)`; the constructor calls `proceed`.
pub construct : Kind → Handler → Handler
unfolding request_call
construct kind h = request_call h.next (record h {
  objects = record { id = h.next; kind = kind; status = create } ∷ h.objects;
  next = suc h.next;
})

-- What is answered: a WriteBlock without a look at its request, a ReadBlock by its command.
abbrev pub answer_of : Kind → Outcome → Answer
answer_of write_block io = written (pos 114514)
answer_of read_block io = read io

-- `proceed` in PROCESS: another object, of kind WriteBlock for both, takes the place of this one,
-- which answers and waits for the answer to be sent.
pub answer_call : ℕ → Kind → Outcome → Handler → Handler
unfolding construct
answer_call t kind io h =
    let h' = construct write_block h in
    record h' {
      objects = set_status t finish h'.objects;
      tags = t ∷ h'.tags;
      answers = (t, answer_of kind io) ∷ h'.answers;
    }

pub proceed_status : CallStatus → ℕ → Kind → Outcome → Handler → Handler
unfolding request_call answer_call
proceed_status create t kind io h = request_call t h
proceed_status process t kind io h = answer_call t kind io h
proceed_status finish t kind io h = record h { objects = delete t h.objects }

-- `tag->proceed()`; `none` is a call through the address of an object that was deleted.
pub proceed : ℕ → Outcome → Handler → Option Handler
unfolding proceed_status
proceed t io h = elim (find t h.objects) [
  | none ↦ none
  | some o ↦ some (proceed_status o.status t o.kind io h)
]

-- `cq->Next`: the queue completes the operation of one of its tags, the `k`th here.
pub tag_at : ℕ → List ℕ → Option ℕ
tag_at k [] = none
tag_at zero (t ∷ ts) = some t
tag_at (suc k) (t ∷ ts) = tag_at k ts

pub drop_at : ℕ → List ℕ → List ℕ
drop_at k [] = []
drop_at zero (t ∷ ts) = ts
drop_at (suc k) (t ∷ ts) = t ∷ drop_at k ts

-- What `cq->Next` gives a round: an operation that was completed, of the `k`th tag, with the outcome
-- of the command that a ReadBlock object runs then; or nothing, or an operation that was not `ok`,
-- where one of the two assertions fails.
pub data Completion : Type 0 where
  completed : (k : ℕ) (io : Outcome) → Completion
  assertion_failed : Completion

-- How a round ends: the loop goes on; the process was ended, by an assertion or by a ReadBlock that
-- divides by a block size of 0, with what it had before the round; or the call went through the
-- address of a deleted object.
pub data RoundEnd : Type 0 where
  went_on : (h : Handler) → RoundEnd
  process_ended : (h : Handler) → RoundEnd
  dangling : RoundEnd

abbrev pub after_proceed : Option Handler → RoundEnd
after_proceed none = dangling
after_proceed (some h) = went_on h

-- Whether the object of a tag is a ReadBlock that runs a command which divides by zero.
abbrev pub ends_process : Kind → CallStatus → Outcome → Bool
ends_process read_block process divided_by_zero = true
ends_process _ _ _ = false

pub divides_by_zero : ℕ → Outcome → Handler → Bool
divides_by_zero t io h = elim (find t h.objects) [
  | none ↦ false
  | some o ↦ ends_process o.kind o.status io
]

-- One round of the loop of `exec`. Where the queue has no such tag, it cannot have completed it.
pub round : Completion → Handler → RoundEnd
round assertion_failed h = process_ended h
round (completed k io) h = elim (tag_at k h.tags) [
  | none ↦ went_on h
  | some t ↦
      if divides_by_zero t io h
      then process_ended h
      else after_proceed (proceed t io (record h { tags = drop_at k h.tags }))
]

-- The loop, over what the queue gives it.
pub rounds : List Completion → Handler → Option Handler
rounds [] h = some h
rounds (c ∷ cs) h = elim (round c h) [
  | went_on h' ↦ rounds cs h'
  | process_ended h' ↦ some h'
  | dangling ↦ none
]

-- `exec` first makes one object.
pub start : Kind → Handler
unfolding construct
start kind = construct kind (record { objects = []; tags = []; next = 0; answers = [] })

pub exec : Kind → List Completion → Option Handler
unfolding rounds start
exec kind cs = rounds cs (start kind)
