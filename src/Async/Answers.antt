-- ===== src/Async/Answers.antt =====
-- What the asynchronous server's handler for WriteBlock answers.
use nvmeof_project.Prelude.{
  ℕ, ◌≡◌, refl, ap, ◌==◌, if_cases, if◌then◌else◌, option_cases, Option, none, some, List, [], ◌∷◌,
  pos, arith,
}
use nvmeof_project.Block.{Outcome}
use nvmeof_project.Async.{
  CallStatus, create, process, finish, Kind, write_block, CallData, Answer, written, Handler, find,
  set_status, delete, request_call, construct, answer_call, proceed_status, proceed, tag_at,
  drop_at, Completion, completed, assertion_failed, RoundEnd, went_on, process_ended, dangling,
  after_proceed, divides_by_zero, round, rounds, start, exec, answer_of,
}
use nvmeof_project.Async.Invariant.{Sound, exec-Sound}

-- All objects are of kind WriteBlock.
abbrev AllWrite : List CallData → Type 0
AllWrite [] = Unit {0}
AllWrite (o ∷ os) = (o.kind ≡ write_block) × AllWrite os

abbrev pub SameAnswer : List (ℕ × Answer) → Type 0
SameAnswer [] = Unit {0}
SameAnswer ((t, a) ∷ rest) = (a ≡ written (pos 114514)) × SameAnswer rest

abbrev Fixed : Handler → Type 0
Fixed h = AllWrite h.objects × SameAnswer h.answers

set_status-AllWrite :
    (t : ℕ) (st : CallStatus) (os : List CallData) → AllWrite os → AllWrite (set_status t st os)
unfolding set_status
set_status-AllWrite t st [] h = h
set_status-AllWrite t st (o ∷ os) h =
    if_cases AllWrite (o.id == t) (record o { status = st } ∷ os) (o ∷ set_status t st os) (λ e. h)
      (λ e. (h.0, set_status-AllWrite t st os h.1))

delete-AllWrite : (t : ℕ) (os : List CallData) → AllWrite os → AllWrite (delete t os)
unfolding delete
delete-AllWrite t [] h = h
delete-AllWrite t (o ∷ os) h =
    if_cases AllWrite (o.id == t) os (o ∷ delete t os) (λ e. h.1)
      (λ e. (h.0, delete-AllWrite t os h.1))

find-AllWrite :
    (t : ℕ) (os : List CallData) (o : CallData)
    → AllWrite os
    → find t os ≡ some o
    → o.kind ≡ write_block
unfolding find
find-AllWrite t [] o h e = cc
find-AllWrite t (x ∷ os) o h e = ground (arith, find-AllWrite t os o h.1, h.0)

proceed_status-Fixed :
    (st : CallStatus) (t : ℕ) (kind : Kind) (io : Outcome) (h : Handler)
    → kind ≡ write_block
    → Fixed h
    → Fixed (proceed_status st t kind io h)
unfolding proceed_status answer_call construct request_call
proceed_status-Fixed create t kind io h e f = (set_status-AllWrite t process h.objects f.0, f.1)
proceed_status-Fixed process t kind io h e f = (
  set_status-AllWrite t finish
      (set_status h.next process
        (record { id = h.next; kind = write_block; status = create } ∷ h.objects))
      (set_status-AllWrite h.next process
        (record { id = h.next; kind = write_block; status = create } ∷ h.objects) (refl, f.0)),
  (ap (λ k. answer_of k io) e, f.1),
)
proceed_status-Fixed finish t kind io h e f = (delete-AllWrite t h.objects f.0, f.1)

-- Where the run goes on, all is as before.
abbrev KeepsFixed : Option Handler → Type 0
KeepsFixed none = Unit {0}
KeepsFixed (some h) = Fixed h

abbrev RoundKeepsFixed : RoundEnd → Type 0
RoundKeepsFixed (went_on h) = Fixed h
RoundKeepsFixed (process_ended h) = Fixed h
RoundKeepsFixed dangling = Unit {0}

proceed-KeepsFixed :
    (t : ℕ) (io : Outcome) (h : Handler)
    → Fixed h
    → RoundKeepsFixed (after_proceed (proceed t io h))
unfolding proceed
proceed-KeepsFixed t io h f =
    option_cases
      (λ m. RoundKeepsFixed (
        after_proceed
          (elim m [ none ↦ none | some o ↦ some (proceed_status o.status t o.kind io h) ])))
      (find t h.objects) (λ q. tt)
      (λ o q. proceed_status-Fixed o.status t o.kind io h (find-AllWrite t h.objects o f.0 q) f)

round-KeepsFixed : (c : Completion) (h : Handler) → Fixed h → RoundKeepsFixed (round c h)
unfolding round
round-KeepsFixed assertion_failed h f = f
round-KeepsFixed (completed k io) h f =
    option_cases
      (λ m. RoundKeepsFixed (elim m [
        | none ↦ went_on h
        | some t ↦
            if divides_by_zero t io h
            then process_ended h
            else after_proceed (proceed t io (record h { tags = drop_at k h.tags }))
      ]))
      (tag_at k h.tags) (λ e. f)
      (λ t e.
        let u = record h { tags = drop_at k h.tags } in
        if_cases RoundKeepsFixed (divides_by_zero t io h) (process_ended h)
          (after_proceed (proceed t io u)) (λ _. f) (λ _. proceed-KeepsFixed t io u f))

after_round-KeepsFixed :
    (cs : List Completion) (r : RoundEnd)
    → ((h : Handler) → Fixed h → KeepsFixed (rounds cs h))
    → RoundKeepsFixed r
    → KeepsFixed
        (elim r [ went_on h' ↦ rounds cs h' | process_ended h' ↦ some h' | dangling ↦ none ])
after_round-KeepsFixed cs (went_on h) rest f = rest h f
after_round-KeepsFixed cs (process_ended h) rest f = f
after_round-KeepsFixed cs dangling rest f = tt

rounds-KeepsFixed : (cs : List Completion) (h : Handler) → Fixed h → KeepsFixed (rounds cs h)
unfolding rounds
rounds-KeepsFixed [] h f = f
rounds-KeepsFixed (c ∷ cs) h f =
    after_round-KeepsFixed cs (round c h) (λ h' q. rounds-KeepsFixed cs h' q)
      (round-KeepsFixed c h f)

start-Fixed : Fixed (start write_block)
unfolding start construct request_call set_status
start-Fixed = ((refl, tt), tt)

-- A run that goes through no deleted object, with one answer for all.
abbrev pub AnswersAlike : Option Handler → Type 0
AnswersAlike none = ⊥
AnswersAlike (some h) = SameAnswer h.answers

alike : (m : Option Handler) → Sound m → KeepsFixed m → AnswersAlike m
unfolding Sound
alike none sound fixed = sound
alike (some h) sound fixed = fixed.1

-- Every call that a handler for WriteBlock answers, in whatever order the queue completes its
-- operations, is answered with the end block 114514.
pub exec-AnswersAlike : (cs : List Completion) → AnswersAlike (exec write_block cs)
unfolding exec
exec-AnswersAlike cs =
    alike (rounds cs (start write_block)) (exec-Sound write_block cs)
      (rounds-KeepsFixed cs (start write_block) start-Fixed)

-- The first call that a handler for WriteBlock is given, and its answer.
pub exec_first_call :
    (io : Outcome)
    → (h : Handler) × (exec write_block (completed 0 io ∷ []) ≡ some h)
      × (h.answers ≡ (0, written (pos 114514)) ∷ [])
unfolding exec start construct request_call set_status rounds round proceed proceed_status
    answer_call find tag_at drop_at divides_by_zero
exec_first_call io = (_, refl, refl)
