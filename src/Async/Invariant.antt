-- ===== src/Async/Invariant.antt =====
-- What every schedule of completions keeps of an asynchronous server's objects and tags.
use nvmeof_project.Prelude.{
  ℕ, suc, ◌+◌, ◌≤◌, ◌≡◌, refl, sym, Bool-cases, ◌==◌, ==-refl, option_cases, if_cases,
  if◌then◌else◌, false, Option, none, some, List, [], ◌∷◌, length, arith,
}
use mathlib.Core.Path.{subst}
use nvmeof_project.Block.{Outcome}
use nvmeof_project.Async.{
  CallStatus, create, process, finish, Kind, CallData, Handler, Answer, find, set_status, delete,
  request_call, construct, answer_call, proceed_status, proceed, tag_at, drop_at, Completion,
  completed, assertion_failed, RoundEnd, went_on, process_ended, dangling, after_proceed,
  divides_by_zero, round, rounds, start, exec, answer_of, write_block,
}
use nvmeof_project.Async.Objects.{
  one, count_tag, count_id, count_status, count_tag-drop_at, find-some, count_id-set_status,
  count_status-set_status, count_id-delete, count_status-delete,
}

-- Between two rounds: the tags with the queue are the addresses of the objects, no address is
-- that of two objects, and one object waits for a call; each answer had an object of its own.
pub record Inv (h : Handler) : Type 0 where
  pub paired : (i : ℕ) → count_tag i h.tags ≡ count_id i h.objects
  pub once : (i : ℕ) → count_id i h.objects ≤ 1
  pub fresh : (i : ℕ) → h.next ≤ i → count_id i h.objects ≡ 0
  pub waiting : count_status process h.objects ≡ 1
  pub settled : count_status create h.objects ≡ 0
  pub answered : h.next ≡ suc (length h.answers)

-- Within a round, when the tag `t` has been taken from the queue.
record Taken (t : ℕ) (h : Handler) : Type 0 where
  paired : (i : ℕ) → count_tag i h.tags + one (t == i) ≡ count_id i h.objects
  once : (i : ℕ) → count_id i h.objects ≤ 1
  fresh : (i : ℕ) → h.next ≤ i → count_id i h.objects ≡ 0
  waiting : count_status process h.objects ≡ 1
  settled : count_status create h.objects ≡ 0
  answered : h.next ≡ suc (length h.answers)

take_tag :
    (k t : ℕ) (h : Handler)
    → Inv h
    → tag_at k h.tags ≡ some t
    → Taken t (record h { tags = drop_at k h.tags })
take_tag k t h inv e = record {
  paired = λ i. omega (arith, count_tag-drop_at k t i h.tags e, inv.paired i);
  once = inv.once;
  fresh = inv.fresh;
  waiting = inv.waiting;
  settled = inv.settled;
  answered = inv.answered;
}

live_object : (t : ℕ) (h : Handler) → Taken t h → (o : CallData) × (find t h.objects ≡ some o)
live_object t h inv = find-some t h.objects (ground (arith, inv.paired t, ==-refl t))

-- An object that has finished is deleted, and nothing of it is left with the queue.
delete-Inv :
    (t : ℕ) (h : Handler) (o : CallData)
    → Taken t h
    → find t h.objects ≡ some o
    → o.status ≡ finish
    → Inv (record h { objects = delete t h.objects })
delete-Inv t h o inv e es = record {
  paired = λ i. omega (arith, inv.paired i, count_id-delete t i h.objects o e);
  once = λ i. omega (arith, inv.once i, count_id-delete t i h.objects o e);
  fresh = λ i hi. omega (arith, inv.fresh i hi, count_id-delete t i h.objects o e);
  waiting = ground (arith, inv.waiting, count_status-delete t process h.objects o e);
  settled = ground (arith, inv.settled, count_status-delete t create h.objects o e);
  answered = inv.answered;
}

-- The objects once an answer has been sent: a new one that waits, and `t` finished.
objects_after :
    (t n : ℕ) (kind : Kind) (st : CallStatus) (os : List CallData)
    → (n == t) ≡ false
    → set_status t finish (set_status n process (record { id = n; kind = kind; status = st } ∷ os))
      ≡ record { id = n; kind = kind; status = process } ∷ set_status t finish os
unfolding set_status
objects_after t n kind st os e = ground (arith, ==-refl n, e)

not_next : (t : ℕ) (h : Handler) → Taken t h → (h.next == t) ≡ false
not_next t h inv = ground (arith, inv.paired t, inv.fresh t, ==-refl t)

-- The record that `answer_call` returns keeps the invariant.
answered-Inv :
    (t : ℕ) (a : Answer) (h : Handler) (o : CallData)
    → Taken t h
    → find t h.objects ≡ some o
    → o.status ≡ process
    → Inv (record {
      objects =
          record { id = h.next; kind = write_block; status = process }
          ∷ set_status t finish h.objects;
      tags = t ∷ (h.next ∷ h.tags);
      next = suc h.next;
      answers = (t, a) ∷ h.answers;
    })
answered-Inv t a h o inv e es = record {
  paired = λ i. omega (arith, inv.paired i, count_id-set_status t i finish h.objects);
  once = λ i. ground (
    arith,
    inv.once i,
    inv.fresh i,
    count_id-set_status t i finish h.objects,
    Bool-cases (h.next == i),
  );
  fresh = λ i hi.
      ground
        (arith, inv.fresh i, count_id-set_status t i finish h.objects, Bool-cases (h.next == i));
  waiting = ground (arith, inv.waiting, count_status-set_status t finish process h.objects o e);
  settled = ground (arith, inv.settled, count_status-set_status t finish create h.objects o e);
  answered = omega (arith, inv.answered);
}

answer_call-Inv :
    (t : ℕ) (kind : Kind) (io : Outcome) (h : Handler) (o : CallData)
    → Taken t h
    → find t h.objects ≡ some o
    → o.status ≡ process
    → Inv (answer_call t kind io h)
unfolding answer_call construct request_call
answer_call-Inv t kind io h o inv e es =
    subst
      (λ os. Inv (record {
        objects = os;
        tags = t ∷ (h.next ∷ h.tags);
        next = suc h.next;
        answers = (t, answer_of kind io) ∷ h.answers;
      }))
      (sym (objects_after t h.next write_block create h.objects (not_next t h inv)))
      (answered-Inv t (answer_of kind io) h o inv e es)

proceed_status-Inv :
    (st : CallStatus) (t : ℕ) (io : Outcome) (h : Handler) (o : CallData)
    → Taken t h
    → find t h.objects ≡ some o
    → o.status ≡ st
    → Inv (proceed_status st t o.kind io h)
unfolding proceed_status
proceed_status-Inv create t io h o inv e es =
    absurd (ground (arith, inv.settled, count_status-delete t create h.objects o e))
proceed_status-Inv process t io h o inv e es = answer_call-Inv t o.kind io h o inv e es
proceed_status-Inv finish t io h o inv e es = delete-Inv t h o inv e es

-- A run that has not gone through a deleted object, with what is kept.
unfoldable pub Sound : Option Handler → Type 0
Sound none = ⊥
Sound (some h) = Inv h

proceed-Sound : (t : ℕ) (io : Outcome) (h : Handler) → Taken t h → Sound (proceed t io h)
unfolding proceed Sound
proceed-Sound t io h inv =
    option_cases
      (λ m. Sound (elim m [ none ↦ none | some o ↦ some (proceed_status o.status t o.kind io h) ]))
      (find t h.objects)
      (λ e. let (o, found) = live_object t h inv in absurd (ground (arith, e, found)))
      (λ o e. proceed_status-Inv o.status t io h o inv e refl)

-- The same of one round.
unfoldable pub SoundRound : RoundEnd → Type 0
SoundRound (went_on h) = Inv h
SoundRound (process_ended h) = Inv h
SoundRound dangling = ⊥

after_proceed-SoundRound : (m : Option Handler) → Sound m → SoundRound (after_proceed m)
unfolding Sound SoundRound
after_proceed-SoundRound none bad = bad
after_proceed-SoundRound (some h) inv = inv

round-SoundRound : (c : Completion) (h : Handler) → Inv h → SoundRound (round c h)
unfolding round SoundRound
round-SoundRound assertion_failed h inv = inv
round-SoundRound (completed k io) h inv =
    option_cases
      (λ m. SoundRound (elim m [
        | none ↦ went_on h
        | some t ↦
            if divides_by_zero t io h
            then process_ended h
            else after_proceed (proceed t io (record h { tags = drop_at k h.tags }))
      ]))
      (tag_at k h.tags) (λ e. inv)
      (λ t e.
        let u = record h { tags = drop_at k h.tags } in
        if_cases SoundRound (divides_by_zero t io h) (process_ended h)
          (after_proceed (proceed t io u)) (λ _. inv)
          (λ _.
            after_proceed-SoundRound (proceed t io u)
              (proceed-Sound t io u (take_tag k t h inv e))))

after_round-Sound :
    (cs : List Completion) (r : RoundEnd)
    → ((h : Handler) → Inv h → Sound (rounds cs h))
    → SoundRound r
    → Sound (elim r [ went_on h' ↦ rounds cs h' | process_ended h' ↦ some h' | dangling ↦ none ])
unfolding Sound SoundRound
after_round-Sound cs (went_on h) rest inv = rest h inv
after_round-Sound cs (process_ended h) rest inv = inv
after_round-Sound cs dangling rest bad = bad

rounds-Sound : (cs : List Completion) (h : Handler) → Inv h → Sound (rounds cs h)
unfolding rounds Sound
rounds-Sound [] h inv = inv
rounds-Sound (c ∷ cs) h inv =
    after_round-Sound cs (round c h) (λ h' inv'. rounds-Sound cs h' inv') (round-SoundRound c h inv)

start-Inv : (kind : Kind) → Inv (start kind)
unfolding start construct request_call set_status
start-Inv kind = record {
  paired = λ i. omega arith;
  once = λ i. ground arith;
  fresh = λ i hi. ground arith;
  waiting = refl;
  settled = refl;
  answered = refl;
}

-- Whichever operations the queue completes, and in whichever order, the loop of `exec` calls no
-- object that has been deleted. After each round, and when an assertion or a division by zero ends
-- the process before one, every object has one operation outstanding, one object waits for a call,
-- and the rest wait for their answer to be sent.
pub exec-Sound : (kind : Kind) (cs : List Completion) → Sound (exec kind cs)
unfolding exec
exec-Sound kind cs = rounds-Sound cs (start kind) (start-Inv kind)
