-- ===== src/FileTarget/Ring/Owned.antt =====
-- The buffers of the io_uring handlers of src/file_target.cc: each is in one place.
use mathlib.Core.Path.{subst}
use nvmeof_project.Prelude.{
  ℕ, zero, suc, ◌+◌, ltb, ◌==◌, if◌then◌else◌, Bool, true, false, List, [], ◌∷◌, ◌++◌, ◌≡◌, refl,
  ap, take, drop, Option, none, some, arith,
}
use nvmeof_project.FileTarget.{FileRequest, FileServer, payload}
use nvmeof_project.FileTarget.Ring.{
  Handler, Sqe, write_sqe, close_sqe, MainPc, setup, first_read, opening, reading, first_sqe,
  allocating, second_sqe, submitting, joining, answered, terminated, undefined, Reaper, not_started,
  running, gave_up, System, target, prepare_write, read_first, read_next, prepare_close, join,
  step_at, free_data, reap, Step, main_step, reap_step, kernel_step, Reach, start, later,
}

-- How often a list has a number.
abbrev pub occurs : ℕ → List ℕ → ℕ
occurs b [] = 0
occurs b (x ∷ xs) = (if x == b then 1 else 0) + occurs b xs

-- How many of the entries have the buffer `b`.
abbrev pub one_use : ℕ → Sqe → ℕ
one_use b (write_sqe fd buffer bytes) = if buffer == b then 1 else 0
one_use b (close_sqe fd) = 0

abbrev pub uses : ℕ → List Sqe → ℕ
uses b [] = 0
uses b (e ∷ es) = one_use b e + uses b es

pub uses-append : (b : ℕ) (xs ys : List Sqe) → uses b (xs ++ ys) ≡ uses b xs + uses b ys
uses-append b [] ys = omega arith
uses-append b (x ∷ xs) ys = omega (arith, uses-append b xs ys)

pub uses-take-drop : (b n : ℕ) (xs : List Sqe) → uses b (take n xs) + uses b (drop n xs) ≡ uses b xs
uses-take-drop b zero xs = omega arith
uses-take-drop b (suc n) [] = refl
uses-take-drop b (suc n) (x ∷ xs) = omega (arith, uses-take-drop b n xs)

-- The places of the buffer `b`.
abbrev pub places : ℕ → System → ℕ
places b s = uses b s.queued + uses b s.flight + uses b s.completed + occurs b s.freed

-- The buffer `b` is in one place when it was allocated, and nowhere before.
abbrev pub Owned : ℕ → System → Type 0
Owned b s = places b s ≡ (if ltb b s.allocated then 1 else 0)

-- A property of the state that a step leads to, where there is one.
abbrev pub Then : (System → Type 0) → Option System → Type 0
Then P none = Unit {0}
Then P (some t) = P t

pub Then-some : (P : System → Type 0) (o : Option System) (t : System) → Then P o → o ≡ some t → P t
Then-some P o t h e = subst (Then P) e h

module _ (b : ℕ) where
  read_first-Owned : (rs : List FileRequest) (s : System) → Owned b s → Owned b (read_first rs s)
  unfolding read_first
  read_first-Owned [] s h = h
  read_first-Owned (r ∷ rest) s h = h

  read_next-Owned :
      (h : Handler) (rs : List FileRequest) (s : System) → Owned b s → Owned b (read_next h rs s)
  unfolding read_next
  read_next-Owned h [] s o = o
  read_next-Owned h (r ∷ rest) s o = o

  prepare_write-Owned :
      (h : Handler) (p : FileServer) (fd : Option ℕ) (s : System)
      → Owned b s
      → Owned b (prepare_write h p fd s)
  unfolding prepare_write
  prepare_write-Owned h p none s o = o
  prepare_write-Owned h p (some fd) s o = ground (
    arith,
    o,
    uses-append b s.queued (write_sqe fd s.allocated (payload p.buffer_size s.request) ∷ []),
  )

  prepare_close-Owned : (fds : List ℕ) (s : System) → Owned b s → Owned b (prepare_close fds s)
  unfolding prepare_close
  prepare_close-Owned [] s o = o
  prepare_close-Owned (fd ∷ fds) s o = omega (arith, o, uses-append b s.queued (close_sqe fd ∷ []))

  join-Owned : (h : Handler) (r : Reaper) (s : System) → Owned b s → Then (Owned b) (join h r s)
  unfolding join
  join-Owned h not_started s o = tt
  join-Owned h (running zero) s o = o
  join-Owned h (running (suc left)) s o = tt
  join-Owned h gave_up s o = o

  step_at-Owned :
      (h : Handler) (p : FileServer) (a : ℕ) (pc : MainPc) (s : System)
      → Owned b s
      → Then (Owned b) (step_at h p a pc s)
  unfolding step_at
  step_at-Owned h p zero setup s o = o
  step_at-Owned h p (suc a) setup s o = o
  step_at-Owned h p a first_read s o = read_first-Owned s.stream s o
  step_at-Owned h p a (opening zero) s o = o
  step_at-Owned h p zero (opening (suc left)) s o = o
  step_at-Owned h p (suc d) (opening (suc left)) s o = o
  step_at-Owned h p a reading s o = read_next-Owned h s.stream s o
  step_at-Owned h p zero first_sqe s o = o
  step_at-Owned h p (suc a) first_sqe s o = o
  step_at-Owned h p zero allocating s o = o
  step_at-Owned h p (suc a) allocating s o = prepare_write-Owned h p (target h p s) s o
  step_at-Owned h p zero second_sqe s o = o
  step_at-Owned h p (suc a) second_sqe s o = prepare_close-Owned s.fds s o
  step_at-Owned h p a submitting s o =
      omega (arith, o, uses-append b s.flight (take a s.queued), uses-take-drop b a s.queued)
  step_at-Owned h p a joining s o = join-Owned h s.reaper s o
  step_at-Owned h p a (answered good) s o = tt
  step_at-Owned h p a terminated s o = tt
  step_at-Owned h p a undefined s o = tt

  free_data-occurs :
      (e : Sqe) (freed : List ℕ) → occurs b (free_data e freed) ≡ one_use b e + occurs b freed
  free_data-occurs (write_sqe fd buffer bytes) freed = refl
  free_data-occurs (close_sqe fd) freed = omega arith

  reap-Owned :
      (good : Bool) (r : Reaper) (cqes : List Sqe) (s : System)
      → s.completed ≡ cqes
      → Owned b s
      → Then (Owned b) (reap good r cqes s)
  unfolding reap
  reap-Owned false (running (suc left)) cqes s e o = o
  reap-Owned true (running (suc left)) (x ∷ rest) s e o =
      omega (arith, o, ap (uses b) e, free_data-occurs x s.freed)
  reap-Owned true (running (suc left)) [] s e o = tt
  reap-Owned true (running zero) cqes s e o = tt
  reap-Owned false (running zero) cqes s e o = tt
  reap-Owned true not_started cqes s e o = tt
  reap-Owned false not_started cqes s e o = tt
  reap-Owned true gave_up cqes s e o = tt
  reap-Owned false gave_up cqes s e o = tt

  Step-Owned : (h : Handler) (p : FileServer) {s t : System} → Owned b s → Step h p s t → Owned b t
  Step-Owned h p {s} {t} o (main_step a e) =
      Then-some (Owned b) (step_at h p a s.main s) t (step_at-Owned h p a s.main s o) e
  Step-Owned h p {s} {t} o (reap_step good e) =
      Then-some (Owned b) (reap good s.reaper s.completed s) t
        (reap-Owned good s.reaper s.completed s refl o) e
  Step-Owned h p {s} {t} o (kernel_step before x after e) = omega (
    arith,
    o,
    ap (uses b) e,
    uses-append b before (x ∷ after),
    uses-append b before after,
    uses-append b s.completed (x ∷ []),
  )

-- However the handler, its completion thread and the kernel take their steps, and whatever the
-- outside calls answer: a buffer that was allocated is in exactly one place, the submission queue,
-- the kernel, the completion queue or the freed ones, and in that place once; a number that was not
-- allocated is in none.
pub Reach-Owned :
    (h : Handler) (p : FileServer) (requests : List FileRequest) (s : System)
    → Reach h p requests s
    → (b : ℕ) → Owned b s
Reach-Owned h p requests _ start b = ground arith
Reach-Owned h p requests t (later {s} r st) b = Step-Owned b h p (Reach-Owned h p requests s r b) st
