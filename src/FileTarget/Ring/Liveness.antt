-- ===== src/FileTarget/Ring/Liveness.antt =====
-- The io_uring handlers of src/file_target.cc: cq_thread.join() returns when the stream was long
-- enough.
use mathlib.Core.Path.{subst}
use nvmeof_project.Prelude.{
  ℕ, zero, suc, ◌+◌, ◌*◌, ◌≤◌, ◌<◌, Bool, true, false, List, [], ◌∷◌, ◌++◌, ◌≡◌, ◌≢◌, refl, sym, ap,
  ◌∙◌, ◌⊎◌, inl, inr, length, length-append, some, nat_part, arith,
}
use nvmeof_project.FileTarget.{FileRequest, FileServer}
use nvmeof_project.FileTarget.Ring.{
  Handler, large, expr, small, Sqe, MainPc, setup, joining, answered, Reaper, not_started, running,
  gave_up, System, join, step_at, reap, free_data, close_files, Step, main_step, reap_step,
  kernel_step, Reach, later,
}
use nvmeof_project.FileTarget.Ring.Owned.{Then, Then-some}
use nvmeof_project.FileTarget.Ring.Counts.{entries, Begun}
use nvmeof_project.FileTarget.Ring.Phases.{Phase, Reach-Phase}

-- Every schedule from here on comes to the answer OK, and none is stuck before.
pub data Answers (h : Handler) (p : FileServer) : System → Type 0 where
  now_answered : {s : System} → s.main ≡ answered true → Answers h p s
  step_on :
      {s u : System} → Step h p s u → ((t : System) → Step h p s t → Answers h p t) → Answers h p s

-- The steps that are left while the handler waits.
abbrev waits : Reaper → ℕ
waits not_started = 0
waits (running left) = 1
waits gave_up = 0

abbrev work : System → ℕ
work s = 2 * length s.flight + length s.completed + waits s.reaper

-- The handler waits for its thread, and all its entries were taken by the kernel.
abbrev Waiting : Handler → FileServer → List FileRequest → System → Type 0
Waiting h p requests s = Reach h p requests s × (s.main ≡ joining) × (s.queued ≡ [])

-- What a step of cq_thread leaves.
abbrev Reaps : System → System → Type 0
Reaps s t = (t.main ≡ s.main) × (t.queued ≡ s.queued) × (work t < work s)

reap-Reaps :
    (good : Bool) (r : Reaper) (cqes : List Sqe) (s : System)
    → s.reaper ≡ r
    → s.completed ≡ cqes
    → Then (Reaps s) (reap good r cqes s)
unfolding reap
reap-Reaps false (running (suc left)) cqes s er e = (refl, refl, omega (arith, ap waits er))
reap-Reaps true (running (suc left)) (x ∷ rest) s er e =
    (refl, refl, omega (arith, ap waits er, ap length e))
reap-Reaps true (running (suc left)) [] s er e = tt
reap-Reaps true (running zero) cqes s er e = tt
reap-Reaps false (running zero) cqes s er e = tt
reap-Reaps true not_started cqes s er e = tt
reap-Reaps false not_started cqes s er e = tt
reap-Reaps true gave_up cqes s er e = tt
reap-Reaps false gave_up cqes s er e = tt

join-answered :
    (h : Handler) (r : Reaper) (s : System) → Then (λ t. t.main ≡ answered true) (join h r s)
unfolding join
join-answered h not_started s = tt
join-answered h (running zero) s = refl
join-answered h (running (suc left)) s = tt
join-answered h gave_up s = refl

step_joining :
    (h : Handler) (p : FileServer) (a : ℕ) (pc : MainPc) (s : System)
    → pc ≡ joining
    → Then (λ t. t.main ≡ answered true) (step_at h p a pc s)
unfolding step_at
step_joining h p a pc s e = rw e (join-answered h s.reaper s)

-- A thread that has ended is joined.
joined :
    (h : Handler) (p : FileServer) (s t : System)
    → s.main ≡ joining
    → join h s.reaper s ≡ some t
    → Step h p s t
unfolding step_at
joined h p s t m e = main_step 0 (subst (λ pc. step_at h p 0 pc s ≡ some t) (sym m) e)

-- Some completion is there, or still to come, while cq_thread waits for one.
module _ (h : Handler) (p : FileServer) (s : System) (left : ℕ) (m : s.main ≡ joining)
    (er : s.reaper ≡ running (suc left)) where
  next_of :
      (cqes entries : List Sqe)
      → s.completed ≡ cqes
      → s.flight ≡ entries
      → 0 < length cqes + length entries
      → (t : System) × Step h p s t
  unfolding reap
  next_of (x ∷ rest) es e f some_entry = (
    record s { reaper = running left; completed = rest; freed = free_data x s.freed },
    reap_step true (rw (er, e) refl),
  )
  next_of [] (x ∷ after) e f some_entry =
      (record s { flight = after; completed = s.completed ++ (x ∷ []) }, kernel_step [] x after f)
  next_of [] [] e f some_entry = absurd (omega arith)

entries_left :
    (h : Handler) (p : FileServer) (k left : ℕ) (s : System)
    → nat_part p.request_count ≤ k
    → s.reaper ≡ running (suc left)
    → Begun h p k joining s
    → 0 < entries s
entries_left large p k left s enough er b =
    omega (arith, b.balance refl (suc left) er, b.stream_left)
entries_left expr p k left s enough er b =
    omega (arith, b.balance refl (suc left) er, b.stream_left)
entries_left small p k left s enough er b =
    omega (arith, b.balance refl (suc left) er, b.stream_left)

module _ (h : Handler) (p : FileServer) (requests : List FileRequest)
    (some_request : 0 < length requests) (enough : nat_part p.request_count ≤ length requests) where
  Begun-joining :
      (s : System) → Reach h p requests s → s.main ≡ joining → Begun h p (length requests) joining s
  Begun-joining s r m = go (Reach-Phase p requests some_request h s r)
    where
      go : Phase h p requests s → Begun h p (length requests) joining s
      go (inl e) = let q : setup ≡ joining = sym (ap (λ u. u.main) e) ∙ m in cc
      go (inr (inl e)) = let q : answered false ≡ joining = sym e ∙ m in cc
      go (inr (inr b)) = subst (λ pc. Begun h p (length requests) pc s) m b

  not_stuck :
      (r : Reaper) (s : System)
      → s.reaper ≡ r
      → r ≢ not_started
      → Waiting h p requests s
      → (t : System) × Step h p s t
  unfolding join
  not_stuck not_started s er begun w = absurd (begun refl)
  not_stuck (running zero) s er begun w =
      let t : System = record s { main = answered true; fds = close_files h s.fds } in
      (t, joined h p s t w.1 (subst (λ r. join h r s ≡ some t) (sym er) refl))
  not_stuck (running (suc left)) s er begun w =
      next_of h p s left w.1 er s.completed s.flight refl refl (
        omega (
          arith,
          entries_left h p (length requests) left s enough er (Begun-joining s w.0 w.1),
          ap length w.2,
        ))
  not_stuck gave_up s er begun w =
      let t : System = record s { main = answered true; fds = close_files h s.fds } in
      (t, joined h p s t w.1 (subst (λ r. join h r s ≡ some t) (sym er) refl))

  -- Every step leads on, with less work, or to the answer.
  Step-Waiting :
      (s t : System)
      → Waiting h p requests s
      → Step h p s t
      → (t.main ≡ answered true) ⊎ (Waiting h p requests t × (work t < work s))
  Step-Waiting s t w (main_step a e) = inl (
      Then-some (λ t. t.main ≡ answered true) (step_at h p a s.main s) t
        (step_joining h p a s.main s w.1) e)
  Step-Waiting s t w (reap_step good e) =
      let less : Reaps s t =
        Then-some (Reaps s) (reap good s.reaper s.completed s) t
          (reap-Reaps good s.reaper s.completed s refl refl) e in
      inr ((later w.0 (reap_step good e), less.0 ∙ w.1, less.1 ∙ w.2), less.2)
  Step-Waiting s _ w (kernel_step before x after e) = inr (
    (later w.0 (kernel_step before x after e), w.1, w.2),
    omega (
      arith,
      ap length e,
      length-append before (x ∷ after),
      length-append before after,
      length-append s.completed (x ∷ []),
    ),
  )

  waits-Answers : (n : ℕ) (s : System) → work s < n → Waiting h p requests s → Answers h p s
  waits-Answers zero s le w = absurd (omega arith)
  waits-Answers (suc n) s le w =
      let begun = (Begun-joining s w.0 w.1).started refl in
      step_on (not_stuck s.reaper s refl begun w).1 (λ t st. elim (Step-Waiting s t w st) [
        | inl a ↦ now_answered a
        | inr q ↦ waits-Answers n t (omega (arith, q.1)) q.0
      ])

  -- A handler that has read a stream of N requests or more, and one at least, and whose entries were
  -- all taken by the kernel, answers OK: when it waits for cq_thread, no schedule of the steps is
  -- stuck before the answer, and none goes on for ever.
  pub joining-Answers :
      (s : System) → Reach h p requests s → s.main ≡ joining → s.queued ≡ [] → Answers h p s
  joining-Answers s r m q = waits-Answers (suc (work s)) s (omega arith) (r, m, q)
