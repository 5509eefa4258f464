-- ===== src/FileTarget/Ring/Phases.antt =====
-- The io_uring handlers of src/file_target.cc: every state of a call is in one of three phases.
use mathlib.Core.Path.{subst}
use nvmeof_project.Prelude.{
  ℕ, zero, suc, ◌<◌, Bool, true, false, List, [], ◌∷◌, ◌++◌, ◌≡◌, ◌≢◌, refl, sym, ap, ◌∙◌, ◌⊎◌, inl,
  inr, length, length-append, take, drop, some, arith,
}
use nvmeof_project.FileTarget.{FileRequest, FileServer}
use nvmeof_project.FileTarget.Ring.{
  Handler, large, expr, small, Sqe, MainPc, setup, first_read, opening, reading, first_sqe,
  allocating, second_sqe, submitting, joining, answered, terminated, undefined, Reaper, not_started,
  running, gave_up, System, goto, target, keep_fd, step_at, reap, Step, main_step, reap_step,
  kernel_step, start_call, Reach, start, later,
}
use nvmeof_project.FileTarget.Ring.Owned.{Then, Then-some}
use nvmeof_project.FileTarget.Ring.Counts.{
  Begun, Ended, length-take-drop, dead_terminated, moved, read_first-Begun, read_next-Begun,
  opened-Begun, no_sqe-Begun, prepare_write-Begun, prepare_close-Begun, join-Begun,
}

abbrev pub At : Handler → FileServer → ℕ → System → Type 0
At h p k t = Begun h p k t.main t

abbrev left_of : Reaper → ℕ
left_of (running left) = left
left_of _ = 0

-- A thread that waits for more has not ended.
waiting_not_over :
    (left : ℕ) (s : System) → s.reaper ≡ running (suc left) → Ended s.reaper → Ended (running left)
waiting_not_over left s er (inl e) = absurd (omega (arith, ap left_of (sym er ∙ e)))
waiting_not_over left s er (inr e) = cc

module _ (p : FileServer) (k : ℕ) (some_request : 0 < k) where
  step_at-Begun :
      (h : Handler) (a : ℕ) (pc : MainPc) (s : System)
      → Begun h p k pc s
      → Then (At h p k) (step_at h p a pc s)
  unfolding step_at
  step_at-Begun h zero setup s b = absurd b.stream_left
  step_at-Begun h (suc a) setup s b = absurd b.stream_left
  step_at-Begun h a first_read s b = read_first-Begun p k some_request h s.stream s refl b
  step_at-Begun h a (opening zero) s b = opened-Begun p k some_request h s b
  step_at-Begun h zero (opening (suc left)) s b = dead_terminated p k some_request h s
  step_at-Begun h (suc d) (opening (suc left)) s b =
      moved p k some_request h (opening (suc left)) (opening left) s
        (record s { main = opening left; fds = keep_fd h d s.fds }) refl refl refl refl refl
        b.stream_left (λ e. cc) b
  step_at-Begun h a reading s b = read_next-Begun p k some_request h s.stream s refl b
  step_at-Begun h zero first_sqe s b = no_sqe-Begun p k some_request h s b
  step_at-Begun h (suc a) first_sqe s b =
      moved p k some_request h first_sqe allocating s (goto allocating s) refl refl refl refl refl
        b.stream_left (λ e. cc) b
  step_at-Begun h zero allocating s b = dead_terminated p k some_request h s
  step_at-Begun h (suc a) allocating s b = prepare_write-Begun p k some_request h (target h p s) s b
  step_at-Begun h zero second_sqe s b =
      moved p k some_request h second_sqe second_sqe s (goto second_sqe s) refl refl refl refl refl
        b.stream_left (λ e. cc) b
  step_at-Begun h (suc a) second_sqe s b = prepare_close-Begun p k some_request h s.fds s b
  step_at-Begun h a submitting s b =
      moved p k some_request h submitting reading s
        (record s {
          main = reading;
          queued = drop a s.queued;
          flight = s.flight ++ take a s.queued;
        })
        refl refl
        (omega (arith, length-append s.flight (take a s.queued), length-take-drop a s.queued)) refl
        refl b.stream_left (λ e. cc) b
  step_at-Begun h a joining s b = join-Begun p k some_request h s.reaper s refl b
  step_at-Begun h a (answered good) s b = tt
  step_at-Begun h a terminated s b = tt
  step_at-Begun h a undefined s b = tt

  reap-Begun :
      (h : Handler) (good : Bool) (r : Reaper) (cqes : List Sqe) (s : System)
      → s.reaper ≡ r
      → s.completed ≡ cqes
      → Begun h p k s.main s
      → Then (At h p k) (reap good r cqes s)
  unfolding reap
  reap-Begun h false (running (suc left)) cqes s er e b = record {
    balance = λ d left q. cc;
    stream_left = b.stream_left;
    started = λ d q. cc;
    ended = λ q. inr refl;
  }
  reap-Begun h true (running (suc left)) (x ∷ rest) s er e b = record {
    balance = λ d left' q. omega (arith, b.balance d (suc left) er, ap length e, ap left_of q);
    stream_left = b.stream_left;
    started = λ d q. cc;
    ended = λ q. waiting_not_over left s er (b.ended q);
  }
  reap-Begun h true (running (suc left)) [] s er e b = tt
  reap-Begun h true (running zero) cqes s er e b = tt
  reap-Begun h false (running zero) cqes s er e b = tt
  reap-Begun h true not_started cqes s er e b = tt
  reap-Begun h false not_started cqes s er e b = tt
  reap-Begun h true gave_up cqes s er e b = tt
  reap-Begun h false gave_up cqes s er e b = tt

  Step-Begun : (h : Handler) {s t : System} → At h p k s → Step h p s t → At h p k t
  Step-Begun h {s} {t} b (main_step a e) =
      Then-some (At h p k) (step_at h p a s.main s) t (step_at-Begun h a s.main s b) e
  Step-Begun h {s} {t} b (reap_step good e) =
      Then-some (At h p k) (reap good s.reaper s.completed s) t
        (reap-Begun h good s.reaper s.completed s refl refl b) e
  Step-Begun h {s} {t} b (kernel_step before x after e) = record {
    balance = λ d left q. omega (
      arith,
      b.balance d left q,
      ap length e,
      length-append before (x ∷ after),
      length-append before after,
      length-append s.completed (x ∷ []),
    );
    stream_left = b.stream_left;
    started = b.started;
    ended = b.ended;
  }

-- A call has not begun, could not make its ring, or goes on as above.
abbrev pub Phase : Handler → FileServer → List FileRequest → System → Type 0
Phase h p requests s =
    (s ≡ start_call requests) ⊎ (s.main ≡ answered false) ⊎ At h p (length requests) s

module _ (p : FileServer) (requests : List FileRequest) (some_request : 0 < length requests) where
  first_step :
      (h : Handler) (a : ℕ) → Then (Phase h p requests) (step_at h p a setup (start_call requests))
  unfolding step_at
  first_step h zero = inr (inl refl)
  first_step large (suc a) = inr (
      inr (record {
        balance = λ d left q. omega (arith, ap left_of q);
        stream_left = (refl, refl, refl);
        started = λ d q. cc;
        ended = λ e. cc;
      }))
  first_step expr (suc a) = inr (
      inr (record {
        balance = λ d left q. omega (arith, ap left_of q);
        stream_left = omega arith;
        started = λ d q. cc;
        ended = λ e. cc;
      }))
  first_step small (suc a) = inr (
      inr (record {
        balance = λ d left q. omega (arith, ap left_of q);
        stream_left = (refl, refl, refl);
        started = λ d q. cc;
        ended = λ e. cc;
      }))

  not_started-none :
      (good : Bool) (cqes : List Sqe) (s t : System) → reap good not_started cqes s ≢ some t
  unfolding reap
  not_started-none true cqes s t e = cc
  not_started-none false cqes s t e = cc

  start-Phase : (h : Handler) {t : System} → Step h p (start_call requests) t → Phase h p requests t
  start-Phase h {t} (main_step a e) =
      Then-some (Phase h p requests) (step_at h p a setup (start_call requests)) t (first_step h a)
        e
  start-Phase h {t} (reap_step good e) = absurd (not_started-none good [] (start_call requests) t e)
  start-Phase h (kernel_step before x after e) =
      absurd (omega (arith, ap length e, length-append before (x ∷ after)))

  answered-step :
      (h : Handler) (a : ℕ) (pc : MainPc) (s : System)
      → pc ≡ answered false
      → Then (λ t. t.main ≡ answered false) (step_at h p a pc s)
  unfolding step_at
  answered-step h a pc s e = rw e tt

  reap-main :
      (good : Bool) (r : Reaper) (cqes : List Sqe) (s : System)
      → Then (λ t. t.main ≡ s.main) (reap good r cqes s)
  unfolding reap
  reap-main false (running (suc left)) cqes s = refl
  reap-main true (running (suc left)) (x ∷ rest) s = refl
  reap-main true (running (suc left)) [] s = tt
  reap-main true (running zero) cqes s = tt
  reap-main false (running zero) cqes s = tt
  reap-main true not_started cqes s = tt
  reap-main false not_started cqes s = tt
  reap-main true gave_up cqes s = tt
  reap-main false gave_up cqes s = tt

  answered-Step :
      (h : Handler) {s t : System}
      → s.main ≡ answered false
      → Step h p s t
      → t.main ≡ answered false
  answered-Step h {s} {t} m (main_step a e) =
      Then-some (λ t. t.main ≡ answered false) (step_at h p a s.main s) t
        (answered-step h a s.main s m) e
  answered-Step h {s} {t} m (reap_step good e) =
      Then-some (λ t. t.main ≡ s.main) (reap good s.reaper s.completed s) t
        (reap-main good s.reaper s.completed s) e
      ∙ m
  answered-Step h m (kernel_step before x after e) = m

  Step-Phase :
      (h : Handler) {s t : System} → Phase h p requests s → Step h p s t → Phase h p requests t
  Step-Phase h {s} {t} (inl e) st = start-Phase h (subst (λ u. Step h p u t) e st)
  Step-Phase h (inr (inl m)) st = inr (inl (answered-Step h m st))
  Step-Phase h (inr (inr b)) st = inr (inr (Step-Begun p (length requests) some_request h b st))

  pub Reach-Phase : (h : Handler) (s : System) → Reach h p requests s → Phase h p requests s
  Reach-Phase h _ start = inl refl
  Reach-Phase h t (later {s} r st) = Step-Phase h (Reach-Phase h s r) st
