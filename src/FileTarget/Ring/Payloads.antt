-- ===== src/FileTarget/Ring/Payloads.antt =====
-- The io_uring handlers of src/file_target.cc: every write carries its own request's data.
use nvmeof_project.Prelude.{
  ℕ, zero, suc, ◌<◌, Bool, true, false, List, [], ◌∷◌, ◌≡◌, refl, length, take, drop,
}
use mathlib.Core.Path.{subst}
use nvmeof_project.FileTarget.{FileRequest, FileServer}
use nvmeof_project.FileTarget.Ring.{
  Handler, large, expr, small, Sqe, MainPc, setup, first_read, opening, reading, first_sqe,
  allocating, second_sqe, submitting, joining, answered, terminated, undefined, Reaper, not_started,
  running, gave_up, System, goto, after_setup, expected, close_files, keep_fd, target, join,
  step_at, reap, Step, main_step, reap_step, kernel_step, Reach, start, later,
}
use nvmeof_project.FileTarget.Ring.Owned.{Then, Then-some}
use nvmeof_project.FileTarget.Ring.Carried.{
  AllCarry, Carried, ReadAt, AllCarry-append, AllCarry-front, AllCarry-back, AllCarry-take,
  AllCarry-drop, moves, read_first-Carried, read_next-Carried, opened-Carried, no_sqe-Carried,
  prepare_close-Carried, prepare_write-Carried,
}

module _ (p : FileServer) (requests : List FileRequest) (some_request : 0 < length requests) where
  abbrev CarriesNow : Handler → System → Type 0
  CarriesNow h t = Carried h p.buffer_size requests t.main t

  setup-ReadAt :
      (h : Handler) (s : System)
      → (drop s.allocated requests ≡ s.stream) × (s.allocated ≡ 0)
      → ReadAt h requests (after_setup h p) s.stream s.allocated s.request
  setup-ReadAt large s q = q
  setup-ReadAt expr s q = q.0
  setup-ReadAt small s q = q

  opening-ReadAt :
      (h : Handler) (left : ℕ) (s : System)
      → ReadAt h requests (opening (suc left)) s.stream s.allocated s.request
      → ReadAt h requests (opening left) s.stream s.allocated s.request
  opening-ReadAt large left s q = q
  opening-ReadAt expr left s q = q
  opening-ReadAt small left s q = q

  join-Carried :
      (h : Handler) (r : Reaper) (s : System)
      → Carried h p.buffer_size requests joining s
      → Then (CarriesNow h) (join h r s)
  unfolding join
  join-Carried h not_started s b = tt
  join-Carried h (running zero) s b =
      moves p requests some_request h joining (answered true) s
        (record s { main = answered true; fds = close_files h s.fds }) refl refl refl tt b
  join-Carried h (running (suc left)) s b = tt
  join-Carried h gave_up s b =
      moves p requests some_request h joining (answered true) s
        (record s { main = answered true; fds = close_files h s.fds }) refl refl refl tt b

  step_at-Carried :
      (h : Handler) (a : ℕ) (pc : MainPc) (s : System)
      → Carried h p.buffer_size requests pc s
      → Then (CarriesNow h) (step_at h p a pc s)
  unfolding step_at
  step_at-Carried h zero setup s b =
      moves p requests some_request h setup (answered false) s (goto (answered false) s) refl refl
        refl tt b
  step_at-Carried h (suc a) setup s b =
      moves p requests some_request h setup (after_setup h p) s
        (record s { main = after_setup h p; reaper = running (expected h p) }) refl refl refl
        (setup-ReadAt h s b.progress) b
  step_at-Carried h a first_read s b =
      read_first-Carried p requests some_request h s.stream s refl b
  step_at-Carried h a (opening zero) s b = opened-Carried p requests some_request h s b
  step_at-Carried h zero (opening (suc left)) s b =
      moves p requests some_request h (opening (suc left)) terminated s (goto terminated s) refl
        refl refl tt b
  step_at-Carried h (suc d) (opening (suc left)) s b =
      moves p requests some_request h (opening (suc left)) (opening left) s
        (record s { main = opening left; fds = keep_fd h d s.fds }) refl refl refl
        (opening-ReadAt h left s b.progress) b
  step_at-Carried h a reading s b = read_next-Carried p requests some_request h s.stream s refl b
  step_at-Carried h zero first_sqe s b = no_sqe-Carried p requests some_request h s b
  step_at-Carried h (suc a) first_sqe s b =
      moves p requests some_request h first_sqe allocating s (goto allocating s) refl refl refl
        b.progress b
  step_at-Carried h zero allocating s b =
      moves p requests some_request h allocating terminated s (goto terminated s) refl refl refl tt
        b
  step_at-Carried h (suc a) allocating s b =
      prepare_write-Carried p requests some_request h (target h p s) s b
  step_at-Carried h zero second_sqe s b =
      moves p requests some_request h second_sqe second_sqe s (goto second_sqe s) refl refl refl
        b.progress b
  step_at-Carried h (suc a) second_sqe s b =
      prepare_close-Carried p requests some_request h s.fds s b
  step_at-Carried h a submitting s b = record {
    progress = b.progress;
    in_queue = AllCarry-drop p.buffer_size requests a s.queued b.in_queue;
    in_kernel =
        AllCarry-append p.buffer_size requests s.flight (take a s.queued) b.in_kernel
          (AllCarry-take p.buffer_size requests a s.queued b.in_queue);
    in_completions = b.in_completions;
  }
  step_at-Carried h a joining s b = join-Carried h s.reaper s b
  step_at-Carried h a (answered good) s b = tt
  step_at-Carried h a terminated s b = tt
  step_at-Carried h a undefined s b = tt

  reap-Carried :
      (h : Handler) (good : Bool) (r : Reaper) (cqes : List Sqe) (s : System)
      → s.completed ≡ cqes
      → CarriesNow h s
      → Then (CarriesNow h) (reap good r cqes s)
  unfolding reap
  reap-Carried h false (running (suc left)) cqes s e b = record {
    progress = b.progress;
    in_queue = b.in_queue;
    in_kernel = b.in_kernel;
    in_completions = b.in_completions;
  }
  reap-Carried h true (running (suc left)) (x ∷ rest) s e b = record {
    progress = b.progress;
    in_queue = b.in_queue;
    in_kernel = b.in_kernel;
    in_completions = (subst (AllCarry p.buffer_size requests) e b.in_completions).1;
  }
  reap-Carried h true (running (suc left)) [] s e b = tt
  reap-Carried h true (running zero) cqes s e b = tt
  reap-Carried h false (running zero) cqes s e b = tt
  reap-Carried h true not_started cqes s e b = tt
  reap-Carried h false not_started cqes s e b = tt
  reap-Carried h true gave_up cqes s e b = tt
  reap-Carried h false gave_up cqes s e b = tt

  Step-Carried : (h : Handler) {s t : System} → CarriesNow h s → Step h p s t → CarriesNow h t
  Step-Carried h {s} {t} b (main_step a e) =
      Then-some (CarriesNow h) (step_at h p a s.main s) t (step_at-Carried h a s.main s b) e
  Step-Carried h {s} {t} b (reap_step good e) =
      Then-some (CarriesNow h) (reap good s.reaper s.completed s) t
        (reap-Carried h good s.reaper s.completed s refl b) e
  Step-Carried h {s} {t} b (kernel_step before x after e) =
      let all = subst (AllCarry p.buffer_size requests) e b.in_kernel in
      let back = AllCarry-back p.buffer_size requests before (x ∷ after) all in
      record {
        progress = b.progress;
        in_queue = b.in_queue;
        in_kernel =
            AllCarry-append p.buffer_size requests before after
              (AllCarry-front p.buffer_size requests before (x ∷ after) all) back.1;
        in_completions =
            AllCarry-append p.buffer_size requests s.completed (x ∷ []) b.in_completions
              (back.0, tt);
      }

  Reach-Carried : (h : Handler) (s : System) → Reach h p requests s → CarriesNow h s
  Reach-Carried h _ start = record {
    progress = (refl, refl);
    in_queue = tt;
    in_kernel = tt;
    in_completions = tt;
  }
  Reach-Carried h t (later {s} r st) = Step-Carried h (Reach-Carried h s r) st

-- When the stream has a request at all: in every state that a handler reaches, each write in the
-- submission queue, in the kernel or completed, if it writes from the buffer `b`, carries the first
-- `buffer_size` bytes of the data of the stream's request number `b`, with the NUL after them.
pub Reach-AllCarry :
    (h : Handler) (p : FileServer) (requests : List FileRequest) (s : System)
    → 0 < length requests
    → Reach h p requests s
    → AllCarry p.buffer_size requests s.queued
      × AllCarry p.buffer_size requests s.flight
      × AllCarry p.buffer_size requests s.completed
Reach-AllCarry h p requests s some_request r =
    let c = Reach-Carried p requests some_request h s r in
    (c.in_queue, c.in_kernel, c.in_completions)
