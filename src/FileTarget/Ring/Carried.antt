-- ===== src/FileTarget/Ring/Carried.antt =====
-- The io_uring handlers of src/file_target.cc: what the writes carry.
use nvmeof_project.Prelude.{
  ℕ, zero, suc, ◌+◌, ◌<◌, leb, if_cases, List, [], ◌∷◌, ◌++◌, ◌≡◌, refl, sym, ap, ◌∙◌, length, take,
  drop, Option, none, some, arith,
}
use nvmeof_project.FileTarget.{FileRequest, FileServer, payload}
use nvmeof_project.FileTarget.Ring.{
  Handler, large, expr, small, Sqe, write_sqe, close_sqe, MainPc, setup, first_read, opening,
  reading, first_sqe, allocating, second_sqe, submitting, joining, answered, terminated, undefined,
  System, goto, after_open, no_sqe, after_write, prepare_write, read_first, read_next,
  prepare_close,
}

abbrev pub request_at : ℕ → List FileRequest → Option FileRequest
request_at n [] = none
request_at zero (r ∷ rs) = some r
request_at (suc n) (r ∷ rs) = request_at n rs

-- The write from buffer `b` carries what the handlers copy of request `b`.
abbrev pub Carries : ℕ → List FileRequest → Sqe → Type 0
Carries size requests (write_sqe fd b bytes) =
    (r : FileRequest) × (request_at b requests ≡ some r) × (bytes ≡ payload size r)
Carries size requests (close_sqe fd) = Unit {0}

abbrev pub AllCarry : ℕ → List FileRequest → List Sqe → Type 0
AllCarry size requests [] = Unit {0}
AllCarry size requests (e ∷ es) = Carries size requests e × AllCarry size requests es

module _ (size : ℕ) (requests : List FileRequest) where
  pub AllCarry-append :
      (xs ys : List Sqe)
      → AllCarry size requests xs
      → AllCarry size requests ys
      → AllCarry size requests (xs ++ ys)
  AllCarry-append [] ys a b = b
  AllCarry-append (x ∷ xs) ys a b = (a.0, AllCarry-append xs ys a.1 b)

  pub AllCarry-front :
      (xs ys : List Sqe) → AllCarry size requests (xs ++ ys) → AllCarry size requests xs
  AllCarry-front [] ys a = tt
  AllCarry-front (x ∷ xs) ys a = (a.0, AllCarry-front xs ys a.1)

  pub AllCarry-back :
      (xs ys : List Sqe) → AllCarry size requests (xs ++ ys) → AllCarry size requests ys
  AllCarry-back [] ys a = a
  AllCarry-back (x ∷ xs) ys a = AllCarry-back xs ys a.1

  pub AllCarry-take :
      (n : ℕ) (xs : List Sqe) → AllCarry size requests xs → AllCarry size requests (take n xs)
  AllCarry-take zero xs a = tt
  AllCarry-take (suc n) [] a = tt
  AllCarry-take (suc n) (x ∷ xs) a = (a.0, AllCarry-take n xs a.1)

  pub AllCarry-drop :
      (n : ℕ) (xs : List Sqe) → AllCarry size requests xs → AllCarry size requests (drop n xs)
  AllCarry-drop zero xs a = a
  AllCarry-drop (suc n) [] a = tt
  AllCarry-drop (suc n) (x ∷ xs) a = AllCarry-drop n xs a.1

-- The next request of a stream of which `n` were read.
drop_next :
    (n : ℕ) (xs rest : List FileRequest) (r : FileRequest)
    → drop n xs ≡ r ∷ rest
    → (request_at n xs ≡ some r) × (drop (suc n) xs ≡ rest)
drop_next zero [] rest r e = cc
drop_next zero (x ∷ xs) rest r e = (ap (request_at 0) e, ap (drop 1) e)
drop_next (suc n) [] rest r e = cc
drop_next (suc n) (x ∷ xs) rest r e = drop_next n xs rest r e

-- The request at hand is number `made`, and the stream has those after it.
abbrev pub AtHand : List FileRequest → List FileRequest → ℕ → FileRequest → Type 0
AtHand requests rest made request =
    (request_at made requests ≡ some request) × (drop (suc made) requests ≡ rest)

-- What is read and what is left.
abbrev pub ReadAt :
    Handler → List FileRequest → MainPc → List FileRequest → ℕ → FileRequest → Type 0
ReadAt h requests setup rest made request = (drop made requests ≡ rest) × (made ≡ 0)
ReadAt expr requests first_read rest made request = ⊥
ReadAt large requests first_read rest made request = (drop made requests ≡ rest) × (made ≡ 0)
ReadAt small requests first_read rest made request = (drop made requests ≡ rest) × (made ≡ 0)
ReadAt expr requests (opening left) rest made request = drop made requests ≡ rest
ReadAt large requests (opening left) rest made request = AtHand requests rest made request
ReadAt small requests (opening left) rest made request = AtHand requests rest made request
ReadAt h requests first_sqe rest made request = AtHand requests rest made request
ReadAt h requests allocating rest made request = AtHand requests rest made request
ReadAt h requests reading rest made request = drop made requests ≡ rest
ReadAt h requests second_sqe rest made request = drop made requests ≡ rest
ReadAt h requests submitting rest made request = drop made requests ≡ rest
ReadAt h requests joining rest made request = Unit {0}
ReadAt h requests (answered good) rest made request = Unit {0}
ReadAt h requests terminated rest made request = Unit {0}
ReadAt h requests undefined rest made request = Unit {0}

pub record Carried (h : Handler) (size : ℕ) (requests : List FileRequest) (pc : MainPc) (s : System)
    : Type 0 where
  pub progress : ReadAt h requests pc s.stream s.allocated s.request
  pub in_queue : AllCarry size requests s.queued
  pub in_kernel : AllCarry size requests s.flight
  pub in_completions : AllCarry size requests s.completed

module _ (p : FileServer) (requests : List FileRequest) (some_request : 0 < length requests) where
  -- The handler moves on without an entry.
  pub moves :
      (h : Handler) (pc pc' : MainPc) (s t : System)
      → t.queued ≡ s.queued
      → t.flight ≡ s.flight
      → t.completed ≡ s.completed
      → ReadAt h requests pc' t.stream t.allocated t.request
      → Carried h p.buffer_size requests pc s
      → Carried h p.buffer_size requests pc' t
  moves h pc pc' s t q f c r b = record {
    progress = r;
    in_queue = rw q b.in_queue;
    in_kernel = rw f b.in_kernel;
    in_completions = rw c b.in_completions;
  }

  none_at_start :
      (s : System) → s.stream ≡ [] → (drop s.allocated requests ≡ s.stream) × (s.allocated ≡ 0) → ⊥
  none_at_start s e h = omega (arith, ap length (ap (λ n. drop n requests) (sym h.1) ∙ h.0 ∙ e))

  pub read_first-Carried :
      (h : Handler) (rs : List FileRequest) (s : System)
      → s.stream ≡ rs
      → Carried h p.buffer_size requests first_read s
      → Carried h p.buffer_size requests (read_first rs s).main (read_first rs s)
  unfolding read_first
  read_first-Carried large [] s e b = absurd (none_at_start s e b.progress)
  read_first-Carried expr [] s e b = absurd b.progress
  read_first-Carried small [] s e b = absurd (none_at_start s e b.progress)
  read_first-Carried large (r ∷ rest) s e b =
      moves large first_read (opening 1) s (read_first (r ∷ rest) s) refl refl refl
        (drop_next s.allocated requests rest r (b.progress.0 ∙ e)) b
  read_first-Carried expr (r ∷ rest) s e b = absurd b.progress
  read_first-Carried small (r ∷ rest) s e b =
      moves small first_read (opening 1) s (read_first (r ∷ rest) s) refl refl refl
        (drop_next s.allocated requests rest r (b.progress.0 ∙ e)) b

  pub read_next-Carried :
      (h : Handler) (rs : List FileRequest) (s : System)
      → s.stream ≡ rs
      → Carried h p.buffer_size requests reading s
      → Carried h p.buffer_size requests (read_next h rs s).main (read_next h rs s)
  unfolding read_next
  read_next-Carried h [] s e b = moves h reading joining s (goto joining s) refl refl refl tt b
  read_next-Carried large (r ∷ rest) s e b =
      moves large reading first_sqe s (read_next large (r ∷ rest) s) refl refl refl
        (drop_next s.allocated requests rest r (b.progress ∙ e)) b
  read_next-Carried expr (r ∷ rest) s e b =
      moves expr reading first_sqe s (read_next expr (r ∷ rest) s) refl refl refl
        (drop_next s.allocated requests rest r (b.progress ∙ e)) b
  read_next-Carried small (r ∷ rest) s e b =
      moves small reading (opening 1) s (read_next small (r ∷ rest) s) refl refl refl
        (drop_next s.allocated requests rest r (b.progress ∙ e)) b

  pub opened-Carried :
      (h : Handler) (s : System)
      → Carried h p.buffer_size requests (opening 0) s
      → Carried h p.buffer_size requests (after_open h) (goto (after_open h) s)
  opened-Carried large s b =
      moves large (opening 0) first_sqe s (goto first_sqe s) refl refl refl b.progress b
  opened-Carried expr s b =
      moves expr (opening 0) reading s (goto reading s) refl refl refl b.progress b
  opened-Carried small s b =
      moves small (opening 0) first_sqe s (goto first_sqe s) refl refl refl b.progress b

  pub no_sqe-Carried :
      (h : Handler) (s : System)
      → Carried h p.buffer_size requests first_sqe s
      → Carried h p.buffer_size requests (no_sqe h) (goto (no_sqe h) s)
  no_sqe-Carried large s b =
      moves large first_sqe terminated s (goto terminated s) refl refl refl tt b
  no_sqe-Carried expr s b =
      moves expr first_sqe terminated s (goto terminated s) refl refl refl tt b
  no_sqe-Carried small s b =
      moves small first_sqe first_sqe s (goto first_sqe s) refl refl refl b.progress b

  pub prepare_close-Carried :
      (h : Handler) (fds : List ℕ) (s : System)
      → Carried h p.buffer_size requests second_sqe s
      → Carried h p.buffer_size requests (prepare_close fds s).main (prepare_close fds s)
  unfolding prepare_close
  prepare_close-Carried h [] s b =
      moves h second_sqe undefined s (goto undefined s) refl refl refl tt b
  prepare_close-Carried h (fd ∷ fds) s b = record {
    progress = b.progress;
    in_queue =
        AllCarry-append p.buffer_size requests s.queued (close_sqe fd ∷ []) b.in_queue (tt, tt);
    in_kernel = b.in_kernel;
    in_completions = b.in_completions;
  }

  -- A write was prepared from the request at hand.
  pub wrote-ReadAt :
      (h : Handler) (rest : List FileRequest) (made : ℕ) (request : FileRequest)
      → AtHand requests rest made request
      → ReadAt h requests (after_write h) rest (suc made) request
  wrote-ReadAt large rest made request q = q.1
  wrote-ReadAt expr rest made request q = q.1
  wrote-ReadAt small rest made request q = q.1

  pub prepare_write-Carried :
      (h : Handler) (fd : Option ℕ) (s : System)
      → Carried h p.buffer_size requests allocating s
      → Carried h p.buffer_size requests (prepare_write h p fd s).main (prepare_write h p fd s)
  unfolding prepare_write
  prepare_write-Carried h none s b =
      moves h allocating undefined s (goto undefined s) refl refl refl tt b
  prepare_write-Carried h (some fd) s b =
      let e = write_sqe fd s.allocated (payload p.buffer_size s.request) in
      let t : System = record s {
        main = after_write h;
        allocated = suc s.allocated;
        queued = s.queued ++ (e ∷ []);
      } in
      if_cases (λ (t : System). Carried h p.buffer_size requests t.main t)
        (leb p.buffer_size (length s.request.contents + 1)) t (goto undefined s)
        (λ fits. record {
          progress = wrote-ReadAt h s.stream s.allocated s.request b.progress;
          in_queue =
              AllCarry-append p.buffer_size requests s.queued (e ∷ []) b.in_queue
                ((s.request, b.progress.0, refl), tt);
          in_kernel = b.in_kernel;
          in_completions = b.in_completions;
        })
        (λ short. moves h allocating undefined s (goto undefined s) refl refl refl tt b)
