-- ===== src/FileTarget/Ring/Counts.antt =====
-- The io_uring handlers of src/file_target.cc: how many requests and completions there have been
-- where a handler is.
use nvmeof_project.Prelude.{
  ℕ, zero, suc, ◌+◌, ◌*◌, ◌<◌, leb, if_cases, Bool, true, false, List, [], ◌∷◌, ◌++◌, ◌≡◌, ◌≢◌,
  refl, sym, ap, ◌∙◌, ◌⊎◌, inl, inr, length, length-append, take, drop, Option, none, some, arith,
}
use nvmeof_project.FileTarget.{FileRequest, FileServer, payload}
use nvmeof_project.FileTarget.Ring.{
  Handler, large, expr, small, Sqe, write_sqe, close_sqe, MainPc, setup, first_read, opening,
  reading, first_sqe, allocating, second_sqe, submitting, joining, answered, terminated, undefined,
  Reaper, not_started, running, gave_up, System, goto, per_request, expected, after_open, no_sqe,
  after_write, prepare_write, read_first, read_next, prepare_close, join,
}
use nvmeof_project.FileTarget.Ring.Owned.{Then}

-- The entries that were made and whose completions were not taken.
abbrev pub entries : System → ℕ
entries s = length s.queued + length s.flight + length s.completed

-- The process has ended, or has no meaning.
abbrev pub is_dead : MainPc → Bool
is_dead terminated = true
is_dead undefined = true
is_dead _ = false

-- The close that belongs to the last write.
abbrev pub owed : MainPc → ℕ
owed second_sqe = 1
owed _ = 0

-- The request that was read before its file is opened.
abbrev pub in_hand : Handler → ℕ
in_hand large = 1
in_hand expr = 0
in_hand small = 1

-- What is left of a stream of `k` requests, when `made` buffers were allocated.
abbrev pub StreamAt : Handler → ℕ → MainPc → ℕ → ℕ → Type 0
StreamAt h k setup rest made = ⊥
StreamAt h k first_read rest made = (made ≡ 0) × (rest ≡ k) × (in_hand h ≡ 1)
StreamAt h k (opening left) rest made = rest + made + in_hand h ≡ k
StreamAt h k reading rest made = rest + made ≡ k
StreamAt h k first_sqe rest made = rest + made + 1 ≡ k
StreamAt h k allocating rest made = rest + made + 1 ≡ k
StreamAt h k second_sqe rest made = rest + made ≡ k
StreamAt h k submitting rest made = rest + made ≡ k
StreamAt h k joining rest made = made ≡ k
StreamAt h k (answered good) rest made = made ≡ k
StreamAt h k terminated rest made = Unit {0}
StreamAt h k undefined rest made = Unit {0}

-- cq_thread has taken as many completions as there were entries, but for those still there.
abbrev pub Balance : Handler → FileServer → MainPc → System → Type 0
Balance h p pc s =
    is_dead pc ≡ false
    → (left : ℕ) → s.reaper ≡ running left
    → entries s + expected h p + owed pc ≡ left + per_request h * s.allocated

abbrev pub Ended : Reaper → Type 0
Ended r = (r ≡ running 0) ⊎ (r ≡ gave_up)

-- What holds when the handler is at `pc`, once cq_thread was started.
pub record Begun (h : Handler) (p : FileServer) (k : ℕ) (pc : MainPc) (s : System) : Type 0 where
  pub balance : Balance h p pc s
  pub stream_left : StreamAt h k pc (length s.stream) s.allocated
  pub started : is_dead pc ≡ false → s.reaper ≢ not_started
  pub ended : pc ≡ answered true → Ended s.reaper

abbrev Then-Begun : Handler → FileServer → ℕ → Option System → Type 0
Then-Begun h p k o = Then (λ t. Begun h p k t.main t) o

pub length-take-drop : (n : ℕ) (xs : List Sqe) → length (take n xs) + length (drop n xs) ≡ length xs
length-take-drop zero xs = omega arith
length-take-drop (suc n) [] = refl
length-take-drop (suc n) (x ∷ xs) = omega (arith, length-take-drop n xs)

module _ (p : FileServer) (k : ℕ) (some_request : 0 < k) where
  pub dead_terminated : (h : Handler) (s : System) → Begun h p k terminated (goto terminated s)
  dead_terminated h s = record {
    balance = λ d. cc;
    started = λ d. cc;
    stream_left = tt;
    ended = λ e. cc;
  }

  pub dead_undefined : (h : Handler) (s : System) → Begun h p k undefined (goto undefined s)
  dead_undefined h s = record {
    balance = λ d. cc;
    started = λ d. cc;
    stream_left = tt;
    ended = λ e. cc;
  }

  -- The handler moves on without an entry or an end.
  pub moved :
      (h : Handler) (pc pc' : MainPc) (s t : System)
      → is_dead pc ≡ false
      → owed pc' ≡ owed pc
      → entries t ≡ entries s
      → t.allocated ≡ s.allocated
      → t.reaper ≡ s.reaper
      → StreamAt h k pc' (length t.stream) t.allocated
      → (pc' ≡ answered true → ⊥)
      → Begun h p k pc s
      → Begun h p k pc' t
  moved h pc pc' s t live o e al r st goes_on b = record {
    balance = λ d left q. rw (o, e, al) (b.balance live left (sym r ∙ q));
    stream_left = st;
    started = λ d q. b.started live (sym r ∙ q);
    ended = λ q. absurd (goes_on q);
  }

  pub read_first-Begun :
      (h : Handler) (rs : List FileRequest) (s : System)
      → s.stream ≡ rs
      → Begun h p k first_read s
      → Begun h p k (read_first rs s).main (read_first rs s)
  unfolding read_first
  read_first-Begun h [] s e b = absurd (omega (arith, ap length e, b.stream_left.1))
  read_first-Begun h (r ∷ rest) s e b =
      moved h first_read (opening 1) s (read_first (r ∷ rest) s) refl refl refl refl refl
        (omega (arith, ap length e, b.stream_left.0, b.stream_left.1, b.stream_left.2)) (λ e. cc) b

  pub read_next-Begun :
      (h : Handler) (rs : List FileRequest) (s : System)
      → s.stream ≡ rs
      → Begun h p k reading s
      → Begun h p k (read_next h rs s).main (read_next h rs s)
  unfolding read_next
  read_next-Begun h [] s e b =
      moved h reading joining s (goto joining s) refl refl refl refl refl
        (omega (arith, ap length e, b.stream_left)) (λ e. cc) b
  read_next-Begun large (r ∷ rest) s e b =
      moved large reading first_sqe s (read_next large (r ∷ rest) s) refl refl refl refl refl
        (omega (arith, ap length e, b.stream_left)) (λ e. cc) b
  read_next-Begun expr (r ∷ rest) s e b =
      moved expr reading first_sqe s (read_next expr (r ∷ rest) s) refl refl refl refl refl
        (omega (arith, ap length e, b.stream_left)) (λ e. cc) b
  read_next-Begun small (r ∷ rest) s e b =
      moved small reading (opening 1) s (read_next small (r ∷ rest) s) refl refl refl refl refl
        (omega (arith, ap length e, b.stream_left)) (λ e. cc) b

  pub opened-Begun :
      (h : Handler) (s : System)
      → Begun h p k (opening 0) s
      → Begun h p k (after_open h) (goto (after_open h) s)
  opened-Begun large s b =
      moved large (opening 0) first_sqe s (goto first_sqe s) refl refl refl refl refl
        (omega (arith, b.stream_left)) (λ e. cc) b
  opened-Begun expr s b =
      moved expr (opening 0) reading s (goto reading s) refl refl refl refl refl
        (omega (arith, b.stream_left)) (λ e. cc) b
  opened-Begun small s b =
      moved small (opening 0) first_sqe s (goto first_sqe s) refl refl refl refl refl
        (omega (arith, b.stream_left)) (λ e. cc) b

  pub no_sqe-Begun :
      (h : Handler) (s : System)
      → Begun h p k first_sqe s
      → Begun h p k (no_sqe h) (goto (no_sqe h) s)
  no_sqe-Begun large s b = dead_terminated large s
  no_sqe-Begun expr s b = dead_terminated expr s
  no_sqe-Begun small s b =
      moved small first_sqe first_sqe s (goto first_sqe s) refl refl refl refl refl b.stream_left
        (λ e. cc) b

  -- A write was prepared.
  pub wrote :
      (h : Handler) (s : System) (e : Sqe) (q : length (s.queued ++ (e ∷ [])) ≡ length s.queued + 1)
      → Begun h p k allocating s
      → let t : System = record s {
        main = after_write h;
        allocated = suc s.allocated;
        queued = s.queued ++ (e ∷ []);
      } in
        Begun h p k (after_write h) t
  wrote large s e q b = record {
    balance = λ d left r. omega (arith, b.balance refl left r, q);
    stream_left = omega (arith, b.stream_left);
    started = λ d q. b.started refl q;
    ended = λ e. cc;
  }
  wrote expr s e q b = record {
    balance = λ d left r. omega (arith, b.balance refl left r, q);
    stream_left = omega (arith, b.stream_left);
    started = λ d q. b.started refl q;
    ended = λ e. cc;
  }
  wrote small s e q b = record {
    balance = λ d left r. omega (arith, b.balance refl left r, q);
    stream_left = omega (arith, b.stream_left);
    started = λ d q. b.started refl q;
    ended = λ e. cc;
  }

  pub prepare_write-Begun :
      (h : Handler) (fd : Option ℕ) (s : System)
      → Begun h p k allocating s
      → let t = prepare_write h p fd s in Begun h p k t.main t
  unfolding prepare_write
  prepare_write-Begun h none s b = dead_undefined h s
  prepare_write-Begun h (some fd) s b =
      let e = write_sqe fd s.allocated (payload p.buffer_size s.request) in
      if_cases (λ (t : System). Begun h p k t.main t)
        (leb p.buffer_size (length s.request.contents + 1))
        (record s {
          main = after_write h;
          allocated = suc s.allocated;
          queued = s.queued ++ (e ∷ []);
        })
        (goto undefined s) (λ fits. wrote h s e (length-append s.queued (e ∷ [])) b)
        (λ short. dead_undefined h s)

  pub prepare_close-Begun :
      (h : Handler) (fds : List ℕ) (s : System)
      → Begun h p k second_sqe s
      → Begun h p k (prepare_close fds s).main (prepare_close fds s)
  unfolding prepare_close
  prepare_close-Begun h [] s b = dead_undefined h s
  prepare_close-Begun h (fd ∷ fds) s b = record {
    balance = λ d left q.
        omega (arith, b.balance refl left q, length-append s.queued (close_sqe fd ∷ []));
    stream_left = b.stream_left;
    started = λ d q. b.started refl q;
    ended = λ e. cc;
  }

  pub join-Begun :
      (h : Handler) (r : Reaper) (s : System)
      → s.reaper ≡ r
      → Begun h p k joining s
      → Then-Begun h p k (join h r s)
  unfolding join
  join-Begun h not_started s e b = tt
  join-Begun h (running zero) s e b = record {
    balance = λ d left q. b.balance refl left q;
    stream_left = b.stream_left;
    started = λ d q. b.started refl q;
    ended = λ q. inl e;
  }
  join-Begun h (running (suc left)) s e b = tt
  join-Begun h gave_up s e b = record {
    balance = λ d left q. b.balance refl left q;
    stream_left = b.stream_left;
    started = λ d q. b.started refl q;
    ended = λ q. inr e;
  }
