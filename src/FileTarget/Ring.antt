-- ===== src/FileTarget/Ring.antt =====
-- The three handlers of src/file_target.cc on io_uring: AppendOneLargeFileAsync (`large`),
-- AppendOneLargeFileAsyncExpr (`expr`) and AppendManySmallFilesAsync (`small`). A handler's own
-- thread, its completion thread and the kernel take their steps in any order. `Read` has the
-- requests of the whole stream at hand, and times and texts are left out.
pub mod Owned
pub mod Counts
pub mod Phases
pub mod Carried
pub mod Payloads
pub mod Answer
pub mod Liveness
use nvmeof_project.Prelude.{
  ℕ, zero, suc, ◌+◌, ◌*◌, ◌%◌, leb, ◌==◌, if◌then◌else◌, Bool, true, false, not, List, [], ◌∷◌,
  ◌++◌, ◌≡◌, length, take, drop, Option, none, some, ℤ, nat_part,
}
use nvmeof_project.FileTarget.{FileRequest, FileServer, payload}

pub data Handler : Type 0 where
  large expr small : Handler

-- A submission: a write, with its buffer as user data, or a close, without.
pub data Sqe : Type 0 where
  write_sqe : (fd buffer : ℕ) (bytes : List ℕ) → Sqe
  close_sqe : (fd : ℕ) → Sqe

-- Where the handler is; `opening` counts the files that are to be opened. `terminated` is a
-- `return` while cq_thread is joinable, which ends the process; `undefined` is a copy of more bytes
-- than the request has, or a descriptor of no file.
pub data MainPc : Type 0 where
  setup first_read : MainPc
  opening : (left : ℕ) → MainPc
  reading first_sqe allocating second_sqe submitting joining : MainPc
  answered : (good : Bool) → MainPc
  terminated undefined : MainPc

-- Where cq_thread is, with the completions that its loop still waits for; `gave_up` is its early
-- return.
pub data Reaper : Type 0 where
  not_started : Reaper
  running : (left : ℕ) → Reaper
  gave_up : Reaper

-- `queued` are the entries of the submission queue, `flight` those that the kernel has, `completed`
-- the completion queue. Buffers are numbered in the order of their allocation.
pub record System : Type 0 where
  pub main : MainPc
  pub reaper : Reaper
  pub stream : List FileRequest
  pub request : FileRequest
  pub fds : List ℕ
  pub allocated : ℕ
  pub queued : List Sqe
  pub flight : List Sqe
  pub completed : List Sqe
  pub freed : List ℕ

-- The entries that a request makes.
abbrev pub per_request : Handler → ℕ
per_request large = 1
per_request expr = 1
per_request small = 2

-- The rounds of cq_thread: N, or 2*N.
abbrev pub expected : Handler → FileServer → ℕ
expected h p = per_request h * nat_part p.request_count

abbrev pub files : FileServer → ℕ
files p = nat_part p.file_count

abbrev pub goto : MainPc → System → System
goto pc s = record s { main = pc }

-- Where a handler goes on when its ring and thread are there; when its files are open; and when it
-- has read a request in its loop.
abbrev pub after_setup : Handler → FileServer → MainPc
after_setup large p = first_read
after_setup expr p = opening (files p)
after_setup small p = first_read

abbrev pub after_open : Handler → MainPc
after_open large = first_sqe
after_open expr = reading
after_open small = first_sqe

abbrev pub loop_top : Handler → MainPc
loop_top large = first_sqe
loop_top expr = first_sqe
loop_top small = opening 1

-- No free entry: two handlers return, the third asks again.
abbrev pub no_sqe : Handler → MainPc
no_sqe large = terminated
no_sqe expr = terminated
no_sqe small = first_sqe

abbrev pub after_write : Handler → MainPc
after_write large = submitting
after_write expr = submitting
after_write small = second_sqe

-- The descriptors after one more `open`: `fds[i]`, or the one `fd`.
abbrev pub keep_fd : Handler → ℕ → List ℕ → List ℕ
keep_fd large d fds = d ∷ []
keep_fd expr d fds = fds ++ (d ∷ [])
keep_fd small d fds = d ∷ []

abbrev pub nth_fd : ℕ → List ℕ → Option ℕ
nth_fd k [] = none
nth_fd zero (fd ∷ fds) = some fd
nth_fd (suc k) (fd ∷ fds) = nth_fd k fds

-- `fd`, or `fds[n++ % fn]`, where `n` counts the buffers.
abbrev pub target : Handler → FileServer → System → Option ℕ
target large p s = nth_fd 0 s.fds
target expr p s = if files p == 0 then none else nth_fd (s.allocated % files p) s.fds
target small p s = nth_fd 0 s.fds

-- The write is prepared in the entry that was taken.
unfoldable pub prepare_write : Handler → FileServer → Option ℕ → System → System
prepare_write h p none s = goto undefined s
prepare_write h p (some fd) s =
    if leb p.buffer_size (length s.request.contents + 1)
    then record s {
      main = after_write h;
      allocated = suc s.allocated;
      queued = s.queued ++ (write_sqe fd s.allocated (payload p.buffer_size s.request) ∷ []);
    }
    else goto undefined s

-- Neither `close` nor its failure changes anything else.
abbrev pub close_files : Handler → List ℕ → List ℕ
close_files large fds = []
close_files expr fds = []
close_files small fds = fds

-- The first read: where the stream has no request, the message stays as it was made.
unfoldable pub read_first : List FileRequest → System → System
read_first [] s = goto (opening 1) s
read_first (r ∷ rest) s = record s { main = opening 1; request = r; stream = rest }

unfoldable pub read_next : Handler → List FileRequest → System → System
read_next h [] s = goto joining s
read_next h (r ∷ rest) s = record s { main = loop_top h; request = r; stream = rest }

-- `close_sqe` names the file of the write before it.
unfoldable pub prepare_close : List ℕ → System → System
prepare_close [] s = goto undefined s
prepare_close (fd ∷ fds) s = record s {
  main = submitting;
  queued = s.queued ++ (close_sqe fd ∷ []);
}

-- cq_thread.join() waits for the end of the thread.
unfoldable pub join : Handler → Reaper → System → Option System
join h not_started s = none
join h (running zero) s = some (record s { main = answered true; fds = close_files h s.fds })
join h (running (suc left)) s = none
join h gave_up s = some (record s { main = answered true; fds = close_files h s.fds })

-- The handler's next statement. `a` answers its outside call: 0 for a failure or a NULL, a
-- descriptor plus 1, or for io_uring_submit the number of entries taken. `none` where the handler
-- waits or has ended.
unfoldable pub step_at : Handler → FileServer → ℕ → MainPc → System → Option System
unfolding read_first read_next prepare_write prepare_close join
step_at h p zero setup s = some (goto (answered false) s)
step_at h p (suc a) setup s =
    some (record s { main = after_setup h p; reaper = running (expected h p) })
step_at h p a first_read s = some (read_first s.stream s)
step_at h p a (opening zero) s = some (goto (after_open h) s)
step_at h p zero (opening (suc left)) s = some (goto terminated s)
step_at h p (suc d) (opening (suc left)) s =
    some (record s { main = opening left; fds = keep_fd h d s.fds })
step_at h p a reading s = some (read_next h s.stream s)
step_at h p zero first_sqe s = some (goto (no_sqe h) s)
step_at h p (suc a) first_sqe s = some (goto allocating s)
step_at h p zero allocating s = some (goto terminated s)
step_at h p (suc a) allocating s = some (prepare_write h p (target h p s) s)
step_at h p zero second_sqe s = some (goto second_sqe s)
step_at h p (suc a) second_sqe s = some (prepare_close s.fds s)
step_at h p a submitting s =
    some
      (record s { main = reading; queued = drop a s.queued; flight = s.flight ++ take a s.queued })
step_at h p a joining s = join h s.reaper s
step_at h p a (answered good) s = none
step_at h p a terminated s = none
step_at h p a undefined s = none

-- `free(data)`, which for a close is free(NULL) or is not called.
abbrev pub free_data : Sqe → List ℕ → List ℕ
free_data (write_sqe fd buffer bytes) freed = buffer ∷ freed
free_data (close_sqe fd) freed = freed

unfoldable pub reap : Bool → Reaper → List Sqe → System → Option System
reap false (running (suc left)) cqes s = some (record s { reaper = gave_up })
reap true (running (suc left)) (e ∷ rest) s =
    some (record s { reaper = running left; completed = rest; freed = free_data e s.freed })
reap _ _ _ s = none

-- The steps of the handler, of cq_thread (where `good` tells whether io_uring_wait_cqe succeeds)
-- and of the kernel, which completes any entry that it has.
pub data Step (h : Handler) (p : FileServer) (s : System) : System → Type 0 where
  main_step : (a : ℕ) {t : System} → step_at h p a s.main s ≡ some t → Step h p s t
  reap_step : (good : Bool) {t : System} → reap good s.reaper s.completed s ≡ some t → Step h p s t
  kernel_step :
      (before : List Sqe) (e : Sqe) (after : List Sqe)
      → s.flight ≡ before ++ (e ∷ after)
      → Step h p s (record s { flight = before ++ after; completed = s.completed ++ (e ∷ []) })

-- A call of the handler with a stream of these requests.
abbrev pub start_call : List FileRequest → System
start_call requests = record {
  main = setup;
  reaper = not_started;
  stream = requests;
  request = record { filename = []; contents = [] };
  fds = [];
  allocated = 0;
  queued = [];
  flight = [];
  completed = [];
  freed = [];
}

pub data Reach (h : Handler) (p : FileServer) (requests : List FileRequest) : System → Type 0 where
  start : Reach h p requests (start_call requests)
  later : {s t : System} → Reach h p requests s → Step h p s t → Reach h p requests t
