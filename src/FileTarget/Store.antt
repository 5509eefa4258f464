-- ===== src/FileTarget/Store.antt =====
-- One request of AppendManySmallFiles in src/file_target.cc: what it opens, writes and closes.
use nvmeof_project.Prelude.{
  ℕ, suc, take, take-take, nat_part, ◌++◌, ◌≤◌, ◌≡◌, ap, sym, ◌∙◌, ◌≢◌, ◌⊎◌, inl, inr,
  if◌then◌else◌, true, false, List, [], ◌∷◌, map, ℤ, pos, negsuc, is_neg, Bool, ◌==◌, ==-refl,
  arith,
}
use nvmeof_project.Outside.{Machine, Os}
use nvmeof_project.Outside.Laws.{Ensures}
use nvmeof_project.FileTarget.{
  timed, fill_buffer, fail_if, short_write, FileRequest, FileServer, Call, Reply, ok, read_stream,
  open_file, write, close, payload, store_file,
}

abbrev pub FileOs : Type 0
FileOs = Os Call Reply

abbrev pub FileMachine : Type 0
FileMachine = Machine Call Reply FileServer

-- The requests that the stream had, the last first, and likewise below.
abbrev pub requests : List (Call × Reply) → List FileRequest
requests [] = []
requests ((read_stream, r) ∷ t) = if r.more then r.request ∷ requests t else requests t
requests (_ ∷ t) = requests t

-- The names of the files that were opened, and the descriptors.
abbrev pub opened_names : List (Call × Reply) → List (List ℕ)
opened_names [] = []
opened_names ((open_file name trunc, r) ∷ t) = name ∷ opened_names t
opened_names (_ ∷ t) = opened_names t

abbrev pub opens : List (Call × Reply) → List ℤ
opens [] = []
opens ((open_file name trunc, r) ∷ t) = if is_neg r.ret then opens t else r.ret ∷ opens t
opens (_ ∷ t) = opens t

abbrev pub closes : List (Call × Reply) → List ℤ
closes [] = []
closes ((close fd, r) ∷ t) = fd ∷ closes t
closes (_ ∷ t) = closes t

-- The descriptors written to, the bytes that `write` was given, and those of them that it has
-- returned to have written.
abbrev pub targets : List (Call × Reply) → List ℤ
targets [] = []
targets ((write fd bytes, r) ∷ t) = fd ∷ targets t
targets (_ ∷ t) = targets t

abbrev pub offered : List (Call × Reply) → List (List ℕ)
offered [] = []
offered ((write fd bytes, r) ∷ t) = bytes ∷ offered t
offered (_ ∷ t) = offered t

abbrev pub writes : List (Call × Reply) → List (List ℕ)
writes [] = []
writes ((write fd bytes, r) ∷ t) = take (nat_part r.ret) bytes ∷ writes t
writes (_ ∷ t) = writes t

-- The number of writes that have failed.
abbrev pub failed_writes : List (Call × Reply) → ℕ
failed_writes [] = 0
failed_writes ((write fd bytes, r) ∷ t) =
    if is_neg r.ret then suc (failed_writes t) else failed_writes t
failed_writes (_ ∷ t) = failed_writes t

abbrev same_fd : ℤ → ℤ → Bool
same_fd (pos a) (pos b) = a == b
same_fd (negsuc a) (negsuc b) = a == b
same_fd _ _ = false

same_fd_refl : (fd : ℤ) → same_fd fd fd ≡ true
same_fd_refl (pos n) = ==-refl n
same_fd_refl (negsuc n) = ==-refl n

-- The file that a descriptor is of: the last one whose `open` returned it.
abbrev pub name_of : ℤ → List (Call × Reply) → List ℕ
name_of fd [] = []
name_of fd ((open_file name trunc, r) ∷ t) = if same_fd r.ret fd then name else name_of fd t
name_of fd (_ ∷ t) = name_of fd t

-- The bytes that `write` has returned to have written, each with the file that they went to.
abbrev pub appended : List (Call × Reply) → List (List ℕ × List ℕ)
appended [] = []
appended ((write fd bytes, r) ∷ t) = (name_of fd t, take (nat_part r.ret) bytes) ∷ appended t
appended (_ ∷ t) = appended t

-- What is to be appended for a request, and where.
abbrev pub stored_as : ℕ → FileRequest → List ℕ × List ℕ
stored_as size request = (request.filename, payload size request)

-- Every request has had its file opened, its whole buffer written, and its file closed.
pub record Stored (size : ℕ) (t : Machine Call Reply FileServer) : Type 0 where
  pub same_size : t.mem.buffer_size ≡ size
  pub names : opened_names t.trace ≡ map (λ r. r.filename) (requests t.trace)
  pub contents : writes t.trace ≡ map (payload size) (requests t.trace)
  pub files : appended t.trace ≡ map (stored_as size) (requests t.trace)
  pub own_file : targets t.trace ≡ opens t.trace
  pub closed : closes t.trace ≡ opens t.trace

-- One descriptor is open at most.
abbrev pub OneOpen : Machine Call Reply FileServer → Type 0
OneOpen t = (closes t.trace ≡ opens t.trace) ⊎ ((fd : ℤ) × (opens t.trace ≡ fd ∷ closes t.trace))

-- The descriptor of the request's file, when it is stored next.
abbrev pub file_of : FileRequest → Os Call Reply → Machine Call Reply FileServer → ℤ
file_of request os s = (os (suc s.clock) (open_file request.filename false)).ret

-- What the store of a request adds.
abbrev pub Adds :
    FileRequest → ℤ → Machine Call Reply FileServer → Machine Call Reply FileServer → Type 0
Adds request fd s t =
    (t.mem.buffer_size ≡ s.mem.buffer_size)
    × (s.clock ≤ t.clock)
    × (requests t.trace ≡ requests s.trace)
    × (opened_names t.trace ≡ request.filename ∷ opened_names s.trace)
    × (writes t.trace ≡ payload s.mem.buffer_size request ∷ writes s.trace)
    × (targets t.trace ≡ fd ∷ targets s.trace)
    × (appended t.trace ≡ stored_as s.mem.buffer_size request ∷ appended s.trace)
    × (opens t.trace ≡ fd ∷ opens s.trace)
    × (closes t.trace ≡ fd ∷ closes s.trace)

-- Where it fails, the file was not opened, or is open, or is closed.
abbrev pub FailsWith : ℤ → Machine Call Reply FileServer → Machine Call Reply FileServer → Type 0
FailsWith fd s t =
    ((opens t.trace ≡ opens s.trace) × (closes t.trace ≡ closes s.trace))
    ⊎ ((opens t.trace ≡ fd ∷ opens s.trace) × (closes t.trace ≡ closes s.trace))
    ⊎ ((opens t.trace ≡ fd ∷ opens s.trace) × (closes t.trace ≡ fd ∷ closes s.trace))

take-payload : (n : ℕ) (request : FileRequest) → take n (payload n request) ≡ payload n request
take-payload n request = take-take n n (request.contents ++ 0 ∷ []) (omega arith)

pub store_file-Ensures :
    (request : FileRequest) (os : Os Call Reply) (s : Machine Call Reply FileServer)
    → let fd = file_of request os s in
      Ensures
        (λ _ t. Adds request fd s t)
        (λ e t. (e ≢ ok) × FailsWith fd s t)
        (λ t. ⊥)
        (store_file request os s)
unfolding store_file timed fill_buffer fail_if short_write
store_file-Ensures request os s =
    ground (arith, same_fd_refl (file_of request os s), take-payload s.mem.buffer_size request)

-- A request that was read and stored.
pub Stored-next :
    (size : ℕ) (os : Os Call Reply) (s t : Machine Call Reply FileServer) (fd : ℤ)
    → let r = os s.clock read_stream in
      let u : Machine Call Reply FileServer = record s {
        clock = suc s.clock;
        trace = (read_stream, r) ∷ s.trace;
      } in
      Stored size s → r.more ≡ true → Adds r.request fd u t → Stored size t
Stored-next size os s t fd h more adds = record {
  same_size = adds.0 ∙ h.same_size;
  names = ground (arith, h.names);
  contents = ground (arith, h.contents, h.same_size);
  files = ground (arith, h.files, h.same_size);
  own_file = ground (arith, h.own_file);
  closed = ground (arith, h.closed);
}

pub OneOpen-fails :
    (size : ℕ) (s u t : Machine Call Reply FileServer) (fd : ℤ)
    → Stored size s
    → opens u.trace ≡ opens s.trace
    → closes u.trace ≡ closes s.trace
    → FailsWith fd u t
    → OneOpen t
OneOpen-fails size s u t fd h eo ec (inl (o, c)) = inl (c ∙ ec ∙ h.closed ∙ sym (o ∙ eo))
OneOpen-fails size s u t fd h eo ec (inr (inl (o, c))) =
    inr (fd, o ∙ ap (◌∷◌ fd) (eo ∙ sym (c ∙ ec ∙ h.closed)))
OneOpen-fails size s u t fd h eo ec (inr (inr (o, c))) =
    inl (c ∙ ap (◌∷◌ fd) (ec ∙ h.closed ∙ sym eo) ∙ sym o)
