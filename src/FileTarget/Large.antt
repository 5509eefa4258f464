-- ===== src/FileTarget/Large.antt =====
-- AppendOneLargeFile of src/file_target.cc: the one file, and what is appended to it.
use nvmeof_project.Prelude.{
  ℕ, zero, suc, ◌-◌, ◌≤◌, ◌<◌, ◌≡◌, ◌≢◌, refl, ap, ◌∙◌, ◌⊎◌, inl, inr, if◌then◌else◌, if_cases,
  true, List, [], ◌∷◌, map, ℤ, arith,
}
use nvmeof_project.Outside.{
  Machine, Exit, Os, Prog, done, stop, hung, boot, call, pure, ◌>>=◌, ◌>>◌,
}
use nvmeof_project.Outside.Laws.{Ensures, Ensures-mono, bind_Ensures, Returned, function_lem}
use nvmeof_project.FileTarget.{
  timed, fill_buffer, fail_if, FileRequest, FileServer, Call, Reply, Outcome, ok, read_stream,
  open_file, close, payload, append_one, append_loop, append_one_large_file,
}
use nvmeof_project.FileTarget.Store.{
  requests, opened_names, closes, targets, offered, failed_writes,
}
use nvmeof_project.FileTarget.Many.{EndsBy}

-- The call that reads the next request, from the start of a round.
abbrev read_at : Machine Call Reply FileServer → ℕ
read_at s = suc (suc (suc (suc (suc (suc (suc s.clock))))))

abbrev Appends :
    Os Call Reply
    → ℤ
    → FileRequest
    → Machine Call Reply FileServer
    → Reply
    → Machine Call Reply FileServer
    → Type 0
Appends os fd request s next t =
    (next ≡ os (read_at s) read_stream)
    × (t.clock ≡ suc (read_at s))
    × (t.mem.buffer_size ≡ s.mem.buffer_size)
    × (requests t.trace ≡ (if next.more then next.request ∷ requests s.trace else requests s.trace))
    × (offered t.trace ≡ payload s.mem.buffer_size request ∷ offered s.trace)
    × (targets t.trace ≡ fd ∷ targets s.trace)
    × (opened_names t.trace ≡ opened_names s.trace)
    × (closes t.trace ≡ closes s.trace)
    × (failed_writes t.trace ≡ failed_writes s.trace)

append_one-Ensures :
    (fd : ℤ) (request : FileRequest) (os : Os Call Reply) (s : Machine Call Reply FileServer)
    → Ensures
        (Appends os fd request s)
        (λ e t.
          (e ≢ ok)
          × (opened_names t.trace ≡ opened_names s.trace)
          × (closes t.trace ≡ closes s.trace))
        (λ t. ⊥)
        (append_one fd request os s)
unfolding append_one timed fill_buffer fail_if
append_one-Ensures fd request os s = ground arith

-- Within the loop, before `request` is appended.
record Pending (size : ℕ) (fd : ℤ) (name : List ℕ) (request : FileRequest)
    (t : Machine Call Reply FileServer) : Type 0 where
  earlier : List FileRequest
  same_size : t.mem.buffer_size ≡ size
  seen : requests t.trace ≡ request ∷ earlier
  contents : offered t.trace ≡ map (payload size) earlier
  one_file : targets t.trace ≡ map (λ _. fd) earlier
  names : opened_names t.trace ≡ name ∷ []
  none_closed : closes t.trace ≡ []
  none_failed : failed_writes t.trace ≡ 0

-- The data of every request were given to `write` for the one file, and no write failed.
pub record Appended (size : ℕ) (fd : ℤ) (name : List ℕ) (closed : List ℤ)
    (t : Machine Call Reply FileServer) : Type 0 where
  pub contents : offered t.trace ≡ map (payload size) (requests t.trace)
  pub one_file : targets t.trace ≡ map (λ _. fd) (requests t.trace)
  pub names : opened_names t.trace ≡ name ∷ []
  pub none_failed : failed_writes t.trace ≡ 0
  pub closed_files : closes t.trace ≡ closed

abbrev Leaves : List ℕ → Outcome → Machine Call Reply FileServer → Type 0
Leaves name e t = (e ≢ ok) × (opened_names t.trace ≡ name ∷ []) × (closes t.trace ≡ [])

append_loop-Appended :
    (size b : ℕ) (os : Os Call Reply)
    → EndsBy b os
    → (rounds : ℕ) (fd : ℤ) (name : List ℕ) (request : FileRequest)
      (s : Machine Call Reply FileServer)
    → b - s.clock < rounds
    → Pending size fd name request s
    → Ensures
        (λ _ t. Appended size fd name [] t)
        (Leaves name)
        (λ t. ⊥)
        (append_loop rounds fd request os s)
unfolding append_loop
append_loop-Appended size b os ends zero fd name request s fuel h = absurd (omega arith)
append_loop-Appended size b os ends (suc rounds) fd name request s fuel h =
    bind_Ensures os (Appends os fd request s) (λ _ t. Appended size fd name [] t) (Leaves name)
      (λ t. ⊥) (append_one fd request)
      (λ next. if next.more then append_loop rounds fd next.request else pure tt) s
      (Ensures-mono (Appends os fd request s) (Appends os fd request s)
        (λ e t.
          (e ≢ ok)
          × (opened_names t.trace ≡ opened_names s.trace)
          × (closes t.trace ≡ closes s.trace))
        (Leaves name) (λ t. ⊥) (λ t. ⊥) (append_one fd request os s) (λ a t q. q)
        (λ e t q. (q.0, q.1 ∙ h.names, q.2 ∙ h.none_closed)) (λ t q. q)
        (append_one-Ensures fd request os s))
      (λ next t adds.
        if_cases
          (λ (m : Prog Call Reply FileServer Outcome (Unit {0})).
            Ensures (λ _ v. Appended size fd name [] v) (Leaves name) (λ v. ⊥) (m os t))
          next.more (append_loop rounds fd next.request) (pure tt)
          (λ more.
            append_loop-Appended size b os ends rounds fd name next.request t
              (ground (arith, ends (read_at s), adds.0, adds.1))
              (record {
                earlier = request ∷ h.earlier;
                same_size = adds.2 ∙ h.same_size;
                seen = ground (arith, h.seen);
                contents = ground (arith, h.contents, h.same_size);
                one_file = ground (arith, h.one_file);
                names = adds.6 ∙ h.names;
                none_closed = adds.7 ∙ h.none_closed;
                none_failed = adds.8 ∙ h.none_failed;
              }))
          (λ last. record {
            contents = ground (arith, h.contents, h.same_size, h.seen);
            one_file = ground (arith, h.one_file, h.seen);
            names = adds.6 ∙ h.names;
            none_failed = adds.8 ∙ h.none_failed;
            closed_files = adds.7 ∙ h.none_closed;
          }))

-- How AppendOneLargeFile may end, with the one file's descriptor, as `open` returned it.
abbrev pub LargeReport :
    ℕ → ℤ → List ℕ → Exit (Unit {0}) Outcome × Machine Call Reply FileServer → Type 0
LargeReport size fd name (r, t) =
    ((r ≡ done ok) × Appended size fd name (fd ∷ []) t)
    ⊎ ((e : Outcome) × (r ≡ done e)
        × (e ≢ ok)
        × (opened_names t.trace ≡ name ∷ [])
        × (closes t.trace ≡ []))

large_report :
    (size : ℕ) (fd : ℤ) (name : List ℕ) (out : Exit Outcome Outcome × Machine Call Reply FileServer)
    → Ensures (λ e t. (e ≡ ok) × Appended size fd name (fd ∷ []) t) (Leaves name) (λ t. ⊥) out
    → Returned (LargeReport size fd name) out
large_report size fd name (done e, t) h = inl (ap done h.0, h.1)
large_report size fd name (stop e, t) h = inr (e, refl, h.0, h.1, h.2)
large_report size fd name (hung, t) h = absurd h

-- The first request of the stream, and what `open` returns for it.
abbrev pub first_of : FileRequest → Os Call Reply → FileRequest
first_of default os = if (os 0 read_stream).more then (os 0 read_stream).request else default

abbrev pub descriptor : Os Call Reply → FileRequest → ℤ
descriptor os request = (os 1 (open_file request.filename true)).ret

-- If the stream has a first request and ends by call number `b`, and the loop has `b` rounds and
-- one at least, AppendOneLargeFile ends. It opens the first request's file alone. If it answers OK, it has
-- called `write` once for every request, in order and all for that file, with the first
-- `buffer_size` bytes of its data (with the NUL after them), none of these calls has failed, though
-- one may have written less than it was given, and it has closed the file. If not, it has closed
-- nothing.
pub append_one_large_file-LargeReport :
    (b rounds : ℕ) (os : Os Call Reply) (default : FileRequest) (p : FileServer)
    → EndsBy b os
    → (os 0 read_stream).more ≡ true
    → b ≤ rounds
    → 0 < rounds
    → let first = first_of default os in
      LargeReport p.buffer_size
        (descriptor os first)
        first.filename
        (append_one_large_file rounds default os (boot p))
unfolding append_one_large_file
append_one_large_file-LargeReport b rounds os default p ends some fuel pos_fuel =
    let size = p.buffer_size in
    let s : Machine Call Reply FileServer = boot p in
    let r = os 0 read_stream in
    let u : FileRequest → Machine Call Reply FileServer = λ q. record s {
      clock = 2;
      trace = (open_file q.filename true, os 1 (open_file q.filename true)) ∷ (read_stream, r) ∷ [];
    } in
    let rest : FileRequest → Unit {0} → Prog Call Reply FileServer Outcome Outcome =
      λ q _. (do call (close (descriptor os q)); pure ok) in
    function_lem
      (LargeReport size (descriptor os (first_of default os)) (first_of default os).filename)
      (do
        first ← call read_stream
        let request = if first.more then first.request else default
        fd ← call (open_file request.filename true)
        append_loop rounds fd.ret request
        call (close fd.ret)
        pure ok)
      os s
      (if_cases
        (λ (q : FileRequest).
          Returned (LargeReport size (descriptor os q) q.filename)
            ((append_loop rounds (descriptor os q) q >>= rest q) os (u q)))
        r.more r.request default
        (λ more.
          let q = r.request in
          let fd = descriptor os q in
          large_report size fd q.filename ((append_loop rounds fd q >>= rest q) os (u q)) (
            bind_Ensures os (λ _ t. Appended size fd q.filename [] t)
              (λ e t. (e ≡ ok) × Appended size fd q.filename (fd ∷ []) t) (Leaves q.filename)
              (λ t. ⊥) (append_loop rounds fd q) (rest q) (u q)
              (append_loop-Appended size b os ends rounds fd q.filename q (u q) (omega arith)
                (record {
                  earlier = [];
                  same_size = refl;
                  seen = ground arith;
                  contents = refl;
                  one_file = refl;
                  names = refl;
                  none_closed = refl;
                  none_failed = refl;
                }))
              (λ _ t a. (
                refl,
                record {
                  contents = a.contents;
                  one_file = a.one_file;
                  names = a.names;
                  none_failed = a.none_failed;
                  closed_files = ap (◌∷◌ fd) a.closed_files;
                },
              ))))
        (λ none. absurd (ground (arith, some))))
