-- ===== src/FileTarget/Many.antt =====
-- AppendManySmallFiles of src/file_target.cc: every request of the stream is stored.
use nvmeof_project.Prelude.{
  ℕ, zero, suc, ◌-◌, ◌≤◌, ◌<◌, ◌+ℤ◌, ◌-ℤ◌, ◌≡◌, refl, ap, ◌≢◌, ◌⊎◌, inl, inr, if_cases, false, [],
  ◌∷◌, arith,
}
use nvmeof_project.Outside.{
  Machine, Exit, Os, Prog, done, stop, hung, boot, call, pure, modify, ◌>>=◌, ◌>>◌,
}
use nvmeof_project.Outside.Laws.{Ensures, Ensures-mono, bind_Ensures, Returned, function_lem}
use nvmeof_project.FileTarget.{
  FileServer, Call, Reply, Outcome, ok, read_stream, now, store_file, store_loop,
  append_many_small_files,
}
use nvmeof_project.FileTarget.Store.{
  Stored, OneOpen, file_of, Adds, FailsWith, store_file-Ensures, Stored-next, OneOpen-fails,
}

-- From call number `b` on, the stream has no request.
abbrev pub EndsBy : ℕ → Os Call Reply → Type 0
EndsBy b os = (n : ℕ) → b ≤ n → (os n read_stream).more ≡ false

abbrev Failed : Outcome → Machine Call Reply FileServer → Type 0
Failed e t = (e ≢ ok) × OneOpen t

store_loop-Stored :
    (size b : ℕ) (os : Os Call Reply)
    → EndsBy b os
    → (rounds : ℕ) (s : Machine Call Reply FileServer) → b - s.clock < rounds
    → Stored size s
    → Ensures (λ _ t. Stored size t) Failed (λ t. ⊥) (store_loop rounds os s)
unfolding store_loop
store_loop-Stored size b os ends zero s fuel h = absurd (omega arith)
store_loop-Stored size b os ends (suc rounds) s fuel h =
    let r = os s.clock read_stream in
    let u : Machine Call Reply FileServer = record s {
      clock = suc s.clock;
      trace = (read_stream, r) ∷ s.trace;
    } in
    let fd = file_of r.request os u in
    if_cases
      (λ (m : Prog Call Reply FileServer Outcome (Unit {0})).
        Ensures (λ _ t. Stored size t) Failed (λ t. ⊥) (m os u))
      r.more (do store_file r.request; store_loop rounds) (pure tt)
      (λ more.
        bind_Ensures os (λ _ t. Adds r.request fd u t) (λ _ t. Stored size t) Failed (λ t. ⊥)
          (store_file r.request) (λ _. store_loop rounds) u
          (Ensures-mono (λ _ t. Adds r.request fd u t) (λ _ t. Adds r.request fd u t)
            (λ e t. (e ≢ ok) × FailsWith fd u t) Failed (λ t. ⊥) (λ t. ⊥)
            (store_file r.request os u) (λ a t q. q)
            (λ e t q. (q.0, OneOpen-fails size s u t fd h refl refl q.1)) (λ t q. q)
            (store_file-Ensures r.request os u))
          (λ _ t adds.
            store_loop-Stored size b os ends rounds t (ground (arith, ends s.clock, adds.1))
              (Stored-next size os s t fd h more adds)))
      (λ last. record {
        same_size = h.same_size;
        names = ground (arith, h.names);
        contents = ground (arith, h.contents);
        files = ground (arith, h.files);
        own_file = h.own_file;
        closed = h.closed;
      })

-- How AppendManySmallFiles may end.
abbrev pub ManyReport : ℕ → Exit (Unit {0}) Outcome × Machine Call Reply FileServer → Type 0
ManyReport size (r, t) =
    ((r ≡ done ok) × Stored size t) ⊎ ((e : Outcome) × (r ≡ done e) × (e ≢ ok) × OneOpen t)

many_report :
    (size : ℕ) (out : Exit Outcome Outcome × Machine Call Reply FileServer)
    → Ensures (λ e t. (e ≡ ok) × Stored size t) Failed (λ t. ⊥) out
    → Returned (ManyReport size) out
many_report size (done e, t) h = inl (ap done h.0, h.1)
many_report size (stop e, t) h = inr (e, refl, h.0, h.1)
many_report size (hung, t) h = absurd h

-- If the stream ends by call number `b`, and the loop has `b` rounds and one at least,
-- AppendManySmallFiles ends. If it answers OK, then for every request of the stream, in order, it
-- has opened the file of that name and called `write` once, through the descriptor that this `open`
-- returned, which has taken exactly the first `buffer_size` bytes of the request's data (with the
-- NUL after them), by its result, and has closed the file. If it answers anything else, one of the
-- files is open at most.
pub append_many_small_files-ManyReport :
    (b rounds : ℕ) (os : Os Call Reply) (p : FileServer)
    → EndsBy b os
    → b ≤ rounds
    → 0 < rounds
    → ManyReport p.buffer_size (append_many_small_files rounds os (boot p))
unfolding append_many_small_files
append_many_small_files-ManyReport b rounds os p ends fuel some =
    let size = p.buffer_size in
    let s : Machine Call Reply FileServer = boot p in
    let r = os 0 now in
    let u : Machine Call Reply FileServer = record s { clock = 1; trace = (now, r) ∷ [] } in
    let rest : Unit {0} → Prog Call Reply FileServer Outcome Outcome = λ _. (do
      end ← call now
      modify (λ s. record s { time_total = s.time_total +ℤ (end.ret -ℤ r.ret) })
      pure ok) in
    let none_yet : Stored size u = record {
      same_size = refl;
      names = refl;
      contents = refl;
      files = refl;
      own_file = refl;
      closed = refl;
    } in
    function_lem (ManyReport size)
      (do
        total_start ← call now
        store_loop rounds
        end ← call now
        modify (λ s. record s { time_total = s.time_total +ℤ (end.ret -ℤ total_start.ret) })
        pure ok)
      os s
      (many_report size ((store_loop rounds >>= rest) os u) (
        bind_Ensures os (λ _ t. Stored size t) (λ e t. (e ≡ ok) × Stored size t) Failed (λ t. ⊥)
          (store_loop rounds) rest u
          (store_loop-Stored size b os ends rounds u (omega arith) none_yet)
          (λ _ t q. (
            refl,
            record {
              same_size = q.same_size;
              names = q.names;
              contents = q.contents;
              files = q.files;
              own_file = q.own_file;
              closed = q.closed;
            },
          ))))
