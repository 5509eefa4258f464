-- ===== src/FileTarget/Ring/Answer.antt =====
-- The io_uring handlers of src/file_target.cc: what has been done when a handler answers OK.
use mathlib.Core.Path.{subst}
use nvmeof_project.Prelude.{
  ℕ, ◌+◌, ◌*◌, ◌<◌, ltb, if◌then◌else◌, true, false, List, [], ◌∷◌, ◌≡◌, refl, sym, ap, ◌∙◌, ◌⊎◌,
  inl, inr, length, nat_part, arith,
}
use nvmeof_project.FileTarget.{FileRequest, FileServer}
use nvmeof_project.FileTarget.Ring.{
  Handler, large, expr, small, Sqe, setup, answered, gave_up, System, per_request, expected, Reach,
}
use nvmeof_project.FileTarget.Ring.Owned.{occurs, uses, Reach-Owned}
use nvmeof_project.FileTarget.Ring.Counts.{entries, Begun}
use nvmeof_project.FileTarget.Ring.Phases.{Phase, Reach-Phase}

-- Each request has had its buffer, and cq_thread has given up or has taken what it expects.
abbrev Answer : Handler → FileServer → List FileRequest → System → Type 0
Answer h p requests s =
    (s.allocated ≡ length requests)
    × ((s.reaper ≡ gave_up) ⊎ (entries s + expected h p ≡ per_request h * length requests))

Begun-Answer :
    (h : Handler) (p : FileServer) (requests : List FileRequest) (s : System)
    → Begun h p (length requests) (answered true) s
    → Answer h p requests s
Begun-Answer h p requests s b = (
  b.stream_left,
  elim (b.ended refl) [
    | inl e ↦ inr (omega (arith, b.balance refl 0 e, ap (λ n. per_request h * n) b.stream_left))
    | inr e ↦ inl e
  ],
)

Reach-Answer :
    (h : Handler) (p : FileServer) (requests : List FileRequest) (s : System)
    → 0 < length requests
    → Reach h p requests s
    → s.main ≡ answered true
    → Answer h p requests s
Reach-Answer h p requests s some_request r m = go (Reach-Phase p requests some_request h s r)
  where
    go : Phase h p requests s → Answer h p requests s
    go (inl e) = let q : setup ≡ answered true = sym (ap (λ u. u.main) e) ∙ m in cc
    go (inr (inl e)) = let q : answered false ≡ answered true = sym e ∙ m in cc
    go (inr (inr b)) =
        Begun-Answer h p requests s (subst (λ pc. Begun h p (length requests) pc s) m b)

empty_of_length : (xs : List Sqe) → length xs ≡ 0 → xs ≡ []
empty_of_length [] e = refl
empty_of_length (x ∷ xs) e = absurd (omega (arith, e))

-- Nothing is under way, and every buffer was freed once.
pub record AllDone (requests : List FileRequest) (s : System) : Type 0 where
  pub none_queued : s.queued ≡ []
  pub none_in_flight : s.flight ≡ []
  pub none_completed : s.completed ≡ []
  pub all_allocated : s.allocated ≡ length requests
  pub all_freed : (b : ℕ) → occurs b s.freed ≡ (if ltb b (length requests) then 1 else 0)

-- A handler whose stream has exactly N requests, and one at least, has done all its work when it
-- answers OK, unless io_uring_wait_cqe has failed: every request has had a buffer, no write or close
-- is queued or in the kernel, no completion is left, and each of the buffers was freed once.
pub full_stream-AllDone :
    (h : Handler) (p : FileServer) (requests : List FileRequest) (s : System)
    → 0 < length requests
    → nat_part p.request_count ≡ length requests
    → Reach h p requests s
    → s.main ≡ answered true
    → (s.reaper ≡ gave_up) ⊎ AllDone requests s
full_stream-AllDone h p requests s some_request exact r m =
    let a = Reach-Answer h p requests s some_request r m in
    elim a.1 [
      | inl e ↦ inl e
      | inr e ↦
          (let none : entries s ≡ 0 = omega (arith, e, ap (λ n. per_request h * n) exact) in
            let q : s.queued ≡ [] = empty_of_length s.queued (omega (arith, none)) in
            let f : s.flight ≡ [] = empty_of_length s.flight (omega (arith, none)) in
            let c : s.completed ≡ [] = empty_of_length s.completed (omega (arith, none)) in
            inr (record {
              none_queued = q;
              none_in_flight = f;
              none_completed = c;
              all_allocated = a.0;
              all_freed = λ b.
                  omega (
                    arith,
                    Reach-Owned h p requests s r b,
                    ap (uses b) q,
                    ap (uses b) f,
                    ap (uses b) c,
                  )
                  ∙ ap (λ n. if ltb b n then 1 else 0) a.0;
            }))
    ]

-- A handler whose stream has requests, but fewer than N, answers OK only when io_uring_wait_cqe has
-- failed.
pub short_stream-gave_up :
    (h : Handler) (p : FileServer) (requests : List FileRequest) (s : System)
    → 0 < length requests
    → length requests < nat_part p.request_count
    → Reach h p requests s
    → s.main ≡ answered true
    → s.reaper ≡ gave_up
short_stream-gave_up large p requests s some_request short r m =
    elim (Reach-Answer large p requests s some_request r m).1 [
      | inl e ↦ e
      | inr e ↦ absurd (omega (arith, e))
    ]
short_stream-gave_up expr p requests s some_request short r m =
    elim (Reach-Answer expr p requests s some_request r m).1 [
      | inl e ↦ e
      | inr e ↦ absurd (omega (arith, e))
    ]
short_stream-gave_up small p requests s some_request short r m =
    elim (Reach-Answer small p requests s some_request r m).1 [
      | inl e ↦ e
      | inr e ↦ absurd (omega (arith, e))
    ]
