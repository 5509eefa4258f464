-- ===== src/FileRw/Blocking/Files.antt =====
-- test_large_blocking of src/file_rw_nvmeof.cc: the calls it makes on its file.
use nvmeof_project.Prelude.{ℕ, zero, suc, ◌≤◌, ◌≡◌, ap, List, [], ◌∷◌, ℤ, arith}
use nvmeof_project.Outside.{Exit, Os, Prog, boot, call, pure, for_range, ◌>>◌}
use nvmeof_project.Outside.Laws.{Ensures, Ensures-fails, bind_Ensures}
use nvmeof_project.Outside.Loops.{for_range-Ensures}
use nvmeof_project.Names.{large_file}
use nvmeof_project.FileRw.{
  Options, Call, Reply, Ending, open_file, write, close, now, write_append_truncate, leave_if,
  rounds, filled, allocate, returned,
}
use nvmeof_project.FileRw.Trace.{TestMachine, file_calls, failed_writes}
use nvmeof_project.FileRw.Blocking.{open_large, large_round, test_large_blocking}

-- `k` writes of the buffer after the calls `before`.
abbrev pub appended : Options → ℤ → ℕ → List Call → List Call
appended o fd zero before = before
appended o fd (suc k) before = write fd (filled o) ∷ appended o fd k before

-- The call that opens the large file, and the descriptor that it returns at the start.
abbrev pub open_call : Call
open_call = open_file large_file write_append_truncate

abbrev pub first_fd : Os Call Reply → ℤ
first_fd os = (os 0 open_call).ret

-- At most `count` writes, and nothing closed.
abbrev Partly : Options → ℤ → ℕ → Ending → TestMachine → Type 0
Partly o fd count e t =
    (e ≡ returned) × (k : ℕ) × (k ≤ count) × (file_calls t.trace ≡ appended o fd k (open_call ∷ []))

open_large-Ensures :
    (o : Options) (os : Os Call Reply)
    → Ensures
        (λ fd t.
          (fd ≡ first_fd os)
          × ((file_calls t.trace ≡ open_call ∷ []) × (failed_writes t.trace ≡ 0)))
        (λ e t. (e ≡ returned) × (file_calls t.trace ≡ open_call ∷ []))
        (λ t. ⊥)
        (open_large o os (boot tt))
unfolding open_large leave_if allocate
open_large-Ensures o os = ground arith

large_round-Ensures :
    (o : Options) (fd : ℤ) (i : ℕ) (os : Os Call Reply) (t : TestMachine)
    → file_calls t.trace ≡ appended o fd i (open_call ∷ [])
    → failed_writes t.trace ≡ 0
    → Ensures
        (λ _ u.
          (file_calls u.trace ≡ appended o fd (suc i) (open_call ∷ []))
          × (failed_writes u.trace ≡ 0))
        (λ e u. (e ≡ returned) × (file_calls u.trace ≡ appended o fd (suc i) (open_call ∷ [])))
        (λ t. ⊥)
        (large_round o fd i os t)
unfolding large_round leave_if
large_round-Ensures o fd i os t e good = ground arith

-- How test_large_blocking ends.
abbrev pub LargeReport : Options → ℤ → Exit Ending (Unit {0}) × TestMachine → Type 0
LargeReport o fd =
    Ensures
      (λ _ t.
        (file_calls t.trace ≡ close fd ∷ appended o fd (rounds o) (open_call ∷ []))
        × (failed_writes t.trace ≡ 0))
      (Partly o fd (rounds o)) (λ t. ⊥)

-- test_large_blocking ends. At its end the one file has been opened, `write` has been called for it N
-- times, with the whole buffer each time, none of these calls has failed (one may have written
-- less), and the file has been closed. Where it returns early it has called `write` for it at most N
-- times and has closed nothing.
pub test_large_blocking-LargeReport :
    (o : Options) (os : Os Call Reply)
    → LargeReport o (first_fd os) (test_large_blocking o os (boot tt))
unfolding test_large_blocking
test_large_blocking-LargeReport o os =
    let fd = first_fd os in
    let N = rounds o in
    let Q : ℕ → TestMachine → Type 0 = λ i t.
      (file_calls t.trace ≡ appended o fd i (open_call ∷ [])) × (failed_writes t.trace ≡ 0) in
    let Before : ℕ → TestMachine → Type 0 =
      λ i t. file_calls t.trace ≡ appended o fd i (open_call ∷ []) in
    let End : Unit {0} → TestMachine → Type 0 = λ _ t.
      (file_calls t.trace ≡ close fd ∷ appended o fd N (open_call ∷ []))
      × (failed_writes t.trace ≡ 0) in
    let finish : ℤ → Prog Call Reply (Unit {0}) Ending (Unit {0}) =
      λ fd. (do call now; call (close fd); pure tt) in
    bind_Ensures os (λ d t. (d ≡ fd) × Q 0 t) End (Partly o fd N) (λ t. ⊥) (open_large o)
      (λ d. for_range (large_round o d) 0 N >> finish d) (boot tt)
      (Ensures-fails (λ d t. (d ≡ fd) × Q 0 t) (λ e t. (e ≡ returned) × Before 0 t) (Partly o fd N)
        (λ t. ⊥) (open_large o os (boot tt)) (λ e t q. (q.0, 0, omega arith, q.1))
        (open_large-Ensures o os))
      (λ d t q. rw q.0 (
        bind_Ensures os (λ _ u. Q N u) End (Partly o fd N) (λ t. ⊥)
          (for_range (large_round o fd) 0 N) (λ _. finish fd) t
          (for_range-Ensures os Q (Partly o fd N) (λ t. ⊥) (large_round o fd) N
            (λ k u h e.
              Ensures-fails (λ _ v. Q (suc k) v) (λ x v. (x ≡ returned) × Before (suc k) v)
                (Partly o fd N) (λ t. ⊥) (large_round o fd k os u)
                (λ x v p. (p.0, suc k, omega arith, p.1)) (large_round-Ensures o fd k os u e.0 e.1))
            0 N t (omega arith) q.1)
          (λ _ u e. (ap (◌∷◌ (close fd)) e.0, e.1))))
