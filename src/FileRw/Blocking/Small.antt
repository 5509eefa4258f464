-- ===== src/FileRw/Blocking/Small.antt =====
-- test_small_blocking of src/file_rw_nvmeof.cc: what is in the files.
use nvmeof_project.Prelude.{
  ℕ, suc, ◌≤◌, ◌<◌, ◌≡◌, sym, ap, ◌∙◌, ◌⊎◌, inl, inr, [], ◌∷◌, replicate, ℤ, arith,
}
use nvmeof_project.Outside.{Os, boot, call, pure, for_range, ◌>>◌}
use nvmeof_project.Outside.Laws.{Ensures, Ensures-fails, bind_Ensures}
use nvmeof_project.Outside.Loops.{for_range-Ensures}
use nvmeof_project.Names.{small_file}
use nvmeof_project.FileRw.{
  Options, Call, Reply, Ending, open_file, now, read_write_append_truncate, leave_if, rounds,
  filled, allocate, returned,
}
use nvmeof_project.FileRw.Trace.{
  TestMachine, names, opens, closes, targets, contents, failed_writes, small_files,
}
use nvmeof_project.FileRw.Blocking.{start_small, small_round, test_small_blocking}

-- The first `k` files have been opened and closed, `write` was called once for each, with the whole
-- buffer, and no write has failed.
pub record Written (o : Options) (k : ℕ) (t : TestMachine) : Type 0 where
  pub all_names : names t.trace ≡ small_files k
  pub all_contents : contents t.trace ≡ replicate k (filled o)
  pub own_file : targets t.trace ≡ opens t.trace
  pub none_failed : failed_writes t.trace ≡ 0
  pub all_closed : closes t.trace ≡ opens t.trace

-- The first `k` files at most, with one that may be open.
abbrev pub PartlyWritten : Options → Ending → TestMachine → Type 0
PartlyWritten o e t =
    (e ≡ returned)
    × (k : ℕ) × (k ≤ rounds o)
    × (names t.trace ≡ small_files k)
    × ((closes t.trace ≡ opens t.trace) ⊎ ((fd : ℤ) × (opens t.trace ≡ fd ∷ closes t.trace)))

start_small-Ensures :
    (o : Options) (os : Os Call Reply)
    → Ensures
        (λ _ t. Written o 0 t)
        (λ e t. (e ≡ returned) × (names t.trace ≡ []) × (closes t.trace ≡ opens t.trace))
        (λ t. ⊥)
        (start_small o os (boot tt))
unfolding start_small allocate leave_if
start_small-Ensures o os = ground arith

abbrev fd_of : ℕ → Os Call Reply → TestMachine → ℤ
fd_of i os s = (os s.clock (open_file (small_file i) read_write_append_truncate)).ret

abbrev RoundFails : ℕ → ℤ → TestMachine → Ending → TestMachine → Type 0
RoundFails i fd s e t =
    (e ≡ returned)
    × (names t.trace ≡ small_file i ∷ names s.trace)
    × (((opens t.trace ≡ opens s.trace) × (closes t.trace ≡ closes s.trace))
        ⊎ ((opens t.trace ≡ fd ∷ opens s.trace) × (closes t.trace ≡ closes s.trace))
        ⊎ ((opens t.trace ≡ fd ∷ opens s.trace) × (closes t.trace ≡ fd ∷ closes s.trace)))

small_round-Ensures :
    (o : Options) (i : ℕ) (os : Os Call Reply) (s : TestMachine)
    → Written o i s
    → Ensures
        (λ _ t. Written o (suc i) t)
        (RoundFails i (fd_of i os s) s)
        (λ t. ⊥)
        (small_round o i os s)
unfolding small_round leave_if
small_round-Ensures o i os s h =
    ground (arith, h.all_names, h.all_contents, h.own_file, h.none_failed, h.all_closed)

fails-PartlyWritten :
    (o : Options) (i : ℕ) (fd : ℤ) (s : TestMachine) (e : Ending) (t : TestMachine)
    → i < rounds o
    → Written o i s
    → RoundFails i fd s e t
    → PartlyWritten o e t
fails-PartlyWritten o i fd s e t lt h (ret, n, inl (op, c)) = (
  ret,
  suc i,
  omega arith,
  n ∙ ap (◌∷◌ (small_file i)) h.all_names,
  inl (c ∙ h.all_closed ∙ sym op),
)
fails-PartlyWritten o i fd s e t lt h (ret, n, inr (inl (op, c))) = (
  ret,
  suc i,
  omega arith,
  n ∙ ap (◌∷◌ (small_file i)) h.all_names,
  inr (fd, op ∙ ap (◌∷◌ fd) (sym (c ∙ h.all_closed))),
)
fails-PartlyWritten o i fd s e t lt h (ret, n, inr (inr (op, c))) = (
  ret,
  suc i,
  omega arith,
  n ∙ ap (◌∷◌ (small_file i)) h.all_names,
  inl (c ∙ ap (◌∷◌ fd) h.all_closed ∙ sym op),
)

-- test_small_blocking ends. At its end the files /mnt/small-file-0, …, of the numbers below N, have
-- been opened in order, `write` has been called once for each, with the whole buffer, none of these
-- calls has failed (one may have written less), and each file has been closed. Where it returns
-- early, some of the first of them have been opened, and one is open at most.
pub test_small_blocking-Written :
    (o : Options) (os : Os Call Reply)
    → Ensures
        (λ _ t. Written o (rounds o) t)
        (PartlyWritten o)
        (λ t. ⊥)
        (test_small_blocking o os (boot tt))
unfolding test_small_blocking
test_small_blocking-Written o os =
    let N = rounds o in
    let Q : ℕ → TestMachine → Type 0 = Written o in
    bind_Ensures os (λ _ t. Q 0 t) (λ _ t. Q N t) (PartlyWritten o) (λ t. ⊥) (start_small o)
      (λ _. (do for_range (small_round o) 0 N; call now; pure tt)) (boot tt)
      (Ensures-fails (λ _ t. Q 0 t)
        (λ e t. (e ≡ returned) × (names t.trace ≡ []) × (closes t.trace ≡ opens t.trace))
        (PartlyWritten o) (λ t. ⊥) (start_small o os (boot tt))
        (λ e t q. (q.0, 0, omega arith, q.1, inl q.2)) (start_small-Ensures o os))
      (λ _ t q.
        bind_Ensures os (λ _ u. Q N u) (λ _ u. Q N u) (PartlyWritten o) (λ t. ⊥)
          (for_range (small_round o) 0 N) (λ _. (do call now; pure tt)) t
          (for_range-Ensures os Q (PartlyWritten o) (λ t. ⊥) (small_round o) N
            (λ k u lt w.
              Ensures-fails (λ _ v. Q (suc k) v) (RoundFails k (fd_of k os u) u) (PartlyWritten o)
                (λ v. ⊥) (small_round o k os u)
                (λ e v f. fails-PartlyWritten o k (fd_of k os u) u e v lt w f)
                (small_round-Ensures o k os u w))
            0 N t (omega arith) q)
          (λ _ u w. record {
            all_names = w.all_names;
            all_contents = w.all_contents;
            own_file = w.own_file;
            none_failed = w.none_failed;
            all_closed = w.all_closed;
          }))
