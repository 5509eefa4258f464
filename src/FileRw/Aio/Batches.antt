-- ===== src/FileRw/Aio/Batches.antt =====
-- The batches of test_small_aio and test_large_aio in src/file_rw_nvmeof.cc.
use nvmeof_project.Prelude.{
  ℕ, zero, suc, ◌+◌, ◌-◌, ◌≤◌, ◌<◌, ltb, ◌≡◌, refl, false, ap, ◌∙◌, ◌⊎◌, inl, inr, if_cases, Option,
  none, some, List, [], ◌∷◌, ℤ, nat_part, arith,
}
use nvmeof_project.Outside.{Os, hung, boot, call, pure, ◌>>=◌, ◌>>◌}
use nvmeof_project.Outside.Laws.{Ensures, Ensures-fails, Ensures-mono, bind_Ensures}
use nvmeof_project.Outside.Keeps.{after_call}
use nvmeof_project.FileRw.{
  Options, Call, Reply, Ending, TestProg, io_submit, join_thread, join, io_destroy, close, now,
  leave_if, rounds, allocate, terminated,
}
use nvmeof_project.FileRw.Trace.{TestMachine, batches, prepared}
use nvmeof_project.FileRw.Aio.{
  queue_one, fill_batch, batch_loop, setup_aio, start_small_aio, start_large_aio, finish_aio,
  test_small_aio, test_large_aio,
}

abbrev pub sum : List ℕ → ℕ
sum [] = 0
sum (n ∷ ns) = n + sum ns

abbrev pub AllAtMost : ℕ → List ℕ → Type 0
AllAtMost m [] = Unit {0}
AllAtMost m (n ∷ ns) = (n ≤ m) × AllAtMost m ns

module _ (o : Options) (file : Option ℤ) (os : Os Call Reply) where
  -- What filling one batch does: it ends at the depth or with nothing left.
  abbrev Filled : ℕ → ℕ → TestMachine → ℕ → TestMachine → Type 0
  Filled n left s m t =
      (n ≤ m)
      × (m ≤ nat_part o.queue_depth)
      × ((m ≡ nat_part o.queue_depth) ⊎ (m ≡ n + left))
      × (m ≤ n + left)
      × (prepared t.trace + n ≡ prepared s.trace + m)
      × (batches t.trace ≡ batches s.trace)

  abbrev Leaves : TestMachine → Ending → TestMachine → Type 0
  Leaves s e t = (e ≡ terminated) × (batches t.trace ≡ batches s.trace)

  queue_one-Ensures :
      (n cnt : ℕ) (s : TestMachine)
      → Ensures
          (λ _ t. (prepared t.trace ≡ suc (prepared s.trace)) × (batches t.trace ≡ batches s.trace))
          (Leaves s)
          (λ t. ⊥)
          (queue_one file o n cnt os s)
  unfolding queue_one leave_if
  queue_one-Ensures n cnt s = ground arith

  fill_batch-Filled :
      (n cnt left : ℕ) (s : TestMachine)
      → n ≤ nat_part o.queue_depth
      → Ensures (Filled n left s) (Leaves s) (λ t. ⊥) (fill_batch file o n cnt left os s)
  unfolding fill_batch
  fill_batch-Filled n cnt zero s h =
      (omega arith, h, inr (omega arith), omega arith, omega arith, refl)
  fill_batch-Filled n cnt (suc left) s h =
      if_cases (λ (m : TestProg ℕ). Ensures (Filled n (suc left) s) (Leaves s) (λ t. ⊥) (m os s))
        (ltb n (nat_part o.queue_depth))
        (do queue_one file o n cnt; fill_batch file o (n + 1) (cnt + 1) left) (pure n)
        (λ room.
          bind_Ensures os
            (λ _ t.
              (prepared t.trace ≡ suc (prepared s.trace)) × (batches t.trace ≡ batches s.trace))
            (Filled n (suc left) s) (Leaves s) (λ t. ⊥) (queue_one file o n cnt)
            (λ _. fill_batch file o (n + 1) (cnt + 1) left) s (queue_one-Ensures n cnt s)
            (λ _ t q.
              Ensures-mono (Filled (n + 1) left t) (Filled n (suc left) s) (Leaves t) (Leaves s)
                (λ t. ⊥) (λ t. ⊥) (fill_batch file o (n + 1) (cnt + 1) left os t)
                (λ m u f. ground (arith, f.0, f.1, f.2, f.3, f.4, f.5)) (λ e u f. (f.0, f.1 ∙ q.1))
                (λ u f. f) (fill_batch-Filled (n + 1) (cnt + 1) left t (ground arith))))
        (λ full. (omega arith, h, inl (ground arith), omega arith, omega arith, refl))

  -- What the loop does: all that is left is prepared and submitted, in batches of the depth at most.
  abbrev Submitted : ℕ → TestMachine → TestMachine → Type 0
  Submitted left s t =
      (prepared t.trace ≡ prepared s.trace + left)
      × (sum (batches t.trace) ≡ sum (batches s.trace) + left)
      × AllAtMost (nat_part o.queue_depth) (batches t.trace)

  abbrev LeavesBatches : Ending → TestMachine → Type 0
  LeavesBatches e t = (e ≡ terminated) × AllAtMost (nat_part o.queue_depth) (batches t.trace)

  batch_loop-Submitted :
      (fuel cnt left : ℕ) (s : TestMachine)
      → 0 < nat_part o.queue_depth
      → left ≤ fuel
      → AllAtMost (nat_part o.queue_depth) (batches s.trace)
      → Ensures
          (λ _ t. Submitted left s t)
          LeavesBatches
          (λ t. ⊥)
          (batch_loop fuel file o cnt left os s)
  unfolding batch_loop
  batch_loop-Submitted fuel cnt zero s d le h = (omega arith, omega arith, h)
  batch_loop-Submitted zero cnt (suc left) s d le h = absurd (omega arith)
  batch_loop-Submitted (suc fuel) cnt (suc left) s d le h =
      bind_Ensures os (Filled 0 (suc left) s) (λ _ t. Submitted (suc left) s t) LeavesBatches
        (λ t. ⊥) (fill_batch file o 0 cnt (suc left))
        (λ n. call (io_submit n) >> batch_loop fuel file o (cnt + n) (suc left - n)) s
        (Ensures-fails (Filled 0 (suc left) s) (Leaves s) LeavesBatches (λ t. ⊥)
          (fill_batch file o 0 cnt (suc left) os s) (λ e t q. (q.0, rw q.1 h))
          (fill_batch-Filled 0 cnt (suc left) s (omega arith)))
        (λ n t f.
          let c = io_submit n in
          let u : TestMachine = record t {
            clock = suc t.clock;
            trace = (c, os t.clock c) ∷ t.trace;
          } in
          let positive : 0 < n = omega (arith, f.1, f.2, f.3) in
          Ensures-mono (λ _ v. Submitted (suc left - n) u v) (λ _ v. Submitted (suc left) s v)
            LeavesBatches LeavesBatches (λ v. ⊥) (λ v. ⊥)
            (batch_loop fuel file o (cnt + n) (suc left - n) os u)
            (λ x v q. (omega (arith, q.0, f.3, f.4), omega (arith, q.1, f.3, ap sum f.5), q.2))
            (λ e v q. q) (λ v q. q)
            (batch_loop-Submitted fuel (cnt + n) (suc left - n) u d (omega arith) (f.1, rw f.5 h)))

-- What one of the two tests has done at its end.
abbrev pub AllSubmitted : Options → TestMachine → Type 0
AllSubmitted o t =
    (prepared t.trace ≡ rounds o)
    × (sum (batches t.trace) ≡ rounds o)
    × AllAtMost (nat_part o.queue_depth) (batches t.trace)

abbrev pub SmallBatches : Options → Ending → TestMachine → Type 0
SmallBatches o e t = AllAtMost (nat_part o.queue_depth) (batches t.trace)

-- All is submitted, and the test waits for its thread, which does not end.
abbrev pub WaitsForThread : Options → TestMachine → Type 0
WaitsForThread o t =
    AllSubmitted o t
    × (r : Reply) × (rest : List (Call × Reply)) × (t.trace ≡ (join_thread, r) ∷ rest)
    × (r.ended ≡ false)

-- Before the loop nothing is prepared.
abbrev Fresh : Option ℤ → TestMachine → Type 0
Fresh file t = (prepared t.trace ≡ 0) × (batches t.trace ≡ [])

abbrev NoBatches : Ending → TestMachine → Type 0
NoBatches e t = batches t.trace ≡ []

abbrev after_join : Option ℤ → TestProg (Unit {0})
after_join file = do
  call io_destroy
  elim file [ none ↦ pure tt | some fd ↦ (do call (close fd); pure tt) ]
  call now
  pure tt

after_join-AllSubmitted :
    (o : Options) (file : Option ℤ) (os : Os Call Reply) (t : TestMachine)
    → AllSubmitted o t
    → Ensures
        (λ _ u. AllSubmitted o u)
        (SmallBatches o)
        (WaitsForThread o)
        (after_join file os (after_call os join_thread t))
after_join-AllSubmitted o none os t h = h
after_join-AllSubmitted o (some fd) os t h = h

finish_aio-AllSubmitted :
    (o : Options) (file : Option ℤ) (os : Os Call Reply) (t : TestMachine)
    → AllSubmitted o t
    → Ensures (λ _ u. AllSubmitted o u) (SmallBatches o) (WaitsForThread o) (finish_aio file os t)
unfolding finish_aio join
finish_aio-AllSubmitted o file os t h =
    let r = os t.clock join_thread in
    if_cases
      (λ (m : TestProg (Unit {0})).
        Ensures (λ _ u. AllSubmitted o u) (SmallBatches o) (WaitsForThread o)
          ((m >> after_join file) os (after_call os join_thread t)))
      r.ended (pure tt) (λ os s. (hung, s)) (λ ends. after_join-AllSubmitted o file os t h)
      (λ waits. (h, r, t.trace, refl, waits))

after_start :
    (fuel : ℕ) (o : Options) (os : Os Call Reply) (start : TestProg (Option ℤ))
    → 0 < nat_part o.queue_depth
    → rounds o ≤ fuel
    → Ensures Fresh NoBatches (λ t. ⊥) (start os (boot tt))
    → Ensures
        (λ _ t. AllSubmitted o t)
        (SmallBatches o)
        (WaitsForThread o)
        ((start >>= λ file. (do batch_loop fuel file o 0 (rounds o); finish_aio file)) os (boot tt))
after_start fuel o os start d le h =
    bind_Ensures os Fresh (λ _ t. AllSubmitted o t) (SmallBatches o) (WaitsForThread o) start
      (λ file. (do batch_loop fuel file o 0 (rounds o); finish_aio file)) (boot tt)
      (Ensures-mono Fresh Fresh NoBatches (SmallBatches o) (λ t. ⊥) (WaitsForThread o)
        (start os (boot tt)) (λ a t q. q) (λ e t q. rw q tt) (λ t q. absurd q) h)
      (λ file t q.
        bind_Ensures os (λ _ u. Submitted o file os (rounds o) t u) (λ _ u. AllSubmitted o u)
          (SmallBatches o) (WaitsForThread o) (batch_loop fuel file o 0 (rounds o))
          (λ _. finish_aio file) t
          (Ensures-mono (λ _ u. Submitted o file os (rounds o) t u)
            (λ _ u. Submitted o file os (rounds o) t u) (LeavesBatches o file os) (SmallBatches o)
            (λ u. ⊥) (WaitsForThread o) (batch_loop fuel file o 0 (rounds o) os t) (λ a u f. f)
            (λ e u f. f.1) (λ u f. absurd f)
            (batch_loop-Submitted o file os fuel 0 (rounds o) t d le (rw q.1 tt)))
          (λ _ u f.
            finish_aio-AllSubmitted o file os u
              (f.0 ∙ omega (arith, q.0), omega (arith, f.1, ap sum q.1), f.2)))

start_small_aio-Fresh :
    (o : Options) (os : Os Call Reply)
    → Ensures Fresh NoBatches (λ t. ⊥) (start_small_aio o os (boot tt))
unfolding start_small_aio setup_aio leave_if allocate
start_small_aio-Fresh o os = ground arith

start_large_aio-Fresh :
    (o : Options) (os : Os Call Reply)
    → Ensures Fresh NoBatches (λ t. ⊥) (start_large_aio o os (boot tt))
unfolding start_large_aio setup_aio leave_if allocate
start_large_aio-Fresh o os = ground arith

-- If the queue's depth is positive, then N rounds of the outer loop are enough for either test on
-- libaio. At its end it has prepared N requests and called `io_submit`, whose results it does not
-- look at, for as many, in batches of the depth at most; and so it has where it does not end, which
-- can only be since the thread that it joins last does not. Where it returns early, its batches too
-- were of the depth at most.
pub aio_tests-AllSubmitted :
    (fuel : ℕ) (o : Options) (os : Os Call Reply)
    → 0 < nat_part o.queue_depth
    → rounds o ≤ fuel
    → Ensures
        (λ _ t. AllSubmitted o t)
        (SmallBatches o)
        (WaitsForThread o)
        (test_small_aio fuel o os (boot tt))
      × Ensures
          (λ _ t. AllSubmitted o t)
          (SmallBatches o)
          (WaitsForThread o)
          (test_large_aio fuel o os (boot tt))
unfolding test_small_aio test_large_aio
aio_tests-AllSubmitted fuel o os d le = (
  after_start fuel o os (start_small_aio o) d le (start_small_aio-Fresh o os),
  after_start fuel o os (start_large_aio o) d le (start_large_aio-Fresh o os),
)
