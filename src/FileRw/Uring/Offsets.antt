-- ===== src/FileRw/Uring/Offsets.antt =====
-- test_large_io_uring of src/file_rw_nvmeof.cc: where it writes, and how it ends.
use native.Mathlib.Nat.{
  div-add-mod, mod-lt, mod-le, mod-eq_of_lt, mul-add-mod_self_left, mul-le-mul_right, add-mul,
  suc-mul, mul_right_comm,
}
use nvmeof_project.Prelude.{
  ℕ, zero, suc, ◌+◌, ◌*◌, ◌/◌, ◌%◌, ◌^◌, ◌≤◌, ◌<◌, ◌≡◌, sym, ap, ◌∙◌, List, [], ◌∷◌, ℤ, arith,
}
use nvmeof_project.Outside.{Os, Prog, boot, call, return_now, for_range, ◌>>◌}
use nvmeof_project.Outside.Laws.{Ensures, Ensures-fails, bind_Ensures}
use nvmeof_project.Outside.Loops.{for_range-Ensures}
use nvmeof_project.FileRw.{
  Options, Call, Reply, Ending, close, now, queue_exit, leave_if, rounds, allocate, returned,
  terminated, divided_by_zero,
}
use nvmeof_project.FileRw.Trace.{TestMachine, offsets, joinable}
use nvmeof_project.FileRw.Uring.{
  init_ring, offset_of, filesize, open_test_file, large_round, test_large_io_uring,
}

-- The offsets of the first `k` writes, the last first.
abbrev pub first_offsets : Options → ℕ → List ℕ
first_offsets o zero = []
first_offsets o (suc k) = offset_of o k ∷ first_offsets o k

abbrev Running : Options → ℕ → TestMachine → Type 0
Running o k t = (offsets t.trace ≡ first_offsets o k) × (joinable t.trace ≡ 1)

-- How the test may end, since it never reaches a `return` with its thread joined.
abbrev pub LargeEnds : Options → Ending → TestMachine → Type 0
LargeEnds o returned t = (offsets t.trace ≡ []) × (joinable t.trace ≡ 0)
LargeEnds o terminated t =
    (joinable t.trace ≡ 1) × (k : ℕ) × (k ≤ rounds o) × (offsets t.trace ≡ first_offsets o k)
LargeEnds o divided_by_zero t = ⊥

open_test_file-Ensures :
    (o : Options) (os : Os Call Reply)
    → Ensures
        (λ fd t. Running o 0 t)
        (λ e t. (e ≡ returned) × (offsets t.trace ≡ []) × (joinable t.trace ≡ 0))
        (λ t. ⊥)
        (open_test_file o os (boot tt))
unfolding open_test_file init_ring leave_if allocate
open_test_file-Ensures o os = ground arith

large_round-Ensures :
    (o : Options) (fd : ℤ) (i : ℕ) (os : Os Call Reply) (t : TestMachine)
    → Running o i t
    → Ensures
        (λ _ u. Running o (suc i) u)
        (λ e u. (e ≡ terminated) × Running o i u)
        (λ u. ⊥)
        (large_round o fd i os t)
unfolding large_round leave_if
large_round-Ensures o fd i os t h = ground arith

returned-LargeEnds :
    (o : Options) (e : Ending) (t : TestMachine)
    → (e ≡ returned) × (offsets t.trace ≡ []) × (joinable t.trace ≡ 0)
    → LargeEnds o e t
returned-LargeEnds o returned t h = (h.1, h.2)
returned-LargeEnds o terminated t h = cc
returned-LargeEnds o divided_by_zero t h = cc

terminated-LargeEnds :
    (o : Options) (k : ℕ) (e : Ending) (t : TestMachine)
    → k ≤ rounds o
    → (e ≡ terminated) × Running o k t
    → LargeEnds o e t
terminated-LargeEnds o k returned t le h = cc
terminated-LargeEnds o k terminated t le h = (h.1.1, k, le, h.1.0)
terminated-LargeEnds o k divided_by_zero t le h = cc

-- test_large_io_uring ends, and never by running to its end with its thread joined: either it
-- returns early with no thread started and nothing written, or its thread is joinable when it is
-- left, which ends the process. By then it has prepared the writes of the first numbers, N at most,
-- each at the offset of its number.
pub test_large_io_uring-LargeEnds :
    (o : Options) (os : Os Call Reply)
    → Ensures (λ _ t. ⊥) (LargeEnds o) (λ t. ⊥) (test_large_io_uring o os (boot tt))
unfolding test_large_io_uring
test_large_io_uring-LargeEnds o os =
    let N = rounds o in
    let finish : ℤ → Prog Call Reply (Unit {0}) Ending (Unit {0}) =
      λ fd. (do call now; call queue_exit; call (close fd); return_now terminated) in
    bind_Ensures os (λ _ t. Running o 0 t) (λ _ t. ⊥) (LargeEnds o) (λ t. ⊥) (open_test_file o)
      (λ fd. for_range (large_round o fd) 0 N >> finish fd) (boot tt)
      (Ensures-fails (λ _ t. Running o 0 t)
        (λ e t. (e ≡ returned) × (offsets t.trace ≡ []) × (joinable t.trace ≡ 0)) (LargeEnds o)
        (λ t. ⊥) (open_test_file o os (boot tt)) (λ e t q. returned-LargeEnds o e t q)
        (open_test_file-Ensures o os))
      (λ fd t q.
        bind_Ensures os (λ _ u. Running o N u) (λ _ u. ⊥) (LargeEnds o) (λ u. ⊥)
          (for_range (large_round o fd) 0 N) (λ _. finish fd) t
          (for_range-Ensures os (Running o) (LargeEnds o) (λ u. ⊥) (large_round o fd) N
            (λ k u lt w.
              Ensures-fails (λ _ v. Running o (suc k) v) (λ e v. (e ≡ terminated) × Running o k v)
                (LargeEnds o) (λ v. ⊥) (large_round o fd k os u)
                (λ e v f. terminated-LargeEnds o k e v (omega arith) f)
                (large_round-Ensures o fd k os u w))
            0 N t (omega arith) q)
          (λ _ u w. (w.1, N, omega arith, w.0)))

-- A multiple of `b` that has wrapped at a multiple of `b` leaves room for `b` more.
mul_mod_fits : (per i b : ℕ) → 0 < per → i * b % (per * b) + b ≤ per * b
mul_mod_fits per i b h =
    let q = i % per in
    let small : suc q * b ≤ per * b = mul-le-mul_right b (mod-lt i h) in
    let split : i * b ≡ per * b * (i / per) + q * b =
      sym (ap (λ t. t * b) (div-add-mod i per))
      ∙ add-mul (per * (i / per)) q b
      ∙ ap (λ t. t + q * b) (mul_right_comm per (i / per) b) in
    let rest : i * b % (per * b) ≡ q * b % (per * b) =
      ap (λ t. t % (per * b)) split ∙ mul-add-mod_self_left (per * b) (i / per) (q * b) in
    omega (arith, rest, suc-mul q b, small, mod-le (q * b) (per * b))

-- Every write ends within the size that the test gives the file.
abbrev pub AllFit : Options → List ℕ → Type 0
AllFit o [] = Unit {0}
AllFit o (offset ∷ rest) = (offset + o.buffer_size ≤ filesize) × AllFit o rest

module _ (o : Options) (per : ℕ) (some : 0 < per) (whole : per * o.buffer_size ≡ filesize)
    (small : rounds o * o.buffer_size < 2 ^ 64) where
  offset_of_fits : (i : ℕ) → i < rounds o → offset_of o i + o.buffer_size ≤ filesize
  unfolding offset_of
  offset_of_fits i lt =
      let less : i * o.buffer_size ≤ rounds o * o.buffer_size =
        mul-le-mul_right o.buffer_size (omega arith) in
      let plain : i * o.buffer_size % 2 ^ 64 ≡ i * o.buffer_size = mod-eq_of_lt (omega arith) in
      rw (plain, ← whole) (mul_mod_fits per i o.buffer_size some)

  first_offsets-AllFit : (k : ℕ) → k ≤ rounds o → AllFit o (first_offsets o k)
  first_offsets-AllFit zero le = tt
  first_offsets-AllFit (suc k) le =
      (offset_of_fits k (omega arith), first_offsets-AllFit k (omega arith))

  ends-AllFit : (e : Ending) (t : TestMachine) → LargeEnds o e t → AllFit o (offsets t.trace)
  ends-AllFit returned t h = rw h.0 tt
  ends-AllFit terminated t (j, k, le, e) = rw e (first_offsets-AllFit k le)
  ends-AllFit divided_by_zero t h = absurd h

  -- If the buffer's size divides the 10 GB of the file and the data of all N writes are fewer than
  -- 2^64 bytes, then however test_large_io_uring ends, every write that it has prepared ends within
  -- the 10 GB.
  pub test_large_io_uring-AllFit :
      (os : Os Call Reply)
      → Ensures
          (λ _ t. ⊥)
          (λ e t. AllFit o (offsets t.trace))
          (λ t. ⊥)
          (test_large_io_uring o os (boot tt))
  test_large_io_uring-AllFit os =
      Ensures-fails (λ _ t. ⊥) (LargeEnds o) (λ e t. AllFit o (offsets t.trace)) (λ t. ⊥)
        (test_large_io_uring o os (boot tt)) ends-AllFit (test_large_io_uring-LargeEnds o os)
