-- ===== src/BlockTarget/Writes.antt =====
-- src/block_target.cc: the reads and the writes of the random test.
use mathlib.Core.Path.{subst}
use nvmeof_project.Prelude.{
  ℕ, zero, suc, ◌+◌, ◌≤◌, ◌<◌, ◌≡◌, refl, ap, ◌⊎◌, inl, inr, if◌then◌else◌, if_cases, ◌==◌, ◌++◌,
  drop, List, [], ◌∷◌, ℤ, is_neg, nonzero, false, arith, length, ◌++◌, drop,
}
use nvmeof_project.Outside.{
  Machine, Exit, Os, done, stop, hung, boot, ◌>>◌, call, pure, return_now, modify,
}
use nvmeof_project.Outside.Laws.{Ensures, Ensures-mono, Ensures-fails, bind_Ensures, after_bind}
use nvmeof_project.Outside.Keeps.{after_call}
use nvmeof_project.Nvme.{
  Call, Reply, IoArgs, DeviceConfig, open_device, wronly_direct, recv, send, nvme_write, open_bdev,
}
use nvmeof_project.BlockTarget.{
  TargetExit, TargetProg, write_failed, divided_by_zero, received, write_buffer, write_loop,
  target_args, done_text, test_write_throughput_random,
}

-- What the reads that did not fail have left in the buffer, from the calls made: each has replaced
-- as many bytes at the front as it brought.
abbrev pub contents : List (Call × Reply) → List ℕ
contents [] = []
contents ((recv size, r) ∷ t) =
    if is_neg r.ret then contents t else r.bytes ++ drop (length r.bytes) (contents t)
contents (_ ∷ t) = contents t

-- Every write has the arguments `args`, and the buffer as the reads before it have left it.
abbrev pub Follows : IoArgs → List (Call × Reply) → Type 0
Follows args [] = Unit {0}
Follows args ((nvme_write a bytes, _) ∷ t) = (a ≡ args) × (bytes ≡ contents t) × Follows args t
Follows args (_ ∷ t) = Follows args t

-- The reads and the writes.
abbrev pub reads : List (Call × Reply) → ℕ
reads [] = 0
reads ((recv size, _) ∷ t) = suc (reads t)
reads (_ ∷ t) = reads t

abbrev pub writes : List (Call × Reply) → ℕ
writes [] = 0
writes ((nvme_write args bytes, _) ∷ t) = suc (writes t)
writes (_ ∷ t) = writes t

-- After `n` rounds.
abbrev After : IoArgs → ℕ → Machine Call Reply (List ℕ) → Type 0
After args n t =
    Follows args t.trace × (t.mem ≡ contents t.trace) × (reads t.trace ≡ n) × (writes t.trace ≡ n)

-- The loop ended after `n` rounds, or on a read that failed after fewer.
abbrev Left : IoArgs → ℕ → Machine Call Reply (List ℕ) → Type 0
Left args n t =
    Follows args t.trace
    × (((reads t.trace ≡ n) × (writes t.trace ≡ n))
        ⊎ ((reads t.trace ≡ suc (writes t.trace)) × (writes t.trace < n)))

abbrev Failed : IoArgs → ℕ → TargetExit → Machine Call Reply (List ℕ) → Type 0
Failed args n e t =
    (e ≡ write_failed)
    × Follows args t.trace
    × (reads t.trace ≡ writes t.trace)
    × (0 < writes t.trace)
    × (writes t.trace ≤ n)

module _ (args : IoArgs) (size : ℤ) (os : Os Call Reply) where
  -- The machine after a read.
  abbrev filled : Machine Call Reply (List ℕ) → Machine Call Reply (List ℕ)
  filled s = record (after_call os (recv size) s) {
    mem = received (os s.clock (recv size)).bytes s.mem;
  }

  write_buffer-After :
      (n : ℕ) (s : Machine Call Reply (List ℕ))
      → After args n s
      → is_neg (os s.clock (recv size)).ret ≡ false
      → Ensures
          (λ _ t. After args (suc n) t)
          (Failed args (suc n))
          (λ t. ⊥)
          (write_buffer args os (filled s))
  unfolding write_buffer received
  write_buffer-After n s (follows, same, read, wrote) good =
      let r = os s.clock (recv size) in
      let u = filled s in
      let now_same : u.mem ≡ contents u.trace =
        if_cases (λ x. u.mem ≡ x) (is_neg r.ret) (contents s.trace)
          (r.bytes ++ drop (length r.bytes) (contents s.trace)) (λ bad. cc)
          (λ _. ap (λ old. r.bytes ++ drop (length r.bytes) old) same) in
      let v = after_call os (nvme_write args u.mem) u in
      if_cases
        (λ (m : TargetProg (Unit {0})).
          Ensures (λ _ t. After args (suc n) t) (Failed args (suc n)) (λ t. ⊥) (m os v))
        (nonzero (os u.clock (nvme_write args u.mem)).ret) (return_now write_failed) (pure tt)
        (λ bad. (
          refl,
          (refl, now_same, follows),
          omega (arith, read, wrote),
          omega arith,
          omega (arith, wrote),
        ))
        (λ fine. ((refl, now_same, follows), now_same, omega (arith, read), omega (arith, wrote)))

  Left-eq : (n m : ℕ) (t : Machine Call Reply (List ℕ)) → n ≡ m → Left args n t → Left args m t
  Left-eq n m t e = subst (λ k. Left args k t) e

  write_loop-Left :
      (count n : ℕ) (s : Machine Call Reply (List ℕ))
      → After args n s
      → Ensures
          (λ _ t. Left args (n + count) t)
          (Failed args (n + count))
          (λ t. ⊥)
          (write_loop count args size os s)
  unfolding write_loop
  write_loop-Left zero n s h = (h.0, inl (omega (arith, h.2), omega (arith, h.3)))
  write_loop-Left (suc count) n s h =
      let r = os s.clock (recv size) in
      let m = n + suc count in
      if_cases
        (λ (k : TargetProg (Unit {0})).
          Ensures (λ _ t. Left args m t) (Failed args m) (λ t. ⊥)
            (k os (after_call os (recv size) s)))
        (is_neg r.ret) (pure tt)
        (do modify (received r.bytes); write_buffer args; write_loop count args size)
        (λ bad. (h.0, inr (omega (arith, h.2, h.3), omega (arith, h.3))))
        (λ good.
          bind_Ensures os (λ _ t. After args (suc n) t) (λ _ t. Left args m t) (Failed args m)
            (λ t. ⊥) (write_buffer args) (λ _. write_loop count args size) (filled s)
            (Ensures-fails (λ _ t. After args (suc n) t) (Failed args (suc n)) (Failed args m)
              (λ t. ⊥) (write_buffer args os (filled s))
              (λ e t q. (q.0, q.1, q.2, q.3, omega (arith, q.4))) (write_buffer-After n s h good))
            (λ a t q.
              Ensures-mono (λ _ u. Left args (suc n + count) u) (λ _ u. Left args m u)
                (Failed args (suc n + count)) (Failed args m) (λ u. ⊥) (λ u. ⊥)
                (write_loop count args size os t)
                (λ b u k. Left-eq (suc n + count) m u (omega arith) k)
                (λ e u k. (k.0, k.1, k.2, k.3, omega (arith, k.4))) (λ u k. k)
                (write_loop-Left count (suc n) t q)))

-- How the test may end, on a device of blocks of `size` bytes: it divides by 0; it sends its answer as the last call, after `count` blocks or after a read
-- that failed, or a write has failed.
abbrev pub TargetReport :
    ℕ → ℕ → IoArgs → Exit TargetExit (Unit {0}) × Machine Call Reply (List ℕ) → Type 0
TargetReport count size args (r, t) =
    ((size ≡ 0) × (r ≡ stop divided_by_zero) × (reads t.trace ≡ 0) × (writes t.trace ≡ 0))
    ⊎ ((0 < size)
        × Follows args t.trace
        × (((r ≡ done tt)
              × ((reply : Reply) × (rest : List (Call × Reply)) × (t.trace
                    ≡ (send done_text, reply) ∷ rest))
              × (((reads t.trace ≡ count) × (writes t.trace ≡ count))
                  ⊎ ((reads t.trace ≡ suc (writes t.trace)) × (writes t.trace < count))))
            ⊎ ((r ≡ stop write_failed)
                × (reads t.trace ≡ writes t.trace)
                × (0 < writes t.trace)
                × (writes t.trace ≤ count))))

report :
    (count size : ℕ) (args : IoArgs)
    (out : Exit TargetExit (Unit {0}) × Machine Call Reply (List ℕ)) (os : Os Call Reply)
    → 0 < size
    → Ensures (λ _ t. Left args count t) (Failed args count) (λ t. ⊥) out
    → TargetReport count size args (after_bind (λ _. do call (send done_text); pure tt) os out)
report count size args (done a, t) os some (follows, ends) =
    inr (some, follows, inl (refl, (os t.clock (send done_text), t.trace, refl), ends))
report count size args (stop e, t) os some (e', follows, same, wrote, few) =
    inr (some, follows, inr (ap stop e', same, wrote, few))
report count size args (hung, t) os some h = absurd h

-- The test on a connection and a device, whatever they answer. Where the block size is 0 it divides
-- by it, and has read and written nothing. Otherwise each write goes to block 0, with the
-- same arguments, and carries the buffer exactly as the reads before it have left it; every read
-- that does not fail is followed by one write. Either `count` blocks were written, or fewer and a
-- read failed, and then `done` is sent as the last call; or a write failed, and the test ends there.
pub test_write_throughput_random-TargetReport :
    (count m : ℕ) (config : DeviceConfig) (size : ℤ) (os : Os Call Reply)
    → let fd = (os 0 (open_device config.name wronly_direct)).ret in
      TargetReport count config.logical_block_size
        (target_args m config fd size)
        (test_write_throughput_random count m config size os (boot []))
unfolding test_write_throughput_random open_bdev
test_write_throughput_random-TargetReport count m config size os =
    let c = open_device config.name wronly_direct in
    let args = target_args m config (os 0 c).ret size in
    let u : Machine Call Reply (List ℕ) = record {
      clock = 1;
      trace = (c, os 0 c) ∷ [];
      mem = [];
    } in
    if_cases
      (λ (k : TargetProg (Unit {0})).
        TargetReport count config.logical_block_size args
          ((k >> (do write_loop count args size; call (send done_text); pure tt)) os u))
      (config.logical_block_size == 0) (return_now divided_by_zero) (pure tt)
      (λ none. inl (ground arith, refl, refl, refl))
      (λ some.
        report count config.logical_block_size args (write_loop count args size os u) os
          (ground arith)
          (subst
            (λ k.
              Ensures (λ _ t. Left args k t) (Failed args k) (λ t. ⊥)
                (write_loop count args size os u))
            {x = 0 + count} {y = count} (omega arith)
            (write_loop-Left args size os count 0 u (tt, refl, refl, refl))))
