-- ===== src/Local/Writes.antt =====
-- src/block_rw_nvmeof.cc: which commands the random test sends.
use native.Mathlib.Nat.{mod-lt, mod-add-mod, add-mod_right, mod-eq_of_lt, zero-mod}
use mathlib.Core.Path.{subst}
use nvmeof_project.Prelude.{
  sym, ℕ, zero, suc, ◌+◌, ◌-◌, ◌%◌, ◌≤◌, ◌<◌, ◌≡◌, refl, ap, ◌∙◌, ◌==◌, if_cases, false, ◌/◌, ◌⊎◌,
  inl, inr, List, [], ◌∷◌, length, ℤ, pos, arith,
}
use nvmeof_project.Outside.{Machine, Exit, Os, done, stop, hung, boot, pure, return_now, ◌>>◌}
use nvmeof_project.Outside.Laws.{Ensures, Ensures-mono, bind_Ensures}
use nvmeof_project.Nvme.{
  Call, Reply, IoArgs, DeviceConfig, nvme_write, open_device, open_bdev, rdwr_direct, random,
  written, init_device_config,
}
use nvmeof_project.Outside.Keeps.{after_call}
use nvmeof_project.Block.{block_count}
use nvmeof_project.Block.Handlers.{commands}
use nvmeof_project.Local.{
  LocalExit, LocalProg, divided_by_zero, magnitude, random_start_block, nlb_of, local_args,
  write_round, write_loop, test_write_throughput_random, data_size_of, main,
}

zero_or_pos : (n : ℕ) → (n ≡ 0) ⊎ (0 < n)
zero_or_pos zero = inl refl
zero_or_pos (suc n) = inr (omega arith)

-- The decrement of a value that has wrapped.
dec_wrapped : (q m : ℕ) → 0 < m → 0 < q → (q % m + m - 1) % m ≡ (q - 1) % m
dec_wrapped q m hm hq =
    ap (λ x. x % m) {x = q % m + m - 1} {y = q % m + (m - 1)} (omega arith)
    ∙ mod-add-mod q m (m - 1)
    ∙ ap (λ x. x % m) {x = q + (m - 1)} {y = (q - 1) + m} (omega arith)
    ∙ add-mod_right (q - 1) m

dec_zero : (m : ℕ) → 0 < m → (0 % m + m - 1) % m ≡ m - 1
dec_zero m hm =
    ap (λ x. x % m) {x = 0 % m + m - 1} {y = m - 1} (omega (arith, zero-mod m))
    ∙ mod-eq_of_lt (omega arith)

-- For a size that is not negative the local test counts blocks as the server does, although the
-- one decrements after the conversion to libnvme's field, and the other before it.
pub nlb_of-block_count :
    (m lbs n : ℕ) → 0 < m → 0 < lbs → nlb_of m lbs (pos n) ≡ block_count m lbs (pos n)
unfolding nlb_of block_count
nlb_of-block_count m lbs n hm hl = elim (zero_or_pos (n / lbs)) [
  | inl none ↦ ground (arith, dec_zero m hm, zero-mod m)
  | inr some ↦ ground (arith, dec_wrapped (n / lbs) m hm some)
]

-- Every command is a write with the arguments `args`, to a block of the device.
abbrev pub RandomWrites : ℕ → IoArgs → List Call → Type 0
RandomWrites blocks args [] = Unit {0}
RandomWrites blocks args (nvme_write a bytes ∷ cs) =
    (a.slba < magnitude blocks)
    × (a.nlb ≡ args.nlb)
    × (a.data_len ≡ args.data_len)
    × (a.nsid ≡ args.nsid)
    × (a.fd ≡ args.fd)
    × RandomWrites blocks args cs
RandomWrites blocks args (_ ∷ cs) = ⊥

abbrev Sent : ℕ → IoArgs → ℕ → Machine Call Reply ℤ → Type 0
Sent blocks args n t = RandomWrites blocks args (commands t.trace) × (length (commands t.trace) ≡ n)

abbrev Short : ℕ → IoArgs → ℕ → LocalExit → Machine Call Reply ℤ → Type 0
Short blocks args n e t =
    RandomWrites blocks args (commands t.trace) × (length (commands t.trace) ≤ n)

below : (d m : ℕ) → (m == 0) ≡ false → d % m < m
below d m h = mod-lt d (ground arith)

-- One round sends one command, to a block of the device.
write_round-Sent :
    (blocks n : ℕ) (args : IoArgs) (os : Os Call Reply) (s : Machine Call Reply ℤ)
    → Sent blocks args n s
    → Ensures
        (λ _ t. Sent blocks args (suc n) t)
        (Short blocks args (suc n))
        (λ t. ⊥)
        (write_round blocks args os s)
unfolding write_round random_start_block
write_round-Sent blocks n args os s h =
    ground (arith, h.0, h.1, below (written (os s.clock random) 0) (magnitude blocks))

write_loop-Sent :
    (count blocks n : ℕ) (args : IoArgs) (os : Os Call Reply) (s : Machine Call Reply ℤ)
    → Sent blocks args n s
    → Ensures
        (λ _ t. Sent blocks args (n + count) t)
        (Short blocks args (n + count))
        (λ t. ⊥)
        (write_loop count blocks args os s)
unfolding write_loop
write_loop-Sent zero blocks n args os s h = (h.0, omega (arith, h.1))
write_loop-Sent (suc count) blocks n args os s h =
    bind_Ensures os (λ _ t. Sent blocks args (suc n) t) (λ _ t. Sent blocks args (n + suc count) t)
      (Short blocks args (n + suc count)) (λ t. ⊥) (write_round blocks args)
      (λ _. write_loop count blocks args) s
      (Ensures-mono (λ _ t. Sent blocks args (suc n) t) (λ _ t. Sent blocks args (suc n) t)
        (Short blocks args (suc n)) (Short blocks args (n + suc count)) (λ t. ⊥) (λ t. ⊥)
        (write_round blocks args os s) (λ a t q. q) (λ e t q. (q.0, omega (arith, q.1))) (λ t q. q)
        (write_round-Sent blocks n args os s h))
      (λ _ t q.
        Ensures-mono (λ _ v. Sent blocks args (suc n + count) v)
          (λ _ v. Sent blocks args (n + suc count) v) (Short blocks args (suc n + count))
          (Short blocks args (n + suc count)) (λ v. ⊥) (λ v. ⊥) (write_loop count blocks args os t)
          (λ a v w. (w.0, omega (arith, w.1))) (λ e v w. (w.0, omega (arith, w.1))) (λ v w. w)
          (write_loop-Sent count blocks (suc n) args os t q))

-- How the random test may end, on a device of blocks of `size` bytes.
abbrev pub TestReport :
    ℕ → ℕ → ℕ → IoArgs → Exit LocalExit (Unit {0}) × Machine Call Reply ℤ → Type 0
TestReport count size blocks args (r, t) =
    ((size ≡ 0) × (r ≡ stop divided_by_zero) × (commands t.trace ≡ []))
    ⊎ ((0 < size)
        × RandomWrites blocks args (commands t.trace)
        × (((r ≡ done tt) × (length (commands t.trace) ≡ count))
            ⊎ ((e : LocalExit) × (r ≡ stop e) × (length (commands t.trace) ≤ count))))

report :
    (count size blocks : ℕ) (args : IoArgs) (out : Exit LocalExit (Unit {0}) × Machine Call Reply ℤ)
    → 0 < size
    → Ensures (λ _ t. Sent blocks args count t) (Short blocks args count) (λ t. ⊥) out
    → TestReport count size blocks args out
report count size blocks args (done tt, t) some h = inr (some, h.0, inl (refl, h.1))
report count size blocks args (stop e, t) some h = inr (some, h.0, inr (e, refl, h.1))
report count size blocks args (hung, t) some h = absurd h

test_write_throughput_random-TestReport :
    (count m : ℕ) (config : DeviceConfig) (size : ℤ) (os : Os Call Reply) (s : Machine Call Reply ℤ)
    → commands s.trace ≡ []
    → let fd = (os s.clock (open_device config.name rdwr_direct)).ret in
      TestReport count config.logical_block_size config.number_of_logical_blocks
        (local_args m config fd size)
        (test_write_throughput_random count m config size os s)
unfolding test_write_throughput_random open_bdev
test_write_throughput_random-TestReport count m config size os s idle =
    let c = open_device config.name rdwr_direct in
    let args = local_args m config (os s.clock c).ret size in
    let blocks = config.number_of_logical_blocks in
    let u = after_call os c s in
    let start : Sent blocks args 0 u =
      (subst (RandomWrites blocks args) (sym idle) tt, ap (λ cs. length cs) idle) in
    if_cases
      (λ (k : LocalProg (Unit {0})).
        TestReport count config.logical_block_size blocks args
          ((k >> write_loop count blocks args) os u))
      (config.logical_block_size == 0) (return_now divided_by_zero) (pure tt)
      (λ none. inl (ground arith, refl, idle))
      (λ some.
        report count config.logical_block_size blocks args (write_loop count blocks args os u)
          (ground arith)
          (Ensures-mono (λ _ t. Sent blocks args (0 + count) t) (λ _ t. Sent blocks args count t)
            (Short blocks args (0 + count)) (Short blocks args count) (λ t. ⊥) (λ t. ⊥)
            (write_loop count blocks args os u) (λ a t q. (q.0, omega (arith, q.1)))
            (λ e t q. (q.0, omega (arith, q.1))) (λ t q. q)
            (write_loop-Sent count blocks 0 args os u start)))

init_device_config-commands :
    (literal : ℕ) (os : Os Call Reply) (s : Machine Call Reply DeviceConfig)
    → commands (init_device_config literal os s).1.trace ≡ commands s.trace
unfolding init_device_config
init_device_config-commands literal os s = ground arith

-- The random test that `main` runs ends, whatever init_device_config found out of the device. Where
-- it left a block size of 0, the test divides by it and sends nothing. Otherwise it sends only
-- writes of the size of the options, rounded to blocks, that begin at a block below the
-- magnitude of the number of blocks as an `int`: exactly `count` of them, or at most as many when it
-- ends early.
pub main-TestReport :
    (count m literal argc : ℕ) (arg : ℤ) (config : DeviceConfig) (os : Os Call Reply)
    → let t = (init_device_config literal os (boot config)).1 in
      let fd = (os t.clock (open_device t.mem.name rdwr_direct)).ret in
      TestReport count t.mem.logical_block_size t.mem.number_of_logical_blocks
        (local_args m t.mem fd (data_size_of argc arg t.mem))
        (main count m literal argc arg os (boot config))
unfolding main
main-TestReport count m literal argc arg config os =
    let t = (init_device_config literal os (boot config)).1 in
    test_write_throughput_random-TestReport count m t.mem (data_size_of argc arg t.mem) os
      (record { clock = t.clock; trace = t.trace; mem = pos 0 })
      (init_device_config-commands literal os (boot config))
