-- ===== src/Block/Rounding.antt =====
-- The rounding of a byte count to whole blocks in the handlers of src/net.h.
use native.Mathlib.Nat.{div-add-mod, mod-lt, mod-eq_of_lt, mul-mod_left, div-lt_iff_lt-mul}
use nvmeof_project.Prelude.{
  ℕ, suc, ◌+◌, ◌-◌, ◌*◌, ◌/◌, ◌%◌, ◌≤◌, ◌<◌, ◌≡◌, ◌∙◌, ◌==◌, ap, leb, Bool-cases, inl, inr, ◌⊎◌, ℤ,
  pos, arith,
}
use nvmeof_project.Block.{block_count, actual_len}

block_count-rem : (m lbs n : ℕ) → 0 < n % lbs → block_count m lbs (pos n) ≡ n / lbs % m
unfolding block_count
block_count-rem m lbs n h = ground arith

block_count-exact :
    (m lbs n : ℕ) → n % lbs ≡ 0 → 0 < n / lbs → block_count m lbs (pos n) ≡ (n / lbs - 1) % m
unfolding block_count
block_count-exact m lbs n h k = ground arith

pub block_count-lt : (m lbs : ℕ) (size : ℤ) → 0 < m → block_count m lbs size < m
unfolding block_count
block_count-lt m lbs size h = ground arith

-- The number of blocks that hold `n` bytes is counted without wrapping.
blocks_lem :
    (m lbs n : ℕ)
    → 0 < lbs
    → 0 < n
    → n ≤ m * lbs
    → ((0 < n % lbs) × (n / lbs < m) × (block_count m lbs (pos n) ≡ n / lbs))
      ⊎ ((n % lbs ≡ 0) × (0 < n / lbs) × (block_count m lbs (pos n) + 1 ≡ n / lbs))
blocks_lem m lbs n hl hn hm = elim (Bool-cases (n % lbs == 0)) [
  | inl exact ↦
      let zero_rest : n % lbs ≡ 0 = ground arith in
      let some_block : 0 < n / lbs = grind (arith, div-add-mod n lbs) in
      let few : n / lbs < suc m = (div-lt_iff_lt-mul hl).1 (omega arith) in
      inr (
        zero_rest,
        some_block,
        omega (
          arith,
          block_count-exact m lbs n zero_rest some_block,
          mod-eq_of_lt {n = n / lbs - 1} {m = m} (omega arith),
        ),
      )
  | inr rest ↦
      let some_rest : 0 < n % lbs = ground arith in
      let few : n / lbs < m = (div-lt_iff_lt-mul hl).1 (ground (arith, mul-mod_left m lbs)) in
      inl (some_rest, few, block_count-rem m lbs n some_rest ∙ mod-eq_of_lt few)
]

-- If `n` bytes fit into the `m` blocks that a command can name, the buffer is the least whole
-- number of blocks that holds them.
pub actual_len-rounds :
    (m lbs n : ℕ)
    → 0 < lbs
    → 0 < n
    → n ≤ m * lbs
    → (n ≤ actual_len m lbs (pos n))
      × (actual_len m lbs (pos n) < n + lbs)
      × (actual_len m lbs (pos n) % lbs ≡ 0)
unfolding actual_len
actual_len-rounds m lbs n hl hn hm =
    let rounded = mul-mod_left (block_count m lbs (pos n) + 1) lbs in
    elim (blocks_lem m lbs n hl hn hm) [
      | inl (rest, few, count) ↦
          (grind (arith, div-add-mod n lbs, mod-lt n hl), grind (arith, div-add-mod n lbs), rounded)
      | inr (exact, some, count) ↦
          (grind (arith, div-add-mod n lbs), grind (arith, div-add-mod n lbs), rounded)
    ]

actual_len-zero : (m lbs : ℕ) → 0 < m → 0 < lbs → actual_len m lbs (pos 0) ≡ m * lbs
unfolding actual_len block_count
actual_len-zero m lbs hm hl = ground arith

actual_len-le : (m lbs : ℕ) (size : ℤ) → 0 < m → actual_len m lbs size ≤ m * lbs
unfolding actual_len
actual_len-le m lbs size hm = grind (arith, block_count-lt m lbs size hm)

-- The buffer of a handler for `n` bytes, with `m` the number of blocks that a command can name. For
-- no bytes it has all `m` blocks. If `n` bytes fit in `m` blocks it is the least whole number of
-- blocks that holds them. For more it still has no more than `m` blocks.
pub actual_len_cases :
    (m lbs n : ℕ)
    → 0 < m
    → 0 < lbs
    → ((n ≡ 0) × (actual_len m lbs (pos n) ≡ m * lbs))
      ⊎ ((0 < n)
          × (n ≤ m * lbs)
          × (n ≤ actual_len m lbs (pos n))
          × (actual_len m lbs (pos n) < n + lbs)
          × (actual_len m lbs (pos n) % lbs ≡ 0))
      ⊎ ((m * lbs < n) × (actual_len m lbs (pos n) ≤ m * lbs))
actual_len_cases m lbs n hm hl = elim (Bool-cases (n == 0)) [
  | inl none ↦
      let e : n ≡ 0 = ground arith in
      inl (e, ap (λ k. actual_len m lbs (pos k)) e ∙ actual_len-zero m lbs hm hl)
  | inr some ↦
      let h : 0 < n = ground arith in
      elim (Bool-cases (leb n (m * lbs))) [
        | inl fits ↦
            let le : n ≤ m * lbs = ground arith in
            let rounds = actual_len-rounds m lbs n hl h le in
            inr (inl (h, le, rounds.0, rounds.1, rounds.2))
        | inr long ↦ inr (inr (ground arith, actual_len-le m lbs (pos n) hm))
      ]
]
