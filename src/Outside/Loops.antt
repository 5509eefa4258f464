-- ===== src/Outside/Loops.antt =====
-- The rule for counted loops.
use mathlib.Core.Path.{subst}
use nvmeof_project.Prelude.{ℕ, zero, suc, ◌+◌, ◌<◌, ◌≡◌, arith}
use nvmeof_project.Outside.{Machine, Os, Prog, for_range}
use nvmeof_project.Outside.Laws.{Ensures, bind_Ensures}

module _ {C R S E : Type 0} (os : Os C R) where
  -- What each round takes from `Q k` to `Q (suc k)`, the loop takes from its first index to its last.
  pub for_range-Ensures :
      (Q : ℕ → Machine C R S → Type 0) (X : E → Machine C R S → Type 0) (H : Machine C R S → Type 0)
      (body : ℕ → Prog C R S E (Unit {0})) (n : ℕ)
      → ((k : ℕ) (t : Machine C R S)
          → k < n
          → Q k t
          → Ensures (λ _ u. Q (suc k) u) X H (body k os t))
      → (i count : ℕ) (s : Machine C R S) → i + count ≡ n
      → Q i s
      → Ensures (λ _ t. Q n t) X H (for_range body i count os s)
  unfolding for_range
  for_range-Ensures Q X H body n step i zero s e q = subst (λ k. Q k s) (omega arith) q
  for_range-Ensures Q X H body n step i (suc count) s e q =
      bind_Ensures os (λ _ u. Q (suc i) u) (λ _ t. Q n t) X H (body i)
        (λ _. for_range body (suc i) count) s (step i s (omega arith) q)
        (λ _ u q'. for_range-Ensures Q X H body n step (suc i) count u (omega arith) q')
