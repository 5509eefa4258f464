-- ===== src/Outside/Laws.antt =====
-- Reasoning about a sequence of statements by how the first one ends.
use mathlib.Core.Path.{subst}
use nvmeof_project.Prelude.{◌≡◌, refl}
use nvmeof_project.Outside.{Machine, Exit, Os, Prog, done, stop, hung, function, ◌>>=◌}

module _ {C R S E A B : Type 0} where
  -- How `m >>= f` ends, by how `m` ends.
  abbrev pub after_bind :
      (A → Prog C R S E B) → Os C R → Exit E A × Machine C R S → Exit E B × Machine C R S
  after_bind f os (r, t) = elim r [ done a ↦ f a os t | stop e ↦ (stop e, t) | hung ↦ (hung, t) ]

  -- What holds of `m >>= f` is shown for each way in which `m` ends.
  pub bind_cases :
      (P : Exit E B × Machine C R S → Type 0) (m : Prog C R S E A) (f : A → Prog C R S E B)
      (os : Os C R) (s : Machine C R S)
      → ((a : A) (t : Machine C R S) → m os s ≡ (done a, t) → P (f a os t))
      → ((e : E) (t : Machine C R S) → m os s ≡ (stop e, t) → P (stop e, t))
      → ((t : Machine C R S) → m os s ≡ (hung, t) → P (hung, t))
      → P ((m >>= f) os s)
  bind_cases P m f os s d st h = go (m os s) refl
    where
      go : (out : Exit E A × Machine C R S) → m os s ≡ out → P (after_bind f os out)
      go (done a, t) e = d a t e
      go (stop x, t) e = st x t e
      go (hung, t) e = h t e

module _ {C R S A B : Type 0} where
  -- What holds of a function's result, said of the way in which its body ends.
  abbrev pub Returned : (Exit B A × Machine C R S → Type 0) → Exit A A × Machine C R S → Type 0
  Returned P (done a, t) = P (done a, t)
  Returned P (stop a, t) = P (done a, t)
  Returned P (hung, t) = P (hung, t)

  pub function_lem :
      (P : Exit B A × Machine C R S → Type 0) (m : Prog C R S A A) (os : Os C R) (s : Machine C R S)
      → Returned P (m os s)
      → P (function m os s)
  function_lem P m os s h = go (m os s) h
    where
      go :
          (out : Exit A A × Machine C R S)
          → Returned P out
          → P (elim out.0 [
            | done a ↦ (done a, out.1)
            | stop a ↦ (done a, out.1)
            | hung ↦ (hung, out.1)
          ])
      go (done a, t) k = k
      go (stop a, t) k = k
      go (hung, t) k = k

-- What holds when code ends: `Q` of its result and the machine, `B` after an early return, `H` if
-- the fuel ran out.
abbrev pub Ensures :
    {C R S E A : Type 0}
    → (A → Machine C R S → Type 0)
    → (E → Machine C R S → Type 0)
    → (Machine C R S → Type 0)
    → Exit E A × Machine C R S
    → Type 0
Ensures Q B H (done a, t) = Q a t
Ensures Q B H (stop e, t) = B e t
Ensures Q B H (hung, t) = H t

module _ {C R S E A B : Type 0} (os : Os C R) where
  pub bind_Ensures :
      (Q : A → Machine C R S → Type 0) (P : B → Machine C R S → Type 0)
      (X : E → Machine C R S → Type 0) (H : Machine C R S → Type 0) (m : Prog C R S E A)
      (f : A → Prog C R S E B) (s : Machine C R S)
      → Ensures Q X H (m os s)
      → ((a : A) (t : Machine C R S) → Q a t → Ensures P X H (f a os t))
      → Ensures P X H ((m >>= f) os s)
  bind_Ensures Q P X H m f s h k =
      bind_cases (Ensures P X H) m f os s (λ a t e. k a t (subst (Ensures Q X H) e h))
        (λ x t e. subst (Ensures Q X H) e h) (λ t e. subst (Ensures Q X H) e h)

module _ {C R S E A : Type 0} where
  -- A weaker conclusion.
  pub Ensures-mono :
      (Q Q' : A → Machine C R S → Type 0) (X X' : E → Machine C R S → Type 0)
      (H H' : Machine C R S → Type 0) (out : Exit E A × Machine C R S)
      → ((a : A) (t : Machine C R S) → Q a t → Q' a t)
      → ((e : E) (t : Machine C R S) → X e t → X' e t)
      → ((t : Machine C R S) → H t → H' t)
      → Ensures Q X H out
      → Ensures Q' X' H' out
  Ensures-mono Q Q' X X' H H' (done a, t) f g h k = f a t k
  Ensures-mono Q Q' X X' H H' (stop e, t) f g h k = g e t k
  Ensures-mono Q Q' X X' H H' (hung, t) f g h k = h t k

module _ {C R S E A : Type 0} (os : Os C R) where
  -- An early return of the callee is a result of the call.
  pub function-Ensures :
      (Q : A → Machine C R S → Type 0) (X : E → Machine C R S → Type 0) (H : Machine C R S → Type 0)
      (m : Prog C R S A A) (s : Machine C R S)
      → Ensures Q Q H (m os s)
      → Ensures Q X H (function m os s)
  function-Ensures Q X H m s h = go (m os s) h
    where
      go :
          (out : Exit A A × Machine C R S)
          → Ensures Q Q H out
          → Ensures {E = E} Q X H (elim out.0 [
            | done a ↦ (done a, out.1)
            | stop a ↦ (done a, out.1)
            | hung ↦ (hung, out.1)
          ])
      go (done a, t) k = k
      go (stop a, t) k = k
      go (hung, t) k = k

module _ {C R S E A : Type 0} where
  -- A weaker conclusion of the early returns alone.
  pub Ensures-fails :
      (Q : A → Machine C R S → Type 0) (X X' : E → Machine C R S → Type 0)
      (H : Machine C R S → Type 0) (out : Exit E A × Machine C R S)
      → ((e : E) (t : Machine C R S) → X e t → X' e t)
      → Ensures Q X H out
      → Ensures Q X' H out
  Ensures-fails Q X X' H out f h = Ensures-mono Q Q X X' H H out (λ a t q. q) f (λ t q. q) h

  -- Two conclusions at once.
  pub Ensures-both :
      (Q Q' : A → Machine C R S → Type 0) (X X' : E → Machine C R S → Type 0)
      (H H' : Machine C R S → Type 0) (out : Exit E A × Machine C R S)
      → Ensures Q X H out
      → Ensures Q' X' H' out
      → Ensures (λ a t. Q a t × Q' a t) (λ e t. X e t × X' e t) (λ t. H t × H' t) out
  Ensures-both Q Q' X X' H H' (done a, t) h k = (h, k)
  Ensures-both Q Q' X X' H H' (stop e, t) h k = (h, k)
  Ensures-both Q Q' X X' H H' (hung, t) h k = (h, k)
