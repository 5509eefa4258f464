-- ===== src/Outside/Keeps.antt =====
-- Programs that keep a property of the machine, each together with its proof: a proof about a
-- function is built the way the function is, and computes to its code.
use nvmeof_project.Prelude.{
  suc, Bool, if◌then◌else◌, if_cases, Option, none, some, option_cases, ◌∷◌,
}
use nvmeof_project.Outside.{Machine, Os, Prog, call, pure, return_now, modify, get, function, ◌>>=◌}
use nvmeof_project.Outside.Laws.{Ensures, bind_Ensures, function-Ensures}

-- The machine after an outside call.
abbrev pub after_call : {C R S : Type 0} → Os C R → C → Machine C R S → Machine C R S
after_call os c s = record s { clock = suc s.clock; trace = (c, os s.clock c) ∷ s.trace }

-- What is kept while the code falls through, and what holds at an early return and where the fuel
-- ran out.
pub record Contract (C R S E : Type 0) : Type 1 where
  pub os : Os C R
  pub here : Machine C R S → Type 0
  pub returned : E → Machine C R S → Type 0
  pub no_fuel : Machine C R S → Type 0

-- The contract of a function that is called: its early returns are results.
abbrev pub callee : {C R S E : Type 0} → Contract C R S E → (A : Type 0) → Contract C R S A
callee K A = record { os = K.os; here = K.here; returned = λ _ t. K.here t; no_fuel = K.no_fuel }

module _ {C R S E : Type 0} (K : Contract C R S E) where
  abbrev pub Meets :
      {A : Type 0} → (A → Machine C R S → Type 0) → Prog C R S E A → Machine C R S → Type 0
  Meets Q m s = Ensures Q K.returned K.no_fuel (m K.os s)

  abbrev pub Keeps : {A : Type 0} → Prog C R S E A → Type 0
  Keeps m = (s : Machine C R S) → K.here s → Meets (λ _ t. K.here t) m s

  abbrev pub Kept : Type 0 → Type 0
  Kept A = (m : Prog C R S E A) × Keeps m

  abbrev pub kept_bind : {A B : Type 0} → Kept A → (A → Kept B) → Kept B
  kept_bind m f = (
    m.0 >>= λ a. (f a).0,
    λ s p.
        bind_Ensures K.os (λ _ t. K.here t) (λ _ t. K.here t) K.returned K.no_fuel m.0
          (λ a. (f a).0) s (m.1 s p) (λ a t q. (f a).1 t q),
  )

  abbrev pub kept_then : {A B : Type 0} → Kept A → Kept B → Kept B
  kept_then m k = kept_bind m (λ _. k)

  abbrev pub kept_if : {A : Type 0} → Bool → Kept A → Kept A → Kept A
  kept_if {A} b m k = (
    if b then m.0 else k.0,
    λ s p.
        if_cases (λ (n : Prog C R S E A). Meets (λ _ t. K.here t) n s) b m.0 k.0 (λ _. m.1 s p)
          (λ _. k.1 s p),
  )

  abbrev choose : {A B : Type 0} → Option B → Prog C R S E A → (B → Prog C R S E A) → Prog C R S E A
  choose c m f = elim c [ none ↦ m | some x ↦ f x ]

  abbrev pub kept_option : {A B : Type 0} → Option B → Kept A → (B → Kept A) → Kept A
  kept_option c m f = (
    choose c m.0 (λ x. (f x).0),
    λ s p.
        option_cases (λ d. Meets (λ _ t. K.here t) (choose d m.0 (λ x. (f x).0)) s) c (λ _. m.1 s p)
          (λ x _. (f x).1 s p),
  )

  abbrev pub kept_call :
      (c : C) → ((s : Machine C R S) → K.here s → K.here (after_call K.os c s)) → Kept R
  kept_call c h = (call c, h)

  abbrev pub kept_modify :
      (f : S → S)
      → ((s : Machine C R S) → K.here s → K.here (record s { mem = f s.mem }))
      → Kept (Unit {0})
  kept_modify f h = (modify f, h)

  abbrev pub kept_get : Kept S
  kept_get = (get, λ s p. p)

  abbrev pub kept_pure : {A : Type 0} → A → Kept A
  kept_pure a = (pure a, λ s p. p)

  abbrev pub kept_return :
      {A : Type 0} (e : E) → ((s : Machine C R S) → K.here s → K.returned e s) → Kept A
  kept_return e h = (return_now e, h)

-- An early return of the callee is a result of the call.
abbrev pub kept_function :
    {C R S E A : Type 0} (K : Contract C R S E) → Kept (callee K A) A → Kept K A
kept_function K m = (
  function m.0,
  λ s p. function-Ensures K.os (λ _ t. K.here t) K.returned K.no_fuel m.0 s (m.1 s p),
)
