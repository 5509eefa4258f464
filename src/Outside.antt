-- ===== src/Outside.antt =====
-- Code that calls the operating system and libraries. Every outside call is answered by `os`, a
-- function of the number of calls made before it: the code is stated over all such functions, so
-- over every sequence of answers. A program passes on the clock, the calls made with their answers
-- (newest first) and its own memory, and ends in one of three ways.
pub mod Laws
pub mod Loops
pub mod Keeps
use nvmeof_project.Prelude.{ℕ, zero, suc, Bool, List, [], ◌∷◌, if◌then◌else◌}

pub record Machine (C R S : Type 0) : Type 0 where
  pub clock : ℕ
  pub trace : List (C × R)
  pub mem : S

-- `done` falls through to the next statement, `stop` is an early `return` (or a `goto` to an error
-- label, or a thread's exit), and `hung` means that the fuel of a loop ran out, or
-- that a thread was joined that does not end.
pub data Exit (E A : Type 0) : Type 0 where
  done : A → Exit E A
  stop : E → Exit E A
  hung : Exit E A

abbrev pub Os : Type 0 → Type 0 → Type 0
Os C R = ℕ → C → R

abbrev pub Prog : Type 0 → Type 0 → Type 0 → Type 0 → Type 0 → Type 0
Prog C R S E A = Os C R → Machine C R S → Exit E A × Machine C R S

infixl 5 ◌>>=◌ ◌>>◌
abbrev pub ◌>>=◌ : {C R S E A B : Type 0} → Prog C R S E A → (A → Prog C R S E B) → Prog C R S E B
◌>>=◌ m f os s =
    let (r, t) = m os s in elim r [ done a ↦ f a os t | stop e ↦ (stop e, t) | hung ↦ (hung, t) ]

abbrev pub ◌>>◌ : {C R S E A B : Type 0} → Prog C R S E A → Prog C R S E B → Prog C R S E B
m >> k = m >>= λ _. k

module _ {C R S E : Type 0} where
  -- An outside call.
  abbrev pub call : C → Prog C R S E R
  call c os s =
      (done (os s.clock c), record s { clock = suc s.clock; trace = (c, os s.clock c) ∷ s.trace })

  abbrev pub pure : {A : Type 0} → A → Prog C R S E A
  pure a os s = (done a, s)

  abbrev pub return_now : {A : Type 0} → E → Prog C R S E A
  return_now e os s = (stop e, s)

  -- `if (test) return e;`
  abbrev pub return_if : Bool → E → Prog C R S E (Unit {0})
  return_if test e os s = (if test then stop e else done tt, s)

  abbrev pub get : Prog C R S E S
  get os s = (done s.mem, s)

  abbrev pub modify : (S → S) → Prog C R S E (Unit {0})
  modify f os s = (done tt, record s { mem = f s.mem })

  -- The call of a function: its early returns end here.
  abbrev pub function : {A : Type 0} → Prog C R S A A → Prog C R S E A
  function body os s =
      let (r, t) = body os s in
      elim r [ done a ↦ (done a, t) | stop a ↦ (done a, t) | hung ↦ (hung, t) ]

module _ {C R S E : Type 0} where
  -- `for (int k = i; count rounds; k++) body`
  unfoldable pub for_range : (ℕ → Prog C R S E (Unit {0})) → ℕ → ℕ → Prog C R S E (Unit {0})
  for_range body i zero = pure tt
  for_range body i (suc count) = do body i; for_range body (suc i) count

-- A machine at the start.
abbrev pub boot : {C R S : Type 0} → S → Machine C R S
boot m = record { clock = 0; trace = []; mem = m }
