-- ===== src/Async/Objects.antt =====
-- Counting the objects and the tags of an asynchronous server.
use nvmeof_project.Prelude.{
  ℕ, zero, suc, ◌+◌, ◌<◌, ◌≡◌, refl, ◌==◌, Bool, true, false, some, List, [], ◌∷◌, arith, ==-refl,
  if_cases,
}
use nvmeof_project.Async.{
  CallStatus, create, process, finish, CallData, find, set_status, delete, tag_at, drop_at,
}

-- One for each place where `t` stands among the tags, and among the objects' addresses.
abbrev pub one : Bool → ℕ
one true = 1
one false = 0

abbrev pub count_tag : ℕ → List ℕ → ℕ
count_tag t [] = 0
count_tag t (x ∷ xs) = one (x == t) + count_tag t xs

abbrev pub count_id : ℕ → List CallData → ℕ
count_id t [] = 0
count_id t (o ∷ os) = one (o.id == t) + count_id t os

abbrev pub status_eq : CallStatus → CallStatus → Bool
status_eq create create = true
status_eq process process = true
status_eq finish finish = true
status_eq _ _ = false

abbrev pub count_status : CallStatus → List CallData → ℕ
count_status st [] = 0
count_status st (o ∷ os) = one (status_eq o.status st) + count_status st os

pub count_tag-drop_at :
    (k t u : ℕ) (ts : List ℕ)
    → tag_at k ts ≡ some t
    → count_tag u (drop_at k ts) + one (t == u) ≡ count_tag u ts
unfolding tag_at drop_at
count_tag-drop_at k t u [] e = cc
count_tag-drop_at zero t u (x ∷ xs) e = ground arith
count_tag-drop_at (suc k) t u (x ∷ xs) e = omega (arith, count_tag-drop_at k t u xs e)

pub count_tag-tag_at : (k t : ℕ) (ts : List ℕ) → tag_at k ts ≡ some t → 0 < count_tag t ts
unfolding tag_at
count_tag-tag_at k t [] e = cc
count_tag-tag_at zero t (x ∷ xs) e = ground (arith, ==-refl t)
count_tag-tag_at (suc k) t (x ∷ xs) e = omega (arith, count_tag-tag_at k t xs e)

pub find-some :
    (t : ℕ) (os : List CallData) → 0 < count_id t os → (o : CallData) × (find t os ≡ some o)
unfolding find
find-some t [] h = absurd (omega arith)
find-some t (o ∷ os) h =
    if_cases (λ m. (x : CallData) × (m ≡ some x)) (o.id == t) (some o) (find t os) (λ e. (o, refl))
      (λ e. find-some t os (ground arith))

pub find-count_id :
    (t : ℕ) (os : List CallData) (o : CallData) → find t os ≡ some o → 0 < count_id t os
unfolding find
find-count_id t [] o e = cc
find-count_id t (x ∷ os) o e = ground (arith, find-count_id t os o)

pub count_id-set_status :
    (t u : ℕ) (st : CallStatus) (os : List CallData)
    → count_id u (set_status t st os) ≡ count_id u os
unfolding set_status
count_id-set_status t u st [] = refl
count_id-set_status t u st (o ∷ os) = ground (arith, count_id-set_status t u st os)

pub count_status-set_status :
    (t : ℕ) (st x : CallStatus) (os : List CallData) (o : CallData)
    → find t os ≡ some o
    → count_status x (set_status t st os) + one (status_eq o.status x)
      ≡ count_status x os + one (status_eq st x)
unfolding find set_status
count_status-set_status t st x [] o e = cc
count_status-set_status t st x (y ∷ os) o e = ground (arith, count_status-set_status t st x os o)

pub count_id-delete :
    (t u : ℕ) (os : List CallData) (o : CallData)
    → find t os ≡ some o
    → count_id u (delete t os) + one (t == u) ≡ count_id u os
unfolding find delete
count_id-delete t u [] o e = cc
count_id-delete t u (y ∷ os) o e = ground (arith, count_id-delete t u os o)

pub count_status-delete :
    (t : ℕ) (x : CallStatus) (os : List CallData) (o : CallData)
    → find t os ≡ some o
    → count_status x (delete t os) + one (status_eq o.status x) ≡ count_status x os
unfolding find delete
count_status-delete t x [] o e = cc
count_status-delete t x (y ∷ os) o e = ground (arith, count_status-delete t x os o)
