-- ===== src/FileClient/Files.antt =====
-- The files that a log of appended bytes leaves, as a function of their names, and the files of the
-- tests on small files.
use nvmeof_project.Prelude.{
  ℕ, zero, suc, ◌≤◌, ◌<◌, ◌==◌, ◌≡◌, refl, sym, ap, ◌∙◌, ◌⊎◌, inl, inr, true, false, Bool-cases,
  if◌then◌else◌, List, [], ◌∷◌, ◌++◌, map, append-nil, ==-refl, arith,
}
use nvmeof_project.Names.{equal_text, small_file, small_file-injective}
use nvmeof_project.FileRw.Trace.{small_files}

-- What is in the file `name` after the appends of a log, the last first.
abbrev pub bytes_of : List ℕ → List (List ℕ × List ℕ) → List ℕ
bytes_of name [] = []
bytes_of name ((file, bytes) ∷ log) =
    bytes_of name log ++ (if equal_text file name then bytes else [])

equal_text_refl : (xs : List ℕ) → equal_text xs xs ≡ true
unfolding equal_text
equal_text_refl [] = refl
equal_text_refl (x ∷ xs) = ground (arith, ==-refl x, equal_text_refl xs)

equal_text_sound : (xs ys : List ℕ) → equal_text xs ys ≡ true → xs ≡ ys
unfolding equal_text
equal_text_sound [] [] e = refl
equal_text_sound [] (y ∷ ys) e = cc
equal_text_sound (x ∷ xs) [] e = cc
equal_text_sound (x ∷ xs) (y ∷ ys) e = ground (arith, equal_text_sound xs ys)

later_number : (n i : ℕ) → n ≤ i → equal_text (small_file n) (small_file i) ≡ false → suc n ≤ i
later_number n i le other = elim (Bool-cases (n == i)) [
  | inl e ↦
      let same : n ≡ i = ground arith in
      let clash : true ≡ false =
        sym (equal_text_refl (small_file n))
        ∙ ap (λ k. equal_text (small_file n) (small_file k)) same
        ∙ other in
      cc
  | inr ne ↦ ground arith
]

-- The log of a test that appends `d` to each of its files.
abbrev pub small_log : List ℕ → ℕ → List (List ℕ × List ℕ)
small_log d n = map (λ name. (name, d)) (small_files n)

-- The first `n` files have `d` each, and there are no others.
abbrev pub HasSmallFiles : List ℕ → ℕ → ℕ → List (List ℕ × List ℕ) → Type 0
HasSmallFiles d n i log =
    ((i < n) × (bytes_of (small_file i) log ≡ d)) ⊎ ((n ≤ i) × (bytes_of (small_file i) log ≡ []))

pub small_log-HasSmallFiles : (d : List ℕ) (n i : ℕ) → HasSmallFiles d n i (small_log d n)
small_log-HasSmallFiles d zero i = inr (omega arith, refl)
small_log-HasSmallFiles d (suc n) i =
    let old = bytes_of (small_file i) (small_log d n) in
    elim (Bool-cases (equal_text (small_file n) (small_file i))) [
      | inl same ↦
          let e : n ≡ i =
            small_file-injective n i (equal_text_sound (small_file n) (small_file i) same) in
          elim (small_log-HasSmallFiles d n i) [
            | inl (lt, _) ↦ absurd (omega arith)
            | inr (le, none) ↦
                inl
                  (omega arith, ap (λ b. old ++ (if b then d else [])) same ∙ ap (λ x. x ++ d) none)
          ]
      | inr other ↦
          let keep : bytes_of (small_file i) (small_log d (suc n)) ≡ old =
            ap (λ b. old ++ (if b then d else [])) other ∙ append-nil old in
          elim (small_log-HasSmallFiles d n i) [
            | inl (lt, e) ↦ inl (omega arith, keep ∙ e)
            | inr (le, e) ↦ inr (later_number n i le other, keep ∙ e)
          ]
    ]
