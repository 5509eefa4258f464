-- ===== src/Names/Decimal.antt =====
-- std::to_string of a number that is not negative, and the number that a text of digits stands for.
use nvmeof_project.Prelude.{
  ℕ, zero, suc, ◌+◌, ◌-◌, ◌*◌, ◌/◌, ◌%◌, ◌<◌, ltb, if◌then◌else◌, if_cases, ◌≡◌, refl, ap, ◌∙◌,
  List, [], ◌∷◌, ◌++◌, arith,
}

-- The last digits of `n`, as many as the fuel allows.
unfoldable pub digits : ℕ → ℕ → List ℕ
digits zero n = []
digits (suc fuel) n =
    let first = digits fuel (n / 10) in
    if ltb n 10 then (b'0' + n) ∷ [] else first ++ ((b'0' + n % 10) ∷ [])

-- A number has fewer digits than one more than itself.
unfoldable pub to_string : ℕ → List ℕ
unfolding digits
to_string n = digits (suc n) n

abbrev pub value_from : ℕ → List ℕ → ℕ
value_from n [] = n
value_from n (c ∷ cs) = value_from (10 * n + (c - b'0')) cs

abbrev pub number_of : List ℕ → ℕ
number_of cs = value_from 0 cs

value_from-append :
    (n : ℕ) (xs ys : List ℕ) → value_from n (xs ++ ys) ≡ value_from (value_from n xs) ys
value_from-append n [] ys = refl
value_from-append n (x ∷ xs) ys = value_from-append (10 * n + (x - b'0')) xs ys

value_from-digits : (fuel n : ℕ) → n < fuel → value_from 0 (digits fuel n) ≡ n
unfolding digits
value_from-digits zero n h = absurd (omega arith)
value_from-digits (suc fuel) n h =
    if_cases (λ t. value_from 0 t ≡ n) (ltb n 10) ((b'0' + n) ∷ [])
      (digits fuel (n / 10) ++ ((b'0' + n % 10) ∷ [])) (λ small. omega arith)
      (λ big.
        let some : 0 < n = ground arith in
        value_from-append 0 (digits fuel (n / 10)) ((b'0' + n % 10) ∷ [])
        ∙ ap (λ k. value_from k ((b'0' + n % 10) ∷ []))
            (value_from-digits fuel (n / 10) (omega arith))
        ∙ omega arith)

-- The text of a number reads back as that number.
pub number_of-to_string : (n : ℕ) → number_of (to_string n) ≡ n
unfolding to_string
number_of-to_string n = value_from-digits (suc n) n (omega arith)
