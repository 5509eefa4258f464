-- ===== src/Names.antt =====
-- The names of the files that src/file_rw_nvmeof.cc, src/file_initiator.cc and src/file_target.cc
-- make from a number by std::to_string, as bytes.
pub mod Decimal
use nvmeof_project.Prelude.{
  ℕ, suc, ◌≡◌, ◌==◌, ◌&&◌, Bool, true, false, sym, ap, ◌∙◌, List, [], ◌∷◌, ◌++◌, drop,
}
use Decimal.{to_string, number_of, number_of-to_string}

-- "/mnt/small-file-" + to_string(i)
abbrev pub small_prefix : List ℕ
small_prefix =
    b'/' ∷ b'm' ∷ b'n' ∷ b't' ∷ b'/' ∷ b's' ∷ b'm' ∷ b'a' ∷ b'l' ∷ b'l' ∷ b'-' ∷ b'f' ∷ b'i' ∷ b'l'
    ∷ b'e' ∷ b'-' ∷ []

unfoldable pub small_file : ℕ → List ℕ
small_file i = small_prefix ++ to_string i

-- "/mnt/small-file" + to_string(i), without the last dash
pub small_async_file : ℕ → List ℕ
small_async_file i =
    b'/'
    ∷ b'm'
    ∷ b'n'
    ∷ b't'
    ∷ b'/'
    ∷ b's'
    ∷ b'm'
    ∷ b'a'
    ∷ b'l'
    ∷ b'l'
    ∷ b'-'
    ∷ b'f'
    ∷ b'i'
    ∷ b'l'
    ∷ b'e'
    ∷ to_string i

-- "/mnt/large-file"
abbrev pub large_file : List ℕ
large_file =
    b'/' ∷ b'm' ∷ b'n' ∷ b't' ∷ b'/' ∷ b'l' ∷ b'a' ∷ b'r' ∷ b'g' ∷ b'e' ∷ b'-' ∷ b'f' ∷ b'i' ∷ b'l'
    ∷ b'e' ∷ []

-- "/mnt/large-file-" + to_string(i)
pub large_file_of : ℕ → List ℕ
large_file_of i = large_file ++ (b'-' ∷ to_string i)

-- "/mnt/large-file-" + to_string(nonce) + "-" + to_string(i)
pub large_file_of_thread : ℕ → ℕ → List ℕ
large_file_of_thread nonce i = large_file ++ (b'-' ∷ (to_string nonce ++ (b'-' ∷ to_string i)))

-- `==` of std::string.
unfoldable pub equal_text : List ℕ → List ℕ → Bool
equal_text [] [] = true
equal_text (x ∷ xs) (y ∷ ys) = x == y && equal_text xs ys
equal_text _ _ = false

-- The number of a small file is read back from its name, so the names of different numbers differ.
pub number_of-small_file : (i : ℕ) → number_of (drop 16 (small_file i)) ≡ i
unfolding small_file
number_of-small_file i = number_of-to_string i

pub small_file-injective : (i j : ℕ) → small_file i ≡ small_file j → i ≡ j
small_file-injective i j e =
    sym (number_of-small_file i) ∙ ap (λ n. number_of (drop 16 n)) e ∙ number_of-small_file j
