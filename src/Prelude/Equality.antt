-- ===== src/Prelude/Equality.antt =====
-- Boolean equality of byte strings, and membership in a list of names.
use mathlib.Core.Path.{◌≡◌, refl}
use mathlib.Core.Logic.{◌↔◌, ◌⊎◌, inl, inr}
use mathlib.Core.Bool.{Bool, true, false, ◌&&◌, ◌||◌}
use mathlib.Core.List.{List, [], ◌∷◌}
use native.Mathlib.Omega.{arith}
use Prim.Native.Nat.{ℕ}
use Prim.Native.String.{String}
use text.Mathlib.Text.{◌==◌ as str_eq}
use text.Mathlib.TextEquality.{eq_iff as str_eq_iff}
use avro.Prelude.Tests.{◌==◌, Bool-cases}

-- `bytes.Equal`.
unfoldable pub bytes_equal : List ℕ → List ℕ → Bool
bytes_equal [] [] = true
bytes_equal [] (y ∷ ys) = false
bytes_equal (x ∷ xs) [] = false
bytes_equal (x ∷ xs) (y ∷ ys) = x == y && bytes_equal xs ys

pub bytes_equal_refl : (xs : List ℕ) → bytes_equal xs xs ≡ true
unfolding bytes_equal
bytes_equal_refl [] = refl
bytes_equal_refl (x ∷ xs) = ground (arith, bytes_equal_refl xs)

pub bytes_equal→≡ : (xs ys : List ℕ) → bytes_equal xs ys ≡ true → xs ≡ ys
unfolding bytes_equal
bytes_equal→≡ [] [] h = refl
bytes_equal→≡ [] (y ∷ ys) h = absurd (ground arith)
bytes_equal→≡ (x ∷ xs) [] h = absurd (ground arith)
bytes_equal→≡ (x ∷ xs) (y ∷ ys) h = ground (arith, bytes_equal→≡ xs ys)

-- `slices.Contains`.
unfoldable pub contains : List String → String → Bool
contains [] name = false
contains (n ∷ ns) name = str_eq n name || contains ns name

abbrev pub IsIn : {A : Type 0} → A → List A → Type 0
IsIn x [] = ⊥
IsIn x (y ∷ ys) = (y ≡ x) ⊎ IsIn x ys

pub contains_iff :
    (names : List String) (name : String) → (contains names name ≡ true) ↔ IsIn name names
unfolding contains
contains_iff [] name = (λ h. absurd (ground arith), λ h. absurd h)
contains_iff (n ∷ ns) name = (
  λ h. elim (Bool-cases (str_eq n name)) [
    | inl same ↦ inl ((str_eq_iff n name).0 same)
    | inr other ↦ inr ((contains_iff ns name).0 (ground (arith, other)))
  ],
  λ h. elim h [
    | inl same ↦ ground (arith, (str_eq_iff n name).1 same)
    | inr later ↦ elim (Bool-cases (str_eq n name)) [
      | inl same ↦ ground (arith, same)
      | inr other ↦ ground (arith, other, (contains_iff ns name).1 later)
    ]
  ],
)
