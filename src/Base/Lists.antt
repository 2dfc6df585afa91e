-- ===== src/Base/Lists.antt =====
-- Lists measured and indexed by native numbers, and Boolean membership of numbers.
use Prim.Native.Nat.{ℕ, zero, suc, ◌+◌, ◌≤◌, ◌<◌}
use mathlib.Core.Path.{◌∙◌, ◌≡◌, refl, ap}
use mathlib.Core.Bool.{Bool, true, false, ◌||◌}
use mathlib.Core.List.{List, [], ◌∷◌, ◌++◌}
use mathlib.Core.Option.{Option, none, some}
use native.Mathlib.Omega.{arith}
use owned_c.Base.Tests.{◌==◌}

module _ {ℓ} {A : Type ℓ} where
  abbrev pub length : List A → ℕ
  length [] = 0
  length (x ∷ xs) = suc (length xs)

  abbrev pub get_elem? : List A → ℕ → Option A
  get_elem? [] i = none
  get_elem? (x ∷ xs) zero = some x
  get_elem? (x ∷ xs) (suc i) = get_elem? xs i

  abbrev pub set : List A → ℕ → A → List A
  set [] i v = []
  set (x ∷ xs) zero v = v ∷ xs
  set (x ∷ xs) (suc i) v = x ∷ set xs i v

  pub length-append : (xs ys : List A) → length (xs ++ ys) ≡ length xs + length ys
  length-append [] ys = omega arith
  length-append (x ∷ xs) ys = omega (arith, length-append xs ys)

-- Membership of an address in a list of addresses.
abbrev pub has : ℕ → List ℕ → Bool
has a [] = false
has a (x ∷ xs) = (a == x) || has a xs

infix 40 ◌∈◌ ◌∉◌
abbrev pub ◌∈◌ : ℕ → List ℕ → Type 0
a ∈ xs = has a xs ≡ true

abbrev pub ◌∉◌ : ℕ → List ℕ → Type 0
a ∉ xs = has a xs ≡ false

-- A predicate of every element.
abbrev pub All {ℓ κ} : {A : Type ℓ} → (A → Type κ) → List A → Type κ
All P [] = Unit
All P (x ∷ xs) = P x × All P xs

pub has-append : (a : ℕ) (xs ys : List ℕ) → has a (xs ++ ys) ≡ (has a xs || has a ys)
has-append a [] ys = refl
has-append a (x ∷ xs) ys = ground (arith, has-append a xs ys)

module _ {ℓ} {A : Type ℓ} where
  -- A list without the element at an index.
  abbrev pub remove_at : List A → ℕ → List A
  remove_at [] i = []
  remove_at (x ∷ xs) zero = xs
  remove_at (x ∷ xs) (suc i) = x ∷ remove_at xs i

  pub get_elem?-inside : (xs : List A) (i : ℕ) → i < length xs → (x : A) × (get_elem? xs i ≡ some x)
  get_elem?-inside [] i lt = ground arith
  get_elem?-inside (x ∷ xs) zero lt = (x, refl)
  get_elem?-inside (x ∷ xs) (suc i) lt = get_elem?-inside xs i (omega arith)

  pub get_elem?-append_before :
      (xs ys : List A) (i : ℕ) → i < length xs → get_elem? (xs ++ ys) i ≡ get_elem? xs i
  get_elem?-append_before [] ys i lt = ground arith
  get_elem?-append_before (x ∷ xs) ys zero lt = refl
  get_elem?-append_before (x ∷ xs) ys (suc i) lt = get_elem?-append_before xs ys i (omega arith)

  pub get_elem?-append_behind :
      (xs ys : List A) (j : ℕ) → get_elem? (xs ++ ys) (length xs + j) ≡ get_elem? ys j
  get_elem?-append_behind [] ys j = ap (get_elem? ys) (omega arith)
  get_elem?-append_behind (x ∷ xs) ys j =
      let e : length (x ∷ xs) + j ≡ suc (length xs + j) = omega arith in
      ap (get_elem? (x ∷ xs ++ ys)) e ∙ get_elem?-append_behind xs ys j

  pub get_elem?-append_last : (xs : List A) (x : A) → get_elem? (xs ++ x ∷ []) (length xs) ≡ some x
  get_elem?-append_last [] x = refl
  get_elem?-append_last (y ∷ ys) x = get_elem?-append_last ys x

  pub length-remove_at :
      (xs : List A) (i : ℕ) → i < length xs → length xs ≡ suc (length (remove_at xs i))
  length-remove_at [] i lt = ground arith
  length-remove_at (x ∷ xs) zero lt = refl
  length-remove_at (x ∷ xs) (suc i) lt = ap suc (length-remove_at xs i (omega arith))

  pub get_elem?-remove_at_before :
      (xs : List A) (i j : ℕ) → j < i → get_elem? (remove_at xs i) j ≡ get_elem? xs j
  get_elem?-remove_at_before [] i j lt = refl
  get_elem?-remove_at_before (x ∷ xs) zero j lt = ground arith
  get_elem?-remove_at_before (x ∷ xs) (suc i) zero lt = refl
  get_elem?-remove_at_before (x ∷ xs) (suc i) (suc j) lt =
      get_elem?-remove_at_before xs i j (omega arith)

  pub get_elem?-remove_at_behind :
      (xs : List A) (i j : ℕ) → i ≤ j → get_elem? (remove_at xs i) j ≡ get_elem? xs (suc j)
  get_elem?-remove_at_behind [] i j le = refl
  get_elem?-remove_at_behind (x ∷ xs) zero j le = refl
  get_elem?-remove_at_behind (x ∷ xs) (suc i) zero le = ground arith
  get_elem?-remove_at_behind (x ∷ xs) (suc i) (suc j) le =
      get_elem?-remove_at_behind xs i j (omega arith)

  pub get_elem?-outside : (xs : List A) (i : ℕ) → length xs ≤ i → get_elem? xs i ≡ none
  get_elem?-outside [] i le = refl
  get_elem?-outside (x ∷ xs) zero le = ground arith
  get_elem?-outside (x ∷ xs) (suc i) le = get_elem?-outside xs i (omega arith)
