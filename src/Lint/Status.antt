-- ===== src/Lint/Status.antt =====
-- How `main` of tools/ownedc_lint.c ends.
use owned_c.Base.{ℕ, ◌≡◌, refl, ◌⊎◌, inl, inr, Option, List, ◌∷◌, ltb, if◌then◌else◌}
use owned_c.Lint.Text.{Bytes}
use owned_c.Lint.Line.{Report, Checked, ok, undefined, out_of_fuel}
use owned_c.Lint.File.{main}
use owned_c.Lint.Fuel.{main_ends}
use owned_c.Lint.Counts.{is_error, count, main-StatusSays}

Checked-cases :
    {A : Type 0} (m : Checked A) → (m ≡ undefined) ⊎ ((a : A) × (m ≡ ok a)) ⊎ (m ≡ out_of_fuel)
Checked-cases (ok a) = inr (inl (a, refl))
Checked-cases undefined = inl refl
Checked-cases out_of_fuel = inr (inr refl)

-- On at least one file the linter either reads in front of a line, which is undefined, or it ends: with
-- status 1 if it has printed an error, and with status 0 if it has not.
pub main_lem :
    (program : Bytes) (f : Bytes × Option Bytes) (fs : List (Bytes × Option Bytes))
    → (main program (f ∷ fs) ≡ undefined)
      ⊎ ((code : ℕ) × (printed : List Report) × (main program (f ∷ fs) ≡ ok (code, printed))
          × (code ≡ (if ltb 0 (count is_error printed) then 1 else 0)))
main_lem program f fs = elim (Checked-cases (main program (f ∷ fs))) [
  | inl e ↦ inl e
  | inr (inl ((code, printed), e)) ↦ inr (code, printed, e, main-StatusSays program f fs e)
  | inr (inr e) ↦ absurd (main_ends program (f ∷ fs) e)
]
