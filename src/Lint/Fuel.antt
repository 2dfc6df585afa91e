-- ===== src/Lint/Fuel.antt =====
-- The linter ends: the search for names takes fewer rounds than the line has bytes.
use owned_c.Base.{
  ℕ, zero, suc, ◌+◌, ◌-◌, ◌≤◌, ◌<◌, ◌≡◌, ◌≢◌, Bool, true, false, Option, none, some, List, [], ◌∷◌,
  arith, ◌==◌, if◌then◌else◌, inl, inr, Bool-cases, length, Option-cases, ltb,
}
use owned_c.Lint.Text.{
  Bytes, codes, drop, starts_with, strstr, strchr, extract_identifier, preprocess_line,
}
use owned_c.Lint.Line.{
  Lint, Checked, ok, undefined, out_of_fuel, ◌>>=◌, names_of, in_body, lint_line, enter_function,
  find_func, func_name, enters, enter_if, body_if, counted_line,
}
use owned_c.Lint.File.{
  lint_lines, lint_file, lint_files, main, begin, opened, fgets_all, c_string, max_line_len,
}

length-drop : (n : ℕ) (cs : Bytes) → length (drop n cs) ≤ length cs
length-drop zero cs = omega arith
length-drop (suc n) [] = omega arith
length-drop (suc n) (c ∷ cs) = omega (arith, length-drop n cs)

-- What is found stands in the text that was searched.
length-strstr :
    (before p word : Bytes) {a q : Bytes} → strstr before p word ≡ some (a, q) → length q ≤ length p
unfolding strstr
length-strstr before [] word e = ground arith
length-strstr before (c ∷ cs) word e = elim (Bool-cases (starts_with word (c ∷ cs))) [
  | inl w ↦ ground arith
  | inr w ↦ let sub = length-strstr (c ∷ before) cs word (rw w at e) in omega arith
]

length-strchr :
    (before p : Bytes) (x : ℕ) {a q : Bytes} → strchr before p x ≡ some (a, q) → length q ≤ length p
unfolding strchr
length-strchr before [] x e = cc
length-strchr before (c ∷ cs) x e = elim (Bool-cases (c == x)) [
  | inl w ↦ ground arith
  | inr w ↦ let sub = length-strchr (c ∷ before) cs x (rw w at e) in omega arith
]

-- With fuel for the bytes of the text the search for names ends.
pub names_of_total :
    (word : Bytes) (fuel : ℕ) (p : Bytes)
    → length p < fuel
    → (names : List Bytes) × (names_of word fuel p ≡ ok names)
unfolding names_of
names_of_total word zero p lt = absurd (omega arith)
names_of_total word (suc k) p lt = elim (Option-cases (strstr [] p word)) [
  | inl e ↦ ([], rw (e, names_of))
  | inr ((a, q), e) ↦ elim (Option-cases (strchr [] (drop (length word) q) b'(')) [
    | inl f ↦ ([], rw (e, names_of, f))
    | inr ((b, []), f) ↦ ([], rw (e, names_of, f))
    | inr ((b, x ∷ r), f) ↦
        let (names, run) = names_of_total word k r (
          omega (
            arith,
            length-strstr [] p word e,
            length-drop (length word) q,
            length-strchr [] (drop (length word) q) b'(' f,
          )) in
        (
          if ltb 0 (length (extract_identifier r)) then extract_identifier r ∷ names else names,
          rw (e, names_of, f, run),
        )
  ]
]

-- A step that does not run out of fuel.
Ends : {A : Type 0} → Checked A → Type 0
Ends (ok a) = Unit {0}
Ends undefined = Unit {0}
Ends out_of_fuel = ⊥

Ends-bind :
    {A B : Type 0} (m : Checked A) (f : A → Checked B)
    → Ends m
    → ((a : A) → Ends (f a))
    → Ends (m >>= f)
unfolding Ends
Ends-bind (ok a) f e all = all a
Ends-bind undefined f e all = tt
Ends-bind out_of_fuel f e all = e

in_body-Ends : (f clean : Bytes) (l : Lint) → Ends (in_body f clean l)
unfolding Ends in_body
in_body-Ends f clean l =
    let (frees, e) = names_of_total (codes "owner_free") (length clean + 1) clean (omega arith) in
    let (borrows, g) =
      names_of_total (codes "ownership_borrow") (length clean + 1) clean (omega arith) in
    rw (e, g) tt

func_name-Ends : (before : Bytes) → Ends (func_name before)
unfolding Ends func_name
func_name-Ends [] = tt
func_name-Ends (c ∷ cs) = tt

find_func-Ends : (clean prev : Bytes) → Ends (find_func clean prev)
unfolding Ends find_func
find_func-Ends clean prev = elim (Option-cases (strchr [] clean b'(')) [
  | inr ((a, q), e) ↦ rw (e, find_func) (func_name-Ends a)
  | inl e ↦ elim (Option-cases (strchr [] prev b'(')) [
    | inl f ↦ rw (e, find_func, f) tt
    | inr ((a, q), f) ↦ rw (e, find_func, f) (func_name-Ends a)
  ]
]

enter_function-Ends : (clean : Bytes) (l : Lint) → Ends (enter_function clean l)
unfolding Ends enter_function
enter_function-Ends clean l =
    Ends-bind (find_func clean l.prev_line) _ (find_func-Ends clean l.prev_line) (λ n. tt)

Ends-if : {A : Type 0} (b : Bool) (m : Checked A) (a : A) → Ends m → Ends (if b then m else ok a)
unfolding Ends
Ends-if true m a e = e
Ends-if false m a e = tt

lint_line-Ends : (f raw : Bytes) (l : Lint) → Ends (lint_line f raw l)
unfolding Ends lint_line
lint_line-Ends f raw l =
    let (clean, in_block) = preprocess_line raw l.in_block_comment in
    let start = counted_line f clean in_block l in
    Ends-bind (enter_if l.nesting_level clean start) _
      (Ends-if (enters l.nesting_level start) (enter_function clean start) start
        (enter_function-Ends clean start))
      (λ l₁.
        Ends-bind (body_if f clean l₁) _
          (Ends-if l₁.in_function (in_body f clean l₁) l₁ (in_body-Ends f clean l₁)) (λ l₂. tt))

lint_lines-Ends : (f : Bytes) (lines : List Bytes) (l : Lint) → Ends (lint_lines f lines l)
unfolding Ends lint_lines
lint_lines-Ends f [] l = tt
lint_lines-Ends f (line ∷ lines) l =
    Ends-bind (lint_line f (c_string line) l) _ (lint_line-Ends f (c_string line) l)
      (λ l'. lint_lines-Ends f lines l')

lint_file-Ends :
    (f : Bytes) (content : Option Bytes) (e w : ℕ) (l : Lint) → Ends (lint_file f content e w l)
unfolding Ends lint_file
lint_file-Ends f none e w l = tt
lint_file-Ends f (some content) e w l =
    Ends-bind (lint_lines f (fgets_all (max_line_len - 1) content) (opened f l)) _
      (lint_lines-Ends f (fgets_all (max_line_len - 1) content) (opened f l)) (λ l'. tt)

lint_files-Ends :
    (fs : List (Bytes × Option Bytes)) (e w : ℕ) (l : Lint) → Ends (lint_files fs e w l)
unfolding Ends lint_files
lint_files-Ends [] e w l = tt
lint_files-Ends ((f, content) ∷ fs) e w l =
    Ends-bind (lint_file f content e w l) _ (lint_file-Ends f content e w l)
      (λ (a, b, c). lint_files-Ends fs a b c)

-- The linter ends on every list of files: the fuel of its searches is never used up.
pub main_ends : (program : Bytes) (fs : List (Bytes × Option Bytes)) → main program fs ≢ out_of_fuel
unfolding Ends main
main_ends program [] e = cc
main_ends program (f ∷ fs) e =
    let ends : Ends (main program (f ∷ fs)) =
      Ends-bind (lint_files (f ∷ fs) 0 0 begin) _ (lint_files-Ends (f ∷ fs) 0 0 begin)
        (λ (a, b, c). tt) in
    rw e at ends
