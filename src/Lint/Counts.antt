-- ===== src/Lint/Counts.antt =====
-- The linter counts the errors and the warnings that it prints, and its exit status says whether there
-- was an error.
use owned_c.Base.{
  ℕ, ◌+◌, ◌-◌, ◌≡◌, refl, ap, sym, ◌∙◌, ℤ, is_zero, Bool, true, false, Option, none, some, List, [],
  ◌∷◌, ◌++◌, arith, ltb, ◌&&◌, inl, inr, Option-cases, if◌then◌else◌, length,
}
use owned_c.Lint.Text.{
  Bytes, max_var_name, codes, preprocess_line, malloc_word, calloc_word, realloc_word, free_word,
  is_word, is_raw_alloc_free, strstr, extract_identifier, skip_spaces, drop,
}
use owned_c.Lint.Vars.{TrackedVar, add_tracked_var, mark_returned, mark_freed, check_borrow, leaked}
use owned_c.Lint.Line.{
  Report, raw_use, raw_free, manual_free, double_free, use_after_free, memory_leak, could_not_open,
  linting, Lint, Checked, ok, undefined, out_of_fuel, ◌>>=◌, error, warning, raw_warning, check_raw,
  scan_raw, find_func, enter_function, find_alloc, has_owned, back_to_eq, name_before, track_target,
  check_alloc, names_of, free_one, borrow_one, free_each, borrow_each, check_return, in_body,
  leak_each, exit_function, ends_openly, enters, enter_if, body_if, counted_line, lint_line,
}
use owned_c.Lint.File.{
  lint_lines, lint_file, lint_files, main, begin, opened, closing, fgets_all, c_string,
  max_line_len,
}

abbrev pub is_error : Report → Bool
is_error (raw_free _ _ _) = true
is_error (double_free _ _ _ _) = true
is_error (use_after_free _ _ _ _) = true
is_error (memory_leak _ _ _ _ _) = true
is_error (could_not_open _) = true
is_error _ = false

abbrev pub is_warning : Report → Bool
is_warning (raw_use _ _ _ _) = true
is_warning (manual_free _ _ _) = true
is_warning _ = false

-- How many of the reports are of a kind.
abbrev pub count : (Report → Bool) → List Report → ℕ
count p [] = 0
count p (r ∷ rs) = (if p r then 1 else 0) + count p rs

count-concat :
    (p : Report → Bool) (rs : List Report) (r : Report)
    → count p (rs ++ r ∷ []) ≡ count p rs + (if p r then 1 else 0)
count-concat p [] r = omega arith
count-concat p (x ∷ xs) r = omega (arith, count-concat p xs r)

-- The errors and warnings printed so far are those of the files before and those counted here.
record IsCounted (errors warnings : ℕ) (l : Lint) : Type 0 where
  pub error_count : count is_error l.output ≡ errors + l.local_errors
  pub warning_count : count is_warning l.output ≡ warnings + l.local_warnings

-- Where a step returns, what holds of the state that it returns.
Holds : {A : Type 0} → (A → Type 0) → Checked A → Type 0
Holds P (ok a) = P a
Holds P undefined = Unit {0}
Holds P out_of_fuel = Unit {0}

Holds-bind :
    {A B : Type 0} (P : A → Type 0) (Q : B → Type 0) (m : Checked A) (f : A → Checked B)
    → Holds P m
    → ((a : A) → P a → Holds Q (f a))
    → Holds Q (m >>= f)
unfolding Holds
Holds-bind P Q (ok a) f h all = all a h
Holds-bind P Q undefined f h all = tt
Holds-bind P Q out_of_fuel f h all = tt

Holds-any : {A : Type 0} (m : Checked A) → Holds (λ _. Unit) m
unfolding Holds
Holds-any (ok a) = tt
Holds-any undefined = tt
Holds-any out_of_fuel = tt

Holds-if :
    {A : Type 0} (P : A → Type 0) (b : Bool) (m : Checked A) (a : A)
    → Holds P m
    → P a
    → Holds P (if b then m else ok a)
unfolding Holds
Holds-if P true m a h k = h
Holds-if P false m a h k = k

abbrev StatusSays : ℕ × List Report → Type 0
StatusSays (code, printed) = code ≡ (if ltb 0 (count is_error printed) then 1 else 0)

module _ {e w : ℕ} where
  error-IsCounted :
      (r : Report) (l : Lint)
      → is_error r ≡ true
      → is_warning r ≡ false
      → IsCounted e w l
      → IsCounted e w (error r l)
  error-IsCounted r l a b h = record {
    error_count = ground (arith, count-concat is_error l.output r, h.error_count);
    warning_count = ground (arith, count-concat is_warning l.output r, h.warning_count);
  }

  warning-IsCounted :
      (r : Report) (l : Lint)
      → is_error r ≡ false
      → is_warning r ≡ true
      → IsCounted e w l
      → IsCounted e w (warning r l)
  warning-IsCounted r l a b h = record {
    error_count = ground (arith, count-concat is_error l.output r, h.error_count);
    warning_count = ground (arith, count-concat is_warning l.output r, h.warning_count);
  }

  if-IsCounted :
      (b : Bool) (l l' : Lint)
      → IsCounted e w l
      → IsCounted e w l'
      → IsCounted e w (if b then l else l')
  if-IsCounted true l l' h h' = h
  if-IsCounted false l l' h h' = h'

  -- A state that differs in other fields.
  same-IsCounted :
      (l l' : Lint)
      → l'.output ≡ l.output
      → l'.local_errors ≡ l.local_errors
      → l'.local_warnings ≡ l.local_warnings
      → IsCounted e w l
      → IsCounted e w l'
  same-IsCounted l l' o a b h = record {
    error_count = ap (count is_error) o ∙ omega (arith, a, h.error_count);
    warning_count = ap (count is_warning) o ∙ omega (arith, b, h.warning_count);
  }

  raw_warning-IsCounted :
      (f before p word : Bytes) (l : Lint)
      → IsCounted e w l
      → IsCounted e w (raw_warning f before p word l)
  raw_warning-IsCounted f before p word l h =
      if-IsCounted (is_raw_alloc_free before p word) _ l
        (warning-IsCounted (raw_use f word l.line_no (length before + 1)) l refl refl h) h

  check_raw-IsCounted :
      (f before p : Bytes) (l : Lint) → IsCounted e w l → IsCounted e w (check_raw f before p l)
  unfolding check_raw
  check_raw-IsCounted f before p l h =
      if-IsCounted (is_word before p malloc_word) _ _
        (raw_warning-IsCounted f before p malloc_word l h)
        (if-IsCounted (is_word before p calloc_word) _ _
          (raw_warning-IsCounted f before p calloc_word l h)
          (if-IsCounted (is_word before p realloc_word) _ _
            (raw_warning-IsCounted f before p realloc_word l h)
            (if-IsCounted (is_word before p free_word && is_raw_alloc_free before p free_word) _ _
              (error-IsCounted (raw_free f l.line_no (length before + 1)) l refl refl h) h)))

  scan_raw-IsCounted :
      (f before p : Bytes) (l : Lint) → IsCounted e w l → IsCounted e w (scan_raw f before p l)
  unfolding scan_raw
  scan_raw-IsCounted f before [] l h = h
  scan_raw-IsCounted f before (c ∷ cs) l h =
      scan_raw-IsCounted f (c ∷ before) cs (check_raw f before (c ∷ cs) l)
        (check_raw-IsCounted f before (c ∷ cs) l h)

  vars-IsCounted :
      (b : Bool) (vs : List TrackedVar) (l : Lint)
      → IsCounted e w l
      → IsCounted e w (if b then record l { tracked_vars = vs } else l)
  vars-IsCounted b vs l h =
      let changed : Lint = record l { tracked_vars = vs } in
      if-IsCounted b changed l (same-IsCounted l changed refl refl refl h) h

  track_target-IsCounted :
      (before : Bytes) (raii : Bool) (l : Lint)
      → IsCounted e w l
      → IsCounted e w (track_target before raii l)
  unfolding track_target
  track_target-IsCounted before raii l h = elim (Option-cases (back_to_eq before)) [
    | inl n ↦ rw (n, track_target) h
    | inr (rest, n) ↦
        let name = name_before rest in
        rw (n, track_target)
          (vars-IsCounted (ltb 0 (length name) && ltb (length name) max_var_name)
            (add_tracked_var name l.line_no raii l.tracked_vars) l h)
  ]

  check_alloc-IsCounted :
      (f clean : Bytes) (l : Lint) → IsCounted e w l → IsCounted e w (check_alloc f clean l)
  unfolding check_alloc
  check_alloc-IsCounted f clean l h = elim (Option-cases (find_alloc clean)) [
    | inl n ↦ rw (n, check_alloc) h
    | inr (before, n) ↦
        rw (n, check_alloc)
          (track_target-IsCounted before (has_owned clean) _ (
            if-IsCounted (has_owned clean) l _ h
              (warning-IsCounted (manual_free f l.line_no (length before + 1)) l refl refl h)))
  ]

  free_each-IsCounted :
      (f : Bytes) (names : List Bytes) (l : Lint)
      → IsCounted e w l
      → IsCounted e w (free_each f names l)
  unfolding free_each
  free_each-IsCounted f [] l h = h
  free_each-IsCounted f (name ∷ names) l h =
      let marked : Lint = record l { tracked_vars = (mark_freed name l.tracked_vars).0 } in
      let same = same-IsCounted l marked refl refl refl h in
      free_each-IsCounted f names (free_one f name l) (
        if-IsCounted (mark_freed name l.tracked_vars).1 _ marked
          (error-IsCounted (double_free f l.line_no name l.current_func) marked refl refl same)
          same)

  borrow_each-IsCounted :
      (f : Bytes) (names : List Bytes) (l : Lint)
      → IsCounted e w l
      → IsCounted e w (borrow_each f names l)
  unfolding borrow_each
  borrow_each-IsCounted f [] l h = h
  borrow_each-IsCounted f (name ∷ names) l h = borrow_each-IsCounted f names (borrow_one f name l) (
      if-IsCounted (check_borrow name l.tracked_vars) _ l
        (error-IsCounted (use_after_free f l.line_no name l.current_func) l refl refl h) h)

  check_return-IsCounted :
      (clean : Bytes) (l : Lint) → IsCounted e w l → IsCounted e w (check_return clean l)
  unfolding check_return
  check_return-IsCounted clean l h = elim (Option-cases (strstr [] clean (codes "return"))) [
    | inl n ↦ rw (n, check_return) h
    | inr ((before, r), n) ↦
        let name = extract_identifier (skip_spaces (drop 6 r)) in
        rw (n, check_return)
          (vars-IsCounted (is_word before r (codes "return") && ltb 0 (length name))
            (mark_returned name l.tracked_vars) l h)
  ]

  leak_each-IsCounted :
      (f : Bytes) (vs : List TrackedVar) (l : Lint)
      → IsCounted e w l
      → IsCounted e w (leak_each f vs l)
  unfolding leak_each
  leak_each-IsCounted f [] l h = h
  leak_each-IsCounted f (v ∷ vs) l h = leak_each-IsCounted f vs _ (
      error-IsCounted (memory_leak f l.line_no v.name v.line_allocated l.current_func) l refl refl
        h)

  exit_function-IsCounted :
      (f : Bytes) (l : Lint) → IsCounted e w l → IsCounted e w (exit_function f l)
  unfolding exit_function
  exit_function-IsCounted f l h =
      let leaks = leak_each f (leaked l.tracked_vars) l in
      let left : Lint = record leaks {
        in_function = false;
        tracked_vars = [];
        current_func = [];
      } in
      if-IsCounted (l.in_function && is_zero l.nesting_level) left l
        (same-IsCounted leaks left refl refl refl
          (leak_each-IsCounted f (leaked l.tracked_vars) l h))
        h

  enter_if-IsCounted :
      (before : ℤ) (clean : Bytes) (l : Lint)
      → IsCounted e w l
      → Holds (IsCounted e w) (enter_if before clean l)
  unfolding Holds enter_function
  enter_if-IsCounted before clean l h =
      Holds-if (IsCounted e w) (enters before l) (enter_function clean l) l
        (Holds-bind (λ _. Unit) (IsCounted e w) (find_func clean l.prev_line) _
          (Holds-any (find_func clean l.prev_line)) (λ n _. same-IsCounted l _ refl refl refl h))
        h

  body_if-IsCounted :
      (f clean : Bytes) (l : Lint) → IsCounted e w l → Holds (IsCounted e w) (body_if f clean l)
  unfolding Holds in_body
  body_if-IsCounted f clean l h =
      Holds-if (IsCounted e w) l.in_function (in_body f clean l) l
        (Holds-bind (λ _. Unit) (IsCounted e w)
          (names_of (codes "owner_free") (length clean + 1) clean) _
          (Holds-any (names_of (codes "owner_free") (length clean + 1) clean))
          (λ frees _.
            Holds-bind (λ _. Unit) (IsCounted e w)
              (names_of (codes "ownership_borrow") (length clean + 1) clean) _
              (Holds-any (names_of (codes "ownership_borrow") (length clean + 1) clean))
              (λ borrows _. check_return-IsCounted clean _ (
                borrow_each-IsCounted f borrows _
                  (free_each-IsCounted f frees _ (check_alloc-IsCounted f clean l h))))))
        h

  lint_line-IsCounted :
      (f raw : Bytes) (l : Lint) → IsCounted e w l → Holds (IsCounted e w) (lint_line f raw l)
  unfolding Holds lint_line
  lint_line-IsCounted f raw l h =
      let (clean, in_block) = preprocess_line raw l.in_block_comment in
      let next : Lint = record l { line_no = l.line_no + 1; in_block_comment = in_block } in
      let start = counted_line f clean in_block l in
      let began =
        same-IsCounted (scan_raw f [] clean next) start refl refl refl
          (scan_raw-IsCounted f [] clean next (same-IsCounted l next refl refl refl h)) in
      Holds-bind (IsCounted e w) (IsCounted e w) (enter_if l.nesting_level clean start) _
        (enter_if-IsCounted l.nesting_level clean start began)
        (λ l₁ h₁.
          Holds-bind (IsCounted e w) (IsCounted e w) (body_if f clean l₁) _
            (body_if-IsCounted f clean l₁ h₁)
            (λ l₂ h₂.
              let done = exit_function f l₂ in
              let kept = exit_function-IsCounted f l₂ h₂ in
              if-IsCounted (ends_openly clean) (record done { prev_line = clean }) done
                (same-IsCounted done _ refl refl refl kept) kept))

  lint_lines-IsCounted :
      (f : Bytes) (lines : List Bytes) (l : Lint)
      → IsCounted e w l
      → Holds (IsCounted e w) (lint_lines f lines l)
  unfolding Holds lint_lines
  lint_lines-IsCounted f [] l h = h
  lint_lines-IsCounted f (line ∷ lines) l h =
      Holds-bind (IsCounted e w) (IsCounted e w) (lint_line f (c_string line) l) _
        (lint_line-IsCounted f (c_string line) l h) (λ l' h'. lint_lines-IsCounted f lines l' h')

-- The totals are those of the reports.
abbrev Totals : ℕ × ℕ × Lint → Type 0
Totals (e, w, l) = (count is_error l.output ≡ e) × (count is_warning l.output ≡ w)

lint_file-Totals :
    (f : Bytes) (content : Option Bytes) (e w : ℕ) (l : Lint)
    → count is_error l.output ≡ e
    → count is_warning l.output ≡ w
    → Holds Totals (lint_file f content e w l)
unfolding Holds lint_file
lint_file-Totals f none e w l a b = (
  omega (arith, count-concat is_error l.output (could_not_open f)),
  omega (arith, count-concat is_warning l.output (could_not_open f)),
)
lint_file-Totals f (some content) e w l a b =
    Holds-bind (IsCounted e w) Totals
      (lint_lines f (fgets_all (max_line_len - 1) content) (opened f l)) _
      (lint_lines-IsCounted f (fgets_all (max_line_len - 1) content) (opened f l) (record {
        error_count = omega (arith, a, count-concat is_error l.output (linting f));
        warning_count = omega (arith, b, count-concat is_warning l.output (linting f));
      }))
      (λ l' h.
        let quiet = closing_quiet f l' in
        (
          ground (arith, h.error_count, count-concat is_error l'.output (closing f l'), quiet.0),
          ground
              (arith, h.warning_count, count-concat is_warning l'.output (closing f l'), quiet.1),
        ))
  where
    closing_quiet :
        (f : Bytes) (l : Lint)
        → (is_error (closing f l) ≡ false) × (is_warning (closing f l) ≡ false)
    closing_quiet f l = (ground arith, ground arith)

lint_files-Totals :
    (fs : List (Bytes × Option Bytes)) (e w : ℕ) (l : Lint)
    → count is_error l.output ≡ e
    → count is_warning l.output ≡ w
    → Holds Totals (lint_files fs e w l)
unfolding Holds lint_files
lint_files-Totals [] e w l a b = (a, b)
lint_files-Totals ((f, content) ∷ fs) e w l a b =
    Holds-bind Totals Totals (lint_file f content e w l) _ (lint_file-Totals f content e w l a b)
      (λ (e', w', l') (a', b'). lint_files-Totals fs e' w' l' a' b')

pub main-StatusSays :
    (program : Bytes) (f : Bytes × Option Bytes) (fs : List (Bytes × Option Bytes)) {code : ℕ}
    {printed : List Report}
    → main program (f ∷ fs) ≡ ok (code, printed)
    → code ≡ (if ltb 0 (count is_error printed) then 1 else 0)
unfolding Holds main
main-StatusSays program f fs {code} {printed} e =
    let counted : Holds StatusSays (main program (f ∷ fs)) =
      Holds-bind Totals StatusSays (lint_files (f ∷ fs) 0 0 begin) _
        (lint_files-Totals (f ∷ fs) 0 0 begin refl refl)
        (λ (a, b, l) (h, _). ap (λ (k : ℕ). if ltb 0 k then 1 else 0) (sym h)) in
    rw e at counted
