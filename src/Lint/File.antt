-- ===== src/Lint/File.antt =====
-- tools/ownedc_lint.c: `lint_file` on the bytes of a file, and `main`.
use owned_c.Base.{
  ℕ, ◌+◌, ◌-◌, pos, false, ◌&&◌, ◌||◌, Option, none, some, List, [], ◌∷◌, ◌++◌, ltb, ◌==◌,
  if◌then◌else◌,
}
use owned_c.Lint.Text.{Bytes}
use owned_c.Lint.Line.{
  Report, could_not_open, linting, success, found, usage, Lint, Checked, ok, ◌>>=◌, lint_line,
}

abbrev pub max_line_len : ℕ
max_line_len = 4096

abbrev pub onto_first : ℕ → List Bytes → List Bytes
onto_first c [] = (c ∷ []) ∷ []
onto_first c (l ∷ ls) = (c ∷ l) ∷ ls

-- The lines that `fgets` returns one after another: each ends behind a line feed, or where `left`
-- bytes are read.
unfoldable pub fgets_all : (left : ℕ) → Bytes → List Bytes
fgets_all left [] = []
fgets_all left (c ∷ cs) =
    let ends = c == b'\n' || ltb left 2 in
    let rest = fgets_all (if ends then max_line_len - 1 else left - 1) cs in
    if ends then (c ∷ []) ∷ rest else onto_first c rest

-- What `strcpy` takes of a buffer: the bytes before the first zero.
unfoldable pub c_string : Bytes → Bytes
c_string [] = []
c_string (c ∷ cs) = if c == 0 then [] else c ∷ c_string cs

unfoldable pub lint_lines : (filepath : Bytes) → List Bytes → Lint → Checked Lint
lint_lines f [] l = ok l
lint_lines f (line ∷ lines) l = do l' ← lint_line f (c_string line) l; lint_lines f lines l'

-- The variables that `lint_file` starts with.
abbrev pub opened : (filepath : Bytes) → Lint → Lint
opened f l = record l {
  prev_line = [];
  line_no = 0;
  nesting_level = pos 0;
  in_function = false;
  in_block_comment = false;
  local_errors = 0;
  local_warnings = 0;
  output = l.output ++ linting f ∷ [];
}

abbrev pub closing : (filepath : Bytes) → Lint → Report
closing f l =
    if l.local_errors == 0 && l.local_warnings == 0
    then success f
    else found f l.local_errors l.local_warnings

-- The file is what `fopen` finds at the path. The totals are returned with the state.
unfoldable pub lint_file :
    (filepath : Bytes)
    → (content : Option Bytes) → (total_errors total_warnings : ℕ) → Lint
    → Checked (ℕ × ℕ × Lint)
lint_file f none errors warnings l =
    ok (errors + 1, warnings, record l { output = l.output ++ could_not_open f ∷ [] })
lint_file f (some content) errors warnings l = do
  l' ← lint_lines f (fgets_all (max_line_len - 1) content) (opened f l)
  ok (
    errors + l'.local_errors,
    warnings + l'.local_warnings,
    record l' { output = l'.output ++ closing f l' ∷ [] },
  )

unfoldable pub lint_files :
    List (Bytes × Option Bytes) → (total_errors total_warnings : ℕ) → Lint → Checked (ℕ × ℕ × Lint)
lint_files [] errors warnings l = ok (errors, warnings, l)
lint_files ((f, content) ∷ fs) errors warnings l = do
  (errors', warnings', l') ← lint_file f content errors warnings l
  lint_files fs errors' warnings' l'

-- The state before `main`.
abbrev pub begin : Lint
begin = record {
  tracked_vars = [];
  current_func = [];
  prev_line = [];
  line_no = 0;
  nesting_level = pos 0;
  in_function = false;
  in_block_comment = false;
  local_errors = 0;
  local_warnings = 0;
  output = [];
}

-- `main` on the arguments behind the program's name: the exit status and what was printed.
unfoldable pub main : (program : Bytes) → List (Bytes × Option Bytes) → Checked (ℕ × List Report)
main program [] = ok (1, usage program ∷ [])
main program (f ∷ fs) = do
  (errors, warnings, l) ← lint_files (f ∷ fs) 0 0 begin
  ok (if ltb 0 errors then 1 else 0, l.output)
