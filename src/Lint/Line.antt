-- ===== src/Lint/Line.antt =====
-- tools/ownedc_lint.c, what `lint_file` does with one line.
use owned_c.Base.{
  ℕ, zero, suc, ◌+◌, ℤ, incr, decr, is_zero, is_positive, Bool, true, false, not, ◌&&◌, Option,
  none, some, List, [], ◌∷◌, ◌++◌, ltb, ◌==◌, if◌then◌else◌, length,
}
use owned_c.Lint.Text.{
  Bytes, codes, malloc_word, calloc_word, realloc_word, free_word, is_space, is_ident, max_var_name,
  skip_spaces, extract_identifier, drop, is_word, is_raw_alloc_free, preprocess_line, strstr,
  strchr,
}
use owned_c.Lint.Vars.{TrackedVar, add_tracked_var, mark_freed, check_borrow, mark_returned, leaked}

-- What the linter prints, with the path of the file first.
pub data Report : Type 0 where
  raw_use : (filepath word : Bytes) (line col : ℕ) → Report
  raw_free : (filepath : Bytes) (line col : ℕ) → Report
  manual_free : (filepath : Bytes) (line col : ℕ) → Report
  double_free : (filepath : Bytes) (line : ℕ) (name func : Bytes) → Report
  use_after_free : (filepath : Bytes) (line : ℕ) (name func : Bytes) → Report
  memory_leak :
      (filepath : Bytes) (line : ℕ) (name : Bytes) (line_allocated : ℕ) (func : Bytes) → Report
  could_not_open : (filepath : Bytes) → Report
  linting : (filepath : Bytes) → Report
  success : (filepath : Bytes) → Report
  found : (filepath : Bytes) (errors warnings : ℕ) → Report
  usage : (program : Bytes) → Report

-- The globals, the variables of `lint_file`, and what was printed.
pub record Lint : Type 0 where
  pub tracked_vars : List TrackedVar
  pub current_func : Bytes
  pub prev_line : Bytes
  pub line_no : ℕ
  pub nesting_level : ℤ
  pub in_function : Bool
  pub in_block_comment : Bool
  pub local_errors : ℕ
  pub local_warnings : ℕ
  pub output : List Report

-- A step returns, or it reads in front of a buffer. A loop on fuel may run out of it.
pub data Checked (A : Type 0) : Type 0 where
  ok : A → Checked A
  undefined : Checked A
  out_of_fuel : Checked A

infixl 5 ◌>>=◌
abbrev pub ◌>>=◌ : {A B : Type 0} → Checked A → (A → Checked B) → Checked B
ok a >>= f = f a
undefined >>= f = undefined
out_of_fuel >>= f = out_of_fuel

abbrev pub error : Report → Lint → Lint
error r l = record l { local_errors = l.local_errors + 1; output = l.output ++ r ∷ [] }

abbrev pub warning : Report → Lint → Lint
warning r l = record l { local_warnings = l.local_warnings + 1; output = l.output ++ r ∷ [] }

-- A warning about a word, if it is the allocation function itself.
abbrev pub raw_warning : (filepath before p word : Bytes) → Lint → Lint
raw_warning f before p word l =
    if is_raw_alloc_free before p word
    then warning (raw_use f word l.line_no (length before + 1)) l
    else l

-- The body of the loop that looks for raw allocation, at one place of the line.
unfoldable pub check_raw : (filepath before p : Bytes) → Lint → Lint
check_raw f before p l =
    if is_word before p malloc_word
    then raw_warning f before p malloc_word l
    else if is_word before p calloc_word
    then raw_warning f before p calloc_word l
    else if is_word before p realloc_word
    then raw_warning f before p realloc_word l
    else if is_word before p free_word && is_raw_alloc_free before p free_word
    then error (raw_free f l.line_no (length before + 1)) l
    else l

unfoldable pub scan_raw : (filepath before p : Bytes) → Lint → Lint
scan_raw f before [] l = l
scan_raw f before (c ∷ cs) l = scan_raw f (c ∷ before) cs (check_raw f before (c ∷ cs) l)

unfoldable pub count_braces : Bytes → ℤ → ℤ
count_braces [] n = n
count_braces (c ∷ cs) n =
    count_braces cs (if c == b'{' then incr n else if c == b'}' then decr n else n)

-- `while (p > line && isspace(*p)) p--`, on the bytes up to `p`, the nearest first.
unfoldable pub back_spaces : Bytes → Bytes
back_spaces [] = []
back_spaces (c ∷ []) = c ∷ []
back_spaces (c ∷ d ∷ cs) = elim (is_space c) [ true ↦ back_spaces (d ∷ cs) | false ↦ c ∷ d ∷ cs ]

-- The identifier that ends at the first of these bytes, in front of `name`.
unfoldable pub back_ident : (name before : Bytes) → Bytes
back_ident name [] = name
back_ident name (c ∷ cs) = elim (is_ident c) [ true ↦ back_ident (c ∷ name) cs | false ↦ name ]

unfoldable pub name_before : Bytes → Bytes
name_before before = back_ident [] (back_spaces before)

-- The name of a function in front of the parenthesis. At the start of a line the byte before the
-- line is read.
unfoldable pub func_name : (before : Bytes) → Checked Bytes
func_name [] = undefined
func_name (c ∷ cs) =
    let name = name_before (c ∷ cs) in
    ok (if ltb 0 (length name) && ltb (length name) 255 then name else codes "function")

unfoldable pub find_func : (clean prev : Bytes) → Checked Bytes
find_func clean prev = elim (strchr [] clean b'(') [
  | some (before, _) ↦ func_name before
  | none ↦ elim (strchr [] prev b'(') [
    | some (before, _) ↦ func_name before
    | none ↦ ok (codes "function")
  ]
]

unfoldable pub enter_function : (clean : Bytes) → Lint → Checked Lint
enter_function clean l = do
  name ← find_func clean l.prev_line
  ok (record l { in_function = true; tracked_vars = []; current_func = name })

-- `while (eq > line && *eq != '=') eq--`, and the bytes before the sign if it is not the first byte.
unfoldable pub back_to_eq : (before : Bytes) → Option Bytes
back_to_eq [] = none
back_to_eq (c ∷ []) = none
back_to_eq (c ∷ d ∷ cs) = elim (c == b'=') [ true ↦ some (d ∷ cs) | false ↦ back_to_eq (d ∷ cs) ]

unfoldable pub find_alloc : (clean : Bytes) → Option Bytes
find_alloc clean = elim (strstr [] clean (codes "owner_malloc")) [
  | some (before, _) ↦ some before
  | none ↦ elim (strstr [] clean (codes "owner_calloc")) [
    | some (before, _) ↦ some before
    | none ↦ elim (strstr [] clean (codes "owner_realloc")) [
      | some (before, _) ↦ some before
      | none ↦ none
    ]
  ]
]

unfoldable pub has_owned : (clean : Bytes) → Bool
has_owned clean = elim (strstr [] clean (codes "OWNED")) [ some _ ↦ true | none ↦ false ]

-- The variable that is assigned, if its name is an identifier that fits.
unfoldable pub track_target : (before : Bytes) → (is_raii : Bool) → Lint → Lint
track_target before is_raii l = elim (back_to_eq before) [
  | none ↦ l
  | some rest ↦
      let name = name_before rest in
      if ltb 0 (length name) && ltb (length name) max_var_name
      then record l { tracked_vars = add_tracked_var name l.line_no is_raii l.tracked_vars }
      else l
]

unfoldable pub check_alloc : (filepath clean : Bytes) → Lint → Lint
check_alloc f clean l = elim (find_alloc clean) [
  | none ↦ l
  | some before ↦
      track_target before (has_owned clean)
        (if has_owned clean then l else warning (manual_free f l.line_no (length before + 1)) l)
]

-- The names behind the parentheses that follow the occurrences of a word.
unfoldable pub names_of : (word : Bytes) → (fuel : ℕ) → (p : Bytes) → Checked (List Bytes)
names_of word zero p = out_of_fuel
names_of word (suc k) p = elim (strstr [] p word) [
  | none ↦ ok []
  | some (_, q) ↦ elim (strchr [] (drop (length word) q) b'(') [
    | none ↦ ok []
    | some (_, []) ↦ ok []
    | some (_, _ ∷ r) ↦ do
      names ← names_of word k r
      ok (if ltb 0 (length (extract_identifier r)) then extract_identifier r ∷ names else names)
  ]
]

abbrev pub free_one : (filepath name : Bytes) → Lint → Lint
free_one f name l =
    let (vars, twice) = mark_freed name l.tracked_vars in
    let l' : Lint = record l { tracked_vars = vars } in
    if twice then error (double_free f l.line_no name l.current_func) l' else l'

abbrev pub borrow_one : (filepath name : Bytes) → Lint → Lint
borrow_one f name l =
    if check_borrow name l.tracked_vars
    then error (use_after_free f l.line_no name l.current_func) l
    else l

unfoldable pub free_each : (filepath : Bytes) → List Bytes → Lint → Lint
free_each f [] l = l
free_each f (name ∷ names) l = free_each f names (free_one f name l)

unfoldable pub borrow_each : (filepath : Bytes) → List Bytes → Lint → Lint
borrow_each f [] l = l
borrow_each f (name ∷ names) l = borrow_each f names (borrow_one f name l)

-- The first `return` of the line.
unfoldable pub check_return : (clean : Bytes) → Lint → Lint
check_return clean l = elim (strstr [] clean (codes "return")) [
  | none ↦ l
  | some (before, r) ↦
      let name = extract_identifier (skip_spaces (drop 6 r)) in
      if is_word before r (codes "return") && ltb 0 (length name)
      then record l { tracked_vars = mark_returned name l.tracked_vars }
      else l
]

unfoldable pub in_body : (filepath clean : Bytes) → Lint → Checked Lint
in_body f clean l = do
  frees ← names_of (codes "owner_free") (length clean + 1) clean
  borrows ← names_of (codes "ownership_borrow") (length clean + 1) clean
  ok (check_return clean (borrow_each f borrows (free_each f frees (check_alloc f clean l))))

unfoldable pub leak_each : (filepath : Bytes) → List TrackedVar → Lint → Lint
leak_each f [] l = l
leak_each f (v ∷ vs) l =
    leak_each f vs (error (memory_leak f l.line_no v.name v.line_allocated l.current_func) l)

unfoldable pub exit_function : (filepath : Bytes) → Lint → Lint
exit_function f l =
    if l.in_function && is_zero l.nesting_level
    then record (leak_each f (leaked l.tracked_vars) l) {
      in_function = false;
      tracked_vars = [];
      current_func = [];
    }
    else l

-- `clean[strlen(clean) - 1] != '\n'` of a line that is not empty.
abbrev pub ends_openly : Bytes → Bool
ends_openly [] = false
ends_openly (c ∷ []) = not (c == b'\n')
ends_openly (c ∷ d ∷ cs) = ends_openly (d ∷ cs)

abbrev pub keep_line : (clean : Bytes) → Lint → Lint
keep_line clean l = if ends_openly clean then record l { prev_line = clean } else l

-- The test for the start of a function, on the level before the line and the state behind it.
abbrev pub enters : ℤ → Lint → Bool
enters before l = is_zero before && is_positive l.nesting_level && not l.in_function

abbrev pub enter_if : (before : ℤ) → (clean : Bytes) → Lint → Checked Lint
enter_if before clean l = if enters before l then enter_function clean l else ok l

abbrev pub body_if : (filepath clean : Bytes) → Lint → Checked Lint
body_if f clean l = if l.in_function then in_body f clean l else ok l

-- The state behind the counting of braces.
abbrev pub counted_line : (filepath clean : Bytes) → (in_block : Bool) → Lint → Lint
counted_line f clean in_block l =
    let l' : Lint =
      scan_raw f [] clean (record l { line_no = l.line_no + 1; in_block_comment = in_block }) in
    record l' { nesting_level = count_braces clean l'.nesting_level }

-- The body of the loop of `lint_file`.
unfoldable pub lint_line : (filepath raw_line : Bytes) → Lint → Checked Lint
lint_line f raw_line l = do
  let (clean, in_block) = preprocess_line raw_line l.in_block_comment
  l₁ ← enter_if l.nesting_level clean (counted_line f clean in_block l)
  l₂ ← body_if f clean l₁
  ok (keep_line clean (exit_function f l₂))
