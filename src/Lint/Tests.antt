-- ===== src/Lint/Tests.antt =====
-- The linter at concrete inputs.
use owned_c.Base.{
  ℕ, ◌≡◌, refl, true, false, none, some, arith, ◌⊎◌, ltb, if◌then◌else◌, List, [], ◌∷◌, ◌++◌,
}
use owned_c.Lint.Words.{is_raw_alloc_free-eq}
use owned_c.Lint.Status.{main_lem}
use owned_c.Lint.Counts.{is_error, count}
use owned_c.Lint.Table.{Use, alloc, free, use_table, after_all, map_all, reports, use_table_lem}
use owned_c.Lint.Clean.{
  code, literal, plain, comment, line_comment, open_literal, preprocess_line-pieces,
}
use owned_c.Lint.Text.{
  Bytes, codes, is_word, is_raw_alloc_free, preprocess_line, strip, strstr, strchr,
  extract_identifier, skip_spaces, take_ident,
}
use owned_c.Lint.Vars.{
  find_var, same_bytes, put_var, add_tracked_var, mark_freed, check_borrow, mark_returned, leaked,
}
use owned_c.Lint.Line.{
  Report, undefined, linting, double_free, found, ok, check_raw, scan_raw, count_braces,
  back_spaces, back_ident, name_before, func_name, find_func, enter_function, back_to_eq,
  find_alloc, has_owned, track_target, check_alloc, names_of, free_each, borrow_each, check_return,
  in_body, leak_each, exit_function, lint_line,
}
use owned_c.Lint.File.{fgets_all, c_string, lint_lines, lint_file, lint_files, main}

abbrev file_name : Bytes
file_name = codes "a.c"

abbrev program : Bytes
program =
    codes "int f(void) {\n"
    ++ codes "  OWNED void* p = owner_malloc(8); // free(p)\n"
    ++ codes "  owner_free(p);\n"
    ++ codes "  owner_free(p);\n"
    ++ codes "}\n"

twice_freed :
    main (codes "lint") ((file_name, some program) ∷ [])
    ≡ ok (
      1,
      linting file_name
          ∷ double_free file_name 4 (codes "p") (codes "f")
          ∷ found file_name 1 0
          ∷ [],
    )
unfolding main lint_files lint_file lint_lines c_string fgets_all lint_line exit_function leak_each
    in_body check_return borrow_each free_each names_of check_alloc track_target has_owned
    find_alloc back_to_eq enter_function find_func func_name name_before back_ident back_spaces
    count_braces scan_raw check_raw leaked mark_returned check_borrow mark_freed add_tracked_var
    put_var same_bytes preprocess_line strip strstr strchr extract_identifier skip_spaces take_ident
    is_word is_raw_alloc_free
twice_freed = refl

is_raw_alloc_free-eq_example :
    is_raw_alloc_free (codes "=") (codes "free(p)") (codes "free")
    ≡ is_word (codes "=") (codes "free(p)") (codes "free")
is_raw_alloc_free-eq_example = is_raw_alloc_free-eq (codes "=") (codes "free(p)") (codes "free")

main_lem_example :
    (main (codes "lint") ((file_name, some program) ∷ []) ≡ undefined)
    ⊎ ((code : ℕ) × (printed : List Report) × (main (codes "lint") ((file_name, some program) ∷ [])
          ≡ ok (code, printed))
        × (code ≡ (if ltb 0 (count is_error printed) then 1 else 0)))
main_lem_example = main_lem (codes "lint") (file_name, some program) []

-- `p` is allocated, freed and freed again.
abbrev twice : List Use
twice = alloc (codes "p") 2 false ∷ free (codes "p") ∷ []

use_table_lem_example :
    ((n : Bytes) → find_var n (after_all twice []) ≡ map_all twice (λ _. none) n)
    × ((use_table (free (codes "p")) (after_all twice [])).1
        ≡ reports (free (codes "p")) (map_all twice (λ _. none)))
use_table_lem_example = use_table_lem twice (free (codes "p")) (omega arith, (tt, tt)) (omega arith)

reported_twice : reports (free (codes "p")) (map_all twice (λ _. none)) ≡ true
unfolding same_bytes
reported_twice = refl

preprocess_line-pieces_example :
    preprocess_line (codes "x=\"a\";/*b*/y//z") false ≡ (codes "x=\"\";y", false)
preprocess_line-pieces_example =
    preprocess_line-pieces
      (code b'x' refl
        ∷ code b'=' refl
        ∷ literal (plain b'a' refl refl ∷ [])
        ∷ code b';' refl
        ∷ comment (codes "b") (refl, tt)
        ∷ code b'y' refl
        ∷ [])
      (line_comment (codes "z"))

-- A quotation mark as a character constant hides the rest of the line.
hidden_free : preprocess_line (codes "c='\"';free(p);") false ≡ (codes "c='\"", false)
hidden_free = preprocess_line-pieces (code b'c' refl ∷ code b'=' refl ∷ code b'\'' refl ∷ []) (
    open_literal (
      plain b'\'' refl refl
      ∷ plain b';' refl refl
      ∷ plain b'f' refl refl
      ∷ plain b'r' refl refl
      ∷ plain b'e' refl refl
      ∷ plain b'e' refl refl
      ∷ plain b'(' refl refl
      ∷ plain b'p' refl refl
      ∷ plain b')' refl refl
      ∷ plain b';' refl refl
      ∷ []))
