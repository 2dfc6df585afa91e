-- ===== src/Lint/Text.antt =====
-- tools/ownedc_lint.c, the functions on text: `is_ident`, `extract_identifier`, `is_word`,
-- `is_raw_alloc_free`, `preprocess_line`, and the library's `strstr` and `strchr`. A C string is the
-- list of its bytes before the zero; a pointer into a line is the bytes before it, the nearest first,
-- and the bytes from it on.
unfoldable pub use owned_c.Base.{Bytes, codes, is_space, is_alnum, skip_spaces, starts_with, drop}
use owned_c.Base.{
  ℕ, zero, suc, ◌-◌, Bool, true, false, not, ◌&&◌, ◌||◌, Option, none, some, [], ◌∷◌, ◌==◌,
  if◌then◌else◌, length,
}

-- The bytes of `malloc` and the other words that are looked for.
abbrev pub malloc_word : Bytes
malloc_word = codes "malloc"

abbrev pub calloc_word : Bytes
calloc_word = codes "calloc"

abbrev pub realloc_word : Bytes
realloc_word = codes "realloc"

abbrev pub free_word : Bytes
free_word = codes "free"

abbrev pub is_ident : ℕ → Bool
is_ident c = is_alnum c || c == b'_'

abbrev pub max_var_name : ℕ
max_var_name = 128

-- The identifier at the start, of at most `n` bytes.
unfoldable pub take_ident : (n : ℕ) → Bytes → Bytes
take_ident zero cs = []
take_ident (suc n) [] = []
take_ident (suc n) (c ∷ cs) = if is_ident c then c ∷ take_ident n cs else []

unfoldable pub extract_identifier : Bytes → Bytes
extract_identifier start = take_ident (max_var_name - 1) (skip_spaces start)

abbrev pub first_is_ident : Bytes → Bool
first_is_ident [] = false
first_is_ident (c ∷ cs) = is_ident c

unfoldable pub is_word : (before p word : Bytes) → Bool
is_word before p word =
    starts_with word p && not (first_is_ident before) && not (first_is_ident (drop (length word) p))

-- `p >= line + strlen(w) && strncmp(p - strlen(w), w, strlen(w)) == 0`, with `w` read backwards.
abbrev pub stands_before : (reversed before : Bytes) → Bool
stands_before w before = starts_with w before

unfoldable pub is_raw_alloc_free : (before p word : Bytes) → Bool
is_raw_alloc_free before p word =
    is_word before p word
    && not (stands_before (codes "_renwo") before)
    && not (stands_before (codes "_TLUAFED_CDENWO") before)
    && not (stands_before (codes "_labolg") before)
    && not (stands_before (codes "_lssnepo") before)
    && not (stands_before (codes "_NOSJc") before)

-- One byte in front of what a call returns.
abbrev pub keep : ℕ → Bytes × Bool → Bytes × Bool
keep c (cs, b) = (c ∷ cs, b)

-- The loop of `preprocess_line`, with what is written to `line` and the flag at its end.
unfoldable pub strip : (in_block in_string : Bool) → Bytes → Bytes × Bool
strip in_block in_string [] = ([], in_block)
strip in_block in_string (c ∷ []) =
    if in_block
    then ([], true)
    else if in_string && not (c == b'"')
    then ([], false)
    else (c ∷ [], false)
strip in_block in_string (c ∷ d ∷ cs) = elim in_block [
  | true ↦ elim (c == b'*' && d == b'/') [
    | true ↦ strip false in_string cs
    | false ↦ strip true in_string (d ∷ cs)
  ]
  | false ↦ elim in_string [
    | true ↦ elim (c == b'\\') [
      | true ↦ strip false true cs
      | false ↦ elim (c == b'"') [
        | true ↦ keep c (strip false false (d ∷ cs))
        | false ↦ strip false true (d ∷ cs)
      ]
    ]
    | false ↦ elim (c == b'/' && d == b'*') [
      | true ↦ strip true false cs
      | false ↦ elim (c == b'/' && d == b'/') [
        | true ↦ ([], false)
        | false ↦ elim (c == b'"') [
          | true ↦ keep c (strip false true (d ∷ cs))
          | false ↦ keep c (strip false false (d ∷ cs))
        ]
      ]
    ]
  ]
]

unfoldable pub preprocess_line : (line : Bytes) → (in_block : Bool) → Bytes × Bool
preprocess_line line in_block = strip in_block false line

-- `strstr`: the place of the first occurrence, with what stands before it.
unfoldable pub strstr : (before p word : Bytes) → Option (Bytes × Bytes)
strstr before [] word = if starts_with word [] then some (before, []) else none
strstr before (c ∷ cs) word =
    if starts_with word (c ∷ cs) then some (before, c ∷ cs) else strstr (c ∷ before) cs word

-- `strchr`
unfoldable pub strchr : (before p : Bytes) → (x : ℕ) → Option (Bytes × Bytes)
strchr before [] x = none
strchr before (c ∷ cs) x = if c == x then some (before, c ∷ cs) else strchr (c ∷ before) cs x
