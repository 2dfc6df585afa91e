-- ===== src/Lint/Table.antt =====
-- The table of tracked variables of tools/ownedc_lint.c stands for a map from names to variables.
use owned_c.Base.{
  ℕ, zero, suc, ◌+◌, ◌≤◌, ◌<◌, ◌≡◌, refl, ap, fun_ext, ◌∙◌, Bool, true, false, Option, none, some,
  List, [], ◌∷◌, arith, if◌then◌else◌, inl, inr, Bool-cases, length,
}
use owned_c.Lint.Text.{Bytes, max_var_name}
use owned_c.Lint.Vars.{
  TrackedVar, VarState, state_freed, state_returned, is_state_freed, max_vars, same_bytes, take,
  find_var, fresh_var, put_var, add_tracked_var, mark_freed, check_borrow, mark_returned,
}

pub same_bytes-eq : (a b : Bytes) → same_bytes a b ≡ true → a ≡ b
unfolding same_bytes
same_bytes-eq [] [] e = refl
same_bytes-eq [] (b ∷ bs) e = cc
same_bytes-eq (a ∷ xs) [] e = cc
same_bytes-eq (a ∷ xs) (b ∷ bs) e = ground (arith, same_bytes-eq xs bs)

pub same_bytes_refl : (a : Bytes) → same_bytes a a ≡ true
unfolding same_bytes
same_bytes_refl [] = refl
same_bytes_refl (a ∷ xs) = ground (arith, same_bytes_refl xs)

-- What the code does to one table, in the order of the lines.
pub data Use : Type 0 where
  alloc : (name : Bytes) (line : ℕ) (is_raii : Bool) → Use
  free : (name : Bytes) → Use
  borrow : (name : Bytes) → Use
  return_of : (name : Bytes) → Use

-- The table after a use, and whether the use is reported as an error.
abbrev pub use_table : Use → List TrackedVar → List TrackedVar × Bool
use_table (alloc name line is_raii) vs = (add_tracked_var name line is_raii vs, false)
use_table (free name) vs = mark_freed name vs
use_table (borrow name) vs = (vs, check_borrow name vs)
use_table (return_of name) vs = (mark_returned name vs, false)

abbrev pub after_all : List Use → List TrackedVar → List TrackedVar
after_all [] vs = vs
after_all (u ∷ us) vs = after_all us (use_table u vs).0

-- The map from names to variables: an allocation makes a variable owned, whatever it was; a free and
-- a return change what is known.
abbrev pub Vars : Type 0
Vars = Bytes → Option TrackedVar

abbrev pub with_state : VarState → Option TrackedVar → Option TrackedVar
with_state st none = none
with_state st (some v) = some (record v { state = st })

abbrev pub is_gone : Option TrackedVar → Bool
is_gone none = false
is_gone (some v) = is_state_freed v.state

abbrev pub use_map : Use → Vars → Vars
use_map (alloc name line is_raii) m n =
    if same_bytes name n then some (fresh_var name line is_raii) else m n
use_map (free name) m n = if same_bytes name n then with_state state_freed (m n) else m n
use_map (borrow name) m n = m n
use_map (return_of name) m n = if same_bytes name n then with_state state_returned (m n) else m n

abbrev pub reports : Use → Vars → Bool
reports (free name) m = is_gone (m name)
reports (borrow name) m = is_gone (m name)
reports _ m = false

abbrev pub map_all : List Use → Vars → Vars
map_all [] m = m
map_all (u ∷ us) m = map_all us (use_map u m)

length-put_var :
    (name : Bytes) (line : ℕ) (is_raii : Bool) (vs : List TrackedVar)
    → length (put_var name line is_raii vs) ≤ length vs + 1
unfolding put_var
length-put_var name line is_raii [] = omega arith
length-put_var name line is_raii (v ∷ vs) = ground (arith, length-put_var name line is_raii vs)

length-mark_freed :
    (name : Bytes) (vs : List TrackedVar) → length (mark_freed name vs).0 ≡ length vs
unfolding mark_freed
length-mark_freed name [] = refl
length-mark_freed name (v ∷ vs) = ground (arith, length-mark_freed name vs)

length-mark_returned :
    (name : Bytes) (vs : List TrackedVar) → length (mark_returned name vs) ≡ length vs
unfolding mark_returned
length-mark_returned name [] = refl
length-mark_returned name (v ∷ vs) = ground (arith, length-mark_returned name vs)

take_all : (n : ℕ) (cs : Bytes) → length cs ≤ n → take n cs ≡ cs
take_all zero [] le = refl
take_all zero (c ∷ cs) le = absurd (omega arith)
take_all (suc n) [] le = refl
take_all (suc n) (c ∷ cs) le = ap (λ xs. c ∷ xs) (take_all n cs (omega arith))

-- `same_bytes` of what equals either of two names decides as it does of them.
same_as : (a b c : Bytes) → same_bytes a b ≡ true → same_bytes a c ≡ same_bytes b c
same_as a b c e = rw (same_bytes-eq a b e)

same_apart :
    (a b c : Bytes) → same_bytes a b ≡ false → same_bytes b c ≡ true → same_bytes a c ≡ false
same_apart a b c e f = rw (← same_bytes-eq b c f) e

find_var-put_var :
    (name n : Bytes) (line : ℕ) (is_raii : Bool) (vs : List TrackedVar)
    → length name < max_var_name
    → find_var n (put_var name line is_raii vs)
      ≡ (if same_bytes name n then some (fresh_var name line is_raii) else find_var n vs)
unfolding put_var
find_var-put_var name n line is_raii [] short = rw (take_all 127 name (omega arith)) (refl)
find_var-put_var name n line is_raii (v ∷ vs) short = elim (Bool-cases (same_bytes v.name name)) [
  | inl e ↦
      ground (
        arith,
        same_as v.name name n e,
        same_bytes-eq v.name name e,
        take_all 127 name (omega arith),
      )
  | inr e ↦
      ground (arith, same_apart v.name name n e, find_var-put_var name n line is_raii vs short)
]

find_var-mark_freed :
    (name n : Bytes) (vs : List TrackedVar)
    → find_var n (mark_freed name vs).0
      ≡ (if same_bytes name n then with_state state_freed (find_var n vs) else find_var n vs)
unfolding mark_freed
find_var-mark_freed name n [] = ground arith
find_var-mark_freed name n (v ∷ vs) = elim (Bool-cases (same_bytes v.name name)) [
  | inl e ↦ ground (arith, same_as v.name name n e, find_var-mark_freed name n vs)
  | inr e ↦ ground (arith, same_apart v.name name n e, find_var-mark_freed name n vs)
]

mark_freed-gone :
    (name : Bytes) (vs : List TrackedVar) → (mark_freed name vs).1 ≡ is_gone (find_var name vs)
unfolding mark_freed
mark_freed-gone name [] = refl
mark_freed-gone name (v ∷ vs) = ground (arith, mark_freed-gone name vs)

check_borrow-gone :
    (name : Bytes) (vs : List TrackedVar) → check_borrow name vs ≡ is_gone (find_var name vs)
unfolding check_borrow
check_borrow-gone name [] = refl
check_borrow-gone name (v ∷ vs) = ground (arith, check_borrow-gone name vs)

find_var-mark_returned :
    (name n : Bytes) (vs : List TrackedVar)
    → find_var n (mark_returned name vs)
      ≡ (if same_bytes name n then with_state state_returned (find_var n vs) else find_var n vs)
unfolding mark_returned
find_var-mark_returned name n [] = ground arith
find_var-mark_returned name n (v ∷ vs) = elim (Bool-cases (same_bytes v.name name)) [
  | inl e ↦ ground (arith, same_as v.name name n e, find_var-mark_returned name n vs)
  | inr e ↦ ground (arith, same_apart v.name name n e, find_var-mark_returned name n vs)
]

abbrev ShortNames : Use → Type 0
ShortNames (alloc name line is_raii) = length name < max_var_name
ShortNames _ = Unit

abbrev pub Short : List Use → Type 0
Short [] = Unit
Short (u ∷ us) = ShortNames u × Short us

step_lem :
    (u : Use) (vs : List TrackedVar) (n : Bytes)
    → ShortNames u
    → length vs < max_vars
    → find_var n (use_table u vs).0 ≡ use_map u (λ m. find_var m vs) n
unfolding add_tracked_var
step_lem (alloc name line is_raii) vs n short room =
    ground (arith, find_var-put_var name n line is_raii vs short)
step_lem (free name) vs n short room = find_var-mark_freed name n vs
step_lem (borrow name) vs n short room = refl
step_lem (return_of name) vs n short room = find_var-mark_returned name n vs

length-step : (u : Use) (vs : List TrackedVar) → length (use_table u vs).0 ≤ length vs + 1
unfolding add_tracked_var
length-step (alloc name line is_raii) vs = ground (arith, length-put_var name line is_raii vs)
length-step (free name) vs = omega (arith, length-mark_freed name vs)
length-step (borrow name) vs = omega arith
length-step (return_of name) vs = omega (arith, length-mark_returned name vs)

step_reports :
    (u : Use) (vs : List TrackedVar) → (use_table u vs).1 ≡ reports u (λ m. find_var m vs)
step_reports (alloc name line is_raii) vs = refl
step_reports (free name) vs = mark_freed-gone name vs
step_reports (borrow name) vs = check_borrow-gone name vs
step_reports (return_of name) vs = refl

after_all_lem :
    (us : List Use) (vs : List TrackedVar)
    → Short us
    → length us + length vs < max_vars + 1
    → (λ n. find_var n (after_all us vs)) ≡ map_all us (λ n. find_var n vs)
after_all_lem [] vs short room = refl
after_all_lem (u ∷ us) vs (one, short) room =
    after_all_lem us (use_table u vs).0 short (omega (arith, length-step u vs))
    ∙ ap (map_all us) (fun_ext (λ n. step_lem u vs n one (omega arith)))

-- A function with at most 1024 uses of names that fit into an entry: every name is then found in the
-- table as in the map, and the next use is reported as an error exactly when it frees or borrows a
-- variable that the map says was freed.
pub use_table_lem :
    (us : List Use) (u : Use)
    → Short us
    → length us ≤ max_vars
    → ((n : Bytes) → find_var n (after_all us []) ≡ map_all us (λ _. none) n)
      × ((use_table u (after_all us [])).1 ≡ reports u (map_all us (λ _. none)))
use_table_lem us u short few =
    let same = after_all_lem us [] short (omega arith) in
    (λ n. ap (λ (m : Vars). m n) same, step_reports u (after_all us []) ∙ ap (reports u) same)
