-- ===== src/Lint/Vars.antt =====
-- tools/ownedc_lint.c, the table of tracked variables: `add_tracked_var`, `mark_freed`,
-- `check_borrow`, the marking of returned variables, and the report of leaks.
use owned_c.Base.{
  ℕ, zero, suc, ◌-◌, Bool, true, false, not, ◌&&◌, Option, none, some, List, [], ◌∷◌, leb, ◌==◌,
  if◌then◌else◌, length,
}
use owned_c.Lint.Text.{Bytes, max_var_name}

pub data VarState : Type 0 where
  state_owned state_freed state_returned : VarState

abbrev pub is_state_owned : VarState → Bool
is_state_owned state_owned = true
is_state_owned _ = false

abbrev pub is_state_freed : VarState → Bool
is_state_freed state_freed = true
is_state_freed _ = false

-- `TrackedVar`
pub record TrackedVar : Type 0 where
  pub name : Bytes
  pub state : VarState
  pub line_allocated : ℕ
  pub is_raii : Bool

abbrev pub max_vars : ℕ
max_vars = 1024

-- `strcmp(a, b) == 0`
unfoldable pub same_bytes : Bytes → Bytes → Bool
same_bytes [] [] = true
same_bytes [] (b ∷ bs) = false
same_bytes (a ∷ as_) [] = false
same_bytes (a ∷ as_) (b ∷ bs) = (a == b) && same_bytes as_ bs

abbrev pub take : ℕ → Bytes → Bytes
take zero cs = []
take (suc n) [] = []
take (suc n) (c ∷ cs) = c ∷ take n cs

abbrev pub find_var : (name : Bytes) → List TrackedVar → Option TrackedVar
find_var name [] = none
find_var name (v ∷ vs) = if same_bytes v.name name then some v else find_var name vs

abbrev pub fresh_var : (name : Bytes) → (line : ℕ) → (is_raii : Bool) → TrackedVar
fresh_var name line is_raii = record {
  name = take (max_var_name - 1) name;
  state = state_owned;
  line_allocated = line;
  is_raii = is_raii;
}

-- The loop of `add_tracked_var`, and what follows it.
unfoldable pub put_var :
    (name : Bytes) → (line : ℕ) → (is_raii : Bool) → List TrackedVar → List TrackedVar
put_var name line is_raii [] = fresh_var name line is_raii ∷ []
put_var name line is_raii (v ∷ vs) =
    let rest = put_var name line is_raii vs in
    if same_bytes v.name name
    then record v { state = state_owned; line_allocated = line; is_raii = is_raii } ∷ vs
    else v ∷ rest

unfoldable pub add_tracked_var :
    (name : Bytes) → (line : ℕ) → (is_raii : Bool) → List TrackedVar → List TrackedVar
add_tracked_var name line is_raii vs =
    if leb max_vars (length vs) then vs else put_var name line is_raii vs

-- The table after the call, and whether it reports a double free.
unfoldable pub mark_freed : (name : Bytes) → List TrackedVar → List TrackedVar × Bool
mark_freed name [] = ([], false)
mark_freed name (v ∷ vs) =
    let (ws, twice) = mark_freed name vs in
    if same_bytes v.name name
    then (if is_state_freed v.state
        then (v ∷ vs, true)
        else (record v { state = state_freed } ∷ vs, false))
    else (v ∷ ws, twice)

-- Whether the call reports a use after free.
unfoldable pub check_borrow : (name : Bytes) → List TrackedVar → Bool
check_borrow name [] = false
check_borrow name (v ∷ vs) =
    if same_bytes v.name name then is_state_freed v.state else check_borrow name vs

-- Every entry with the name of a returned variable.
unfoldable pub mark_returned : (name : Bytes) → List TrackedVar → List TrackedVar
mark_returned name [] = []
mark_returned name (v ∷ vs) =
    (if same_bytes v.name name then record v { state = state_returned } else v)
    ∷ mark_returned name vs

-- The entries that are reported as leaks at the end of a function.
abbrev pub is_leaked : TrackedVar → Bool
is_leaked v = is_state_owned v.state && not v.is_raii

unfoldable pub leaked : List TrackedVar → List TrackedVar
leaked [] = []
leaked (v ∷ vs) = let rest = leaked vs in if is_leaked v then v ∷ rest else rest
