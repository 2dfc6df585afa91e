-- ===== src/Collections.antt =====
-- src/collections.c: the vector of pointers, over the allocation calls. `__FILE__` is the path that
-- the compiler was given.
pub mod Items
pub mod Growth
pub mod Removal
use owned_c.Base.{ℕ, zero, suc, ◌+◌, ◌-◌, ◌*◌, ◌%◌, Option, some, leb, ◌==◌, if◌then◌else◌, String}
use owned_c.Runtime.State.{Ptr, null, size_mod, text, violation}
use owned_c.Runtime.Command.{◌>>=◌, ◌>>◌, pure, abort, diagnostics_fatal}
use owned_c.Runtime.Registry.{unless}
use owned_c.Runtime.Alloc.{owner_malloc, owner_realloc, owner_free}
use owned_c.Objects.{Act, Vector, vector, read_vector, assign, read_pointer, write_pointer}

-- `sizeof(safe_vector_t)`
abbrev pub vector_size : ℕ
vector_size = 24

abbrev pub this_file : Option String
this_file = some "src/collections.c"

unfoldable pub safe_vector_create : (initial_capacity : ℕ) → Act Ptr
safe_vector_create initial_capacity = do
  let capacity = if initial_capacity == 0 then 4 else initial_capacity
  vec ← owner_malloc vector_size
  if vec == null then pure null else do
    items ← owner_malloc (capacity * 8 % size_mod)
    if items == null then (do owner_free vec; pure null) else do
      assign vec vector_size (vector (record { items = items; length = 0; capacity = capacity }))
      pure vec

-- The branch of `safe_vector_push` for a full buffer.
unfoldable pub grow : (vec : Ptr) → Vector → Act Vector
grow vec v = do
  let new_cap = v.capacity * 2 % size_mod
  new_data ← owner_realloc v.items (new_cap * 8 % size_mod)
  if new_data == null
      then diagnostics_fatal "Failed to reallocate safe_vector" vec this_file 31
      else pure (record v { items = new_data; capacity = new_cap })

-- `vec->data[vec->length++] = item`
unfoldable pub append_item : (vec : Ptr) → Vector → (item : Ptr) → Act Unit
append_item vec w item = do
  assign vec vector_size (vector (record w { length = (w.length + 1) % size_mod }))
  write_pointer w.items w.length item

unfoldable pub safe_vector_push : (vec item : Ptr) → Act Unit
safe_vector_push vec item = if vec == null then pure tt else do
  v ← read_vector vec
  w ← if leb v.capacity v.length then grow vec v else pure v
  append_item vec w item

unfoldable pub safe_vector_get : (vec : Ptr) → (index : ℕ) → Act Ptr
safe_vector_get vec index = if vec == null then pure null else do
  v ← read_vector vec
  if leb v.length index
      then diagnostics_fatal "Out-of-bounds safe_vector access" vec this_file 45
      else read_pointer v.items index

unfoldable pub safe_vector_free : (vec : Ptr) → Act Unit
safe_vector_free vec =
    if vec == null
    then pure tt
    else do v ← read_vector vec; unless (v.items == null) (owner_free v.items); owner_free vec

-- `data[i] = data[i + 1]` for `n` indices from `i` on.
unfoldable pub shift_left : (items : Ptr) → (n i : ℕ) → Act Unit
shift_left items zero i = pure tt
shift_left items (suc n) i = do
  x ← read_pointer items (i + 1)
  write_pointer items i x
  shift_left items n (i + 1)

unfoldable pub safe_vector_remove : (vec : Ptr) → (index : ℕ) → Act Unit
safe_vector_remove vec index =
    if vec == null then abort (text "OWNEDC FATAL: Null vector access.") else do
      v ← read_vector vec
      if v.items == null
          then abort (text "OWNEDC FATAL: Null vector access.")
          else if leb v.length index
          then abort (violation "OWNEDC FATAL: Vector bounds violation!" index v.length)
          else do
            shift_left v.items (v.length - 1 - index) index
            assign vec vector_size (vector (record v { length = v.length - 1 }))

unfoldable pub safe_vector_length : (vec : Ptr) → Act ℕ
safe_vector_length vec = if vec == null then pure 0 else (do v ← read_vector vec; pure v.length)
