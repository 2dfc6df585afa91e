-- ===== src/Arrays.antt =====
-- src/ownedc_array.c: the array that owns the blocks it points to.
use owned_c.Base.{ℕ, zero, suc, ◌+◌, ◌||◌, ltb, leb, ◌==◌, if◌then◌else◌}
use owned_c.Runtime.State.{Ptr, null, violation}
use owned_c.Runtime.Command.{◌>>=◌, ◌>>◌, pure, abort}
use owned_c.Runtime.Registry.{unless}
use owned_c.Runtime.Alloc.{owner_malloc, owner_calloc, owner_free}
use owned_c.Objects.{Act, array, read_array, assign, read_pointer, write_pointer}

-- `sizeof(owned_array_t)`
abbrev pub array_size : ℕ
array_size = 16

unfoldable pub owned_array_new : (capacity : ℕ) → Act Ptr
owned_array_new capacity = do
  arr ← owner_malloc array_size
  if arr == null
      then pure null
      else if ltb 0 capacity
      then (do
        items ← owner_calloc capacity 8
        if items == null then (do owner_free arr; pure null) else do
          assign arr array_size (array (record { items = items; capacity = capacity }))
          pure arr)
      else (do
        assign arr array_size (array (record { items = null; capacity = capacity }))
        pure arr)

unfoldable pub owned_array_set : (arr : Ptr) → (index : ℕ) → Ptr → Act Unit
owned_array_set arr index p = if arr == null then pure tt else do
  a ← read_array arr
  if leb a.capacity index
      then abort (violation "OWNEDC FATAL: Array bounds violation!" index a.capacity)
      else do
        x ← read_pointer a.items index
        unless (x == null || x == p) (owner_free x)
        write_pointer a.items index p

unfoldable pub owned_array_get : (arr : Ptr) → (index : ℕ) → Act Ptr
owned_array_get arr index = if arr == null then pure null else do
  a ← read_array arr
  if leb a.capacity index
      then abort (violation "OWNEDC FATAL: Array bounds violation!" index a.capacity)
      else read_pointer a.items index

-- The loop of `owned_array_free` over `n` indices from `i` on.
unfoldable pub free_items : (items : Ptr) → (n i : ℕ) → Act Unit
free_items items zero i = pure tt
free_items items (suc n) i = do
  x ← read_pointer items i
  unless (x == null) (do owner_free x; write_pointer items i null)
  free_items items n (i + 1)

unfoldable pub owned_array_free : (arr : Ptr) → Act Unit
owned_array_free arr = if arr == null then pure tt else do
  a ← read_array arr
  unless (a.items == null) (do
    free_items a.items a.capacity 0
    owner_free a.items
    assign arr array_size (array (record a { items = null })))
  owner_free arr

-- The cleanup of an `OWNED_ARRAY` variable, on the value that the variable holds.
unfoldable pub cleanup_owned_array_free : (arr : Ptr) → Act Unit
cleanup_owned_array_free arr = unless (arr == null) (owned_array_free arr)
