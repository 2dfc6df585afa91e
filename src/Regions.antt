-- ===== src/Regions.antt =====
-- src/region.c: allocation from chunks that are freed together.
pub mod Bounds
use owned_c.Base.{ℕ, zero, suc, ◌+◌, ◌*◌, ◌/◌, ◌%◌, ◌||◌, ltb, ◌==◌, if◌then◌else◌}
use owned_c.Runtime.State.{Ptr, null, size_mod}
use owned_c.Runtime.Command.{◌>>=◌, ◌>>◌, pure, out_of_fuel}
use owned_c.Runtime.Alloc.{owner_malloc, owner_free}
use owned_c.Objects.{Act, region, chunk, read_region, read_chunk, assign}

-- `sizeof(safe_region_t)`, and `sizeof(safe_region_chunk_t)`, which is where the data starts.
abbrev pub region_size : ℕ
region_size = 16

abbrev pub chunk_header : ℕ
chunk_header = 24

-- `(size + 7) & ~7`
unfoldable pub aligned : ℕ → ℕ
aligned size = (size + 7) % size_mod / 8 * 8

-- The chunk that `safe_region_create` and `safe_region_alloc` make, or a null pointer.
unfoldable pub new_chunk : (capacity : ℕ) → (next : Ptr) → Act Ptr
new_chunk capacity next = do
  c ← owner_malloc ((chunk_header + capacity) % size_mod)
  if c == null then pure null else do
    assign c chunk_header (chunk (record { used = 0; capacity = capacity; next = next }))
    pure c

unfoldable pub safe_region_create : (chunk_size : ℕ) → Act Ptr
safe_region_create chunk_size = do
  let size = if chunk_size == 0 then 4096 else chunk_size
  r ← owner_malloc region_size
  if r == null then pure null else do
    first ← new_chunk size null
    if first == null then (do owner_free r; pure null) else do
      assign r region_size (region (record { current_chunk = first; chunk_size = size }))
      pure r

-- The last lines of `safe_region_alloc`.
unfoldable pub bump : (c : Ptr) → (size : ℕ) → Act Ptr
bump c size = do
  h ← read_chunk c
  assign c chunk_header (chunk (record h { used = (h.used + size) % size_mod }))
  pure (c + chunk_header + h.used)

unfoldable pub safe_region_alloc : (r : Ptr) → (size : ℕ) → Act Ptr
safe_region_alloc r size = if r == null || size == 0 then pure null else do
  g ← read_region r
  h ← read_chunk g.current_chunk
  if ltb h.capacity ((h.used + aligned size) % size_mod)
      then (do
        c ←
            new_chunk (if ltb g.chunk_size (aligned size) then aligned size else g.chunk_size)
              g.current_chunk
        if c == null then pure null else do
          assign r region_size (region (record g { current_chunk = c }))
          bump c (aligned size))
      else bump g.current_chunk (aligned size)

-- `while (chunk)`
unfoldable pub free_chunks : (fuel : ℕ) → Ptr → Act Unit
free_chunks zero c = λ _. out_of_fuel
free_chunks (suc k) c =
    if c == null then pure tt else do h ← read_chunk c; owner_free c; free_chunks k h.next

unfoldable pub safe_region_free : (fuel : ℕ) → (r : Ptr) → Act Unit
safe_region_free fuel r =
    if r == null
    then pure tt
    else do g ← read_region r; free_chunks fuel g.current_chunk; owner_free r
