-- ===== src/Arenas.antt =====
-- src/ownedc_arena.c: the arena, a list of blocks that grows at its end.
pub mod Bounds
use owned_c.Base.{ℕ, zero, suc, ◌+◌, ◌*◌, ◌/◌, ◌%◌, ltb, leb, ◌==◌, if◌then◌else◌}
use owned_c.Runtime.State.{Ptr, null, size_mod}
use owned_c.Runtime.Command.{◌>>=◌, ◌>>◌, pure, out_of_fuel}
use owned_c.Runtime.Alloc.{owner_malloc, owner_free}
use owned_c.Objects.{Act, Arena, arena, arena_block, read_arena, read_arena_block, assign}

-- `sizeof(ownedc_arena_t)`, and `sizeof(arena_block_t)`, which is where the data starts.
abbrev pub arena_size : ℕ
arena_size = 24

abbrev pub block_header : ℕ
block_header = 24

-- `(size + 7) & ~7`
unfoldable pub aligned_size : ℕ → ℕ
aligned_size size = (size + 7) % size_mod / 8 * 8

unfoldable pub allocate_block : (size : ℕ) → Act Ptr
allocate_block size = do
  b ← owner_malloc ((block_header + size) % size_mod)
  if b == null then pure null else do
    assign b block_header (arena_block (record { next = null; size = size; used = 0 }))
    pure b

unfoldable pub ownedc_arena_create : (block_size : ℕ) → Act Ptr
ownedc_arena_create block_size = do
  let size = if ltb block_size 1024 then 1024 else block_size
  a ← owner_malloc arena_size
  if a == null then pure null else do
    initial ← allocate_block size
    assign a arena_size
        (arena (record { head = initial; current = initial; default_block_size = size }))
    pure a

-- `used += n` in a block of the arena.
unfoldable pub use_bytes : (b : Ptr) → (n : ℕ) → Act Unit
use_bytes b n = do
  h ← read_arena_block b
  assign b block_header (arena_block (record h { used = (h.used + n) % size_mod }))

-- The rest of `ownedc_arena_alloc` when the current block is full.
unfoldable pub alloc_in_new_block : (a : Ptr) → Arena → (n : ℕ) → Act Ptr
alloc_in_new_block a g n = do
  b ← allocate_block (if ltb g.default_block_size n then n else g.default_block_size)
  if b == null then pure null else do
    h ← read_arena_block g.current
    assign g.current block_header (arena_block (record h { next = b }))
    assign a arena_size (arena (record g { current = b }))
    use_bytes b n
    pure (b + block_header)

unfoldable pub ownedc_arena_alloc : (a : Ptr) → (size : ℕ) → Act Ptr
ownedc_arena_alloc a size = if a == null then pure null else do
  g ← read_arena a
  if g.current == null then pure null else do
    h ← read_arena_block g.current
    if leb ((h.used + aligned_size size) % size_mod) h.size
        then (do use_bytes g.current (aligned_size size); pure (g.current + block_header + h.used))
        else alloc_in_new_block a g (aligned_size size)

-- `while (curr)`
unfoldable pub free_blocks : (fuel : ℕ) → Ptr → Act Unit
free_blocks zero b = λ _. out_of_fuel
free_blocks (suc k) b =
    if b == null then pure tt else do h ← read_arena_block b; owner_free b; free_blocks k h.next

unfoldable pub ownedc_arena_destroy : (fuel : ℕ) → (a : Ptr) → Act Unit
ownedc_arena_destroy fuel a =
    if a == null then pure tt else do g ← read_arena a; free_blocks fuel g.head; owner_free a
