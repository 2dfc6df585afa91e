-- ===== src/Objects.antt =====
-- The reads and writes of the user bytes of a block through a user pointer. A read of bytes that were
-- never written, of a freed block, or past the end of a block, and a write of the last two, are
-- undefined.
pub mod Access
pub mod Lifetime
pub mod Mine
pub mod Written
use owned_c.Base.{ℕ, ◌+◌, ◌-◌, ◌*◌, Bool, Option, none, some, ◌||◌, ltb, leb, ◌==◌, if◌then◌else◌}
use owned_c.Runtime.State.{Ptr, null, is_freed, meta_size, Body, filled, holds}
use owned_c.Runtime.Command.{Cmd, ok, fault, undefined, set_cell, ◌>>=◌, pure}
pub use owned_c.Structs.{
  Vector, Array, SafeString, Region, Chunk, Arena, ArenaBlock, Node, Channel, Counted, SafeFile,
  SafeSocket, SafeMutex, CleanupPolicy, cleanup_join, cleanup_detach, SafeThread, Future, Json,
  json_null, json_bool, json_number, json_string, json_array, json_object, Object, vector, array,
  safe_string, region, chunk, arena, arena_block, node, channel, counted, safe_file, safe_socket,
  safe_mutex, safe_thread, future, json, pointers, bytes,
}

abbrev pub Act : Type 0 → Type 0
Act = Cmd Object

-- The header address of a user pointer.
abbrev pub block_of : Ptr → Ptr
block_of p = p - meta_size

abbrev as_object : Body Object → Act Object
as_object (filled v n) = undefined
as_object (holds o) = pure o

-- `*p` for a structure.
unfoldable pub deref : Ptr → Act Object
deref p s = elim (s.cells (block_of p)) [
  | none ↦ fault
  | some b ↦ if is_freed b.header.state then fault else as_object b.body s
]

-- The fields behind a pointer to a structure of each type.
unfoldable pub read_vector : Ptr → Act Vector
read_vector p = do o ← deref p; elim o [ vector x ↦ pure x | _ ↦ undefined ]

unfoldable pub read_array : Ptr → Act Array
read_array p = do o ← deref p; elim o [ array x ↦ pure x | _ ↦ undefined ]

unfoldable pub read_safe_string : Ptr → Act SafeString
read_safe_string p = do o ← deref p; elim o [ safe_string x ↦ pure x | _ ↦ undefined ]

unfoldable pub read_region : Ptr → Act Region
read_region p = do o ← deref p; elim o [ region x ↦ pure x | _ ↦ undefined ]

unfoldable pub read_chunk : Ptr → Act Chunk
read_chunk p = do o ← deref p; elim o [ chunk x ↦ pure x | _ ↦ undefined ]

unfoldable pub read_arena : Ptr → Act Arena
read_arena p = do o ← deref p; elim o [ arena x ↦ pure x | _ ↦ undefined ]

unfoldable pub read_arena_block : Ptr → Act ArenaBlock
read_arena_block p = do o ← deref p; elim o [ arena_block x ↦ pure x | _ ↦ undefined ]

unfoldable pub read_node : Ptr → Act Node
read_node p = do o ← deref p; elim o [ node x ↦ pure x | _ ↦ undefined ]

unfoldable pub read_channel : Ptr → Act Channel
read_channel p = do o ← deref p; elim o [ channel x ↦ pure x | _ ↦ undefined ]

unfoldable pub read_counted : Ptr → Act Counted
read_counted p = do o ← deref p; elim o [ counted x ↦ pure x | _ ↦ undefined ]

-- `*p = o` for a structure of `size` bytes.
unfoldable pub assign : Ptr → (size : ℕ) → Object → Act Unit
assign p size o s = elim (s.cells (block_of p)) [
  | none ↦ fault
  | some b ↦
      if is_freed b.header.state || ltb b.room (meta_size + size)
      then fault
      else ok tt (set_cell (block_of p) (some (record b { body = holds o })) s)
]

-- What a buffer of pointers holds at an index: memory set to zero holds null pointers.
abbrev pub pointer_at : Body Object → ℕ → Option Ptr
pointer_at (filled v n) i =
    if v == 0 then (if leb (8 * (i + 1)) n then some null else none) else none
pointer_at (holds (pointers f)) i = f i
pointer_at (holds _) i = none

abbrev pub byte_at : Body Object → ℕ → Option ℕ
byte_at (filled v n) i = if ltb i n then some v else none
byte_at (holds (bytes f)) i = f i
byte_at (holds _) i = none

abbrev pub written_at : {B : Type 0} → (ℕ → Option B) → ℕ → B → ℕ → Option B
written_at f i x j = if j == i then some x else f j

abbrev or_undefined : {B : Type 0} → Option B → Act B
or_undefined none = undefined
or_undefined (some x) = pure x

-- `p[i]` for a buffer of pointers, of 8 bytes each.
unfoldable pub read_pointer : Ptr → (i : ℕ) → Act Ptr
read_pointer p i s = elim (s.cells (block_of p)) [
  | none ↦ fault
  | some b ↦
      if is_freed b.header.state || ltb b.room (meta_size + 8 * (i + 1))
      then fault
      else or_undefined (pointer_at b.body i) s
]

-- `p[i] = x`
unfoldable pub write_pointer : Ptr → (i : ℕ) → Ptr → Act Unit
write_pointer p i x s = elim (s.cells (block_of p)) [
  | none ↦ fault
  | some b ↦
      if is_freed b.header.state || ltb b.room (meta_size + 8 * (i + 1))
      then fault
      else ok tt (
          set_cell (block_of p)
            (some (record b { body = holds (pointers (written_at (pointer_at b.body) i x)) })) s)
]

-- The same for a buffer of bytes.
unfoldable pub read_byte : Ptr → (i : ℕ) → Act ℕ
read_byte p i s = elim (s.cells (block_of p)) [
  | none ↦ fault
  | some b ↦
      if is_freed b.header.state || ltb b.room (meta_size + i + 1)
      then fault
      else or_undefined (byte_at b.body i) s
]

unfoldable pub write_byte : Ptr → (i x : ℕ) → Act Unit
write_byte p i x s = elim (s.cells (block_of p)) [
  | none ↦ fault
  | some b ↦
      if is_freed b.header.state || ltb b.room (meta_size + i + 1)
      then fault
      else ok tt (
          set_cell (block_of p)
            (some (record b { body = holds (bytes (written_at (byte_at b.body) i x)) })) s)
]
