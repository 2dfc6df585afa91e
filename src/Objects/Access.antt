-- ===== src/Objects/Access.antt =====
-- The reads and writes of the structures and buffers of the containers, on a block that is there, not
-- freed, and large enough.
use owned_c.Base.{ℕ, ◌+◌, ◌*◌, ◌≤◌, ◌≡◌, false, some, arith}
use owned_c.Runtime.State.{Ptr, meta_size, is_freed, Block, holds, State}
use owned_c.Runtime.Command.{ok, set_cell}
use owned_c.Objects.{
  Arena, ArenaBlock, arena, arena_block, read_arena, read_arena_block, Object, Vector, vector, Node,
  node, Channel, channel, Region, region, Chunk, chunk, pointers, bytes, byte_at, write_byte,
  block_of, deref, assign, read_vector, read_node, read_channel, read_region, read_chunk,
  read_pointer, write_pointer, pointer_at, written_at,
}

module _ (p : Ptr) (s : State Object) {b : Block Object} (here : s.cells (block_of p) ≡ some b)
    (alive : is_freed b.header.state ≡ false) where
  pub deref-ok : {o : Object} → b.body ≡ holds o → deref p s ≡ ok o s
  unfolding deref
  deref-ok e = ground arith

  pub read_vector-ok : {v : Vector} → b.body ≡ holds (vector v) → read_vector p s ≡ ok v s
  unfolding read_vector
  read_vector-ok e = rw (deref-ok e)

  pub read_node-ok : {v : Node} → b.body ≡ holds (node v) → read_node p s ≡ ok v s
  unfolding read_node
  read_node-ok e = rw (deref-ok e)

  pub read_channel-ok : {v : Channel} → b.body ≡ holds (channel v) → read_channel p s ≡ ok v s
  unfolding read_channel
  read_channel-ok e = rw (deref-ok e)

  pub read_region-ok : {v : Region} → b.body ≡ holds (region v) → read_region p s ≡ ok v s
  unfolding read_region
  read_region-ok e = rw (deref-ok e)

  pub read_chunk-ok : {v : Chunk} → b.body ≡ holds (chunk v) → read_chunk p s ≡ ok v s
  unfolding read_chunk
  read_chunk-ok e = rw (deref-ok e)

  pub read_arena-ok : {v : Arena} → b.body ≡ holds (arena v) → read_arena p s ≡ ok v s
  unfolding read_arena
  read_arena-ok e = rw (deref-ok e)

  pub read_arena_block-ok :
      {v : ArenaBlock} → b.body ≡ holds (arena_block v) → read_arena_block p s ≡ ok v s
  unfolding read_arena_block
  read_arena_block-ok e = rw (deref-ok e)

  pub assign-ok :
      (size : ℕ) (o : Object)
      → meta_size + size ≤ b.room
      → assign p size o s ≡ ok tt (set_cell (block_of p) (some (record b { body = holds o })) s)
  unfolding assign
  assign-ok size o le = ground arith

  pub read_pointer-ok :
      (i : ℕ) {x : Ptr}
      → meta_size + 8 * (i + 1) ≤ b.room
      → pointer_at b.body i ≡ some x
      → read_pointer p i s ≡ ok x s
  unfolding read_pointer
  read_pointer-ok i le e = ground arith

  pub write_pointer-ok :
      (i : ℕ) (x : Ptr)
      → meta_size + 8 * (i + 1) ≤ b.room
      → write_pointer p i x s
        ≡ ok tt (
            set_cell
              (block_of p)
              (some (record b { body = holds (pointers (written_at (pointer_at b.body) i x)) }))
              s)
  unfolding write_pointer
  write_pointer-ok i x le = ground arith

  pub write_byte-ok :
      (i x : ℕ)
      → meta_size + i + 1 ≤ b.room
      → write_byte p i x s
        ≡ ok tt (
            set_cell
              (block_of p)
              (some (record b { body = holds (bytes (written_at (byte_at b.body) i x)) }))
              s)
  unfolding write_byte
  write_byte-ok i x le = ground arith
