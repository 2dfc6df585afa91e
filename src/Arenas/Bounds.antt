-- ===== src/Arenas/Bounds.antt =====
-- `ownedc_arena_alloc` of src/ownedc_arena.c hands out addresses inside its current block, each behind
-- those that it handed out before.
use owned_c.Base.{ℕ, ◌+◌, ◌%◌, ◌≤◌, ◌<◌, ◌≡◌, ◌≢◌, refl, true, false, some, arith, leb, ne→==}
use owned_c.Runtime.State.{Ptr, null, meta_size, size_mod, is_freed, Block, holds, State}
use owned_c.Runtime.Command.{ok, set_cell}
use owned_c.Objects.{Object, Arena, ArenaBlock, arena, arena_block, block_of}
use owned_c.Objects.Access.{read_arena-ok, read_arena_block-ok, assign-ok}
use owned_c.Arenas.{block_header, aligned_size, use_bytes, ownedc_arena_alloc}

-- A size is rounded up to the next multiple of 8, as long as that does not wrap.
aligned_size_lem :
    (size : ℕ) → size + 7 < size_mod → (aligned_size size % 8 ≡ 0) × (size ≤ aligned_size size)
unfolding aligned_size
aligned_size_lem size small = (omega arith, omega arith)

-- The arena at `a` has `g`, and its current block `h` is a block with room for its size.
pub record IsArena (s : State Object) (a : Ptr) (g : Arena) (h : ArenaBlock) : Type 0 where
  pub frame : Block Object
  pub frame_here : s.cells (block_of a) ≡ some frame
  pub frame_alive : is_freed frame.header.state ≡ false
  pub fields : frame.body ≡ holds (arena g)
  pub store : Block Object
  pub store_here : s.cells (block_of g.current) ≡ some store
  pub store_alive : is_freed store.header.state ≡ false
  pub store_room : meta_size + block_header + h.size ≤ store.room
  pub contents : store.body ≡ holds (arena_block h)
  pub apart : block_of a ≢ block_of g.current
  pub nonnull : a ≢ null
  pub current : g.current ≢ null
  pub in_size : h.used ≤ h.size
  pub multiple : h.used % 8 ≡ 0
  pub small : h.size < size_mod

module _ {s : State Object} {a : Ptr} {g : Arena} {h : ArenaBlock} (w : IsArena s a g h) where
  -- A request that fits into the current block of an arena, with sizes that do not wrap, returns the
  -- address behind the bytes in use. What is in use then grows by at least the size and stays a
  -- multiple of 8 within the block, so the bytes handed out before are not handed out again. Only that
  -- block is touched.
  pub ownedc_arena_alloc-ok :
      (size : ℕ)
      → size + 7 < size_mod
      → h.used + aligned_size size ≤ h.size
      → (t : State Object) × (h' : ArenaBlock) × (ownedc_arena_alloc a size s
          ≡ ok (g.current + block_header + h.used) t)
        × IsArena t a g h'
        × (h.used + size ≤ h'.used)
        × (h'.size ≡ h.size)
        × ((x : Ptr) → x ≢ block_of g.current → t.cells x ≡ s.cells x)
  unfolding ownedc_arena_alloc use_bytes
  ownedc_arena_alloc-ok size no_wrap fits =
      let (mult, big) = aligned_size_lem size no_wrap in
      let h' : ArenaBlock = record h { used = (h.used + aligned_size size) % size_mod } in
      let store' : Block Object = record w.store { body = holds (arena_block h') } in
      let inside : leb ((h.used + aligned_size size) % size_mod) h.size ≡ true =
        ground (arith, w.small) in
      (
        set_cell (block_of g.current) (some store') s,
        h',
        rw (
          ne→== a null w.nonnull,
          read_arena-ok a s w.frame_here w.frame_alive w.fields,
          ne→== g.current null w.current,
          read_arena_block-ok g.current s w.store_here w.store_alive w.contents,
          inside,
          read_arena_block-ok g.current s w.store_here w.store_alive w.contents,
          assign-ok g.current s w.store_here w.store_alive block_header (arena_block h')
              (omega (arith, w.store_room)),
        ),
        record {
          frame = w.frame;
          frame_here = ground (arith, w.frame_here, w.apart);
          frame_alive = w.frame_alive;
          fields = w.fields;
          store = store';
          store_here = ground arith;
          store_alive = w.store_alive;
          store_room = w.store_room;
          contents = refl;
          apart = w.apart;
          nonnull = w.nonnull;
          current = w.current;
          in_size = omega (arith, w.small);
          multiple = omega (arith, w.small, w.multiple, mult);
          small = w.small;
        },
        omega (arith, w.small, big),
        refl,
        λ x d. ground arith,
      )
