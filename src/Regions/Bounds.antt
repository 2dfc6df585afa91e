-- ===== src/Regions/Bounds.antt =====
-- `safe_region_alloc` of src/region.c hands out addresses inside its chunks, each behind those that it
-- handed out before.
use owned_c.Base.{ℕ, ◌+◌, ◌%◌, ◌≤◌, ◌<◌, ◌≡◌, ◌≢◌, refl, false, some, arith, ltb, ne→==}
use owned_c.Runtime.State.{Ptr, null, meta_size, size_mod, is_freed, Block, holds, State}
use owned_c.Runtime.Command.{ok, set_cell}
use owned_c.Objects.{Object, Region, Chunk, region, chunk, block_of}
use owned_c.Objects.Access.{read_region-ok, read_chunk-ok, assign-ok}
use owned_c.Regions.{region_size, chunk_header, aligned, bump, safe_region_alloc}

-- A size is rounded up to the next multiple of 8, as long as that does not wrap.
pub aligned_lem :
    (size : ℕ)
    → size + 7 < size_mod
    → (aligned size % 8 ≡ 0) × (size ≤ aligned size) × (aligned size < size + 8)
unfolding aligned
aligned_lem size small = (omega arith, omega arith, omega arith)

-- The region at `r` has `g`, and its chunk `h` is a block with room for its capacity.
pub record IsRegion (s : State Object) (r : Ptr) (g : Region) (h : Chunk) : Type 0 where
  pub frame : Block Object
  pub frame_here : s.cells (block_of r) ≡ some frame
  pub frame_alive : is_freed frame.header.state ≡ false
  pub frame_room : meta_size + region_size ≤ frame.room
  pub fields : frame.body ≡ holds (region g)
  pub store : Block Object
  pub store_here : s.cells (block_of g.current_chunk) ≡ some store
  pub store_alive : is_freed store.header.state ≡ false
  pub store_room : meta_size + chunk_header + h.capacity ≤ store.room
  pub contents : store.body ≡ holds (chunk h)
  pub apart : block_of r ≢ block_of g.current_chunk
  pub nonnull : r ≢ null
  pub in_capacity : h.used ≤ h.capacity
  pub multiple : h.used % 8 ≡ 0
  pub small : h.capacity < size_mod

module _ {s : State Object} {r : Ptr} {g : Region} {h : Chunk} (w : IsRegion s r g h) where
  -- A request other than zero that fits into the current chunk returns the address behind the bytes in
  -- use, a multiple of 8 from the start of the data. What is in use then grows by at least the size
  -- and stays within the chunk, so the bytes handed out before are not handed out again. Only the
  -- chunk is touched.
  pub safe_region_alloc-ok :
      (size : ℕ)
      → size ≢ 0
      → size + 7 < size_mod
      → h.used + aligned size ≤ h.capacity
      → (t : State Object) × (h' : Chunk) × (safe_region_alloc r size s
          ≡ ok (g.current_chunk + chunk_header + h.used) t)
        × IsRegion t r g h'
        × (h.used + size ≤ h'.used)
        × (h'.capacity ≡ h.capacity)
        × ((x : Ptr) → x ≢ block_of g.current_chunk → t.cells x ≡ s.cells x)
  unfolding safe_region_alloc bump
  safe_region_alloc-ok size some_bytes no_wrap fits =
      let (mult, big, near) = aligned_lem size no_wrap in
      let h' : Chunk = record h { used = (h.used + aligned size) % size_mod } in
      let store' : Block Object = record w.store { body = holds (chunk h') } in
      let inside : ltb h.capacity ((h.used + aligned size) % size_mod) ≡ false =
        ground (arith, w.small) in
      (
        set_cell (block_of g.current_chunk) (some store') s,
        h',
        rw (
          ne→== r null w.nonnull,
          ne→== size 0 some_bytes,
          read_region-ok r s w.frame_here w.frame_alive w.fields,
          read_chunk-ok g.current_chunk s w.store_here w.store_alive w.contents,
          inside,
          read_chunk-ok g.current_chunk s w.store_here w.store_alive w.contents,
          assign-ok g.current_chunk s w.store_here w.store_alive chunk_header (chunk h')
              (omega (arith, w.store_room)),
        ),
        record {
          frame = w.frame;
          frame_here = ground (arith, w.frame_here, w.apart);
          frame_alive = w.frame_alive;
          frame_room = w.frame_room;
          fields = w.fields;
          store = store';
          store_here = ground arith;
          store_alive = w.store_alive;
          store_room = w.store_room;
          contents = refl;
          apart = w.apart;
          nonnull = w.nonnull;
          in_capacity = omega (arith, w.small);
          multiple = omega (arith, w.small, w.multiple, mult);
          small = w.small;
        },
        omega (arith, w.small, big),
        refl,
        λ x d. ground arith,
      )
