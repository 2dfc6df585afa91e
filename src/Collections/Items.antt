-- ===== src/Collections/Items.antt =====
-- The vector of src/collections.c stands for the list of its items: what get, push with room left, and
-- remove do to that list.
use owned_c.Base.{
  ℕ, ◌+◌, ◌*◌, ◌%◌, ◌≤◌, ◌<◌, ◌≡◌, ◌≢◌, refl, sym, ◌∙◌, true, false, none, some, List, [], ◌∷◌,
  ◌++◌, arith, ltb, leb, ◌==◌, length, get_elem?, length-append, ne→==, inl, inr, ==→eq, ==→ne,
  Bool-cases, get_elem?-append_last, get_elem?-append_before, get_elem?-inside, get_elem?-outside,
}
use owned_c.Runtime.State.{Ptr, null, meta_size, size_mod, is_freed, Block, Body, holds, State}
use owned_c.Runtime.Command.{ok, exited, set_cell, diagnostics_fatal}
use owned_c.Runtime.Misuse.{reported}
use owned_c.Objects.{Object, Vector, vector, pointers, block_of, pointer_at, written_at}
use owned_c.Objects.Access.{read_vector-ok, assign-ok, read_pointer-ok, write_pointer-ok}
use owned_c.Collections.{vector_size, append_item, this_file, safe_vector_push, safe_vector_get}

-- The items `xs` are stored for a vector at `vec` with the fields `v`: its structure and its buffer are
-- two blocks that are not freed, the buffer has room for the capacity, and the first items of the
-- buffer are the list.
pub record IsStored (s : State Object) (vec : Ptr) (v : Vector) (xs : List Ptr) : Type 0 where
  pub frame : Block Object
  pub frame_here : s.cells (block_of vec) ≡ some frame
  pub frame_alive : is_freed frame.header.state ≡ false
  pub frame_room : meta_size + vector_size ≤ frame.room
  pub store : Block Object
  pub store_here : s.cells (block_of v.items) ≡ some store
  pub store_alive : is_freed store.header.state ≡ false
  pub store_room : meta_size + 8 * v.capacity ≤ store.room
  pub apart : block_of vec ≢ block_of v.items
  pub nonnull : vec ≢ null
  pub buffer : v.items ≢ null
  pub count : v.length ≡ length xs
  pub in_capacity : v.length ≤ v.capacity
  pub small : v.capacity < size_mod
  pub stored : (i : ℕ) → i < length xs → pointer_at store.body i ≡ get_elem? xs i

-- The vector at `vec` holds the items `xs`: they are stored for it, and its structure has the fields.
pub record IsVector (s : State Object) (vec : Ptr) (v : Vector) (xs : List Ptr) : Type 0 where
  pub parts : IsStored s vec v xs
  pub fields : parts.frame.body ≡ holds (vector v)

module _ {s : State Object} {vec : Ptr} {v : Vector} {xs : List Ptr} (r : IsStored s vec v xs) where
  -- Writing an item behind the others puts it at the end of the list.
  pub append_item-ok :
      (item : Ptr)
      → length xs < v.capacity
      → (t : State Object) × (append_item vec v item s ≡ ok tt t)
        × IsVector t vec (record v { length = (v.length + 1) % size_mod }) (xs ++ item ∷ [])
        × ((x : Ptr) → x ≢ block_of vec → x ≢ block_of v.items → t.cells x ≡ s.cells x)
  unfolding append_item
  append_item-ok item room =
      let w : Vector = record v { length = (v.length + 1) % size_mod } in
      let frame' : Block Object = record r.frame { body = holds (vector w) } in
      let body' : Body Object =
        holds (pointers (written_at (pointer_at r.store.body) v.length item)) in
      let store' : Block Object = record r.store { body = body' } in
      let s' : State Object = set_cell (block_of vec) (some frame') s in
      let there : s'.cells (block_of v.items) ≡ some r.store =
        ground (arith, r.store_here, r.apart) in
      (
        set_cell (block_of v.items) (some store') s',
        rw (
          assign-ok vec s r.frame_here r.frame_alive vector_size (vector w) r.frame_room,
          write_pointer-ok v.items s' there r.store_alive v.length item
              (omega (arith, r.store_room, r.count, room)),
        ),
        record {
          parts = record {
            frame = frame';
            frame_here = ground (arith, r.apart);
            frame_alive = r.frame_alive;
            frame_room = r.frame_room;
            store = store';
            store_here = ground arith;
            store_alive = r.store_alive;
            store_room = r.store_room;
            apart = r.apart;
            nonnull = r.nonnull;
            buffer = r.buffer;
            count = omega (arith, r.count, r.small, length-append xs (item ∷ []));
            in_capacity = omega (arith, r.count, r.small, room);
            small = r.small;
            stored = λ i lt. elim (Bool-cases (i == v.length)) [
              | inl e ↦
                  let last : i ≡ length xs = omega (arith, ==→eq i v.length e, r.count) in
                  rw (e, last) (sym (get_elem?-append_last xs item))
              | inr e ↦
                  let before : i < length xs =
                    omega (arith, ==→ne i v.length e, r.count, length-append xs (item ∷ []), lt) in
                  rw e (r.stored i before ∙ sym (get_elem?-append_before xs (item ∷ []) i before))
            ];
          };
          fields = refl;
        },
        λ x d e. ground arith,
      )

module _ {s : State Object} {vec : Ptr} {v : Vector} {xs : List Ptr} (r : IsVector s vec v xs) where
  -- An index within the list gives the item there, and changes nothing.
  safe_vector_get-ok :
      (i : ℕ) {x : Ptr} → i < length xs → get_elem? xs i ≡ some x → safe_vector_get vec i s ≡ ok x s
  unfolding safe_vector_get
  safe_vector_get-ok i lt e =
      let inside : leb v.length i ≡ false = ground (arith, r.parts.count) in
      rw (
        ne→== vec null r.parts.nonnull,
        read_vector-ok vec s r.parts.frame_here r.parts.frame_alive r.fields,
        inside,
        read_pointer-ok v.items s r.parts.store_here r.parts.store_alive i
            (omega (arith, r.parts.store_room, r.parts.count, r.parts.in_capacity))
            (r.parts.stored i lt ∙ e),
      )

  safe_vector_get-outside :
      (i : ℕ)
      → length xs ≤ i
      → safe_vector_get vec i s
        ≡ exited 1 (reported "Out-of-bounds safe_vector access" vec this_file 45 s)
  unfolding safe_vector_get diagnostics_fatal
  safe_vector_get-outside i le =
      let outside : leb v.length i ≡ true = ground (arith, r.parts.count) in
      rw
        (
          ne→== vec null r.parts.nonnull,
          read_vector-ok vec s r.parts.frame_here r.parts.frame_alive r.fields,
          outside,
        )
        (ground arith)

  -- Reading an index gives the item of the list there and changes nothing, or, behind the end of the
  -- list, ends the process with the report "Out-of-bounds safe_vector access".
  pub safe_vector_get_lem :
      (i : ℕ)
      → safe_vector_get vec i s ≡ (elim (get_elem? xs i) [
        | some x ↦ ok x s
        | none ↦ exited 1 (reported "Out-of-bounds safe_vector access" vec this_file 45 s)
      ])
  safe_vector_get_lem i = elim (Bool-cases (ltb i (length xs))) [
    | inl e ↦
        let (x, there) = get_elem?-inside xs i (ground arith) in
        rw there (safe_vector_get-ok i (ground arith) there)
    | inr e ↦ rw (get_elem?-outside xs i (ground arith)) (safe_vector_get-outside i (ground arith))
  ]

  -- With room left a push returns, the list has the item at its end, and no block but the two of the
  -- vector is touched.
  pub safe_vector_push-ok :
      (item : Ptr)
      → length xs < v.capacity
      → (t : State Object) × (safe_vector_push vec item s ≡ ok tt t)
        × IsVector t vec (record v { length = (v.length + 1) % size_mod }) (xs ++ item ∷ [])
        × ((x : Ptr) → x ≢ block_of vec → x ≢ block_of v.items → t.cells x ≡ s.cells x)
  unfolding safe_vector_push
  safe_vector_push-ok item room =
      let roomy : leb v.capacity v.length ≡ false = ground (arith, r.parts.count) in
      let (t, run, holds_items, others) = append_item-ok r.parts item room in
      (
        t,
        rw
            (
              ne→== vec null r.parts.nonnull,
              read_vector-ok vec s r.parts.frame_here r.parts.frame_alive r.fields,
              roomy,
            )
            run,
        holds_items,
        others,
      )
