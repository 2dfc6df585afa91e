-- ===== src/Collections/Removal.antt =====
-- `safe_vector_remove` of src/collections.c: the items behind the index move down by one.
use owned_c.Base.{
  ℕ, zero, suc, ◌+◌, ◌-◌, ◌*◌, ◌≤◌, ◌<◌, ◌≡◌, ◌≢◌, refl, sym, ap, ◌∙◌, false, some, List, arith,
  ltb, leb, ◌==◌, length, get_elem?, inl, inr, ne→==, Bool-cases, get_elem?-inside, remove_at,
  length-remove_at, get_elem?-remove_at_before, get_elem?-remove_at_behind,
}
use owned_c.Runtime.State.{Ptr, null, meta_size, is_freed, Meta, Block, holds, State}
use owned_c.Runtime.Command.{ok, set_cell}
use owned_c.Objects.{Object, Vector, vector, pointers, block_of, pointer_at, written_at}
use owned_c.Objects.Access.{read_vector-ok, assign-ok, read_pointer-ok, write_pointer-ok}
use owned_c.Collections.{vector_size, safe_vector_remove, shift_left}
use owned_c.Collections.Items.{IsVector}

-- What the loop leaves of a buffer: the same block with the pointers of a range moved down.
record Shifted (s t : State Object) (items : Ptr) (store : Block Object) (n i : ℕ) : Type 0 where
  pub block : Block Object
  pub here : t.cells (block_of items) ≡ some block
  pub header : block.header ≡ store.header
  pub room : block.room ≡ store.room
  pub inside : (j : ℕ) → i ≤ j → j < i + n → pointer_at block.body j ≡ pointer_at store.body (j + 1)
  pub before : (j : ℕ) → j < i → pointer_at block.body j ≡ pointer_at store.body j
  pub others : (x : Ptr) → x ≢ block_of items → t.cells x ≡ s.cells x

shift_left-ok :
    (items : Ptr) (n i : ℕ) (s : State Object) (store : Block Object)
    → s.cells (block_of items) ≡ some store
    → is_freed store.header.state ≡ false
    → meta_size + 8 * (i + n + 1) ≤ store.room
    → ((j : ℕ) → j ≤ i + n → (x : Ptr) × (pointer_at store.body j ≡ some x))
    → (t : State Object) × (shift_left items n i s ≡ ok tt t) × Shifted s t items store n i
unfolding shift_left
shift_left-ok items zero i s store here alive room known = (
  s,
  refl,
  record {
    block = store;
    here = here;
    header = refl;
    room = refl;
    inside = λ j le lt. ground arith;
    before = λ j lt. refl;
    others = λ x d. refl;
  },
)
shift_left-ok items (suc n) i s store here alive room known =
    let (x, e) = known (i + 1) (omega arith) in
    let store' : Block Object = record store {
      body = holds (pointers (written_at (pointer_at store.body) i x));
    } in
    let s' : State Object = set_cell (block_of items) (some store') s in
    let (t, run, w) =
      shift_left-ok items n (i + 1) s' store' (ground arith) alive (omega (arith, room)) (λ j le.
        elim (Bool-cases (j == i)) [
          | inl d ↦ (x, ground arith)
          | inr d ↦ let (y, g) = known j (omega arith) in (y, ground arith)
        ]) in
    (
      t,
      rw
          (
            read_pointer-ok items s here alive (i + 1) (omega (arith, room)) e,
            write_pointer-ok items s here alive i x (omega (arith, room)),
          )
          run,
      record {
        block = w.block;
        here = w.here;
        header = w.header;
        room = w.room;
        inside = λ j le lt. elim (Bool-cases (j == i)) [
          | inl d ↦ w.before j (ground arith) ∙ ground arith
          | inr d ↦ w.inside j (ground arith) (omega arith) ∙ ground arith
        ];
        before = λ j lt. w.before j (omega arith) ∙ ground arith;
        others = λ y d. w.others y d ∙ ground arith;
      },
    )

module _ {s : State Object} {vec : Ptr} {v : Vector} {xs : List Ptr} (r : IsVector s vec v xs) where
  -- Removing an index of the list returns, the list is without that item and keeps the order of the
  -- others, and no block but the two of the vector is touched.
  pub safe_vector_remove-ok :
      (i : ℕ)
      → i < length xs
      → (t : State Object) × (safe_vector_remove vec i s ≡ ok tt t)
        × IsVector t vec (record v { length = v.length - 1 }) (remove_at xs i)
        × ((x : Ptr) → x ≢ block_of vec → x ≢ block_of v.items → t.cells x ≡ s.cells x)
  unfolding safe_vector_remove
  safe_vector_remove-ok i lt =
      let w : Vector = record v { length = v.length - 1 } in
      let frame' : Block Object = record r.parts.frame { body = holds (vector w) } in
      let inside : leb v.length i ≡ false = ground (arith, r.parts.count) in
      let (t, run, m) =
        shift_left-ok v.items (v.length - 1 - i) i s r.parts.store r.parts.store_here
          r.parts.store_alive
          (omega (arith, r.parts.count, r.parts.in_capacity, r.parts.store_room))
          (λ j le.
            let within : j < length xs = omega (arith, r.parts.count) in
            let (x, e) = get_elem?-inside xs j within in (x, r.parts.stored j within ∙ e)) in
      let kept : t.cells (block_of vec) ≡ some r.parts.frame =
        m.others (block_of vec) r.parts.apart ∙ r.parts.frame_here in
      let shorter = length-remove_at xs i lt in
      (
        set_cell (block_of vec) (some frame') t,
        rw (
          ne→== vec null r.parts.nonnull,
          read_vector-ok vec s r.parts.frame_here r.parts.frame_alive r.fields,
          ne→== v.items null r.parts.buffer,
          inside,
          run,
          assign-ok vec t kept r.parts.frame_alive vector_size (vector w) r.parts.frame_room,
        ),
        record {
          parts = record {
            frame = frame';
            frame_here = ground arith;
            frame_alive = r.parts.frame_alive;
            frame_room = r.parts.frame_room;
            store = m.block;
            store_here = ground (arith, m.here, r.parts.apart);
            store_alive = ap (λ (h : Meta). is_freed h.state) m.header ∙ r.parts.store_alive;
            store_room = omega (arith, m.room, r.parts.store_room);
            apart = r.parts.apart;
            nonnull = r.parts.nonnull;
            buffer = r.parts.buffer;
            count = omega (arith, r.parts.count, shorter);
            in_capacity = omega (arith, r.parts.in_capacity);
            small = r.parts.small;
            stored = λ j less. elim (Bool-cases (ltb j i)) [
              | inl e ↦
                  m.before j (ground arith)
                  ∙ r.parts.stored j (omega (arith, shorter))
                  ∙ sym (get_elem?-remove_at_before xs i j (ground arith))
              | inr e ↦
                  m.inside j (ground arith) (ground (arith, shorter, r.parts.count))
                  ∙ r.parts.stored (j + 1) (omega (arith, shorter))
                  ∙ ap (λ k. get_elem? xs k) (omega arith)
                  ∙ sym (get_elem?-remove_at_behind xs i j (ground arith))
            ];
          };
          fields = refl;
        },
        λ x d f. ground (arith, m.others x f),
      )
