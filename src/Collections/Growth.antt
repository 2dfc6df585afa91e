-- ===== src/Collections/Growth.antt =====
-- `safe_vector_push` of src/collections.c on a full buffer: the buffer is moved to one of twice the
-- capacity, with its items.
use owned_c.Base.{
  ℕ, ◌+◌, ◌*◌, ◌%◌, ◌≤◌, ◌<◌, ◌≡◌, ◌≢◌, ap, subst, ◌∙◌, ◌⊎◌, true, false, Option, none, List, [],
  ◌∷◌, ◌++◌, arith, leb, ne→==, ◌∈◌,
}
use owned_c.Runtime.State.{
  Meta, Ptr, null, meta_size, size_mod, is_freed, Block, Body, filled, holds, State,
}
use owned_c.Runtime.Command.{ok}
use owned_c.Runtime.Allocator.{first_answer, kept_body}
use owned_c.Runtime.Registry.{shard_of, user_ptr}
use owned_c.Runtime.Registered.{IsTracked, IsRegistry}
use owned_c.Runtime.Register.{listed}
use owned_c.Runtime.Chain.{erase}
use owned_c.Runtime.Live.{member-IsLive}
use owned_c.Runtime.Alloc.{is_foreign, owner_realloc, owner_realloc_internal}
use owned_c.Runtime.Alloc.Realloc.{owner_realloc_internal_lem}
use owned_c.Objects.{Object, Vector, block_of, pointer_at}
use owned_c.Objects.Access.{read_vector-ok}
use owned_c.Collections.{safe_vector_push, grow}
use owned_c.Collections.Items.{IsStored, IsVector, append_item-ok}

-- A buffer that is moved to one as large keeps its pointers.
pointer_at-kept_body :
    (b : Body Object) (bytes i : ℕ) {x : Option Ptr}
    → 8 * (i + 1) ≤ bytes
    → pointer_at b i ≡ x
    → pointer_at (kept_body bytes b) i ≡ x
pointer_at-kept_body (filled v n) bytes i le e = ground arith
pointer_at-kept_body (holds o) bytes i le e = e

module _ {s : State Object} {vec : Ptr} {v : Vector} {xs : List Ptr} (r : IsVector s vec v xs)
    {shards : ℕ → List Ptr} (g : IsRegistry shards s)
    (i : block_of v.items ∈ shards (shard_of (block_of v.items))) (q : Ptr)
    (answer : first_answer s.answers ≡ q) (ne : q ≢ null)
    (fresh : (q ≡ block_of v.items) ⊎ (s.cells q ≡ none)) where
  -- A push to a full vector whose buffer is a block of a well formed registry that the caller may
  -- move, to twice the capacity without a wrap, where the underlying allocator answers with the same
  -- address or with memory not in use: the call returns, the list has the item at its end, the
  -- capacity has doubled, and the buffer stands where the underlying allocator answered.
  pub safe_vector_push-grown :
      (item : Ptr)
      → v.length ≡ v.capacity
      → 0 < v.capacity
      → meta_size + v.capacity * 2 * 8 < size_mod
      → is_foreign r.parts.store.header s.self ≡ false
      → (t : State Object) × (safe_vector_push vec item s ≡ ok tt t)
        × IsVector t vec
            (record {
              items = user_ptr q;
              length = (v.length + 1) % size_mod;
              capacity = v.capacity * 2 % size_mod;
            })
            (xs ++ item ∷ [])
  unfolding safe_vector_push grow owner_realloc
  safe_vector_push-grown item full some_room no_wrap own =
      let p = r.parts in
      let size = v.capacity * 2 % size_mod * 8 % size_mod in
      let l = member-IsLive g (block_of v.items) i in
      let at_items : user_ptr (block_of v.items) ≡ v.items = omega (arith, l.ne_null) in
      let (t, run, g', (c, at_q, (_, _, new_header), kept), others) =
        owner_realloc_internal_lem g (block_of v.items) i p.store_here q size answer ne fresh
          (omega arith) none 0 (omega arith) own in
      let mem : q ∈ listed q (λ j. erase (block_of v.items) (shards j)) (shard_of q) =
        ground arith in
      let w : Vector = record {
        items = user_ptr q;
        length = v.length;
        capacity = v.capacity * 2 % size_mod;
      } in
      let l' = member-IsLive g' q mem in
      let same : (g'.members (shard_of q) q mem).block ≡ c = ground (arith, l'.here, at_q) in
      let tracked : IsTracked c = subst IsTracked same l'.tracked in
      let away : block_of vec ≢ q = ground (arith, p.apart, p.frame_here, fresh) in
      let (prev', next', still) = others (block_of vec) p.frame p.apart away p.frame_here in
      let frame' : Block Object = record p.frame {
        header = record p.frame.header { prev = prev'; next = next' };
      } in
      let stored : IsStored t vec w xs = record {
        frame = frame';
        frame_here = still ∙ ground (arith, p.frame_here);
        frame_alive = p.frame_alive;
        frame_room = p.frame_room;
        store = c;
        store_here = ap t.cells (omega arith) ∙ at_q;
        store_alive = ap (λ (h : Meta). is_freed h.state) new_header ∙ p.store_alive;
        store_room = omega (arith, tracked.room, ap (λ (h : Meta). h.size) new_header);
        apart = omega (arith, away);
        nonnull = p.nonnull;
        buffer = omega arith;
        count = p.count;
        in_capacity = omega (arith, p.in_capacity);
        small = omega arith;
        stored = λ j lt. rw kept (
            pointer_at-kept_body p.store.body (meta_size + size) j
              (omega (arith, p.count, p.in_capacity)) (p.stored j lt));
      } in
      let run' : owner_realloc_internal v.items size none 0 s ≡ ok (user_ptr q) t =
        subst (λ k. owner_realloc_internal k size none 0 s ≡ ok (user_ptr q) t) at_items run in
      let is_full : leb v.capacity v.length ≡ true = ground arith in
      let (u, put_item, rest, _) = append_item-ok stored item (omega (arith, p.count)) in
      (
        u,
        rw
            (
              ne→== vec null p.nonnull,
              read_vector-ok vec s p.frame_here p.frame_alive r.fields,
              is_full,
              run',
              ne→== (user_ptr q) null (omega arith),
            )
            put_item,
        rest,
      )
