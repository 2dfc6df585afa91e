-- ===== src/Runtime/Unregister.antt =====
-- `remove_meta` of src/runtime.c on a block of the registry: it succeeds, and takes exactly that
-- block out of its shard.
use owned_c.Base.{
  ℕ, ◌≡◌, refl, ap, ◌≢◌, ◌⊎◌, inl, inr, Option, some, List, arith, ◌==◌, Bool-cases, has, ◌∈◌, ◌∉◌,
  sym, ◌∙◌, eq→==, ne→==, ==→eq, ==→ne,
}
use owned_c.Runtime.State.{Ptr, null, Block, State}
use owned_c.Runtime.Command.{ok}
use owned_c.Runtime.Registry.{shard_of, remove_meta}
use owned_c.Runtime.Chain.{
  Chain, erase, Linked, Chain-frame, Chain-erase, null-not-mem, mem-erase, mem-ne, erase_absent,
  not-mem-erase_self,
}
use owned_c.Runtime.Remove.{removed, IsNeighbour, remove_meta-removed}
use owned_c.Runtime.Registered.{links, IsMember, IsRetired, IsRegistry, member-Linked}
use owned_c.Runtime.Relink.{
  bypassed-Relinked, IsMember-Relinked, IsMember-same, IsRetired-same, IsMember-ne_retired,
}

-- `bare` is the state as it was; `c` are the headers when `remove_meta` is called, which may differ
-- at `m` in anything but the links.
module _ {A : Type 0} {shards : ℕ → List Ptr} {s : State A} (r : IsRegistry shards s) (m : Ptr)
    (listed : m ∈ shards (shard_of m)) (c : Ptr → Option (Block A)) {b : Block A}
    (at_m : c m ≡ some b) (elsewhere : (x : Ptr) → x ≢ m → c x ≡ s.cells x)
    (same_links : links c m ≡ links s.cells m) where
  linked : Linked (links s.cells) null (s.heads (shard_of m)) m (shards (shard_of m))
  linked = member-Linked r (shard_of m) m listed

  m_ne_null : m ≢ null
  m_ne_null e =
      cc (
        listed,
        e,
        null-not-mem (links s.cells) null _ (shards (shard_of m)) (r.chains (shard_of m)),
      )

  ends : (b.header.prev ≡ linked.prev) × (b.header.next ≡ linked.next)
  ends = ground (arith, linked.links)

  neighbour :
      (x : Ptr)
      → (x ≡ null) ⊎ (x ∈ shards (shard_of m))
      → x ≢ m
      → IsNeighbour (record s { cells = c }) x
  neighbour x (inl e) ne = inl e
  neighbour x (inr k) ne =
      let h = r.members (shard_of m) x k in inr (h.block, ground (arith, elsewhere x, h.here))

  pub remove_meta-ok :
      remove_meta m (record s { cells = c })
      ≡ ok tt (removed m b.header.prev b.header.next (record s { cells = c }))
  remove_meta-ok =
      remove_meta-removed m (record s { cells = c }) at_m
        (ground (arith, r.no_null, elsewhere null, m_ne_null))
        (ground (arith, ends, linked.prev_ne)) (ground (arith, ends, linked.next_ne))
        (ground (arith, ends, linked.apart)) (ground (arith, ends, linked.first))
        (neighbour b.header.prev (ground (arith, ends, linked.prev_in))
          (ground (arith, ends, linked.prev_ne)))
        (neighbour b.header.next (ground (arith, ends, linked.next_in))
          (ground (arith, ends, linked.next_ne)))

  abbrev after : State A
  after = removed m b.header.prev b.header.next (record s { cells = c })

  here-Chain :
      Chain (links after.cells) null (after.heads (shard_of m)) (erase m (shards (shard_of m)))
  here-Chain = rw (eq→== (shard_of m) (shard_of m) refl) (
      Chain-erase (links s.cells) (links after.cells) null (s.heads (shard_of m)) m b.header.prev
        b.header.next (shards (shard_of m))
        (null-not-mem (links s.cells) null _ (shards (shard_of m)) (r.chains (shard_of m))) listed
        (ground (arith, linked.links, ends))
        (λ x k. ground (
          arith,
          elsewhere x,
          mem-ne x m (erase m (shards (shard_of m))) k (
              not-mem-erase_self (links s.cells) null _ m (shards (shard_of m))
                (r.chains (shard_of m))),
        ))
        (r.chains (shard_of m)))

  not_listed : (i : ℕ) → i ≢ shard_of m → m ∉ shards i
  not_listed i ne = elim (Bool-cases (has m (shards i))) [
    | inl k ↦ absurd (ne (sym (r.members i m k).shard))
    | inr o ↦ o
  ]

  -- A block of another shard is none of those that are written.
  apart_from :
      (i : ℕ) (x y : Ptr)
      → i ≢ shard_of m
      → x ∈ shards i
      → (y ≡ null) ⊎ (y ∈ shards (shard_of m))
      → x ≢ y
  apart_from i x y ne k (inl e) f = ground (
    arith,
    mem-ne x null (shards i) k (null-not-mem (links s.cells) null _ (shards i) (r.chains i)),
  )
  apart_from i x y ne k (inr j) e =
      ne (sym (r.members i x k).shard ∙ ap shard_of e ∙ (r.members (shard_of m) y j).shard)

  other-Chain :
      (i : ℕ) → i ≢ shard_of m → Chain (links after.cells) null (after.heads i) (erase m (shards i))
  other-Chain i ne =
      rw (erase_absent m (shards i) (not_listed i ne), ne→== i (shard_of m) ne)
        (Chain-frame (links s.cells) (links after.cells) null (s.heads i) (shards i)
          (λ x k. ground (
            arith,
            elsewhere x,
            mem-ne x m (shards i) k (not_listed i ne),
            apart_from i x b.header.prev ne k (ground (arith, ends, linked.prev_in)),
            apart_from i x b.header.next ne k (ground (arith, ends, linked.next_in)),
          ))
          (r.chains i))

  erase-IsMember : (i : ℕ) (x : Ptr) → x ∈ erase m (shards i) → IsMember after.cells i x
  erase-IsMember i x k =
      let old = r.members i x (mem-erase x m (shards i) k) in
      let ne : x ≢ m =
        mem-ne x m (erase m (shards i)) k
          (not-mem-erase_self (links s.cells) null _ m (shards i) (r.chains i)) in
      IsMember-Relinked c after.cells x i
        (bypassed-Relinked c x {b = old.block} (ground (arith, elsewhere x, old.here)) m
          b.header.prev b.header.next ne)
        (IsMember-same s.cells c x i (elsewhere x ne) old)

  ne_retired : (x y : Ptr) → IsRetired s.cells y → (x ≡ null) ⊎ (x ∈ shards (shard_of m)) → x ≢ y
  ne_retired x y g (inl e) f = cc (r.no_null, g.here, ap s.cells (sym e ∙ f))
  ne_retired x y g (inr k) f =
      IsMember-ne_retired s.cells s.cells x (shard_of m) y (r.members (shard_of m) x k) g f

  not_written : (y : Ptr) → IsRetired s.cells y → after.cells y ≡ s.cells y
  not_written y g = ground (
    arith,
    elsewhere y,
    ne_retired m y g (inr listed),
    ne_retired b.header.prev y g (ground (arith, ends, linked.prev_in)),
    ne_retired b.header.next y g (ground (arith, ends, linked.next_in)),
  )

  pub removed-IsRegistry : IsRegistry (λ i. erase m (shards i)) after
  removed-IsRegistry = record {
    no_null = ground (arith, r.no_null, elsewhere null, m_ne_null);
    chains = λ i. elim (Bool-cases (i == shard_of m)) [
      | inl e ↦ rw (==→eq i (shard_of m) e) here-Chain
      | inr e ↦ other-Chain i (==→ne i (shard_of m) e)
    ];
    members = erase-IsMember;
    retired = λ j ne.
        IsRetired-same s.cells after.cells (s.quarantine j)
          (not_written (s.quarantine j) (r.retired j ne)) (r.retired j ne);
    distinct = r.distinct;
    tail = r.tail;
    can_malloc = r.can_malloc;
    can_free = r.can_free;
    can_realloc = r.can_realloc;
  }
