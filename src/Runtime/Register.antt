-- ===== src/Runtime/Register.antt =====
-- `insert_meta` of src/runtime.c on a block that is not in the registry: it succeeds, and puts
-- exactly that block in front of its shard.
use owned_c.Base.{
  ℕ, ◌≡◌, refl, ap, sym, ◌∙◌, ◌≢◌, ◌⊎◌, inl, inr, false, Option, some, List, ◌∷◌, arith, ◌==◌,
  if◌then◌else◌, Bool-cases, ◌∈◌, ◌∉◌, eq→==, ne→==, ==→eq, ==→ne,
}
use owned_c.Runtime.State.{Ptr, null, is_freed, Block, State}
use owned_c.Runtime.Command.{ok}
use owned_c.Runtime.Registry.{shard_of, insert_meta}
use owned_c.Runtime.Chain.{Chain, Chain-frame, Chain-cons, null-not-mem, mem-ne, head_in}
use owned_c.Runtime.Insert.{inserted, insert_meta-inserted}
use owned_c.Runtime.Registered.{links, IsTracked, IsMember, IsRetired, IsRegistry}
use owned_c.Runtime.Relink.{
  in_front-Relinked, IsMember-Relinked, IsMember-same, IsRetired-same, IsMember-ne_retired,
}

-- The shards with `m` put in front of its own.
abbrev pub listed : Ptr → (ℕ → List Ptr) → ℕ → List Ptr
listed m shards i = if i == shard_of m then m ∷ shards i else shards i

-- `c` are the headers when `insert_meta` is called, with the new block `b` at `m`.
module _ {A : Type 0} {shards : ℕ → List Ptr} {s : State A} (r : IsRegistry shards s) (m : Ptr)
    (ne_null : m ≢ null) (unlisted : (i : ℕ) → m ∉ shards i)
    (not_retired : (j : ℕ) → s.quarantine j ≢ m) (c : Ptr → Option (Block A)) {b : Block A}
    (at_m : c m ≡ some b) (elsewhere : (x : Ptr) → x ≢ m → c x ≡ s.cells x) (tracked : IsTracked b)
    (alive : is_freed b.header.state ≡ false) where
  head : Ptr
  head = s.heads (shard_of m)

  head_cases : (s.heads (shard_of m) ≡ null) ⊎ (s.heads (shard_of m) ∈ shards (shard_of m))
  head_cases =
      head_in (links s.cells) null (s.heads (shard_of m)) (shards (shard_of m))
        (r.chains (shard_of m))

  head_ne : s.heads (shard_of m) ≢ m
  head_ne = ground (
    arith,
    head_cases,
    ne_null,
    mem-ne (s.heads (shard_of m)) m (shards (shard_of m)),
    unlisted (shard_of m),
  )

  head_there :
      (s.heads (shard_of m) ≡ null) ⊎ (s.heads (shard_of m) ∈ shards (shard_of m))
      → (s.heads (shard_of m) ≡ null) ⊎ ((d : Block A) × (c (s.heads (shard_of m)) ≡ some d))
  head_there (inl e) = inl e
  head_there (inr k) =
      let h = r.members (shard_of m) (s.heads (shard_of m)) k in
      inr (h.block, ground (arith, elsewhere (s.heads (shard_of m)) head_ne, h.here))

  pub insert_meta-ok :
      insert_meta m (record s { cells = c }) ≡ ok tt (inserted m (record s { cells = c }))
  insert_meta-ok =
      insert_meta-inserted m (record s { cells = c }) at_m
        (ground (arith, r.no_null, elsewhere null, ne_null)) head_ne (head_there head_cases)

  abbrev after : State A
  after = inserted m (record s { cells = c })

  here-Chain :
      Chain (links after.cells) null (after.heads (shard_of m)) (listed m shards (shard_of m))
  here-Chain = rw (eq→== (shard_of m) (shard_of m) refl) (
      Chain-cons (links s.cells) (links after.cells) m (s.heads (shard_of m)) (shards (shard_of m))
        ne_null (unlisted (shard_of m)) (ground arith)
        (λ x k.
          ground (arith, elsewhere x, mem-ne x m (shards (shard_of m)) k (unlisted (shard_of m))))
        (r.chains (shard_of m)))

  -- A block of another shard is not the head.
  ne_head :
      (i : ℕ) (x : Ptr)
      → i ≢ shard_of m
      → x ∈ shards i
      → (s.heads (shard_of m) ≡ null) ⊎ (s.heads (shard_of m) ∈ shards (shard_of m))
      → x ≢ s.heads (shard_of m)
  ne_head i x ne k (inl e) f = ground (
    arith,
    mem-ne x null (shards i) k
        (null-not-mem (links s.cells) null (s.heads i) (shards i) (r.chains i)),
  )
  ne_head i x ne k (inr j) e =
      ne (sym (r.members i x k).shard ∙ ap shard_of e ∙ (r.members (shard_of m) _ j).shard)

  other-Chain :
      (i : ℕ) → i ≢ shard_of m → Chain (links after.cells) null (after.heads i) (listed m shards i)
  other-Chain i ne = rw (ne→== i (shard_of m) ne) (
      Chain-frame (links s.cells) (links after.cells) null (s.heads i) (shards i)
        (λ x k.
          ground
            (arith, elsewhere x, mem-ne x m (shards i) k (unlisted i), ne_head i x ne k head_cases))
        (r.chains i))

  new-IsMember : IsMember after.cells (shard_of m) m
  new-IsMember =
      IsMember-Relinked c after.cells m (shard_of m)
        (in_front-Relinked c m at_m m (s.heads (shard_of m)))
        (record { block = b; here = at_m; tracked = tracked; alive = alive; shard = refl })

  old-IsMember : (i : ℕ) (x : Ptr) → x ∈ shards i → IsMember after.cells i x
  old-IsMember i x k =
      let old = r.members i x k in
      let same = elsewhere x (mem-ne x m (shards i) k (unlisted i)) in
      IsMember-Relinked c after.cells x i
        (in_front-Relinked c x {b = old.block} (ground (arith, same, old.here)) m
          (s.heads (shard_of m)))
        (IsMember-same s.cells c x i same old)

  member : (i : ℕ) (x : Ptr) → x ∈ listed m shards i → IsMember after.cells i x
  member i x k = elim (Bool-cases (i == shard_of m)) [
    | inl e ↦ elim (Bool-cases (x == m)) [
      | inl f ↦ rw (==→eq i (shard_of m) e, ==→eq x m f) new-IsMember
      | inr f ↦ old-IsMember i x (ground arith)
    ]
    | inr e ↦ old-IsMember i x (ground arith)
  ]

  ne_retired :
      (y : Ptr)
      → IsRetired s.cells y
      → (s.heads (shard_of m) ≡ null) ⊎ (s.heads (shard_of m) ∈ shards (shard_of m))
      → s.heads (shard_of m) ≢ y
  ne_retired y g (inl e) f = cc (r.no_null, g.here, ap s.cells (sym e ∙ f))
  ne_retired y g (inr k) f =
      IsMember-ne_retired s.cells s.cells _ (shard_of m) y (r.members (shard_of m) _ k) g f

  pub inserted-IsRegistry : IsRegistry (listed m shards) after
  inserted-IsRegistry = record {
    no_null = ground (arith, r.no_null, elsewhere null, ne_null);
    chains = λ i. elim (Bool-cases (i == shard_of m)) [
      | inl e ↦ rw (==→eq i (shard_of m) e) here-Chain
      | inr e ↦ other-Chain i (==→ne i (shard_of m) e)
    ];
    members = member;
    retired = λ j ne.
        let g = r.retired j ne in
        IsRetired-same s.cells after.cells (s.quarantine j)
          (ground (
            arith,
            elsewhere (s.quarantine j),
            not_retired j,
            ne_retired (s.quarantine j) g head_cases,
          ))
          g;
    distinct = r.distinct;
    tail = r.tail;
    can_malloc = r.can_malloc;
    can_free = r.can_free;
    can_realloc = r.can_realloc;
  }
