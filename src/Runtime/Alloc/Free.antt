-- ===== src/Runtime/Alloc/Free.antt =====
-- `owner_free_internal` of src/runtime.c on a pointer of the registry: when it succeeds, what it does
-- then, and what it reports otherwise.
use owned_c.Base.{
  ℕ, ◌≡◌, refl, ap, subst, sym, ◌∙◌, ◌≢◌, ◌⊎◌, ◌↔◌, false, Option, some, String, List, arith, ltb,
  if◌then◌else◌, ◌∈◌, ne→==,
}
use owned_c.Runtime.State.{Ptr, null, is_freed, Meta, Block, filled, shared, freed, State}
use owned_c.Runtime.Command.{ok, put, set_cell, diagnostics_fatal}
use owned_c.Runtime.Access.{load-ok, update-ok, memset-ok, get_meta-ok}
use owned_c.Runtime.Registry.{shard_of, user_ptr, remove_meta}
use owned_c.Runtime.Alloc.{is_foreign, freed_meta, release_block, owner_free_internal}
use owned_c.Runtime.Alloc.Quarantine.{oldest, retire, quarantine_put-retire, retire-IsRegistry}
use owned_c.Runtime.Chain.{erase, null-not-mem, mem-ne}
use owned_c.Runtime.Remove.{removed}
use owned_c.Runtime.Unregister.{remove_meta-ok, removed-IsRegistry}
use owned_c.Runtime.Relink.{Relinked, bypassed-Relinked}
use owned_c.Runtime.Registered.{links, IsTracked, IsRetired, IsRegistry}

-- What the source asks of a live block before it is freed: no borrow is out, and the block is shared
-- or the caller owns it.
pub record MayFree (h : Meta) (self : ℕ) : Type 0 where
  pub unborrowed : h.borrow_count ≡ 0
  pub allowed : (h.state ≡ shared) ⊎ (h.owner_thread ≡ self)

module _ {A : Type 0} {shards : ℕ → List Ptr} {s : State A} (r : IsRegistry shards s) (m : Ptr)
    (listed : m ∈ shards (shard_of m)) {b : Block A} (at_m : s.cells m ≡ some b)
    (file : Option String) (line : ℕ) where
  same : (r.members (shard_of m) m listed).block ≡ b
  same = ground (arith, at_m, (r.members (shard_of m) m listed).here)

  tracked : IsTracked b
  tracked = subst IsTracked same (r.members (shard_of m) m listed).tracked

  alive : is_freed b.header.state ≡ false
  alive =
      subst (λ (c : Block A). is_freed c.header.state ≡ false) same
        (r.members (shard_of m) m listed).alive

  ne_null : m ≢ null
  ne_null =
      mem-ne m null (shards (shard_of m)) listed
        (null-not-mem (links s.cells) null _ (shards (shard_of m)) (r.chains (shard_of m)))

  -- The block as it lies in the quarantine, but for its links.
  abbrev pub freed_block : Block A
  freed_block = record b {
    header = freed_meta file line b.header;
    body = filled 0xEF b.header.size;
  }

  abbrev marked_block : Block A
  marked_block = record b { header = freed_meta file line b.header }

  abbrev written : Ptr → Option (Block A)
  written = put (put s.cells m (some marked_block)) m (some freed_block)

  abbrev unlinked : State A
  unlinked = removed m b.header.prev b.header.next (record s { cells = written })

  -- The state behind a successful call.
  abbrev pub released : State A
  released = retire m unlinked

  out_of_shard : remove_meta m (record s { cells = written }) ≡ ok tt unlinked
  out_of_shard =
      remove_meta-ok r m listed written {b = freed_block} (ground arith) (λ x d. ground arith)
        (ground (arith, at_m))

  unlinked-IsRegistry : IsRegistry (λ i. erase m (shards i)) unlinked
  unlinked-IsRegistry =
      removed-IsRegistry r m listed written {b = freed_block} (ground arith) (λ x d. ground arith)
        (ground (arith, at_m))

  gone : IsRetired unlinked.cells m
  gone = record {
    block = record freed_block { header = record freed_block.header { prev = null; next = null } };
    here = ground arith;
    tracked = record { magic = tracked.magic; room = tracked.room };
    gone = refl;
  }

  outside : (j : ℕ) → s.quarantine j ≢ m
  outside j e =
      let g = r.retired j (λ z. ne_null (sym e ∙ z)) in
      ground (arith, at_m, ap s.cells e, g.here, g.gone, alive)

  release_block-ok : release_block m file line s ≡ ok tt released
  unfolding release_block
  release_block-ok = rw (
    update-ok m s at_m (freed_meta file line),
    load-ok m (set_cell m (some marked_block) s) {b = marked_block} (ground arith),
    memset-ok m (set_cell m (some marked_block) s) {b = marked_block} (ground arith) 0xEF
        b.header.size tracked.room,
    out_of_shard,
    quarantine_put-retire m unlinked r.can_free unlinked-IsRegistry.no_null
        (unlinked-IsRegistry.retired s.quarantine_tail),
  )

  pub released-IsRegistry : IsRegistry (λ i. erase m (shards i)) released
  released-IsRegistry = retire-IsRegistry unlinked-IsRegistry m ne_null outside gone

  -- The checks that decide a call on a block of the registry.
  pub owner_free_internal-checks : owner_free_internal (user_ptr m) file line s ≡ (
      if ltb 0 b.header.borrow_count
      then diagnostics_fatal "Freeing borrowed object" (user_ptr m) file line s
      else if is_foreign b.header s.self
      then diagnostics_fatal "Thread Ownership Violation (Free)" (user_ptr m) file line s
      else release_block m file line s)
  unfolding owner_free_internal
  owner_free_internal-checks =
      rw
        (
          ne→== (user_ptr m) null (omega arith),
          get_meta-ok m s at_m ne_null tracked.magic,
          ne→== m null ne_null,
          load-ok m s at_m,
          alive,
        )
        (ground arith)

  -- Of another live block at most the links have changed.
  pub released-Relinked :
      (x : Ptr) {c : Block A}
      → s.cells x ≡ some c
      → is_freed c.header.state ≡ false
      → x ≢ m
      → Relinked s.cells released.cells x
  released-Relinked x {c} at_x lives ne =
      let (p, n, e) =
        bypassed-Relinked written x {b = c} (ground (arith, at_x)) m b.header.prev b.header.next
          ne in
      let still : x ≢ oldest unlinked = λ o.
        let g = r.retired s.quarantine_tail (λ z. cc (at_x, ap s.cells (o ∙ z), r.no_null)) in
        ground (arith, at_x, lives, g.here, g.gone, ap s.cells o) in
      (p, n, ground (arith, e))

  unlinked_ne : m ≢ oldest unlinked
  unlinked_ne e = outside s.quarantine_tail (sym e)

  last_slot : released.quarantine s.quarantine_tail ≡ m
  last_slot = ground arith

  -- A block of the registry that may be freed leaves its shard for the quarantine, marked and
  -- filled with 0xEF; the registry stays well formed.
  pub owner_free_internal-ok :
      MayFree b.header s.self
      → (owner_free_internal (user_ptr m) file line s ≡ ok tt released)
        × IsRegistry (λ i. erase m (shards i)) released
        × (released.quarantine s.quarantine_tail ≡ m)
        × IsRetired released.cells m
        × ((c : Block A) × (released.cells m ≡ some c)
            × (c.header.state ≡ freed)
            × (c.header.free_line ≡ line)
            × (c.body ≡ filled 0xEF b.header.size))
  owner_free_internal-ok may = (
    owner_free_internal-checks ∙ ground (arith, may.allowed, release_block-ok),
    released-IsRegistry,
    last_slot,
    subst (IsRetired released.cells) last_slot
        (released-IsRegistry.retired s.quarantine_tail (ground (arith, ne_null))),
    (
      record freed_block { header = record freed_block.header { prev = null; next = null } },
      ground (arith, unlinked_ne),
      refl,
      refl,
      refl,
    ),
  )

  -- A call on a block of the registry returns exactly when the block may be freed.
  pub owner_free_internal_iff :
      ((t : State A) × (owner_free_internal (user_ptr m) file line s ≡ ok tt t))
      ↔ MayFree b.header s.self
  unfolding diagnostics_fatal
  owner_free_internal_iff = (
    λ (t, e). ground (arith, owner_free_internal-checks),
    λ may. (released, (owner_free_internal-ok may).0),
  )
