-- ===== src/Runtime/Ownership/Claim.antt =====
-- `ownership_claim` and `ownership_share` of src/runtime.c on a block of the registry.
use owned_c.Base.{ℕ, ◌≡◌, refl, sym, some, List, ◌∈◌, arith, ne→==, eq→==}
use owned_c.Runtime.State.{Ptr, null, owned, shared, Meta, Block, State}
use owned_c.Runtime.Command.{ok, set_cell}
use owned_c.Runtime.Access.{load-ok, update-ok, get_meta-ok}
use owned_c.Runtime.Registry.{shard_of, user_ptr}
use owned_c.Runtime.Ownership.{ownership_claim, ownership_share}
use owned_c.Runtime.Registered.{IsRegistry}
use owned_c.Runtime.Live.{member-IsLive}
use owned_c.Runtime.Amend.{IsRegistry-set_cell}

-- The header of a block that the thread `self` has claimed.
abbrev pub claimed_meta : (self : ℕ) → Meta → Meta
claimed_meta self h = record h { owner_thread = self; state = owned }

module _ {A : Type 0} {shards : ℕ → List Ptr} {s : State A} (r : IsRegistry shards s) (m : Ptr)
    (k : m ∈ shards (shard_of m)) where
  abbrev claimed_block : Block A
  claimed_block =
      let b = (r.members (shard_of m) m k).block in
      record b { header = claimed_meta s.self b.header }

  abbrev pub claimed : State A
  claimed = set_cell m (some claimed_block) s

  -- A claim of a block of the registry makes the running thread its owner, and the registry stays
  -- well formed.
  pub ownership_claim-ok :
      (ownership_claim (user_ptr m) s ≡ ok tt claimed)
      × IsRegistry shards claimed
      × ((b : Block A) × (claimed.cells m ≡ some b)
          × (b.header.owner_thread ≡ s.self)
          × (b.header.state ≡ owned)
          × (b.header.borrow_count ≡ (r.members (shard_of m) m k).block.header.borrow_count))
  unfolding ownership_claim
  ownership_claim-ok =
      let l = member-IsLive r m k in
      (
        rw (
          ne→== (user_ptr m) null (omega arith),
          get_meta-ok m s l.here l.ne_null l.tracked.magic,
          ne→== m null l.ne_null,
          update-ok m s l.here (claimed_meta s.self),
        ),
        IsRegistry-set_cell r m l.here (record {
          tracked = λ t. record { magic = t.magic; room = t.room };
          freed = sym l.alive;
          prev = refl;
          next = refl;
        }),
        (claimed_block, ground arith, refl, refl, refl),
      )

  abbrev shared_block : Block A
  shared_block =
      let b = (r.members (shard_of m) m k).block in
      record b { header = record b.header { state = shared } }

  abbrev pub shared_out : State A
  shared_out = set_cell m (some shared_block) s

  -- The owner of a block of the registry can share it, and the registry stays well formed.
  pub ownership_share-ok :
      (r.members (shard_of m) m k).block.header.owner_thread ≡ s.self
      → (ownership_share (user_ptr m) s ≡ ok tt shared_out)
        × IsRegistry shards shared_out
        × ((b : Block A) × (shared_out.cells m ≡ some b) × (b.header.state ≡ shared))
  unfolding ownership_share
  ownership_share-ok own =
      let l = member-IsLive r m k in
      (
        rw (
          ne→== (user_ptr m) null (omega arith),
          get_meta-ok m s l.here l.ne_null l.tracked.magic,
          ne→== m null l.ne_null,
          load-ok m s l.here,
          eq→== _ _ own,
          update-ok m s l.here (λ h. record h { state = shared }),
        ),
        IsRegistry-set_cell r m l.here (record {
          tracked = λ t. record { magic = t.magic; room = t.room };
          freed = sym l.alive;
          prev = refl;
          next = refl;
        }),
        (shared_block, ground arith, refl),
      )
