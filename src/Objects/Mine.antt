-- ===== src/Objects/Mine.antt =====
-- Blocks that the running thread may free, and what becomes of the others when one is written or freed.
use owned_c.Base.{ℕ, ◌+◌, ◌≤◌, ◌≡◌, ◌≢◌, ◌∙◌, ap, refl, none, some, List, arith, ◌∈◌}
use owned_c.Runtime.State.{Ptr, meta_size, holds, Meta, Body, Block, State}
use owned_c.Runtime.Command.{ok, set_cell}
use owned_c.Runtime.Registry.{shard_of, user_ptr}
use owned_c.Runtime.Alloc.{owner_free}
use owned_c.Runtime.Alloc.Free.{MayFree, released, released-Relinked, owner_free_internal-ok}
use owned_c.Runtime.Amend.{IsRegistry-set_cell}
use owned_c.Runtime.Chain.{erase, mem_erase_of_ne}
use owned_c.Runtime.Live.{IsLive, member-IsLive}
use owned_c.Runtime.Registered.{IsRegistry, IsRetired}
use owned_c.Objects.{Object, deref, assign}
use owned_c.Objects.Access.{deref-ok, assign-ok}
use owned_c.Objects.Lifetime.{block_of-user_ptr}

-- The block `m` of the registry, with these bytes, which the running thread may free.
pub record IsMine (shards : ℕ → List Ptr) (s : State Object) (m : Ptr) (body : Body Object)
    (room : ℕ) : Type 0 where
  pub in_shard : m ∈ shards (shard_of m)
  pub header : Meta
  pub here : s.cells m ≡ some (record { room = room; header = header; body = body })
  pub may : MayFree header s.self

-- A call on the block `m` leaves the registry well formed and the other blocks as they were.
pub record Spares (m : Ptr) (shards shards' : ℕ → List Ptr) (s t : State Object) : Type 0 where
  pub registry : IsRegistry shards' t
  pub others :
      (x : Ptr) {body : Body Object} {room : ℕ}
      → x ≢ m
      → IsMine shards s x body room
      → IsMine shards' t x body room
  pub head : t.gc_head ≡ s.gc_head

module _ {shards : ℕ → List Ptr} {s : State Object} (r : IsRegistry shards s) {m : Ptr}
    {body : Body Object} {room : ℕ} (k : IsMine shards s m body room) where
  abbrev mine : Block Object
  mine = record { room = room; header = k.header; body = body }

  pub mine-IsLive : IsLive s m (record { room = room; header = k.header; body = body })
  mine-IsLive =
      let l = member-IsLive r m k.in_shard in
      record {
        here = k.here;
        ne_null = l.ne_null;
        tracked = ground (arith, l.here, l.tracked, k.here);
        alive = ground (arith, l.here, l.alive, k.here);
      }

  pub deref-mine : {o : Object} → body ≡ holds o → deref (user_ptr m) s ≡ ok o s
  deref-mine e =
      deref-ok (user_ptr m) s {b = mine} (ap s.cells (block_of-user_ptr m) ∙ k.here)
        mine-IsLive.alive e

  -- Another structure in the block.
  module _ (o : Object) where
    abbrev pub assigned : State Object
    assigned = set_cell m (some (record mine { body = holds o })) s

    pub assign-mine :
        (size : ℕ) → meta_size + size ≤ room → assign (user_ptr m) size o s ≡ ok tt assigned
    assign-mine size le =
        assign-ok (user_ptr m) s {b = mine} (ap s.cells (block_of-user_ptr m) ∙ k.here)
          mine-IsLive.alive size o le
        ∙ ap (λ x. ok tt (set_cell x (some (record mine { body = holds o })) s))
            (block_of-user_ptr m)

    pub assigned-IsMine : IsMine shards assigned m (holds o) room
    assigned-IsMine = record {
      in_shard = k.in_shard;
      header = k.header;
      here = ground arith;
      may = k.may;
    }

    pub assigned-Spares : Spares m shards shards s assigned
    assigned-Spares = record {
      registry = IsRegistry-set_cell r m k.here (record {
        tracked = λ t. record { magic = t.magic; room = t.room };
        freed = refl;
        prev = refl;
        next = refl;
      });
      others = λ x ne i. record {
        in_shard = i.in_shard;
        header = i.header;
        here = ground (arith, ne, i.here);
        may = i.may;
      };
      head = refl;
    }

  -- The block is freed.
  abbrev pub freed_state : State Object
  freed_state = released r m k.in_shard k.here none 0

  pub owner_free-mine :
      (owner_free (user_ptr m) s ≡ ok tt freed_state) × IsRetired freed_state.cells m
  unfolding owner_free
  owner_free-mine =
      let (e, _, _, retired, _) = owner_free_internal-ok r m k.in_shard k.here none 0 k.may in
      (e, retired)

  pub freed-Spares : Spares m shards (λ i. erase m (shards i)) s freed_state
  freed-Spares = record {
    registry = (owner_free_internal-ok r m k.in_shard k.here none 0 k.may).1;
    others = λ x ne i.
        let l = member-IsLive r x i.in_shard in
        let (p, n, e) =
          released-Relinked r m k.in_shard k.here none 0 x i.here
            (ground (arith, l.here, l.alive, i.here)) ne in
        record {
          in_shard = mem_erase_of_ne x m (shards (shard_of x)) i.in_shard ne;
          header = record i.header { prev = p; next = n };
          here = ground (arith, e, i.here);
          may = record { unborrowed = i.may.unborrowed; allowed = i.may.allowed };
        };
    head = refl;
  }
