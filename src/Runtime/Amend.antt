-- ===== src/Runtime/Amend.antt =====
-- The invariant of the registry does not read the user bytes, who owns or borrows a live block, nor
-- what the process prints and asks of the underlying allocator.
use owned_c.Base.{
  ℕ, ◌≡◌, ◌≢◌, ◌∉◌, none, subst, inl, inr, Bool, some, List, arith, ◌==◌, Bool-cases,
}
use owned_c.Runtime.State.{Ptr, null, is_freed, Block, Call, Line, State}
use owned_c.Runtime.Command.{put, set_cell}
use owned_c.Runtime.Chain.{Chain-frame, mem-ne}
use owned_c.Runtime.Relink.{IsMember-same, IsRetired-same}
use owned_c.Runtime.Registered.{links, IsTracked, IsMember, IsRetired, IsRegistry}

-- Another block in the place of `b`, of the same size and in the same list.
pub record IsAmended {A : Type 0} (b b' : Block A) : Type 0 where
  pub tracked : IsTracked b → IsTracked b'
  pub freed : is_freed b'.header.state ≡ is_freed b.header.state
  pub prev : b'.header.prev ≡ b.header.prev
  pub next : b'.header.next ≡ b.header.next

module _ {A : Type 0} {shards : ℕ → List Ptr} {s : State A} (r : IsRegistry shards s) where
  pub IsRegistry-env :
      (atexit : Bool) (answers : List Ptr) (calls : List Call) (self : ℕ) (output : List Line)
      → IsRegistry shards (record s {
        atexit_registered = atexit;
        answers = answers;
        calls = calls;
        self = self;
        output = output;
      })
  IsRegistry-env atexit answers calls self output = record {
    no_null = r.no_null;
    chains = r.chains;
    members = r.members;
    retired = r.retired;
    distinct = r.distinct;
    tail = r.tail;
    can_malloc = r.can_malloc;
    can_free = r.can_free;
    can_realloc = r.can_realloc;
  }

  module _ (m : Ptr) {b b' : Block A} (at_m : s.cells m ≡ some b) (amended : IsAmended b b') where
    same_links : (x : Ptr) → links (put s.cells m (some b')) x ≡ links s.cells x
    same_links x = ground (arith, amended.prev, amended.next)

    member : (i : ℕ) (x : Ptr) → IsMember s.cells i x → IsMember (put s.cells m (some b')) i x
    member i x h = elim (Bool-cases (x == m)) [
      | inl e ↦
          let same : h.block ≡ b = ground (arith, h.here) in
          record {
            block = b';
            here = ground arith;
            tracked = amended.tracked (subst IsTracked same h.tracked);
            alive = ground (arith, amended.freed, h.alive);
            shard = h.shard;
          }
      | inr e ↦ record {
        block = h.block;
        here = ground (arith, h.here);
        tracked = h.tracked;
        alive = h.alive;
        shard = h.shard;
      }
    ]

    retired : (x : Ptr) → IsRetired s.cells x → IsRetired (put s.cells m (some b')) x
    retired x h = elim (Bool-cases (x == m)) [
      | inl e ↦
          let same : h.block ≡ b = ground (arith, h.here) in
          record {
            block = b';
            here = ground arith;
            tracked = amended.tracked (subst IsTracked same h.tracked);
            gone = ground (arith, amended.freed, h.gone);
          }
      | inr e ↦ record {
        block = h.block;
        here = ground (arith, h.here);
        tracked = h.tracked;
        gone = h.gone;
      }
    ]

    pub IsRegistry-set_cell : IsRegistry shards (set_cell m (some b') s)
    IsRegistry-set_cell = record {
      no_null = ground (arith, r.no_null);
      chains = λ i.
          Chain-frame (links s.cells) (links (put s.cells m (some b'))) null (s.heads i) (shards i)
            (λ x k. same_links x) (r.chains i);
      members = λ i x k. member i x (r.members i x k);
      retired = λ j ne. retired (s.quarantine j) (r.retired j ne);
      distinct = r.distinct;
      tail = r.tail;
      can_malloc = r.can_malloc;
      can_free = r.can_free;
      can_realloc = r.can_realloc;
    }

-- A block that stands in no shard and in no slot can be given back.
module _ {A : Type 0} {shards : ℕ → List Ptr} {s : State A} (r : IsRegistry shards s) (m : Ptr)
    (unlisted : (i : ℕ) → m ∉ shards i) (outside : (j : ℕ) → s.quarantine j ≢ m) where
  pub IsRegistry-drop : IsRegistry shards (set_cell m none s)
  IsRegistry-drop = record {
    no_null = ground (arith, r.no_null);
    chains = λ i.
        Chain-frame (links s.cells) (links (put s.cells m none)) null (s.heads i) (shards i)
          (λ x k. ground (arith, mem-ne x m (shards i) k (unlisted i))) (r.chains i);
    members = λ i x k.
        IsMember-same s.cells (put s.cells m none) x i
          (ground (arith, mem-ne x m (shards i) k (unlisted i))) (r.members i x k);
    retired = λ j ne.
        IsRetired-same s.cells (put s.cells m none) (s.quarantine j) (ground (arith, outside j))
          (r.retired j ne);
    distinct = r.distinct;
    tail = r.tail;
    can_malloc = r.can_malloc;
    can_free = r.can_free;
    can_realloc = r.can_realloc;
  }
