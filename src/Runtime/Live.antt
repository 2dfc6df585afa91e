-- ===== src/Runtime/Live.antt =====
-- A live block, as the calls of src/runtime.c find it behind a user pointer, and a freed one that is
-- still in the quarantine.
use owned_c.Base.{ℕ, ◌≡◌, ◌≢◌, false, some, List, ◌∈◌}
use owned_c.Runtime.State.{Ptr, null, is_freed, Block, State}
use owned_c.Runtime.Registry.{shard_of}
use owned_c.Runtime.Chain.{null-not-mem, mem-ne}
use owned_c.Runtime.Registered.{links, IsTracked, IsRegistry}

module _ {A : Type 0} where
  pub record IsLive (s : State A) (m : Ptr) (b : Block A) : Type 0 where
    pub here : s.cells m ≡ some b
    pub ne_null : m ≢ null
    pub tracked : IsTracked b
    pub alive : is_freed b.header.state ≡ false

  -- The blocks of the shards are live.
  pub member-IsLive :
      {shards : ℕ → List Ptr} {s : State A} (r : IsRegistry shards s) (m : Ptr)
      (k : m ∈ shards (shard_of m))
      → IsLive s m (r.members (shard_of m) m k).block
  member-IsLive {shards} {s} r m k =
      let h = r.members (shard_of m) m k in
      record {
        here = h.here;
        ne_null = mem-ne m null (shards (shard_of m)) k (
            null-not-mem (links s.cells) null (s.heads (shard_of m)) (shards (shard_of m))
              (r.chains (shard_of m)));
        tracked = h.tracked;
        alive = h.alive;
      }
