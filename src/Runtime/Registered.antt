-- ===== src/Runtime/Registered.antt =====
-- The invariant of the registry of src/runtime.c: the shards are chains of live blocks, each in the
-- shard of its address, and the quarantine is a ring of freed blocks, each in one slot.
use owned_c.Base.{ℕ, ◌+◌, ◌≤◌, ◌<◌, ◌≡◌, ◌≢◌, true, false, Option, none, some, List, ◌∈◌}
use owned_c.Runtime.State.{
  Ptr, null, is_freed, magic_word, meta_size, quarantine_size, Block, State,
}
use owned_c.Runtime.Registry.{shard_of}
use owned_c.Runtime.Chain.{Links, Chain, Linked, Chain-Linked, null-not-mem}

module _ {A : Type 0} where
  abbrev pub block_links : Option (Block A) → Option (Ptr × Ptr)
  block_links none = none
  block_links (some b) = some (b.header.prev, b.header.next)

  abbrev pub links : (Ptr → Option (Block A)) → Links
  links c x = block_links (c x)

  -- A block whose header the registry wrote, with room for it and for the user bytes.
  pub record IsTracked (b : Block A) : Type 0 where
    pub magic : b.header.magic ≡ magic_word
    pub room : meta_size + b.header.size ≤ b.room

  -- A block in a shard.
  pub record IsMember (c : Ptr → Option (Block A)) (i : ℕ) (m : Ptr) : Type 0 where
    pub block : Block A
    pub here : c m ≡ some block
    pub tracked : IsTracked block
    pub alive : is_freed block.header.state ≡ false
    pub shard : shard_of m ≡ i

  -- A block in the quarantine.
  pub record IsRetired (c : Ptr → Option (Block A)) (m : Ptr) : Type 0 where
    pub block : Block A
    pub here : c m ≡ some block
    pub tracked : IsTracked block
    pub gone : is_freed block.header.state ≡ true

  pub record IsRegistry (shards : ℕ → List Ptr) (s : State A) : Type 0 where
    pub no_null : s.cells null ≡ none
    pub chains : (i : ℕ) → Chain (links s.cells) null (s.heads i) (shards i)
    pub members : (i : ℕ) (m : Ptr) → m ∈ shards i → IsMember s.cells i m
    pub retired : (j : ℕ) → s.quarantine j ≢ null → IsRetired s.cells (s.quarantine j)
    pub distinct : (j k : ℕ) → s.quarantine j ≢ null → s.quarantine j ≡ s.quarantine k → j ≡ k
    pub tail : s.quarantine_tail < quarantine_size
    pub can_malloc : s.global_malloc ≢ 0
    pub can_free : s.global_free ≢ 0
    pub can_realloc : s.global_realloc ≢ 0

  module _ {shards : ℕ → List Ptr} {s : State A} (r : IsRegistry shards s) where
    -- The header of a block in a shard has the links of the chain.
    pub member-Linked :
        (i : ℕ) (m : Ptr) → m ∈ shards i → Linked (links s.cells) null (s.heads i) m (shards i)
    member-Linked i m k =
        Chain-Linked (links s.cells) null (s.heads i) m (shards i)
          (null-not-mem (links s.cells) null (s.heads i) (shards i) (r.chains i)) (r.chains i) k
