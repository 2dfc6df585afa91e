-- ===== src/Channels/Send.antt =====
-- `ownedc_channel_send` of src/ownedc_channel.c over the registry.
use owned_c.Base.{
  ℕ, ◌≡◌, ◌≢◌, ◌∙◌, refl, ap, sym, none, some, List, [], ◌∷◌, ◌++◌, ◌∈◌, ◌∉◌, arith, subst, ne→==,
}
use owned_c.Runtime.State.{Ptr, null, shared, Meta, Block, State}
use owned_c.Runtime.Command.{ok}
use owned_c.Runtime.Allocator.{first_answer}
use owned_c.Runtime.Registry.{shard_of, user_ptr}
use owned_c.Runtime.Live.{member-IsLive}
use owned_c.Runtime.Ownership.Claim.{shared_out, ownership_share-ok}
use owned_c.Runtime.Register.{listed}
use owned_c.Runtime.Registered.{IsRegistry}
use owned_c.Objects.{Object, Node, node, block_of}
use owned_c.Objects.Lifetime.{
  block_of-user_ptr, IsHeld, held-IsLive, owner_malloc-made, assign-made, made, made-IsHeld,
  made-Relinked, made-IsKept,
}
use owned_c.Objects.Written.{IsKept-trans, header-IsKept}
use owned_c.Channels.{node_size, ownedc_channel_send}
use owned_c.Channels.Nodes.{IsNode, blocks_of}
use owned_c.Channels.Queue.{IsQueue, enqueued}
use owned_c.Channels.Kept.{IsQueue-kept, unused-IsQueue}

module _ {shards : ℕ → List Ptr} {s : State Object} (r : IsRegistry shards s) {ch : Ptr}
    {ns : List (Ptr × Ptr)} (w : IsQueue s ch ns) (i : Ptr) (k : i ∈ shards (shard_of i))
    (own : (r.members (shard_of i) i k).block.header.owner_thread ≡ s.self) (q : Ptr)
    (answer : first_answer s.answers ≡ q) (ne : q ≢ null) (fresh : s.cells q ≡ none) where
  abbrev given : State Object
  given = shared_out r i k

  given-IsRegistry : IsRegistry shards given
  given-IsRegistry = (ownership_share-ok r i k own).1

  other : q ≢ i
  other e = cc (fresh, (member-IsLive r i k).here, ap s.cells e)

  still_fresh : given.cells q ≡ none
  still_fresh = ground (arith, fresh, other)

  abbrev new_node : Node
  new_node = record { item = user_ptr i; next = null }

  -- The state in which the node is put into the queue.
  abbrev filled : State Object
  filled = made given-IsRegistry q node_size answer ne still_fresh (omega arith) (node new_node)

  filled-IsHeld : IsHeld (listed q shards) filled q node_size (node new_node)
  filled-IsHeld =
      made-IsHeld given-IsRegistry q node_size answer ne still_fresh (omega arith) (node new_node)

  channel_nonnull : ch ≢ null
  channel_nonnull e = cc (w.frame_here, ap (λ x. s.cells (block_of x)) e, r.no_null)

  abbrev shared_header : Meta
  shared_header = record (r.members (shard_of i) i k).block.header { state = shared }

  filled-IsQueue : IsQueue filled ch ns
  filled-IsQueue =
      IsQueue-kept
        (λ m j.
          IsKept-trans {d = given.cells}
            (header-IsKept s i shared_header m (member-IsLive r i k).here refl)
            (made-IsKept given-IsRegistry q node_size answer ne still_fresh (omega arith)
              (node new_node) m))
        w

  sent-IsNode : IsNode filled.cells (user_ptr q) (user_ptr i) null
  sent-IsNode = record {
    block = filled-IsHeld.block;
    here = ap filled.cells (block_of-user_ptr q) ∙ filled-IsHeld.here;
    alive = (held-IsLive filled-IsHeld).alive;
    room = filled-IsHeld.room;
    fields = filled-IsHeld.contents;
    nonnull = omega arith;
  }

  outside : block_of (user_ptr q) ∉ block_of ch ∷ blocks_of ns
  outside =
      subst (λ x. x ∉ block_of ch ∷ blocks_of ns) (sym (block_of-user_ptr q))
        (unused-IsQueue q fresh w)

  -- A block of the registry that its owner sends, with memory for a node, goes to the end of the queue
  -- of the channel: the call returns, the block is shared, and the node stands in a registry that is
  -- still well formed.
  pub ownedc_channel_send-ok :
      (t : State Object) × (ownedc_channel_send ch (user_ptr i) s ≡ ok tt t)
      × IsQueue t ch (ns ++ (user_ptr q, user_ptr i) ∷ [])
      × IsRegistry (listed q shards) t
      × ((b : Block Object) × (t.cells i ≡ some b) × (b.header.state ≡ shared))
  unfolding ownedc_channel_send
  ownedc_channel_send-ok =
      let (t, e, queue, written) =
        enqueued ns (user_ptr q) (user_ptr i) filled-IsQueue sent-IsNode outside in
      let (shares, _, (b, there, st)) = ownership_share-ok r i k own in
      let (p, n, at_i) =
        made-Relinked given-IsRegistry q node_size answer ne still_fresh (omega arith)
          (node new_node) i there in
      let (b', there', same) =
        written.headers i (record b { header = record b.header { prev = p; next = n } })
          (ground (arith, at_i, there)) in
      (
        t,
        rw (
          ne→== ch null channel_nonnull,
          ne→== (user_ptr i) null (omega arith),
          shares,
          owner_malloc-made given-IsRegistry q node_size answer ne still_fresh (omega arith)
              (node new_node),
          ne→== (user_ptr q) null (omega arith),
          assign-made given-IsRegistry q node_size answer ne still_fresh (omega arith)
              (node new_node),
          e,
        ),
        queue,
        written.registry (listed q shards) filled-IsHeld.registry,
        (b', there', ap (λ (h : Meta). h.state) same ∙ st),
      )
