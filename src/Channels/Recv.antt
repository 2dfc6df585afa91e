-- ===== src/Channels/Recv.antt =====
-- `ownedc_channel_recv` of src/ownedc_channel.c over the registry.
use owned_c.Base.{
  ℕ, ◌≡◌, ◌≢◌, ◌∙◌, refl, ap, sym, none, some, List, ◌∷◌, ◌∈◌, ◌∉◌, arith, subst, ne→==, inr,
}
use owned_c.Runtime.State.{Ptr, null, owned, Meta, Block, State}
use owned_c.Runtime.Command.{ok}
use owned_c.Runtime.Registry.{shard_of, user_ptr}
use owned_c.Runtime.Alloc.{owner_free}
use owned_c.Runtime.Alloc.Free.{MayFree, released, owner_free_internal-ok, released-Relinked}
use owned_c.Runtime.Chain.{erase, mem_erase_of_ne}
use owned_c.Runtime.Ownership.{ownership_claim}
use owned_c.Runtime.Ownership.Claim.{claimed, claimed_meta, ownership_claim-ok}
use owned_c.Runtime.Registered.{IsRegistry, IsRetired}
use owned_c.Objects.{Object, Node, Channel, block_of, read_channel}
use owned_c.Objects.Access.{read_channel-ok}
use owned_c.Objects.Lifetime.{block_of-user_ptr}
use owned_c.Objects.Written.{IsWritten, IsKept-trans, header-IsKept, Relinked-IsKept}
use owned_c.Channels.{dequeue, ownedc_channel_recv}
use owned_c.Channels.Nodes.{blocks_of, not_among}
use owned_c.Channels.Queue.{IsQueue, dequeued}
use owned_c.Channels.Kept.{IsQueue-kept}

-- The call, step by step.
recv_steps :
    (ch m i : Ptr) (c : Channel) (first : Node) {s a b d t : State Object}
    → ch ≢ null
    → read_channel ch s ≡ ok c s
    → c.head ≡ user_ptr m
    → dequeue ch c s ≡ ok first a
    → first.item ≡ user_ptr i
    → ownership_claim (user_ptr m) a ≡ ok tt b
    → owner_free (user_ptr m) b ≡ ok tt d
    → ownership_claim (user_ptr i) d ≡ ok tt t
    → ownedc_channel_recv ch s ≡ ok (some (user_ptr i)) t
unfolding ownedc_channel_recv
recv_steps ch m i c first nonnull reads head takes item claims frees claims' = rw (
  ne→== ch null nonnull,
  reads,
  ne→== c.head null (ground (arith, head)),
  takes,
  head,
  claims,
  frees,
  item,
  ne→== (user_ptr i) null (omega arith),
  claims',
)

module _ {shards : ℕ → List Ptr} {s : State Object} (r : IsRegistry shards s) {ch : Ptr}
    {ns : List (Ptr × Ptr)} (m i : Ptr) (w : IsQueue s ch ((user_ptr m, user_ptr i) ∷ ns))
    (m_in : m ∈ shards (shard_of m)) (i_in : i ∈ shards (shard_of i)) (ne : m ≢ i)
    (unborrowed : (r.members (shard_of m) m m_in).block.header.borrow_count ≡ 0) where
  -- The state when the node is out of the queue.
  taken : State Object
  taken = (dequeued (user_ptr m) (user_ptr i) w).0

  taken-ok :
      (first : Node) × (dequeue ch w.ends s ≡ ok first taken)
      × (first.item ≡ user_ptr i)
      × (w.ends.head ≡ user_ptr m)
  unfolding taken
  taken-ok =
      let (_, first, e, item, head, _, _) = dequeued (user_ptr m) (user_ptr i) w in
      (first, e, item, head)

  channel_nonnull : ch ≢ null
  channel_nonnull e = cc (w.frame_here, ap (λ x. s.cells (block_of x)) e, r.no_null)

  taken-IsWritten : IsWritten s taken
  unfolding taken
  taken-IsWritten = let (_, _, _, _, _, _, v) = dequeued (user_ptr m) (user_ptr i) w in v

  taken-IsQueue : IsQueue taken ch ns
  unfolding taken
  taken-IsQueue = let (_, _, _, _, _, q, _) = dequeued (user_ptr m) (user_ptr i) w in q

  taken-IsRegistry : IsRegistry shards taken
  taken-IsRegistry = taken-IsWritten.registry shards r

  -- The state when the receiver owns the node.
  abbrev mine : State Object
  mine = claimed taken-IsRegistry m m_in

  mine-IsRegistry : IsRegistry shards mine
  mine-IsRegistry = (ownership_claim-ok taken-IsRegistry m m_in).1

  mine_block : (b : Block Object) × (mine.cells m ≡ some b) × MayFree b.header mine.self
  mine_block =
      let old = r.members (shard_of m) m m_in in
      let new = taken-IsRegistry.members (shard_of m) m m_in in
      let (b, here, same) = taken-IsWritten.headers m old.block old.here in
      let block_same : new.block ≡ b = ground (arith, new.here, here) in
      (
        record new.block { header = claimed_meta taken.self new.block.header },
        ground arith,
        record {
          unborrowed =
              ap (λ (z : Block Object). z.header.borrow_count) block_same
              ∙ ap (λ (h : Meta). h.borrow_count) same
              ∙ unborrowed;
          allowed = inr refl;
        },
      )

  away : (x : Ptr) → x ∈ block_of ch ∷ blocks_of ns → x ≢ m
  away x k e =
      let apart : m ∉ block_of ch ∷ blocks_of ns =
        subst (λ y. y ∉ block_of ch ∷ blocks_of ns) (block_of-user_ptr m)
          (ground (arith, w.apart, w.nodes)) in
      not_among (block_of ch ∷ blocks_of ns) m x apart k e

  -- The state when the node is given up.
  abbrev left : State Object
  left = released mine-IsRegistry m m_in {b = mine_block.0} mine_block.1 none 0

  left-ok :
      (owner_free (user_ptr m) mine ≡ ok tt left)
      × IsRegistry (λ j. erase m (shards j)) left
      × IsRetired left.cells m
  unfolding owner_free
  left-ok =
      let (e, registry, slot, retired, _) =
        owner_free_internal-ok mine-IsRegistry m m_in {b = mine_block.0} mine_block.1 none 0
          mine_block.2 in
      (e, registry, retired)

  i_left : i ∈ erase m (shards (shard_of i))
  i_left = mem_erase_of_ne i m (shards (shard_of i)) i_in (λ e. ne (sym e))

  abbrev received : State Object
  received = claimed left-ok.1 i i_left

  received-IsQueue : IsQueue received ch ns
  received-IsQueue =
      let before = taken-IsRegistry.members (shard_of m) m m_in in
      let after = left-ok.1.members (shard_of i) i i_left in
      IsQueue-kept
        (λ x j.
          IsKept-trans {d = mine.cells}
            (header-IsKept taken m (claimed_meta taken.self before.block.header) x before.here refl)
            (IsKept-trans {d = left.cells}
              (record {
                kept = λ b at_x alive.
                    (Relinked-IsKept mine.cells left.cells x (
                        released-Relinked mine-IsRegistry m m_in {b = mine_block.0} mine_block.1
                          none 0 x at_x alive (away x j))).kept
                      b at_x alive;
              })
              (header-IsKept left i (claimed_meta left.self after.block.header) x after.here refl)))
        taken-IsQueue

  -- On a channel with a node at its front, unborrowed and in the registry, which holds another block of
  -- the registry, the call returns that block: the receiver owns it, the node is given up, the queue
  -- holds the others, and the registry is still well formed.
  pub ownedc_channel_recv-ok :
      (t : State Object) × (ownedc_channel_recv ch s ≡ ok (some (user_ptr i)) t)
      × IsQueue t ch ns
      × IsRegistry (λ j. erase m (shards j)) t
      × ((b : Block Object) × (t.cells i ≡ some b)
          × (b.header.owner_thread ≡ s.self)
          × (b.header.state ≡ owned))
  ownedc_channel_recv-ok =
      let (first, takes, item, head) = taken-ok in
      let (claims, registry, (b, there, own, st, _)) = ownership_claim-ok left-ok.1 i i_left in
      (
        received,
        recv_steps ch m i w.ends first channel_nonnull
            (read_channel-ok ch s w.frame_here w.frame_alive w.fields) head takes item
            (ownership_claim-ok taken-IsRegistry m m_in).0 left-ok.0 claims,
        received-IsQueue,
        registry,
        (b, there, own ∙ taken-IsWritten.self, st),
      )
