-- ===== src/Channels/Kept.antt =====
-- A queue whose blocks are kept, whatever happens to the rest of the memory, is still there.
use owned_c.Base.{
  ◌+◌, ◌≤◌, ◌≡◌, sym, ap, subst, ◌∙◌, some, List, [], ◌∷◌, arith, ◌==◌, has, ◌∈◌, ◌∉◌,
}
use owned_c.Runtime.State.{Ptr, meta_size, Block, State}
use owned_c.Objects.{Object, block_of}
use owned_c.Objects.Written.{Cells, IsKept}
use owned_c.Channels.{node_size, channel_size}
use owned_c.Channels.Nodes.{blocks_of, Nodes}
use owned_c.Channels.Queue.{IsQueue}
use owned_c.Base.{Bool-cases, inl, inr, none, ==→eq}

-- A queue whose blocks are kept is still there.
Nodes-kept :
    {c d : Cells} (p : Ptr) (ns : List (Ptr × Ptr))
    → ((m : Ptr) → m ∈ blocks_of ns → IsKept c d m)
    → Nodes c p ns
    → Nodes d p ns
Nodes-kept p [] same w = w
Nodes-kept p ((q, x) ∷ ns) same (at_q, out, (n, w, ws)) =
    let (b, here, body, room, alive) =
      (same (block_of q) (ground arith)).kept w.block w.here w.alive in
    (
      at_q,
      out,
      (
        n,
        record {
          block = b;
          here = here;
          alive = alive;
          room = subst (λ k. meta_size + node_size ≤ k) (sym room) w.room;
          fields = body ∙ w.fields;
          nonnull = w.nonnull;
        },
        Nodes-kept n ns (λ m i. same m (ground arith)) ws,
      ),
    )

pub IsQueue-kept :
    {s t : State Object} {ch : Ptr} {ns : List (Ptr × Ptr)}
    → ((m : Ptr) → m ∈ block_of ch ∷ blocks_of ns → IsKept s.cells t.cells m)
    → IsQueue s ch ns
    → IsQueue t ch ns
IsQueue-kept {ch} {ns} same r =
    let (b, here, body, room, alive) =
      (same (block_of ch) (ground arith)).kept r.frame r.frame_here r.frame_alive in
    record {
      frame = b;
      frame_here = here;
      frame_alive = alive;
      frame_room = subst (λ k. meta_size + channel_size ≤ k) (sym room) r.frame_room;
      ends = r.ends;
      fields = body ∙ r.fields;
      nodes = Nodes-kept r.ends.head ns (λ m i. same m (ground arith)) r.nodes;
      last = r.last;
      apart = r.apart;
    }

-- The blocks of a queue are there.
Nodes-here :
    (c : Cells) (p : Ptr) (ns : List (Ptr × Ptr)) (m : Ptr)
    → m ∈ blocks_of ns
    → Nodes c p ns
    → (b : Block Object) × (c m ≡ some b)
Nodes-here c p [] m i w = cc
Nodes-here c p ((q, x) ∷ ns) m i (at_q, out, (n, w, ws)) = elim (Bool-cases (block_of q == m)) [
  | inl e ↦ (w.block, ap c (sym (==→eq _ _ e)) ∙ w.here)
  | inr e ↦ Nodes-here c n ns m (ground (arith)) ws
]

pub IsQueue-here :
    {s : State Object} {ch : Ptr} {ns : List (Ptr × Ptr)} (m : Ptr)
    → m ∈ block_of ch ∷ blocks_of ns
    → IsQueue s ch ns
    → (b : Block Object) × (s.cells m ≡ some b)
IsQueue-here {s} {ch} {ns} m i r = elim (Bool-cases (block_of ch == m)) [
  | inl e ↦ (r.frame, ap s.cells (sym (==→eq _ _ e)) ∙ r.frame_here)
  | inr e ↦ Nodes-here s.cells r.ends.head ns m (ground arith) r.nodes
]

pub unused-IsQueue :
    {s : State Object} {ch : Ptr} {ns : List (Ptr × Ptr)} (q : Ptr)
    → s.cells q ≡ none
    → IsQueue s ch ns
    → q ∉ block_of ch ∷ blocks_of ns
unused-IsQueue {s} {ch} {ns} q fresh r = elim (Bool-cases (has q (block_of ch ∷ blocks_of ns))) [
  | inl i ↦ let (b, here) = IsQueue-here q i r in cc (fresh, here)
  | inr o ↦ o
]
