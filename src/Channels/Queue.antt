-- ===== src/Channels/Queue.antt =====
-- The linked list of a channel of src/ownedc_channel.c is a queue: what sending puts at its end and
-- receiving takes from its front.
use owned_c.Base.{
  ◌+◌, ◌≤◌, ◌≡◌, ◌≢◌, refl, sym, ap, ◌∙◌, false, some, List, [], ◌∷◌, ◌++◌, arith, ◌==◌,
  if◌then◌else◌, ◌∈◌, ◌∉◌, ne→==, eq→==,
}
use owned_c.Runtime.State.{Ptr, null, meta_size, is_freed, Block, holds, State}
use owned_c.Runtime.Command.{ok, set_cell}
use owned_c.Objects.{Object, Node, Channel, node, channel, block_of}
use owned_c.Objects.Access.{read_node-ok, read_channel-ok, assign-ok}
use owned_c.Objects.Written.{IsWritten, set_cell-IsWritten, IsWritten-trans}
use owned_c.Channels.{node_size, channel_size, enqueue, dequeue}
use owned_c.Channels.Nodes.{
  IsNode, blocks_of, last_of, Nodes, IsNode-frame, Nodes-frame, not_among, new_last, last_of-append,
  blocks_of-append, last-IsNode, Nodes-append,
}

-- The channel at `ch` holds the nodes `ns`, in the order in which they are received.
pub record IsQueue (s : State Object) (ch : Ptr) (ns : List (Ptr × Ptr)) : Type 0 where
  pub frame : Block Object
  pub frame_here : s.cells (block_of ch) ≡ some frame
  pub frame_alive : is_freed frame.header.state ≡ false
  pub frame_room : meta_size + channel_size ≤ frame.room
  pub ends : Channel
  pub fields : frame.body ≡ holds (channel ends)
  pub nodes : Nodes s.cells ends.head ns
  pub last : ends.tail ≡ last_of null ns
  pub apart : block_of ch ∉ blocks_of ns

module _ {s : State Object} {ch : Ptr} where
  pub enqueued :
      (ns : List (Ptr × Ptr)) (n x : Ptr)
      → IsQueue s ch ns
      → IsNode s.cells n x null
      → block_of n ∉ block_of ch ∷ blocks_of ns
      → (t : State Object) × (enqueue ch n s ≡ ok tt t)
        × IsQueue t ch (ns ++ (n, x) ∷ [])
        × IsWritten s t
  unfolding enqueue
  enqueued [] n x r w away =
      let e : Channel = record { head = n; tail = n } in
      let frame' : Block Object = record r.frame { body = holds (channel e) } in
      (
        set_cell (block_of ch) (some frame') s,
        rw (
          read_channel-ok ch s r.frame_here r.frame_alive r.fields,
          eq→== r.ends.tail null r.last,
          assign-ok ch s r.frame_here r.frame_alive channel_size (channel e) r.frame_room,
        ),
        record {
          frame = frame';
          frame_here = ground arith;
          frame_alive = r.frame_alive;
          frame_room = r.frame_room;
          ends = e;
          fields = refl;
          nodes = (refl, refl, (null, IsNode-frame (ground arith) w, refl));
          last = refl;
          apart = ground arith;
        },
        set_cell-IsWritten s (block_of ch) r.frame_here (holds (channel e)),
      )
  enqueued ((q, y) ∷ ns) n x r w away =
      let (z, v, i) = last-IsNode r.ends.head q y ns r.nodes in
      let back : Block Object = record v.block {
        body = holds (node (record { item = z; next = n }));
      } in
      let s' : State Object = set_cell (block_of r.ends.tail) (some back) s in
      let e : Channel = record r.ends { tail = n } in
      let frame' : Block Object = record r.frame { body = holds (channel e) } in
      let at_tail : s.cells (block_of r.ends.tail) ≡ some v.block =
        ap (λ k. s.cells (block_of k)) r.last ∙ v.here in
      let other : block_of ch ≢ block_of (last_of q ns) = λ d.
        not_among (blocks_of ((q, y) ∷ ns)) (block_of ch) (block_of (last_of q ns)) r.apart i
          (sym d) in
      let new_block : block_of n ∉ blocks_of ((q, y) ∷ ns) = ground (arith, away) in
      let still_apart : block_of ch ∉ blocks_of (((q, y) ∷ ns) ++ (n, x) ∷ []) =
        ground (arith, r.apart, blocks_of-append ((q, y) ∷ ns) n x (block_of ch)) in
      let kept : s'.cells (block_of ch) ≡ some r.frame = ground (arith, r.frame_here, r.last) in
      (
        set_cell (block_of ch) (some frame') s',
        rw (
          read_channel-ok ch s r.frame_here r.frame_alive r.fields,
          ne→== r.ends.tail null (λ d. v.nonnull (sym r.last ∙ d)),
          read_node-ok r.ends.tail s at_tail v.alive v.fields,
          assign-ok r.ends.tail s at_tail v.alive node_size (node (record { item = z; next = n }))
              v.room,
          assign-ok ch s' kept r.frame_alive channel_size (channel e) r.frame_room,
        ),
        record {
          frame = frame';
          frame_here = ground arith;
          frame_alive = r.frame_alive;
          frame_room = r.frame_room;
          ends = e;
          fields = refl;
          nodes =
              Nodes-frame {c = s'.cells} r.ends.head (((q, y) ∷ ns) ++ (n, x) ∷ [])
                (λ m j.
                  let d =
                    not_among (blocks_of (((q, y) ∷ ns) ++ (n, x) ∷ [])) (block_of ch) m still_apart
                      j in
                  ground arith)
                (Nodes-append {d = s'.cells} r.ends.head q y ns n x r.nodes
                  (λ a u. record {
                    block = record u.block { body = holds (node (record { item = a; next = n })) };
                    here = ground (arith, u.here, v.here, u.fields, v.fields, r.last);
                    alive = u.alive;
                    room = u.room;
                    fields = refl;
                    nonnull = u.nonnull;
                  })
                  (λ k d. ground (arith, r.last))
                  (IsNode-frame
                    (ground (
                      arith,
                      not_among (blocks_of ((q, y) ∷ ns)) (block_of n) (block_of (last_of q ns))
                          new_block i,
                      r.last,
                    ))
                    w)
                  (ground arith));
          last = sym (last_of-append null ((q, y) ∷ ns) n x);
          apart = still_apart;
        },
        IsWritten-trans
            (set_cell-IsWritten s (block_of r.ends.tail) at_tail
              (holds (node (record { item = z; next = n }))))
            (set_cell-IsWritten s' (block_of ch) kept (holds (channel e))),
      )

  -- A node that is not in the queue and points nowhere, sent to a channel, goes to the end of its
  -- queue; the call returns.
  pub enqueue-ok :
      (ns : List (Ptr × Ptr)) (n x : Ptr)
      → IsQueue s ch ns
      → IsNode s.cells n x null
      → block_of n ∉ block_of ch ∷ blocks_of ns
      → (t : State Object) × (enqueue ch n s ≡ ok tt t) × IsQueue t ch (ns ++ (n, x) ∷ [])
  enqueue-ok ns n x r w away = let (t, e, q, _) = enqueued ns n x r w away in (t, e, q)

  pub dequeued :
      {ns : List (Ptr × Ptr)} (n x : Ptr)
      → (r : IsQueue s ch ((n, x) ∷ ns))
      → (t : State Object) × (first : Node) × (dequeue ch r.ends s ≡ ok first t)
        × (first.item ≡ x)
        × (r.ends.head ≡ n)
        × IsQueue t ch ns
        × IsWritten s t
  unfolding dequeue
  dequeued {ns} n x r =
      let (at_n, out, (m, w, ws)) = r.nodes in
      let e : Channel = record { head = m; tail = if m == null then null else r.ends.tail } in
      let frame' : Block Object = record r.frame { body = holds (channel e) } in
      let first : Node = record { item = x; next = m } in
      let at_head : s.cells (block_of r.ends.head) ≡ some w.block =
        ap (λ k. s.cells (block_of k)) at_n ∙ w.here in
      (
        set_cell (block_of ch) (some frame') s,
        first,
        rw (
          read_node-ok r.ends.head s at_head w.alive w.fields,
          assign-ok ch s r.frame_here r.frame_alive channel_size (channel e) r.frame_room,
        ),
        refl,
        at_n,
        record {
          frame = frame';
          frame_here = ground arith;
          frame_alive = r.frame_alive;
          frame_room = r.frame_room;
          ends = e;
          fields = refl;
          nodes =
              Nodes-frame m ns
                (λ k j.
                  let among : k ∈ blocks_of ((n, x) ∷ ns) = ground arith in
                  let d = not_among (blocks_of ((n, x) ∷ ns)) (block_of ch) k r.apart among in
                  ground arith)
                ws;
          last = new_last s.cells m ns r.ends.tail n ws r.last;
          apart = ground (arith, r.apart);
        },
        set_cell-IsWritten s (block_of ch) r.frame_here (holds (channel e)),
      )

  -- With a node there the first is taken: the call returns it, and the queue holds the others.
  pub dequeue-ok :
      {ns : List (Ptr × Ptr)} (n x : Ptr)
      → (r : IsQueue s ch ((n, x) ∷ ns))
      → (t : State Object) × (first : Node) × (dequeue ch r.ends s ≡ ok first t)
        × (first.item ≡ x)
        × (r.ends.head ≡ n)
        × IsQueue t ch ns
  dequeue-ok n x r = let (t, first, e, i, h, q, _) = dequeued n x r in (t, first, e, i, h, q)
