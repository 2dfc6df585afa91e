-- ===== src/Tests/Transfer.antt =====
-- A block sent through a channel, at concrete inputs.
use owned_c.Base.{ℕ, ◌≡◌, refl, none, some, List, [], ◌∷◌, arith}
use owned_c.Runtime.State.{Ptr, null, owned, shared, holds, Block, State}
use owned_c.Runtime.Command.{ok}
use owned_c.Runtime.Alloc.{new_meta}
use owned_c.Runtime.Alloc.Malloc.{allocated, allocated-IsRegistry}
use owned_c.Runtime.Chain.{erase}
use owned_c.Runtime.Register.{listed}
use owned_c.Runtime.Registered.{IsRegistry}
use owned_c.Objects.{Object, node, Channel, channel}
use owned_c.Objects.Lifetime.{made, made-IsHeld}
use owned_c.Channels.{ownedc_channel_send, ownedc_channel_recv}
use owned_c.Channels.Queue.{IsQueue}
use owned_c.Channels.Send.{ownedc_channel_send-ok}
use owned_c.Channels.Recv.{ownedc_channel_recv-ok}
use owned_c.Tests.{idle, no_shards, idle-IsRegistry}

abbrev begin : State Object
begin = idle (4096 ∷ 8192 ∷ 12288 ∷ [])

begin-IsRegistry : IsRegistry no_shards begin
begin-IsRegistry = idle-IsRegistry (4096 ∷ 8192 ∷ 12288 ∷ [])

-- A channel in the first block and an item in the second.
abbrev with_channel : Channel → State Object
with_channel c = made begin-IsRegistry 4096 104 refl (omega arith) refl (omega arith) (channel c)

abbrev with_channel-IsRegistry : (c : Channel) → IsRegistry (listed 4096 no_shards) (with_channel c)
with_channel-IsRegistry c =
    let h =
      made-IsHeld begin-IsRegistry 4096 104 refl (omega arith) refl (omega arith) (channel c) in
    h.registry

abbrev with_item : Channel → State Object
with_item c = allocated 8192 100 none 0 (with_channel c)

abbrev shards : ℕ → List Ptr
shards = listed 8192 (listed 4096 no_shards)

with_item-IsRegistry : (c : Channel) → IsRegistry shards (with_item c)
with_item-IsRegistry c =
    allocated-IsRegistry (with_channel-IsRegistry c) 8192 100 none 0 refl (omega arith) refl
      (omega arith)

abbrev empty : Channel
empty = record { head = null; tail = null }

-- The block of the channel with a block in front of it.
abbrev frame : Ptr → Channel → Block Object
frame p c = record {
  room = 184;
  header = record (new_meta 104 none 0 7) { prev = p; next = null };
  body = holds (channel c);
}

empty-IsQueue : IsQueue (with_item empty) 4176 []
empty-IsQueue = record {
  frame = frame 8192 empty;
  frame_here = refl;
  frame_alive = refl;
  frame_room = omega arith;
  ends = empty;
  fields = refl;
  nodes = refl;
  last = refl;
  apart = refl;
}

own : ((with_item-IsRegistry empty).members 5 8192 refl).block.header.owner_thread ≡ 7
own = ground (arith, ((with_item-IsRegistry empty).members 5 8192 refl).here)

ownedc_channel_send-ok_example :
    (t : State Object) × (ownedc_channel_send 4176 8272 (with_item empty) ≡ ok tt t)
    × IsQueue t 4176 ((12368, 8272) ∷ [])
    × IsRegistry (listed 12288 shards) t
    × ((b : Block Object) × (t.cells 8192 ≡ some b) × (b.header.state ≡ shared))
ownedc_channel_send-ok_example =
    ownedc_channel_send-ok (with_item-IsRegistry empty) empty-IsQueue 8192 refl own 12288 refl
      (omega arith) refl

-- The same channel with one node, in a third block.
abbrev full : Channel
full = record { head = 12368; tail = 12368 }

abbrev held : Object
held = node (record { item = 8272; next = null })

abbrev with_node : State Object
with_node = made (with_item-IsRegistry full) 12288 16 refl (omega arith) refl (omega arith) held

with_node-IsRegistry : IsRegistry (listed 12288 shards) with_node
with_node-IsRegistry =
    let h =
      made-IsHeld (with_item-IsRegistry full) 12288 16 refl (omega arith) refl (omega arith) held in
    h.registry

full-IsQueue : IsQueue with_node 4176 ((12368, 8272) ∷ [])
full-IsQueue = record {
  frame = frame 8192 full;
  frame_here = refl;
  frame_alive = refl;
  frame_room = omega arith;
  ends = full;
  fields = refl;
  nodes = (
    refl,
    refl,
    (
      null,
      record {
        block = record {
          room = 96;
          header = record (new_meta 16 none 0 7) { prev = null; next = 8192 };
          body = holds held;
        };
        here = refl;
        alive = refl;
        room = omega arith;
        fields = refl;
        nonnull = omega arith;
      },
      refl,
    ),
  );
  last = refl;
  apart = refl;
}

unborrowed : (with_node-IsRegistry.members 5 12288 refl).block.header.borrow_count ≡ 0
unborrowed = ground (arith, (with_node-IsRegistry.members 5 12288 refl).here)

ownedc_channel_recv-ok_example :
    (t : State Object) × (ownedc_channel_recv 4176 with_node ≡ ok (some 8272) t)
    × IsQueue t 4176 []
    × IsRegistry (λ j. erase 12288 (listed 12288 shards j)) t
    × ((b : Block Object) × (t.cells 8192 ≡ some b)
        × (b.header.owner_thread ≡ 7)
        × (b.header.state ≡ owned))
ownedc_channel_recv-ok_example =
    ownedc_channel_recv-ok with_node-IsRegistry 12288 8192 full-IsQueue refl refl (omega arith)
      unborrowed
