-- ===== src/Tests.antt =====
-- The containers at concrete inputs.
mod Growth
mod Wrappers
mod Transfer
mod Documents
mod Cycles
mod Texts
mod Futures
mod Collecting
use owned_c.Base.{
  List, inr, ℕ, ◌+◌, ◌≤◌, ◌≡◌, ◌≢◌, refl, true, Option, none, some, [], ◌∷◌, arith, ◌==◌,
  if◌then◌else◌, get_elem?,
}
use owned_c.Runtime.State.{Body, filled, Ptr, null, holds, Block, State, meta_size}
use owned_c.Runtime.Alloc.{new_meta}
use owned_c.Runtime.Command.{set_cell, ok}
use owned_c.Runtime.Alloc.Malloc.{allocated, allocated-IsRegistry}
use owned_c.Runtime.Register.{listed}
use owned_c.Runtime.Registered.{IsRegistry}
use owned_c.Runtime.Amend.{IsRegistry-set_cell}
use owned_c.Collections.Growth.{safe_vector_push-grown}
use owned_c.Arenas.{ownedc_arena_alloc, aligned_size}
use owned_c.Arenas.Bounds.{IsArena, ownedc_arena_alloc-ok}
use owned_c.Objects.{
  arena, ArenaBlock, arena_block, Object, Vector, vector, pointers, Node, node, channel, region,
  Chunk, chunk,
}
use owned_c.Collections.{safe_vector_push, safe_vector_get, safe_vector_remove}
use owned_c.Collections.Items.{IsVector, safe_vector_push-ok, safe_vector_get_lem}
use owned_c.Collections.Removal.{safe_vector_remove-ok}
use owned_c.Channels.{enqueue, dequeue}
use owned_c.Channels.Nodes.{IsNode}
use owned_c.Channels.Queue.{IsQueue, enqueue-ok, dequeue-ok}
use owned_c.Regions.{safe_region_alloc, aligned}
use owned_c.Regions.Bounds.{IsRegion, safe_region_alloc-ok}

-- A block with `size` user bytes, owned by thread 7.
abbrev pub block : (size : ℕ) → Object → Block Object
block size o = record { room = meta_size + size; header = new_meta size none 0 7; body = holds o }

abbrev pub still : (Ptr → Option (Block Object)) → State Object
still c = record {
  cells = c;
  heads = λ _. null;
  quarantine = λ _. null;
  quarantine_tail = 0;
  atexit_registered = true;
  global_malloc = 1;
  global_free = 2;
  global_realloc = 3;
  answers = [];
  calls = [];
  self = 7;
  gc_head = null;
  output = [];
}

-- A process that has made no call, in which the underlying allocator has these answers.
abbrev pub idle : List Ptr → State Object
idle answers = record (still (λ _. none)) { answers = answers }

abbrev pub no_shards : ℕ → List Ptr
no_shards _ = []

pub idle-IsRegistry : (answers : List Ptr) → IsRegistry no_shards (idle answers)
idle-IsRegistry answers = record {
  no_null = refl;
  chains = λ i. refl;
  members = λ i m k. cc;
  retired = λ j ne. absurd (ne refl);
  distinct = λ j k ne e. absurd (ne refl);
  tail = omega arith;
  can_malloc = omega arith;
  can_free = omega arith;
  can_realloc = omega arith;
}

-- A vector of three items with room for a fourth, at 1080, and its buffer at 2080.
abbrev fields : Vector
fields = record { items = 2080; length = 3; capacity = 4 }

abbrev three : ℕ → Option Ptr
three i = get_elem? (5 ∷ 6 ∷ 7 ∷ []) i

abbrev with_vector : State Object
with_vector = still (λ p.
    if p == 1000
    then some (block 24 (vector fields))
    else if p == 2000
    then some (block 32 (pointers three))
    else none)

three_items : IsVector with_vector 1080 fields (5 ∷ 6 ∷ 7 ∷ [])
three_items = record {
  parts = record {
    frame = block 24 (vector fields);
    frame_here = refl;
    frame_alive = refl;
    frame_room = omega arith;
    store = block 32 (pointers three);
    store_here = refl;
    store_alive = refl;
    store_room = omega arith;
    apart = omega arith;
    nonnull = omega arith;
    buffer = omega arith;
    count = refl;
    in_capacity = omega arith;
    small = omega arith;
    stored = λ i lt. refl;
  };
  fields = refl;
}

safe_vector_get_lem_example : safe_vector_get 1080 2 with_vector ≡ ok 7 with_vector
safe_vector_get_lem_example = safe_vector_get_lem three_items 2

safe_vector_push-ok_example :
    (t : State Object) × (safe_vector_push 1080 8 with_vector ≡ ok tt t)
    × IsVector t 1080 (record { items = 2080; length = 4; capacity = 4 }) (5 ∷ 6 ∷ 7 ∷ 8 ∷ [])
    × ((x : Ptr) → x ≢ 1000 → x ≢ 2000 → t.cells x ≡ with_vector.cells x)
safe_vector_push-ok_example = safe_vector_push-ok three_items 8 (omega arith)

safe_vector_remove-ok_example :
    (t : State Object) × (safe_vector_remove 1080 1 with_vector ≡ ok tt t)
    × IsVector t 1080 (record { items = 2080; length = 2; capacity = 4 }) (5 ∷ 7 ∷ [])
    × ((x : Ptr) → x ≢ 1000 → x ≢ 2000 → t.cells x ≡ with_vector.cells x)
safe_vector_remove-ok_example = safe_vector_remove-ok three_items 1 (omega arith)

-- A channel at 1080 with one node at 2080 in its queue, and another node at 3080.
abbrev with_channel : State Object
with_channel = still (λ p.
    if p == 1000
    then some (block 104 (channel (record { head = 2080; tail = 2080 })))
    else if p == 2000
    then some (block 16 (node (record { item = 5; next = null })))
    else if p == 3000
    then some (block 16 (node (record { item = 6; next = null })))
    else none)

one_node : IsQueue with_channel 1080 ((2080, 5) ∷ [])
one_node = record {
  frame = block 104 (channel (record { head = 2080; tail = 2080 }));
  frame_here = refl;
  frame_alive = refl;
  frame_room = omega arith;
  ends = record { head = 2080; tail = 2080 };
  fields = refl;
  nodes = (
    refl,
    refl,
    (
      null,
      record {
        block = block 16 (node (record { item = 5; next = null }));
        here = refl;
        alive = refl;
        room = omega arith;
        fields = refl;
        nonnull = omega arith;
      },
      refl,
    ),
  );
  last = refl;
  apart = refl;
}

other-IsNode : IsNode with_channel.cells 3080 6 null
other-IsNode = record {
  block = block 16 (node (record { item = 6; next = null }));
  here = refl;
  alive = refl;
  room = omega arith;
  fields = refl;
  nonnull = omega arith;
}

enqueue-ok_example :
    (t : State Object) × (enqueue 1080 3080 with_channel ≡ ok tt t)
    × IsQueue t 1080 ((2080, 5) ∷ (3080, 6) ∷ [])
enqueue-ok_example = enqueue-ok ((2080, 5) ∷ []) 3080 6 one_node other-IsNode refl

dequeue-ok_example :
    (t : State Object) × (first : Node) × (dequeue 1080 one_node.ends with_channel ≡ ok first t)
    × (first.item ≡ 5)
    × (one_node.ends.head ≡ 2080)
    × IsQueue t 1080 []
dequeue-ok_example = dequeue-ok 2080 5 one_node

-- A region at 1080 with a chunk of 64 bytes at 2080, of which 16 are in use.
abbrev with_region : State Object
with_region = still (λ p.
    if p == 1000
    then some (block 16 (region (record { current_chunk = 2080; chunk_size = 64 })))
    else if p == 2000
    then some (block 88 (chunk (record { used = 16; capacity = 64; next = null })))
    else none)

some_room :
    IsRegion with_region 1080
      (record { current_chunk = 2080; chunk_size = 64 })
      (record { used = 16; capacity = 64; next = null })
some_room = record {
  frame = block 16 (region (record { current_chunk = 2080; chunk_size = 64 }));
  frame_here = refl;
  frame_alive = refl;
  frame_room = omega arith;
  fields = refl;
  store = block 88 (chunk (record { used = 16; capacity = 64; next = null }));
  store_here = refl;
  store_alive = refl;
  store_room = omega arith;
  contents = refl;
  apart = omega arith;
  nonnull = omega arith;
  in_capacity = omega arith;
  multiple = refl;
  small = omega arith;
}

safe_region_alloc-ok_example :
    (t : State Object) × (h : Chunk) × (safe_region_alloc 1080 13 with_region ≡ ok 2120 t)
    × IsRegion t 1080 (record { current_chunk = 2080; chunk_size = 64 }) h
    × (29 ≤ h.used)
    × (h.capacity ≡ 64)
    × ((x : Ptr) → x ≢ 2000 → t.cells x ≡ with_region.cells x)
unfolding aligned
safe_region_alloc-ok_example =
    safe_region_alloc-ok some_room 13 (omega arith) (omega arith) (omega arith)
