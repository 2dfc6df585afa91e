-- ===== src/Tests/Growth.antt =====
-- A push to a full vector, and an allocation from an arena, at concrete inputs.
use owned_c.Base.{
  List, inr, ℕ, ◌≤◌, ◌≡◌, ◌≢◌, refl, Option, none, some, [], ◌∷◌, arith, ◌==◌, if◌then◌else◌,
  get_elem?,
}
use owned_c.Runtime.State.{Body, filled, Ptr, null, holds, Block, State}
use owned_c.Runtime.Alloc.{new_meta}
use owned_c.Runtime.Command.{set_cell, ok}
use owned_c.Runtime.Alloc.Malloc.{allocated, allocated-IsRegistry}
use owned_c.Runtime.Register.{listed}
use owned_c.Runtime.Registered.{IsRegistry}
use owned_c.Runtime.Amend.{IsRegistry-set_cell}
use owned_c.Collections.Growth.{safe_vector_push-grown}
use owned_c.Arenas.{ownedc_arena_alloc, aligned_size}
use owned_c.Arenas.Bounds.{IsArena, ownedc_arena_alloc-ok}
use owned_c.Objects.{arena, ArenaBlock, arena_block, Object, Vector, vector, pointers}
use owned_c.Collections.{safe_vector_push}
use owned_c.Collections.Items.{IsVector}
use owned_c.Tests.{block, still}

-- A registry of two blocks: a full vector of one item, and its buffer.
abbrev begin : State Object
begin = record (still (λ _. none)) { answers = 4096 ∷ 8192 ∷ 12288 ∷ [] }

abbrev no_shards : ℕ → List Ptr
no_shards _ = []

begin-IsRegistry : IsRegistry no_shards begin
begin-IsRegistry = record {
  no_null = refl;
  chains = λ i. refl;
  members = λ i m k. cc;
  retired = λ j ne. absurd (ne refl);
  distinct = λ j k ne e. absurd (ne refl);
  tail = omega arith;
  can_malloc = omega arith;
  can_free = omega arith;
  can_realloc = omega arith;
}

abbrev first : State Object
first = allocated 4096 24 none 0 begin

first-IsRegistry : IsRegistry (listed 4096 no_shards) first
first-IsRegistry =
    allocated-IsRegistry begin-IsRegistry 4096 24 none 0 refl (omega arith) refl (omega arith)

abbrev second : State Object
second = allocated 8192 8 none 0 first

second-IsRegistry : IsRegistry (listed 8192 (listed 4096 no_shards)) second
second-IsRegistry =
    allocated-IsRegistry first-IsRegistry 8192 8 none 0 refl (omega arith) refl (omega arith)

abbrev vec_block : Body Object → Block Object
vec_block b = record {
  room = 104;
  header = record (new_meta 24 none 0 7) { prev = 8192; next = null };
  body = b;
}

abbrev items_block : Body Object → Block Object
items_block b = record {
  room = 88;
  header = record (new_meta 8 none 0 7) { prev = null; next = 4096 };
  body = b;
}

abbrev full_fields : Vector
full_fields = record { items = 8272; length = 1; capacity = 1 }

abbrev only_five : ℕ → Option Ptr
only_five i = get_elem? (5 ∷ []) i

abbrev third : State Object
third = set_cell 4096 (some (vec_block (holds (vector full_fields)))) second

third-IsRegistry : IsRegistry (listed 8192 (listed 4096 no_shards)) third
third-IsRegistry =
    IsRegistry-set_cell second-IsRegistry 4096 {b = vec_block (filled 0xAA 24)} refl (record {
      tracked = λ w. record { magic = w.magic; room = w.room };
      freed = refl;
      prev = refl;
      next = refl;
    })

abbrev full : State Object
full = set_cell 8192 (some (items_block (holds (pointers only_five)))) third

full-IsRegistry : IsRegistry (listed 8192 (listed 4096 no_shards)) full
full-IsRegistry =
    IsRegistry-set_cell third-IsRegistry 8192 {b = items_block (filled 0xAA 8)} refl (record {
      tracked = λ w. record { magic = w.magic; room = w.room };
      freed = refl;
      prev = refl;
      next = refl;
    })

full-IsVector : IsVector full 4176 full_fields (5 ∷ [])
full-IsVector = record {
  parts = record {
    frame = vec_block (holds (vector full_fields));
    frame_here = refl;
    frame_alive = refl;
    frame_room = omega arith;
    store = items_block (holds (pointers only_five));
    store_here = refl;
    store_alive = refl;
    store_room = omega arith;
    apart = omega arith;
    nonnull = omega arith;
    buffer = omega arith;
    count = refl;
    in_capacity = omega arith;
    small = omega arith;
    stored = λ i lt. refl;
  };
  fields = refl;
}

safe_vector_push-grown_example :
    (t : State Object) × (safe_vector_push 4176 6 full ≡ ok tt t)
    × IsVector t 4176 (record { items = 12368; length = 2; capacity = 2 }) (5 ∷ 6 ∷ [])
unfolding full-IsVector
safe_vector_push-grown_example =
    safe_vector_push-grown full-IsVector full-IsRegistry refl 12288 refl (omega arith) (inr refl) 6
      refl (omega arith) (omega arith) refl

-- An arena at 1080 with a block of 64 bytes at 2080, of which 16 are in use.
abbrev with_arena : State Object
with_arena = still (λ p.
    if p == 1000
    then some (block 24 (arena (record { head = 2080; current = 2080; default_block_size = 1024 })))
    else if p == 2000
    then some (block 88 (arena_block (record { next = null; size = 64; used = 16 })))
    else none)

with_arena-IsArena :
    IsArena with_arena 1080
      (record { head = 2080; current = 2080; default_block_size = 1024 })
      (record { next = null; size = 64; used = 16 })
with_arena-IsArena = record {
  frame = block 24 (arena (record { head = 2080; current = 2080; default_block_size = 1024 }));
  frame_here = refl;
  frame_alive = refl;
  fields = refl;
  store = block 88 (arena_block (record { next = null; size = 64; used = 16 }));
  store_here = refl;
  store_alive = refl;
  store_room = omega arith;
  contents = refl;
  apart = omega arith;
  nonnull = omega arith;
  current = omega arith;
  in_size = omega arith;
  multiple = refl;
  small = omega arith;
}

ownedc_arena_alloc-ok_example :
    (t : State Object) × (h : ArenaBlock) × (ownedc_arena_alloc 1080 48 with_arena ≡ ok 2120 t)
    × IsArena t 1080 (record { head = 2080; current = 2080; default_block_size = 1024 }) h
    × (64 ≤ h.used)
    × (h.size ≡ 64)
    × ((x : Ptr) → x ≢ 2000 → t.cells x ≡ with_arena.cells x)
unfolding aligned_size
ownedc_arena_alloc-ok_example =
    ownedc_arena_alloc-ok with_arena-IsArena 48 (omega arith) (omega arith)
