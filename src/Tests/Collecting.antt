-- ===== src/Tests/Collecting.antt =====
-- Reference counts over the registry at concrete inputs.
use owned_c.Base.{
  ℕ, ◌+◌, ◌<◌, ◌≡◌, ◌⊎◌, refl, none, List, [], ◌∷◌, ◌∈◌, arith, inl, inr, length, false, ◌==◌,
  if◌then◌else◌, Bool-cases, ==→eq,
}
use owned_c.Runtime.State.{filled, Ptr, null, Meta, holds, State}
use owned_c.Runtime.Command.{ok}
use owned_c.Runtime.Alloc.{new_meta}
use owned_c.Runtime.Alloc.Malloc.{allocated, allocated-IsRegistry}
use owned_c.Runtime.Register.{listed}
use owned_c.Runtime.Registered.{IsRegistry}
use owned_c.Objects.{Object, Counted, counted}
use owned_c.Objects.Lifetime.{made, made-IsHeld}
use owned_c.Objects.Mine.{IsMine}
use owned_c.Counting.{owned_rc_drop, owned_rc_collect_cycles}
use owned_c.Counting.Graph.{Contents, replaced}
use owned_c.Counting.Unregister.{moved_head-IsRegistry}
use owned_c.Counting.Owned.{IsOwned}
use owned_c.Counting.Drop.{dropped_shards, IsDropped}
use owned_c.Counting.Count.{with_count, owned_rc_drop-IsOwned}
use owned_c.Counting.Collect.{HasChildren, IsCollected, owned_rc_collect_cycles-IsCollected}
use owned_c.Tests.{idle, no_shards, idle-IsRegistry}

abbrev answers : List Ptr
answers = 4096 ∷ 8192 ∷ 12288 ∷ []

abbrev begin : State Object
begin = record (idle answers) { gc_head = 12368 }

begin-IsRegistry : IsRegistry no_shards begin
begin-IsRegistry = moved_head-IsRegistry 12368 (idle-IsRegistry answers)

-- The first block is held by a wrapper in the second, which is its own child; a wrapper in the third holds nothing.
abbrev with_inner : State Object
with_inner = allocated 4096 16 none 0 begin

with_inner-IsRegistry : IsRegistry (listed 4096 no_shards) with_inner
with_inner-IsRegistry =
    allocated-IsRegistry begin-IsRegistry 4096 16 none 0 refl (omega arith) refl (omega arith)

abbrev cyclic : Counted
cyclic = record {
  inner = 4176;
  ref_count = 1;
  children = λ _. 8272;
  child_count = 1;
  gc_ref = 0;
  gc_marked = false;
  gc_next = null;
}

abbrev single : Counted
single = record {
  inner = null;
  ref_count = 1;
  children = λ _. null;
  child_count = 0;
  gc_ref = 0;
  gc_marked = false;
  gc_next = 8272;
}

abbrev with_cyclic : State Object
with_cyclic =
    made with_inner-IsRegistry 8192 80 refl (omega arith) refl (omega arith) (counted cyclic)

with_cyclic-IsRegistry : IsRegistry (listed 8192 (listed 4096 no_shards)) with_cyclic
with_cyclic-IsRegistry =
    let h =
      made-IsHeld with_inner-IsRegistry 8192 80 refl (omega arith) refl (omega arith)
        (counted cyclic) in
    h.registry

abbrev heap : State Object
heap = made with_cyclic-IsRegistry 12288 80 refl (omega arith) refl (omega arith) (counted single)

abbrev shards : ℕ → List Ptr
shards = listed 12288 (listed 8192 (listed 4096 no_shards))

heap-IsRegistry : IsRegistry shards heap
heap-IsRegistry =
    let h =
      made-IsHeld with_cyclic-IsRegistry 12288 80 refl (omega arith) refl (omega arith)
        (counted single) in
    h.registry

abbrev contents : Contents
contents m = if m == 12288 then single else cyclic

abbrev wrappers : List Ptr
wrappers = 12288 ∷ 8192 ∷ []

abbrev header_of : (size prev next : ℕ) → Meta
header_of size prev next = record (new_meta size none 0 7) { prev = prev; next = next }

cyclic-IsMine : IsMine shards heap 8192 (holds (counted cyclic)) 160
cyclic-IsMine = record {
  in_shard = refl;
  header = header_of 80 12288 4096;
  here = refl;
  may = record { unborrowed = refl; allowed = inr refl };
}

single-IsMine : IsMine shards heap 12288 (holds (counted single)) 160
single-IsMine = record {
  in_shard = refl;
  header = header_of 80 null 8192;
  here = refl;
  may = record { unborrowed = refl; allowed = inr refl };
}

inner-IsMine : IsMine shards heap 4096 (filled 0xAA 16) 96
inner-IsMine = record {
  in_shard = refl;
  header = header_of 16 8192 null;
  here = refl;
  may = record { unborrowed = refl; allowed = inr refl };
}

second : (x : Ptr) → x ∈ wrappers → (x == 12288) ≡ false → x ≡ 8192
second x k e = ground arith

heap-IsOwned : IsOwned shards wrappers heap contents
heap-IsOwned = record {
  registry = heap-IsRegistry;
  distinct = (refl, (refl, tt));
  list = (refl, (refl, refl));
  node = λ x k. elim (Bool-cases (x == 12288)) [
    | inl e ↦ let at : x ≡ 12288 = ==→eq x 12288 e in (160, rw (at) single-IsMine, omega arith)
    | inr e ↦ let at = second x k e in (160, rw (at) cyclic-IsMine, omega arith)
  ];
  inner = λ x k holding. elim (Bool-cases (x == 12288)) [
    | inl e ↦ absurd (ground arith)
    | inr e ↦ (4096, rw e refl, refl, (filled 0xAA 16, 96, inner-IsMine))
  ];
  alone = λ x y i j ne holding. ground arith;
}

children : HasChildren wrappers contents
children m k i lt = elim (Bool-cases (m == 12288)) [
  | inl e ↦ absurd (ground arith)
  | inr e ↦ (8192, rw e refl, refl)
]

-- The cycle is collected.
owned_rc_collect_cycles-IsCollected_example :
    (n : ℕ) × (kept : List Ptr) × (shards' : ℕ → List Ptr) × (t : State Object) × (g : Contents)
    × (owned_rc_collect_cycles 3 heap ≡ ok n t)
    × (n + length kept ≡ 2)
    × IsCollected wrappers kept shards' contents t g
owned_rc_collect_cycles-IsCollected_example =
    owned_rc_collect_cycles-IsCollected 3 heap-IsOwned children (omega arith)

-- The last reference to the wrapper in the second block is dropped.
owned_rc_drop-IsOwned_example :
    ((cyclic.ref_count ≡ 0) × (owned_rc_drop 2 8272 heap ≡ ok tt heap))
    ⊎ ((1 < cyclic.ref_count)
        × ((t : State Object) × (owned_rc_drop 2 8272 heap ≡ ok tt t)
            × IsOwned shards wrappers t
                (replaced contents 8192 (with_count heap-IsOwned 8192 refl 0))))
    ⊎ ((cyclic.ref_count ≡ 1)
        × ((t : State Object) × (g : Contents) × (owned_rc_drop 2 8272 heap ≡ ok tt t)
            × IsDropped (dropped_shards shards cyclic 8192) (12288 ∷ []) 8192 t contents g))
owned_rc_drop-IsOwned_example = owned_rc_drop-IsOwned heap-IsOwned 8192 refl 2 (omega arith)
