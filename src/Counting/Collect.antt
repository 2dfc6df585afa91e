-- ===== src/Counting/Collect.antt =====
-- The whole of `owned_rc_collect_cycles` of src/ownedc_rc.c.
use owned_c.Base.{
  ℕ, ◌+◌, ◌<◌, ◌≡◌, ◌∙◌, ◌↔◌, refl, sym, ap, subst, true, some, List, [], ◌∈◌, ◌∉◌, arith, inl, inr,
  length, Bool-cases,
}
use owned_c.Runtime.State.{Ptr, Block, Meta, State}
use owned_c.Runtime.Command.{ok}
use owned_c.Runtime.Registry.{shard_of, user_ptr}
use owned_c.Runtime.Alloc.Free.{MayFree}
use owned_c.Objects.{Object, counted}
use owned_c.Runtime.State.{holds}
use owned_c.Objects.Mine.{mine-IsLive}
use owned_c.Counting.{owned_rc_collect_cycles}
use owned_c.Counting.Graph.{Contents, IsGraph, IsUpdated}
use owned_c.Counting.Phases.{Follows, Follows-Stays}
use owned_c.Counting.Alive.{IsHeldFromOutside, mark_phase_lem}
use owned_c.Counting.Owned.{IsOwned}
use owned_c.Counting.Swept.{marked_of, unmarked_count, swept_shards}
use owned_c.Counting.Sweep.{IsSwept, sweep-IsSwept}
use owned_c.Counting.Gone.{Chain-Distinct, swept_gone, marked_of_iff, length-marked_of}

-- The registered children are among the wrappers.
abbrev pub HasChildren : List Ptr → Contents → Type 0
HasChildren ws f =
    (m : Ptr)
    → m ∈ ws
    → (i : ℕ) → i < (f m).child_count
    → (c : Ptr) × ((f m).children i ≡ user_ptr c) × (c ∈ ws)

owned-IsGraph :
    {shards : ℕ → List Ptr} {ws : List Ptr} {s : State Object} {f : Contents}
    → IsOwned shards ws s f
    → HasChildren ws f
    → IsGraph ws s f
owned-IsGraph {f} w children = record {
  node = λ m k.
      let (room, mine, le) = w.node m k in
      record {
        block = record { room = room; header = mine.header; body = holds (counted (f m)) };
        here = mine.here;
        alive = (mine-IsLive w.registry mine).alive;
        room = le;
        contents = refl;
      };
  child = children;
}

-- The marks are written, and all else is as it was.
module _ {shards : ℕ → List Ptr} {ws : List Ptr} {s t : State Object} {f g : Contents}
    (w : IsOwned shards ws s f) (up : IsUpdated ws s t f g) where
  may_still : {h h' : Meta} → h' ≡ h → MayFree h s.self → MayFree h' t.self
  may_still {h} {h'} e may =
      subst (λ z. MayFree z t.self) (sym e) (subst (λ n. MayFree h n) (sym up.written.self) may)

  updated-IsOwned : IsOwned shards ws t g
  updated-IsOwned = record {
    registry = up.written.registry shards w.registry;
    distinct = w.distinct;
    list =
        subst (λ p. Follows g p ws) (sym up.head) (Follows-Stays f g s.gc_head ws up.stays w.list);
    node = λ x k.
        let (room, mine, le) = w.node x k in
        let n = up.graph.node x k in
        let (b, at, same) = up.written.headers x _ mine.here in
        let same_block : b ≡ n.block = ground (arith, at, n.here) in
        (
          n.block.room,
          record {
            in_shard = mine.in_shard;
            header = n.block.header;
            here = n.here ∙ ap (λ z. some (record n.block { body = z })) n.contents;
            may = may_still (ap (λ (z : Block Object). z.header) (sym same_block) ∙ same) mine.may;
          },
          n.room,
        );
    inner = λ x k holding.
        let e = (up.stays x).inner in
        let (i, at, out, (body, room, mine)) = w.inner x k (λ z. holding (e ∙ z)) in
        let (b, at_i, same) = up.written.headers i _ mine.here in
        (
          i,
          e ∙ at,
          out,
          (
            b.body,
            b.room,
            record {
              in_shard = mine.in_shard;
              header = b.header;
              here = at_i;
              may = may_still same mine.may;
            },
          ),
        );
    alone = λ x y i j ne holding z.
        w.alone x y i j ne (λ o. holding ((up.stays x).inner ∙ o))
          (sym (up.stays x).inner ∙ z ∙ (up.stays y).inner);
  }

-- What the collector leaves: the wrappers `kept`, in the contents `g`.
pub record IsCollected (ws kept : List Ptr) (shards' : ℕ → List Ptr) (f : Contents)
    (t : State Object) (g : Contents) : Type 0 where
  -- Those that are held from outside are kept, and they only.
  pub kept_iff : (x : Ptr) → (x ∈ kept) ↔ ((x ∈ ws) × IsHeldFromOutside ws f x)
  -- They are in their blocks still, with what they hold, and their counts and children are as they were.
  pub owned : IsOwned shards' kept t g
  pub counts : (x : Ptr) → x ∈ kept → (g x).ref_count ≡ (f x).ref_count
  pub inner : (x : Ptr) → x ∈ kept → (g x).inner ≡ (f x).inner
  pub child_count : (x : Ptr) → x ∈ kept → (g x).child_count ≡ (f x).child_count
  pub children : (x : Ptr) → x ∈ kept → (g x).children ≡ (f x).children
  -- The others have left the registry.
  pub gone : (x : Ptr) → x ∈ ws → x ∉ kept → x ∉ shards' (shard_of x)

module _ {shards : ℕ → List Ptr} {ws : List Ptr} {s t u : State Object} {f g h : Contents}
    (w : IsOwned shards ws s f) (up : IsUpdated ws s t f g)
    (iff : (x : Ptr) → x ∈ ws → ((g x).gc_marked ≡ true) ↔ IsHeldFromOutside ws f x)
    (swept : IsSwept shards [] ws g u h) where
  swept-IsCollected : IsCollected ws (marked_of g ws) (swept_shards shards g ws) f u h
  swept-IsCollected = record {
    kept_iff = λ x.
        let (to, from) = marked_of_iff g x ws in
        (
          λ k. let (j, mark) = to k in (j, (iff x j).0 mark),
          λ (j, held). from (j, (iff x j).1 held),
        );
    owned = swept.owned;
    counts = λ x k. (swept.same x k).ref_count ∙ (up.stays x).ref_count;
    inner = λ x k. (swept.same x k).inner ∙ (up.stays x).inner;
    child_count = λ x k. (swept.same x k).child_count ∙ (up.stays x).child_count;
    children = λ x k. (swept.same x k).children ∙ (up.stays x).children;
    gone = λ x k out. elim (Bool-cases (g x).gc_marked) [
      | inl e ↦ let j = (marked_of_iff g x ws).1 (k, e) in cc
      | inr e ↦
          let d = Chain-Distinct _ _ _ _ (w.registry.chains (shard_of x)) in
          swept_gone g (shard_of x) ws shards x d k e
    ];
  }

-- With fuel beyond the number of wrappers of the global list, each of them and what it holds in blocks of a well
-- formed registry that the running thread may free, no two wrappers holding the same block and none a wrapper of
-- the list, and the registered children among them: the collector returns the number of wrappers that it frees.
-- Those that it keeps are exactly the ones that some wrapper reaches along registered children whose count is
-- greater than the number of its registrations as a child; they stay in their blocks, with what they hold, their
-- counts and their children, and the others have left the registry.
pub owned_rc_collect_cycles-IsCollected :
    {shards : ℕ → List Ptr} {ws : List Ptr} {s : State Object} {f : Contents} (fuel : ℕ)
    → IsOwned shards ws s f
    → HasChildren ws f
    → length ws < fuel
    → (n : ℕ) × (kept : List Ptr) × (shards' : ℕ → List Ptr) × (t : State Object) × (g : Contents)
      × (owned_rc_collect_cycles fuel s ≡ ok n t)
      × (n + length kept ≡ length ws)
      × IsCollected ws kept shards' f t g
unfolding owned_rc_collect_cycles
owned_rc_collect_cycles-IsCollected {shards} {ws} {s} {f} fuel w children few =
    let (t, g, marks, up, iff) = mark_phase_lem ws fuel s f (owned-IsGraph w children) w.list few in
    let w' = updated-IsOwned w up in
    let (u, h, sweeps, swept) =
      sweep-IsSwept fuel fuel 0 [] ws t.gc_head shards t g w' w'.list few (omega (arith, few)) in
    (
      unmarked_count g ws,
      marked_of g ws,
      swept_shards shards g ws,
      u,
      h,
      rw (marks, sweeps) (ap (λ z. ok z u) (omega arith)),
      length-marked_of g ws,
      swept-IsCollected w up iff swept,
    )
