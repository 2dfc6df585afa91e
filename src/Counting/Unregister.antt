-- ===== src/Counting/Unregister.antt =====
-- `unregister_from_gc` of src/ownedc_rc.c over the registry.
use owned_c.Base.{
  ℕ, zero, suc, ◌+◌, ◌≤◌, ◌≡◌, ◌≢◌, ◌∙◌, refl, sym, ap, subst, none, some, List, [], ◌∷◌, ◌∈◌, ◌∉◌,
  has, arith, inl, inr, length, ◌==◌, if◌then◌else◌, Bool-cases, ==→eq, ==→ne, ne→==, eq→==,
}
use owned_c.Runtime.State.{Ptr, null, meta_size, holds, Body, State}
use owned_c.Runtime.Command.{ok, pure, ◌>>=◌}
use owned_c.Runtime.Registry.{user_ptr}
use owned_c.Runtime.Registered.{IsRegistry}
use owned_c.Runtime.Chain.{erase, mem-erase}
use owned_c.Objects.{Act, Object, Counted, counted, read_counted}
use owned_c.Objects.Mine.{IsMine}
use owned_c.Counting.{rc_size, write_place, unlink_at, unregister_from_gc}
use owned_c.Counting.Graph.{Contents}
use owned_c.Counting.Unlink.{
  Distinct, before, before-mem, before-ne, skipping, Follows-skipping, unlink_at-before,
}
use owned_c.Counting.Owned.{
  IsOwned, read_counted-owned, stored, write_counted-owned, stored-Spares, stored-IsOwned,
}

pub not_mem_erase : (m : Ptr) (ws : List Ptr) → Distinct ws → m ∉ erase m ws
not_mem_erase m [] d = refl
not_mem_erase m (x ∷ xs) (out, d) = ground (arith, not_mem_erase m xs d, out)

pub still_out : (y m : Ptr) (ws : List Ptr) → y ∉ ws → y ∉ erase m ws
still_out y m [] out = refl
still_out y m (x ∷ xs) out = ground (arith, still_out y m xs)

pub Distinct-erase : (m : Ptr) (ws : List Ptr) → Distinct ws → Distinct (erase m ws)
Distinct-erase m [] d = d
Distinct-erase m (x ∷ xs) (out, d) = elim (Bool-cases (x == m)) [
  | inl e ↦ rw e d
  | inr e ↦ rw e (still_out x m xs out, Distinct-erase m xs d)
]

-- Two contents that differ in the links of the global list at most.
pub record SameCount (h h' : Counted) : Type 0 where
  pub ref_count : h'.ref_count ≡ h.ref_count
  pub inner : h'.inner ≡ h.inner
  pub children : h'.children ≡ h.children
  pub child_count : h'.child_count ≡ h.child_count
  pub gc_ref : h'.gc_ref ≡ h.gc_ref
  pub gc_marked : h'.gc_marked ≡ h.gc_marked

pub SameCount-refl : {h : Counted} → SameCount h h
SameCount-refl = record {
  ref_count = refl;
  inner = refl;
  children = refl;
  child_count = refl;
  gc_ref = refl;
  gc_marked = refl;
}

pub SameCount-trans : {a b c : Counted} → SameCount a b → SameCount b c → SameCount a c
SameCount-trans x y = record {
  ref_count = y.ref_count ∙ x.ref_count;
  inner = y.inner ∙ x.inner;
  children = y.children ∙ x.children;
  child_count = y.child_count ∙ x.child_count;
  gc_ref = y.gc_ref ∙ x.gc_ref;
  gc_marked = y.gc_marked ∙ x.gc_marked;
}

pub same_fields : {h : Counted} {p : Ptr} → SameCount h (record h { gc_next = p })
same_fields = record {
  ref_count = refl;
  inner = refl;
  children = refl;
  child_count = refl;
  gc_ref = refl;
  gc_marked = refl;
}

-- The wrapper `m` has left the list.
pub record IsUnlinked (shards : ℕ → List Ptr) (ws ws' : List Ptr) (m : Ptr) (s t : State Object)
    (f g : Contents) : Type 0 where
  pub owned : IsOwned shards ws' t g
  pub same : (x : Ptr) → SameCount (f x) (g x)
  pub others :
      (x : Ptr) {body : Body Object} {room : ℕ}
      → x ∉ ws
      → IsMine shards s x body room
      → IsMine shards t x body room
  pub node :
      (room : ℕ) × IsMine shards t m (holds (counted (f m))) room × (meta_size + rc_size ≤ room)

moved_head :
    {shards : ℕ → List Ptr} {s : State Object} {x : Ptr} {body : Body Object} {room : ℕ} (p : Ptr)
    → IsMine shards s x body room
    → IsMine shards (record s { gc_head = p }) x body room
moved_head p i = record { in_shard = i.in_shard; header = i.header; here = i.here; may = i.may }

pub moved_head-IsRegistry :
    {shards : ℕ → List Ptr} {s : State Object} (p : Ptr)
    → IsRegistry shards s
    → IsRegistry shards (record s { gc_head = p })
moved_head-IsRegistry p r = record {
  no_null = r.no_null;
  chains = r.chains;
  members = r.members;
  retired = r.retired;
  distinct = r.distinct;
  tail = r.tail;
  can_malloc = r.can_malloc;
  can_free = r.can_free;
  can_realloc = r.can_realloc;
}

-- The loop once `*curr` was read.
abbrev unlink_from : (k : ℕ) → (m x : Ptr) → Act Unit
unlink_from k m x =
    if x == null
    then pure tt
    else if x == user_ptr m
    then (do h ← read_counted (user_ptr m); write_place none h.gc_next)
    else unlink_at k (user_ptr m) (some x)

unregister_from_gc-head :
    (k : ℕ) (m : Ptr) (s : State Object)
    → unregister_from_gc (suc k) (user_ptr m) s ≡ unlink_from k m s.gc_head s
unfolding unregister_from_gc unlink_at
unregister_from_gc-head k m s = refl

module _ {shards : ℕ → List Ptr} {s : State Object} {f : Contents} (m : Ptr) (k : ℕ) where
  unlink-first :
      (bs : List Ptr)
      → IsOwned shards (m ∷ bs) s f
      → (t : State Object) × (g : Contents) × (unregister_from_gc (suc k) (user_ptr m) s ≡ ok tt t)
        × IsUnlinked shards (m ∷ bs) bs m s t f g
  unlink-first bs w =
      let m_in : m ∈ m ∷ bs = ground arith in
      let t = record s { gc_head = (f m).gc_next } in
      let r = w.registry in
      let (room, mine, le) = w.node m m_in in
      (
        t,
        f,
        unregister_from_gc-head k m s
            ∙ ap (λ x. unlink_from k m x s) w.list.0
            ∙ rw (
              ne→== (user_ptr m) null (omega arith),
              eq→== (user_ptr m) (user_ptr m) refl,
              read_counted-owned w m m_in,
            ),
        record {
          owned = record {
            registry = moved_head-IsRegistry (f m).gc_next r;
            distinct = w.distinct.1;
            list = w.list.1;
            node = λ x j.
                let (room', mine', le') = w.node x (ground arith) in
                (room', moved_head (f m).gc_next mine', le');
            inner = λ x j holding.
                let (i, at, out, (body, room', mine')) = w.inner x (ground arith) holding in
                (i, at, ground arith, (body, room', moved_head (f m).gc_next mine'));
            alone = λ x y i j. w.alone x y (ground arith) (ground arith);
          };
          same = λ x. same_fields;
          others = λ x out i. moved_head (f m).gc_next i;
          node = (room, moved_head (f m).gc_next mine, le);
        },
      )

  unlink-later :
      (b : Ptr) (bs : List Ptr)
      → IsOwned shards (b ∷ bs) s f
      → b ≢ m
      → m ∈ bs
      → length bs ≤ k
      → (t : State Object) × (g : Contents) × (unregister_from_gc (suc k) (user_ptr m) s ≡ ok tt t)
        × IsUnlinked shards (b ∷ bs) (b ∷ erase m bs) m s t f g
  unlink-later b bs w ne m_in few =
      let x = before b m bs in
      let x_in : x ∈ b ∷ bs = before-mem b m bs in
      let h = record (f x) { gc_next = (f m).gc_next } in
      let (room, mine, le) = w.node m (ground (arith, m_in)) in
      let p = stored-Spares w x x_in h refl in
      let not_x : m ≢ x = λ e. before-ne b m bs ne (sym e) in
      let reads : (y : Ptr) → y ∈ b ∷ bs → read_counted (user_ptr y) s ≡ ok (f y) s =
        λ y j. read_counted-owned w y j in
      (
        stored w x x_in h refl,
        skipping f b m bs,
        unregister_from_gc-head k m s
            ∙ ap (λ z. unlink_from k m z s) w.list.0
            ∙ rw (
              ne→== (user_ptr b) null (omega arith),
              ne→== (user_ptr b) (user_ptr m) (λ e. ne (omega (arith, e))),
              unlink_at-before m s f k b bs reads m_in w.list.1 few,
              read_counted-owned w x x_in,
              write_counted-owned w x x_in h refl,
            ),
        record {
          owned =
              stored-IsOwned w x x_in h refl (λ y j. ground (arith, mem-erase y m bs))
                (still_out b m bs w.distinct.0, Distinct-erase m bs w.distinct.1)
                (w.list.0, Follows-skipping f b m bs w.distinct m_in w.list.1);
          same = λ y. elim (Bool-cases (y == x)) [
            | inl e ↦ rw (e, ==→eq y x e) (same_fields)
            | inr e ↦ rw e (same_fields)
          ];
          others = λ y out i. p.others y (λ e. cc (ap (λ z. has z (b ∷ bs)) e, out, x_in)) i;
          node = (room, p.others m not_x mine, le);
        },
      )

-- With fuel beyond the length of the list a wrapper leaves it.
pub unregister_from_gc-IsUnlinked :
    {shards : ℕ → List Ptr} {s : State Object} {f : Contents} (m : Ptr) (fuel : ℕ) (ws : List Ptr)
    → IsOwned shards ws s f
    → m ∈ ws
    → length ws ≤ fuel
    → (t : State Object) × (g : Contents) × (unregister_from_gc fuel (user_ptr m) s ≡ ok tt t)
      × IsUnlinked shards ws (erase m ws) m s t f g
unregister_from_gc-IsUnlinked m fuel [] w k few = cc
unregister_from_gc-IsUnlinked m zero (b ∷ bs) w k few = absurd (omega (arith, few))
unregister_from_gc-IsUnlinked {shards} {s} {f} m (suc n) (b ∷ bs) w k few =
    elim (Bool-cases (b == m)) [
      | inl e ↦
          let at : b ≡ m = ==→eq b m e in
          rw e (
            subst
              (λ z.
                (t : State Object) × (g : Contents) × (unregister_from_gc (suc n) (user_ptr m) s
                  ≡ ok tt t)
                × IsUnlinked shards (z ∷ bs) bs m s t f g)
              (sym at) (unlink-first m n bs (subst (λ z. IsOwned shards (z ∷ bs) s f) at w)))
      | inr e ↦ rw e (unlink-later m n b bs w (==→ne b m e) (ground arith) (omega (arith, few)))
    ]
