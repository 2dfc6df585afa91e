-- ===== src/Counting/Graph.antt =====
-- The wrappers of src/ownedc_rc.c as a graph: each in a block of its own, with its registered children
-- among them.
use owned_c.Base.{
  ℕ, ◌+◌, ◌≤◌, ◌<◌, ◌≡◌, ◌∙◌, refl, sym, ap, subst, false, some, List, ◌∈◌, arith, inl, inr, ◌==◌,
  if◌then◌else◌, Bool-cases, ==→eq,
}
use owned_c.Runtime.State.{Ptr, is_freed, meta_size, holds, Block, State}
use owned_c.Runtime.Command.{ok, set_cell}
use owned_c.Runtime.Registry.{user_ptr}
use owned_c.Objects.{Object, Counted, counted, read_counted}
use owned_c.Objects.Access.{deref-ok, assign-ok}
use owned_c.Objects.Lifetime.{block_of-user_ptr}
use owned_c.Objects.Written.{IsWritten, set_cell-IsWritten, IsWritten-trans, same-IsWritten}
use owned_c.Counting.{rc_size, write_counted}

-- What each block holds.
abbrev pub Contents : Type 0
Contents = Ptr → Counted

-- The block at `m` holds the wrapper `h`.
pub record IsWrapper (s : State Object) (m : Ptr) (h : Counted) : Type 0 where
  pub block : Block Object
  pub here : s.cells m ≡ some block
  pub alive : is_freed block.header.state ≡ false
  pub room : meta_size + rc_size ≤ block.room
  pub contents : block.body ≡ holds (counted h)

-- The blocks `ws` hold wrappers, and their children are among them.
pub record IsGraph (ws : List Ptr) (s : State Object) (f : Contents) : Type 0 where
  pub node : (m : Ptr) → m ∈ ws → IsWrapper s m (f m)
  pub child :
      (m : Ptr)
      → m ∈ ws
      → (i : ℕ) → i < (f m).child_count
      → (c : Ptr) × ((f m).children i ≡ user_ptr c) × (c ∈ ws)

-- The fields that the collector reads and does not change.
pub record Stays (h h' : Counted) : Type 0 where
  pub ref_count : h'.ref_count ≡ h.ref_count
  pub inner : h'.inner ≡ h.inner
  pub children : h'.children ≡ h.children
  pub child_count : h'.child_count ≡ h.child_count
  pub gc_next : h'.gc_next ≡ h.gc_next

pub Stays-refl : (h : Counted) → Stays h h
Stays-refl h = record {
  ref_count = refl;
  inner = refl;
  children = refl;
  child_count = refl;
  gc_next = refl;
}

pub Stays-trans : {a b c : Counted} → Stays a b → Stays b c → Stays a c
Stays-trans x y = record {
  ref_count = y.ref_count ∙ x.ref_count;
  inner = y.inner ∙ x.inner;
  children = y.children ∙ x.children;
  child_count = y.child_count ∙ x.child_count;
  gc_next = y.gc_next ∙ x.gc_next;
}

pub Stays-sym : {a b : Counted} → Stays a b → Stays b a
Stays-sym x = record {
  ref_count = sym x.ref_count;
  inner = sym x.inner;
  children = sym x.children;
  child_count = sym x.child_count;
  gc_next = sym x.gc_next;
}

-- A step of the collector, which writes to wrappers and nothing else.
pub record IsUpdated (ws : List Ptr) (s t : State Object) (f g : Contents) : Type 0 where
  pub graph : IsGraph ws t g
  pub written : IsWritten s t
  pub head : t.gc_head ≡ s.gc_head
  pub stays : (x : Ptr) → Stays (f x) (g x)

pub IsUpdated-trans :
    {ws : List Ptr} {s t u : State Object} {f g h : Contents}
    → IsUpdated ws s t f g
    → IsUpdated ws t u g h
    → IsUpdated ws s u f h
IsUpdated-trans x y = record {
  graph = y.graph;
  written = IsWritten-trans x.written y.written;
  head = y.head ∙ x.head;
  stays = λ z. Stays-trans (x.stays z) (y.stays z);
}

pub IsUpdated-refl :
    {ws : List Ptr} {s : State Object} {f : Contents} → IsGraph ws s f → IsUpdated ws s s f f
IsUpdated-refl {s} {f} w = record {
  graph = w;
  written = same-IsWritten s;
  head = refl;
  stays = λ x. Stays-refl (f x);
}

-- `f` with the wrapper at `m` replaced.
abbrev pub replaced : Contents → Ptr → Counted → Contents
replaced f m h x = if x == m then h else f x

module _ {ws : List Ptr} {s : State Object} {f : Contents} (w : IsGraph ws s f) (m : Ptr)
    (k : m ∈ ws) where
  pub read_counted-node : read_counted (user_ptr m) s ≡ ok (f m) s
  unfolding read_counted
  read_counted-node =
      let n = w.node m k in
      rw (
        deref-ok (user_ptr m) s {b = n.block} (ap s.cells (block_of-user_ptr m) ∙ n.here) n.alive
          n.contents)

  module _ (h : Counted) (same : Stays (f m) h) where
    abbrev pub stored : State Object
    stored = set_cell m (some (record (w.node m k).block { body = holds (counted h) })) s

    pub write_counted-node : write_counted (user_ptr m) h s ≡ ok tt stored
    write_counted-node =
        let n = w.node m k in
        assign-ok (user_ptr m) s {b = n.block} (ap s.cells (block_of-user_ptr m) ∙ n.here) n.alive
          rc_size (counted h) n.room
        ∙ ap (λ x. ok tt (set_cell x (some (record n.block { body = holds (counted h) })) s))
            (block_of-user_ptr m)

    stored-node : (x : Ptr) → x ∈ ws → IsWrapper stored x (replaced f m h x)
    stored-node x j = elim (Bool-cases (x == m)) [
      | inl e ↦
          let n = w.node m k in
          record {
            block = record n.block { body = holds (counted h) };
            here = ground arith;
            alive = n.alive;
            room = n.room;
            contents = ground arith;
          }
      | inr e ↦
          let n = w.node x j in
          record {
            block = n.block;
            here = ground (arith, n.here);
            alive = n.alive;
            room = n.room;
            contents = ground (arith, n.contents);
          }
    ]

    replaced-Stays : (x : Ptr) → Stays (f x) (replaced f m h x)
    replaced-Stays x = elim (Bool-cases (x == m)) [
      | inl e ↦ rw (e, ==→eq x m e) same
      | inr e ↦ rw e (Stays-refl (f x))
    ]

    pub stored-IsUpdated : IsUpdated ws s stored f (replaced f m h)
    stored-IsUpdated = record {
      graph = record {
        node = stored-node;
        child = λ x j i lt.
            let z = replaced-Stays x in
            let (c, e, q) = w.child x j i (subst (λ n. i < n) z.child_count lt) in
            (c, ap (λ (u : ℕ → Ptr). u i) z.children ∙ e, q);
      };
      written = set_cell-IsWritten s m (w.node m k).here (holds (counted h));
      head = refl;
      stays = replaced-Stays;
    }
