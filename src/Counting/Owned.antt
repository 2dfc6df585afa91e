-- ===== src/Counting/Owned.antt =====
-- The wrappers of src/ownedc_rc.c with what they hold, as blocks of the registry that the running thread may free.
use owned_c.Base.{
  ℕ, ◌+◌, ◌≤◌, ◌≡◌, ◌≢◌, ◌∙◌, refl, sym, ap, subst, List, ◌∈◌, ◌∉◌, has, arith, inl, inr, ◌==◌,
  Bool-cases, ==→eq,
}
use owned_c.Runtime.State.{Ptr, null, meta_size, holds, Body, State}
use owned_c.Runtime.Command.{ok}
use owned_c.Runtime.Registry.{user_ptr}
use owned_c.Runtime.Registered.{IsRegistry}
use owned_c.Objects.{Object, Counted, counted, read_counted}
use owned_c.Objects.Mine.{
  IsMine, Spares, deref-mine, assigned, assign-mine, assigned-IsMine, assigned-Spares,
}
use owned_c.Counting.{rc_size, write_counted}
use owned_c.Counting.Graph.{Contents, replaced}
use owned_c.Counting.Phases.{Follows}
use owned_c.Counting.Unlink.{Distinct}

-- The wrappers `ws` of the global list have a block each, and so has what each of them holds.
pub record IsOwned (shards : ℕ → List Ptr) (ws : List Ptr) (s : State Object) (f : Contents)
    : Type 0 where
  pub registry : IsRegistry shards s
  pub distinct : Distinct ws
  pub list : Follows f s.gc_head ws
  pub node :
      (x : Ptr)
      → x ∈ ws
      → (room : ℕ) × IsMine shards s x (holds (counted (f x))) room × (meta_size + rc_size ≤ room)
  pub inner :
      (x : Ptr)
      → x ∈ ws
      → (f x).inner ≢ null
      → (i : Ptr) × ((f x).inner ≡ user_ptr i)
        × (i ∉ ws)
        × ((body : Body Object) × (room : ℕ) × IsMine shards s i body room)
  pub alone : (x y : Ptr) → x ∈ ws → y ∈ ws → x ≢ y → (f x).inner ≢ null → (f x).inner ≢ (f y).inner

-- A block that is neither a wrapper nor held by one can go.
pub spared-IsOwned :
    {shards shards' : ℕ → List Ptr} {ws : List Ptr} {s t : State Object} {f : Contents} (b : Ptr)
    → IsOwned shards ws s f
    → Spares b shards shards' s t
    → b ∉ ws
    → ((x : Ptr) → x ∈ ws → (f x).inner ≢ user_ptr b)
    → IsOwned shards' ws t f
spared-IsOwned {ws} {f} b w p out free = record {
  registry = p.registry;
  distinct = w.distinct;
  list = subst (λ z. Follows f z ws) (sym p.head) w.list;
  node = λ x k.
      let (room, mine, le) = w.node x k in
      (room, p.others x (λ e. cc (ap (λ z. has z ws) e, k, out)) mine, le);
  inner = λ x k holding.
      let (i, at, i_out, (body, room, mine)) = w.inner x k holding in
      (i, at, i_out, (body, room, p.others i (λ e. free x k (at ∙ ap user_ptr e)) mine));
  alone = w.alone;
}

module _ {shards : ℕ → List Ptr} {ws : List Ptr} {s : State Object} {f : Contents}
    (w : IsOwned shards ws s f) (m : Ptr) (k : m ∈ ws) where
  pub read_counted-owned : read_counted (user_ptr m) s ≡ ok (f m) s
  unfolding read_counted
  read_counted-owned = let (room, mine, le) = w.node m k in rw (deref-mine w.registry mine refl)

  -- The wrapper is written, and holds what it held.
  module _ (h : Counted) (same : h.inner ≡ (f m).inner) where
    abbrev pub stored : State Object
    stored = assigned w.registry (w.node m k).1 (counted h)

    pub write_counted-owned : write_counted (user_ptr m) h s ≡ ok tt stored
    write_counted-owned =
        let (room, mine, le) = w.node m k in assign-mine w.registry mine (counted h) rc_size le

    pub stored-Spares : Spares m shards shards s stored
    stored-Spares = assigned-Spares w.registry (w.node m k).1 (counted h)

    replaced-inner : (x : Ptr) → (replaced f m h x).inner ≡ (f x).inner
    replaced-inner x = elim (Bool-cases (x == m)) [
      | inl e ↦ rw e (same ∙ ap (λ z. (f z).inner) (sym (==→eq x m e)))
      | inr e ↦ rw e refl
    ]

    stored-node :
        (x : Ptr)
        → x ∈ ws
        → (room : ℕ) × IsMine shards stored x (holds (counted (replaced f m h x))) room
          × (meta_size + rc_size ≤ room)
    stored-node x j = elim (Bool-cases (x == m)) [
      | inl e ↦
          let (room, mine, le) = w.node m k in
          let at : x ≡ m = ==→eq x m e in
          (
            room,
            rw e (
                subst (λ z. IsMine shards stored z (holds (counted h)) room) (sym at)
                  (assigned-IsMine w.registry mine (counted h))),
            le,
          )
      | inr e ↦
          let (room, mine, le) = w.node x j in
          (room, rw e (stored-Spares.others x (ground arith) mine), le)
    ]

    -- The list may have become shorter.
    pub stored-IsOwned :
        {ws' : List Ptr}
        → ((x : Ptr) → x ∈ ws' → x ∈ ws)
        → Distinct ws'
        → Follows (replaced f m h) s.gc_head ws'
        → IsOwned shards ws' stored (replaced f m h)
    stored-IsOwned {ws'} sub distinct list = record {
      registry = stored-Spares.registry;
      distinct = distinct;
      list = list;
      node = λ x j. stored-node x (sub x j);
      inner = λ x j holding.
          let e = replaced-inner x in
          let (i, at, i_out, (body, room, mine)) = w.inner x (sub x j) (λ z. holding (e ∙ z)) in
          let apart : i ≢ m = λ z. cc (ap (λ a. has a ws) z, k, i_out) in
          let i_out' : i ∉ ws' = elim (Bool-cases (has i ws')) [
            | inl o ↦ cc (sub i o, i_out)
            | inr o ↦ o
          ] in
          (i, e ∙ at, i_out', (body, room, stored-Spares.others i apart mine));
      alone = λ x y i j ne holding z.
          w.alone x y (sub x i) (sub y j) ne (λ o. holding (replaced-inner x ∙ o))
            (sym (replaced-inner x) ∙ z ∙ replaced-inner y);
    }
