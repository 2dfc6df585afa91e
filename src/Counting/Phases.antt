-- ===== src/Counting/Phases.antt =====
-- The loops of `owned_rc_collect_cycles` in src/ownedc_rc.c along the global list of wrappers, and the
-- first of them.
use owned_c.Base.{
  ℕ, zero, suc, ◌<◌, ◌≡◌, ◌⊎◌, refl, sym, subst, false, List, [], ◌∷◌, ◌∈◌, arith, inl, inr, length,
  ◌==◌, Bool-cases, ne→==,
}
use owned_c.Runtime.State.{Ptr, null, State}
use owned_c.Runtime.Command.{ok}
use owned_c.Runtime.Registry.{user_ptr}
use owned_c.Objects.{Act, Object, Counted}
use owned_c.Counting.{walk_gc, copy_count}
use owned_c.Counting.Graph.{
  Contents, IsGraph, Stays, IsUpdated, IsUpdated-refl, IsUpdated-trans, replaced, read_counted-node,
  write_counted-node, stored, stored-IsUpdated,
}

-- The list from `p` on, along `gc_next`.
abbrev pub Follows : Contents → Ptr → List Ptr → Type 0
Follows f p [] = p ≡ null
Follows f p (m ∷ ms) = (p ≡ user_ptr m) × Follows f (f m).gc_next ms

pub Follows-Stays :
    (f g : Contents) (p : Ptr) (ms : List Ptr)
    → ((x : Ptr) → Stays (f x) (g x))
    → Follows f p ms
    → Follows g p ms
Follows-Stays f g p [] z e = e
Follows-Stays f g p (m ∷ ms) z (e, rest) =
    (e, subst (λ q. Follows g q ms) (sym (z m).gc_next) (Follows-Stays f g (f m).gc_next ms z rest))

-- What a visit of the wrapper `m` does, where `P` tells the contents from what is left of the list.
abbrev pub Visits : (ws : List Ptr) → (P : Contents → List Ptr → Type 0) → (Ptr → Act Unit) → Type 0
Visits ws P visit =
    (m : Ptr) (rest : List Ptr) (s : State Object) (f : Contents)
    → m ∈ ws
    → IsGraph ws s f
    → P f (m ∷ rest)
    → (t : State Object) × (g : Contents) × (visit (user_ptr m) s ≡ ok tt t)
      × IsUpdated ws s t f g
      × P g rest

module _ (ws : List Ptr) (P : Contents → List Ptr → Type 0) (visit : Ptr → Act Unit)
    (visits : Visits ws P visit) where
  pub walk_gc-Visits :
      (fuel : ℕ) (ms : List Ptr) (p : Ptr) (s : State Object) (f : Contents)
      → length ms < fuel
      → ((x : Ptr) → x ∈ ms → x ∈ ws)
      → Follows f p ms
      → IsGraph ws s f
      → P f ms
      → (t : State Object) × (g : Contents) × (walk_gc fuel visit p s ≡ ok tt t)
        × IsUpdated ws s t f g
        × P g []
  unfolding walk_gc
  walk_gc-Visits zero ms p s f few sub list w inv = absurd (omega (arith, few))
  walk_gc-Visits (suc fuel) [] p s f few sub list w inv = (s, f, rw list, IsUpdated-refl w, inv)
  walk_gc-Visits (suc fuel) (m ∷ ms) p s f few sub (at, list) w inv =
      let m_in : m ∈ ws = sub m (ground arith) in
      let (u, g, e, up, inv') = visits m ms s f m_in w inv in
      let next : Follows g (g m).gc_next ms =
        subst (λ q. Follows g q ms) (sym (up.stays m).gc_next)
          (Follows-Stays f g (f m).gc_next ms up.stays list) in
      let (t, h, e', up', done) =
        walk_gc-Visits fuel ms (g m).gc_next u g (omega (arith, few)) (λ x k. sub x (ground arith))
          next up.graph inv' in
      (
        t,
        h,
        rw (at, ne→== (user_ptr m) null (omega arith), e, read_counted-node up.graph m m_in, e'),
        IsUpdated-trans up up',
        done,
      )

-- The first loop: the counts are copied, and the marks are taken off.
abbrev pub IsCopied : Counted → Type 0
IsCopied h = (h.gc_ref ≡ h.ref_count) × (h.gc_marked ≡ false)

abbrev pub Copied : List Ptr → Contents → List Ptr → Type 0
Copied ws f rest = (x : Ptr) → x ∈ ws → (x ∈ rest) ⊎ IsCopied (f x)

pub copy_count-Visits : (ws : List Ptr) → Visits ws (Copied ws) copy_count
copy_count-Visits ws m rest s f m_in w inv =
    let h = record (f m) { gc_ref = (f m).ref_count; gc_marked = false } in
    let same : Stays (f m) h = record {
      ref_count = refl;
      inner = refl;
      children = refl;
      child_count = refl;
      gc_next = refl;
    } in
    (
      stored w m m_in h same,
      replaced f m h,
      rw (read_counted-node w m m_in, write_counted-node w m m_in h same),
      stored-IsUpdated w m m_in h same,
      λ x k. elim (Bool-cases (x == m)) [
        | inl e ↦ inr (ground arith)
        | inr e ↦ elim (inv x k) [ inl j ↦ inl (ground arith) | inr c ↦ inr (ground (arith, c)) ]
      ],
    )
