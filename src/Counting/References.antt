-- ===== src/Counting/References.antt =====
-- The second loop of `owned_rc_collect_cycles` in src/ownedc_rc.c: registered references are no
-- references from outside.
use owned_c.Base.{
  ℕ, zero, suc, ◌+◌, ◌-◌, ◌≡◌, ◌∙◌, refl, ap, false, List, [], ◌∷◌, ◌∈◌, arith, inl, inr, ltb, ◌==◌,
  if◌then◌else◌, Bool-cases,
}
use owned_c.Runtime.State.{Ptr, State}
use owned_c.Runtime.Command.{ok}
use owned_c.Runtime.Registry.{user_ptr}
use owned_c.Objects.{Object}
use owned_c.Counting.{each_child, take_reference, take_references}
use owned_c.Counting.Graph.{
  Contents, IsGraph, Stays, Stays-trans, IsUpdated, IsUpdated-refl, IsUpdated-trans, replaced,
  read_counted-node, write_counted-node, stored, stored-IsUpdated,
}
use owned_c.Counting.Phases.{Visits}

-- How many of the `n` children from `i` on are the wrapper `m`.
abbrev pub refs : (children : ℕ → Ptr) → (m : Ptr) → (n i : ℕ) → ℕ
refs children m zero i = 0
refs children m (suc n) i = (if children i == user_ptr m then 1 else 0) + refs children m n (i + 1)

-- How many of the children registered with the wrappers `ms` are the wrapper `m`.
abbrev pub incoming : Contents → (ms : List Ptr) → (m : Ptr) → ℕ
incoming f [] m = 0
incoming f (x ∷ ms) m = refs (f x).children m (f x).child_count 0 + incoming f ms m

-- The second loop takes the registered references off the copies of the counts.
pub record IsTaken (ws : List Ptr) (s t : State Object) (f g : Contents) (taken : Ptr → ℕ)
    : Type 0 where
  pub updated : IsUpdated ws s t f g
  pub counts : (x : Ptr) → (g x).gc_ref ≡ (f x).gc_ref - taken x
  pub marks : (x : Ptr) → (g x).gc_marked ≡ (f x).gc_marked

module _ {ws : List Ptr} where
  take_reference-IsTaken :
      (c : Ptr) (s : State Object) (f : Contents)
      → c ∈ ws
      → IsGraph ws s f
      → (t : State Object) × (g : Contents) × (take_reference (user_ptr c) s ≡ ok tt t)
        × IsTaken ws s t f g (λ x. if user_ptr c == user_ptr x then 1 else 0)
  take_reference-IsTaken c s f c_in w = elim (Bool-cases (ltb 0 (f c).gc_ref)) [
    | inl e ↦
        let h = record (f c) { gc_ref = (f c).gc_ref - 1 } in
        let same : Stays (f c) h = record {
          ref_count = refl;
          inner = refl;
          children = refl;
          child_count = refl;
          gc_next = refl;
        } in
        (
          stored w c c_in h same,
          replaced f c h,
          rw (read_counted-node w c c_in, e, write_counted-node w c c_in h same),
          record {
            updated = stored-IsUpdated w c c_in h same;
            counts = λ x. ground arith;
            marks = λ x. ground arith;
          },
        )
    | inr e ↦ (
      s,
      f,
      rw (read_counted-node w c c_in, e),
      record { updated = IsUpdated-refl w; counts = λ x. ground arith; marks = λ x. refl },
    )
  ]

  children-IsTaken :
      (m : Ptr)
      → m ∈ ws
      → (n i : ℕ) (s : State Object) (f : Contents) → IsGraph ws s f
      → i + n ≡ (f m).child_count
      → (t : State Object) × (g : Contents) × (each_child take_reference (user_ptr m) n i s
          ≡ ok tt t)
        × IsTaken ws s t f g (λ x. refs (f m).children x n i)
  unfolding each_child
  children-IsTaken m m_in zero i s f w len = (
    s,
    f,
    refl,
    record { updated = IsUpdated-refl w; counts = λ x. omega arith; marks = λ x. refl },
  )
  children-IsTaken m m_in (suc n) i s f w len =
      let (c, at, c_in) = w.child m m_in i (omega (arith, len)) in
      let (u, g, e, p) = take_reference-IsTaken c s f c_in w in
      let up = p.updated in
      let (t, h, e', q) =
        children-IsTaken m m_in n (i + 1) u g up.graph
          (omega (arith, len, (up.stays m).child_count)) in
      let same : (x : Ptr) → refs (g m).children x n (i + 1) ≡ refs (f m).children x n (i + 1) =
        λ x. ap (λ (z : ℕ → Ptr). refs z x n (i + 1)) (up.stays m).children in
      (
        t,
        h,
        rw (read_counted-node w m m_in, at, e, e'),
        record {
          updated = IsUpdated-trans up q.updated;
          counts = λ x. rw (at, q.counts x, p.counts x, same x) (omega arith);
          marks = λ x. q.marks x ∙ p.marks x;
        },
      )

-- While the second loop runs: the references of `rest` are still to be taken.
pub record Taken (ws : List Ptr) (start f : Contents) (rest : List Ptr) : Type 0 where
  pub stays : (x : Ptr) → Stays (start x) (f x)
  pub counts :
      (x : Ptr)
      → x ∈ ws
      → (f x).gc_ref - incoming start rest x ≡ (start x).ref_count - incoming start ws x
  pub marks : (x : Ptr) → x ∈ ws → (f x).gc_marked ≡ false

pub take_references-Visits :
    (ws : List Ptr) (start : Contents) → Visits ws (Taken ws start) take_references
take_references-Visits ws start m rest s f m_in w inv =
    let (t, g, e, p) = children-IsTaken m m_in (f m).child_count 0 s f w (omega arith) in
    (
      t,
      g,
      rw (read_counted-node w m m_in, e),
      p.updated,
      record {
        stays = λ x. Stays-trans (inv.stays x) (p.updated.stays x);
        counts = λ x k.
            let same_children =
              ap (λ (z : ℕ → Ptr). refs z x (f m).child_count 0) (inv.stays m).children in
            let same_count = ap (λ z. refs (start m).children x z 0) (inv.stays m).child_count in
            let before = inv.counts x k in
            omega (arith, p.counts x, same_children ∙ same_count, before);
        marks = λ x k. p.marks x ∙ inv.marks x k;
      },
    )
