-- ===== src/Counting/Alive.antt =====
-- The loops of `owned_rc_collect_cycles` in src/ownedc_rc.c that decide which wrappers are alive.
use owned_c.Base.{
  ℕ, ◌-◌, ◌<◌, ◌≡◌, ◌∙◌, ◌↔◌, refl, sym, ap, subst, true, List, [], ◌∷◌, ◌∈◌, arith, inl, inr,
  length,
}
use owned_c.Runtime.State.{Ptr, State}
use owned_c.Runtime.Command.{ok}
use owned_c.Objects.{Act, Object}
use owned_c.Counting.{walk_gc, copy_count, take_references, mark_root, mark_phase}
use owned_c.Counting.Graph.{
  Contents, IsGraph, Stays, Stays-refl, Stays-sym, Stays-trans, IsUpdated, IsUpdated-trans,
}
use owned_c.Counting.Reach.{Reaches, here, step, Reaches-back}
use owned_c.Counting.Phases.{
  Follows, Follows-Stays, Visits, walk_gc-Visits, IsCopied, Copied, copy_count-Visits,
}
use owned_c.Counting.References.{incoming, Taken, take_references-Visits}
use owned_c.Counting.Roots.{IsRooted, Rooted, mark_root-Visits}

-- Reached from a wrapper with more references than registered children account for.
abbrev pub IsHeldFromOutside : (ws : List Ptr) → (f : Contents) → Ptr → Type 0
IsHeldFromOutside ws f x =
    (r : Ptr) × (r ∈ ws) × (incoming f ws r < (f r).ref_count) × Reaches f r x

-- With the roots marked and the marks closed, what a root reaches is marked.
module _ {ws : List Ptr} {s : State Object} {start g : Contents} (w : IsGraph ws s start)
    (inv : Rooted ws start g []) where
  reached_marked :
      {r x : Ptr} → r ∈ ws → (g r).gc_marked ≡ true → Reaches start r x → (g x).gc_marked ≡ true
  reached_marked r_in mark here = mark
  reached_marked {r} r_in mark (step {c} (i, lt, at) rest) =
      let (d, at', d_in) = w.child r r_in i lt in
      let same : d ≡ c = omega (arith, sym at' ∙ at) in
      reached_marked (subst (λ z. z ∈ ws) same d_in) (inv.closed r c r_in mark (i, lt, at)) rest

  marked_iff : (x : Ptr) → x ∈ ws → ((g x).gc_marked ≡ true) ↔ IsRooted ws start x
  marked_iff x k = (
    λ mark. inv.rooted x k mark,
    λ (r, r_in, pos, path). elim (inv.roots r r_in pos) [
      | inl j ↦ cc
      | inr mark ↦ reached_marked r_in mark path
    ],
  )

-- One loop along the whole list.
loop_on_list :
    {ws : List Ptr} {s : State Object} {f : Contents} (P : Contents → List Ptr → Type 0)
    (visit : Ptr → Act Unit) (fuel : ℕ)
    → Visits ws P visit
    → length ws < fuel
    → IsGraph ws s f
    → Follows f s.gc_head ws
    → P f ws
    → (t : State Object) × (g : Contents) × (walk_gc fuel visit s.gc_head s ≡ ok tt t)
      × IsUpdated ws s t f g
      × Follows g t.gc_head ws
      × P g []
loop_on_list {ws} {s} {f} P visit fuel visits few w list inv =
    let (t, g, run, up, done) =
      walk_gc-Visits ws P visit visits fuel ws s.gc_head s f few (λ x k. k) list w inv in
    (
      t,
      g,
      run,
      up,
      subst (λ p. Follows g p ws) (sym up.head) (Follows-Stays f g s.gc_head ws up.stays list),
      done,
    )

incoming-Stays :
    (f g : Contents) (ms : List Ptr) (m : Ptr)
    → ((x : Ptr) → Stays (f x) (g x))
    → incoming g ms m ≡ incoming f ms m
incoming-Stays f g [] m z = refl
incoming-Stays f g (x ∷ ms) m z =
    rw ((z x).children, (z x).child_count, incoming-Stays f g ms m z) refl

-- How each loop starts, and what it leaves.
Copied-Taken : {ws : List Ptr} {f : Contents} → Copied ws f [] → Taken ws f f ws
Copied-Taken {ws} {f} done =
    let copied : (x : Ptr) → x ∈ ws → IsCopied (f x) =
      λ x k. elim (done x k) [ inl j ↦ cc | inr c ↦ c ] in
    record {
      stays = λ x. Stays-refl (f x);
      counts = λ x k. ap (λ n. n - incoming f ws x) (copied x k).0;
      marks = λ x k. (copied x k).1;
    }

Taken-Rooted : {ws : List Ptr} {start f : Contents} → Taken ws start f [] → Rooted ws f f ws
Taken-Rooted {ws} {f} done = record {
  stays = λ x. Stays-refl (f x);
  counts = λ x. refl;
  roots = λ r k pos. inl k;
  closed = λ x c k mark e. let no_mark = done.marks x k in cc;
  rooted = λ x k mark. let no_mark = done.marks x k in cc;
}

module _ {ws : List Ptr} {f g h : Contents} (z : (x : Ptr) → Stays (f x) (g x))
    (done : Taken ws g h []) where
  -- What the copies of the counts have left is what the counts have more than the children account for.
  left_over : (r : Ptr) → r ∈ ws → (h r).gc_ref ≡ (f r).ref_count - incoming f ws r
  left_over r k =
      let e = done.counts r k in
      let same_count = (z r).ref_count in omega (arith, e, same_count, incoming-Stays f g ws r z)

  IsRooted-iff : (x : Ptr) → IsRooted ws h x ↔ IsHeldFromOutside ws f x
  IsRooted-iff x = (
    λ (r, k, pos, path).
        (r, k, omega (arith, pos, left_over r k), Reaches-back z (Reaches-back done.stays path)),
    λ (r, k, more, path). (
      r,
      k,
      omega (arith, more, left_over r k),
      Reaches-back (λ y. Stays-sym (Stays-trans (z y) (done.stays y))) path,
    ),
  )

-- When the wrappers of the global list are a graph, each in a live block and with its registered children among
-- them, and the fuel is beyond their number, the loops of the collector before the sweep end without an undefined
-- access. They write to the bookkeeping of the collector only, and leave marked exactly those wrappers that some
-- wrapper reaches along registered children whose count is greater than the number of its registrations as a
-- child.
pub mark_phase_lem :
    (ws : List Ptr) (fuel : ℕ) (s : State Object) (f : Contents)
    → IsGraph ws s f
    → Follows f s.gc_head ws
    → length ws < fuel
    → (t : State Object) × (g : Contents) × (mark_phase fuel s ≡ ok tt t)
      × IsUpdated ws s t f g
      × ((x : Ptr) → x ∈ ws → ((g x).gc_marked ≡ true) ↔ IsHeldFromOutside ws f x)
unfolding mark_phase
mark_phase_lem ws fuel s f w list few =
    let (s1, f1, e1, u1, l1, p1) =
      loop_on_list (Copied ws) copy_count fuel (copy_count-Visits ws) few w list (λ x k. inl k) in
    let (s2, f2, e2, u2, l2, p2) =
      loop_on_list (Taken ws f1) take_references fuel (take_references-Visits ws f1) few u1.graph l1
        (Copied-Taken p1) in
    let (t, g, e3, u3, l3, p3) =
      loop_on_list (Rooted ws f2) (mark_root fuel) fuel (mark_root-Visits ws fuel f2 few) few
        u2.graph l2 (Taken-Rooted p2) in
    (
      t,
      g,
      rw (e1, e2, e3),
      IsUpdated-trans u1 (IsUpdated-trans u2 u3),
      λ x k.
          let (to, from) = marked_iff u2.graph p3 x k in
          let (out, back) = IsRooted-iff u1.stays p2 x in
          (λ mark. out (to mark), λ held. from (back held)),
    )
