-- ===== src/Counting/Marks.antt =====
-- `mark_alive` of src/ownedc_rc.c is a depth-first search: it ends, and marks what can be reached.
use owned_c.Base.{
  ℕ, zero, suc, ◌+◌, ◌≤◌, ◌<◌, ◌≡◌, ◌∙◌, refl, sym, ap, subst, true, false, List, ◌∈◌, arith, inl,
  inr, ◌==◌, Bool-cases, ==→eq,
}
use owned_c.Runtime.State.{Ptr, State}
use owned_c.Runtime.Command.{ok}
use owned_c.Runtime.Registry.{user_ptr}
use owned_c.Objects.{Act, Object, Counted}
use owned_c.Counting.{each_child, mark_alive}
use owned_c.Counting.Graph.{
  Contents, IsGraph, Stays, IsUpdated, IsUpdated-refl, IsUpdated-trans, replaced, read_counted-node,
  write_counted-node, stored, stored-IsUpdated,
}
use owned_c.Counting.Reach.{
  IsEdge, Reaches, here, IsEdge-Stays, Reaches-back, unmarked, More, unmarked-le, unmarked-lt,
  Visited, Visited-refl, Visited-trans, Visited-parent,
}

-- What `mark_alive` does on a wrapper, when `k` bounds the wrappers without a mark.
abbrev Marking : List Ptr → (k : ℕ) → (Ptr → Act Unit) → Type 0
Marking ws k visit =
    (m : Ptr) (s : State Object) (f : Contents)
    → m ∈ ws
    → IsGraph ws s f
    → unmarked f ws < k
    → (t : State Object) × (g : Contents) × (visit (user_ptr m) s ≡ ok tt t)
      × IsUpdated ws s t f g
      × Visited ws f g m
      × ((g m).gc_marked ≡ true)

-- The loop over the children of `m` from child `i` on.
module _ {ws : List Ptr} {k : ℕ} (visit : Ptr → Act Unit) (visits : Marking ws k visit) (m : Ptr)
    (m_in : m ∈ ws) where
  children_marked :
      (n i : ℕ) (s : State Object) (f : Contents)
      → IsGraph ws s f
      → unmarked f ws < k
      → i + n ≡ (f m).child_count
      → (t : State Object) × (g : Contents) × (each_child visit (user_ptr m) n i s ≡ ok tt t)
        × IsUpdated ws s t f g
        × Visited ws f g m
        × ((j : ℕ) (c : Ptr)
            → i ≤ j
            → j < i + n
            → (f m).children j ≡ user_ptr c
            → (g c).gc_marked ≡ true)
  unfolding each_child
  children_marked zero i s f w few len =
      (s, f, refl, IsUpdated-refl w, Visited-refl ws f m, λ j c le lt. absurd (omega arith))
  children_marked (suc n) i s f w few len =
      let (c, at, c_in) = w.child m m_in i (omega (arith, len)) in
      let (u, g, e, up, v, mark) = visits c s f c_in w few in
      let fewer : unmarked g ws < k = omega (arith, unmarked-le f g ws v.more) in
      let (t, h, e', up', v', rest) =
        children_marked n (i + 1) u g up.graph fewer
          (omega (arith, len, (up.stays m).child_count)) in
      let edge : IsEdge f m c = (i, omega (arith, len), at) in
      (
        t,
        h,
        rw (read_counted-node w m m_in, at, e, e'),
        IsUpdated-trans up up',
        Visited-trans up.stays (Visited-parent m edge v) v',
        λ j d le lt at_j. elim (Bool-cases (j == i)) [
          | inl same ↦
              let at_i : (f m).children i ≡ user_ptr d =
                ap (f m).children (sym (==→eq j i same)) ∙ at_j in
              let same_child : c ≡ d = omega (arith, sym at ∙ at_i) in
              v'.more d (subst (λ z. (g z).gc_marked ≡ true) same_child mark)
          | inr other ↦
              rest j d (ground arith) (ground arith)
                (ap (λ (z : ℕ → Ptr). z j) (up.stays m).children ∙ at_j)
        ],
      )

-- A wrapper without a mark gets one.
module _ {ws : List Ptr} {s : State Object} {f : Contents} (w : IsGraph ws s f) (m : Ptr)
    (m_in : m ∈ ws) (no_mark : (f m).gc_marked ≡ false) where
  abbrev with_mark : Counted
  with_mark = record (f m) { gc_marked = true }

  with_mark-Stays : Stays (f m) with_mark
  with_mark-Stays = record {
    ref_count = refl;
    inner = refl;
    children = refl;
    child_count = refl;
    gc_next = refl;
  }

  abbrev marked : Contents
  marked = replaced f m with_mark

  marked-Stays : (x : Ptr) → Stays (f x) (marked x)
  marked-Stays = (stored-IsUpdated w m m_in with_mark with_mark-Stays).stays

  marked_refs : (x : Ptr) → (marked x).gc_ref ≡ (f x).gc_ref
  marked_refs x = ground arith

  marked-More : More f marked
  marked-More x e = ground arith

  marked_self : (marked m).gc_marked ≡ true
  marked_self = ground arith

  marked_fewer : unmarked marked ws < unmarked f ws
  marked_fewer = unmarked-lt f marked ws m marked-More m_in no_mark marked_self

  -- With the children marked too the search of `m` is done.
  finished :
      {g : Contents}
      → Visited ws marked g m
      → ((j : ℕ) (c : Ptr)
          → j < (f m).child_count
          → (f m).children j ≡ user_ptr c
          → (g c).gc_marked ≡ true)
      → Visited ws f g m
  finished {g} v kids = record {
    more = λ x e. v.more x (marked-More x e);
    refs = λ x. v.refs x ∙ marked_refs x;
    closed = λ x c k a b edge. elim (Bool-cases (x == m)) [
      | inl e ↦ let (i, lt, at) = subst (λ z. IsEdge f z c) (==→eq x m e) edge in kids i c lt at
      | inr e ↦
          v.closed x c k (ground (arith, a)) b (IsEdge-Stays f marked x c (marked-Stays x) edge)
    ];
    reached = λ x a b. elim (Bool-cases (x == m)) [
      | inl e ↦ subst (λ z. Reaches f m z) (sym (==→eq x m e)) here
      | inr e ↦ Reaches-back marked-Stays (v.reached x (ground (arith, a)) b)
    ];
  }

Marking-step :
    (ws : List Ptr) (k : ℕ)
    → Marking ws k (λ c. mark_alive k c)
    → Marking ws (suc k) (λ c. mark_alive (suc k) c)
unfolding mark_alive
Marking-step ws k shallower m s f m_in w few = elim (Bool-cases (f m).gc_marked) [
  | inl e ↦ (s, f, rw (read_counted-node w m m_in, e), IsUpdated-refl w, Visited-refl ws f m, e)
  | inr e ↦
      let h = with_mark w m m_in e in
      let same = with_mark-Stays w m m_in e in
      let up = stored-IsUpdated w m m_in h same in
      let few' : unmarked (marked w m m_in e) ws < k = omega (arith, marked_fewer w m m_in e) in
      let (t, g, run, up', v, kids) =
        children_marked (λ c. mark_alive k c) shallower m m_in (f m).child_count 0
          (stored w m m_in h same) (marked w m m_in e) up.graph few'
          (omega (arith, (up.stays m).child_count)) in
      (
        t,
        g,
        rw (read_counted-node w m m_in, e, write_counted-node w m m_in h same, run),
        IsUpdated-trans up up',
        finished w m m_in e v (λ j c lt at.
            kids j c (omega arith) (omega arith)
              (ap (λ (z : ℕ → Ptr). z j) (up.stays m).children ∙ at)),
        v.more m (marked_self w m m_in e),
      )
]

-- Fuel beyond the number of wrappers without a mark is enough for the search.
pub mark_alive-Marking : (ws : List Ptr) (k : ℕ) → Marking ws k (λ c. mark_alive k c)
mark_alive-Marking ws zero = λ m s f m_in w few. absurd (omega (arith, few))
mark_alive-Marking ws (suc k) = Marking-step ws k (mark_alive-Marking ws k)
