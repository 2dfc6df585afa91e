-- ===== src/Counting/Reach.antt =====
-- What can be reached along the registered children of src/ownedc_rc.c, and what a search has marked.
use owned_c.Base.{
  ℕ, suc, ◌≤◌, ◌<◌, ◌≡◌, ◌∙◌, refl, sym, ap, subst, true, false, List, [], ◌∷◌, ◌∈◌, arith, inl,
  inr, ◌==◌, if◌then◌else◌, Bool-cases, ==→eq,
}
use owned_c.Runtime.State.{Ptr}
use owned_c.Runtime.Registry.{user_ptr}
use owned_c.Counting.Graph.{Contents, Stays}

-- `c` is a registered child of `m`.
abbrev pub IsEdge : Contents → Ptr → Ptr → Type 0
IsEdge f m c = (i : ℕ) × (i < (f m).child_count) × ((f m).children i ≡ user_ptr c)

pub data Reaches (f : Contents) : Ptr → Ptr → Type 0 where
  here : {m : Ptr} → Reaches f m m
  step : {m c x : Ptr} → IsEdge f m c → Reaches f c x → Reaches f m x

pub IsEdge-Stays : (f g : Contents) (m c : Ptr) → Stays (f m) (g m) → IsEdge f m c → IsEdge g m c
IsEdge-Stays f g m c z (i, lt, e) =
    (i, subst (λ n. i < n) (sym z.child_count) lt, ap (λ (u : ℕ → Ptr). u i) z.children ∙ e)

pub IsEdge-back : (f g : Contents) (m c : Ptr) → Stays (f m) (g m) → IsEdge g m c → IsEdge f m c
IsEdge-back f g m c z (i, lt, e) =
    (i, subst (λ n. i < n) z.child_count lt, ap (λ (u : ℕ → Ptr). u i) (sym z.children) ∙ e)

pub Reaches-back :
    {f g : Contents} {m x : Ptr} → ((y : Ptr) → Stays (f y) (g y)) → Reaches g m x → Reaches f m x
Reaches-back z here = here
Reaches-back {f} {g} z (step {m} {c} e r) = step (IsEdge-back f g m c (z m) e) (Reaches-back z r)

-- How many of the wrappers have no mark.
abbrev pub unmarked : Contents → List Ptr → ℕ
unmarked f [] = 0
unmarked f (m ∷ ms) = if (f m).gc_marked then unmarked f ms else suc (unmarked f ms)

abbrev pub More : Contents → Contents → Type 0
More f g = (x : Ptr) → (f x).gc_marked ≡ true → (g x).gc_marked ≡ true

pub unmarked-le : (f g : Contents) (ms : List Ptr) → More f g → unmarked g ms ≤ unmarked f ms
unmarked-le f g [] more = omega arith
unmarked-le f g (m ∷ ms) more = ground (arith, more m, unmarked-le f g ms more)

pub unmarked-lt :
    (f g : Contents) (ms : List Ptr) (m : Ptr)
    → More f g
    → m ∈ ms
    → (f m).gc_marked ≡ false
    → (g m).gc_marked ≡ true
    → unmarked g ms < unmarked f ms
unmarked-lt f g [] m more k no_mark mark = cc
unmarked-lt f g (x ∷ ms) m more k no_mark mark = elim (Bool-cases (x == m)) [
  | inl e ↦
      let le = unmarked-le f g ms more in
      let at : x ≡ m = ==→eq x m e in rw (at, no_mark, mark) (omega (arith, le))
  | inr e ↦
      let lt = unmarked-lt f g ms m more (ground arith) no_mark mark in ground (arith, more x, lt)
]

-- From `f` to `g` wrappers were marked: with each its children, and only what `from` reaches.
pub record Visited (ws : List Ptr) (f g : Contents) (from : Ptr) : Type 0 where
  pub more : More f g
  pub refs : (x : Ptr) → (g x).gc_ref ≡ (f x).gc_ref
  pub closed :
      (x c : Ptr)
      → x ∈ ws
      → (f x).gc_marked ≡ false
      → (g x).gc_marked ≡ true
      → IsEdge f x c
      → (g c).gc_marked ≡ true
  pub reached : (x : Ptr) → (f x).gc_marked ≡ false → (g x).gc_marked ≡ true → Reaches f from x

pub Visited-refl : (ws : List Ptr) (f : Contents) (from : Ptr) → Visited ws f f from
Visited-refl ws f from = record {
  more = λ x e. e;
  refs = λ x. refl;
  closed = λ x c k a b e. cc;
  reached = λ x a b. cc;
}

pub Visited-trans :
    {ws : List Ptr} {f g h : Contents} {from : Ptr}
    → ((x : Ptr) → Stays (f x) (g x))
    → Visited ws f g from
    → Visited ws g h from
    → Visited ws f h from
Visited-trans {ws} {f} {g} {h} {from} z v w = record {
  more = λ x e. w.more x (v.more x e);
  refs = λ x. w.refs x ∙ v.refs x;
  closed = λ x c k a b e. elim (Bool-cases (g x).gc_marked) [
    | inl o ↦ w.more c (v.closed x c k a o e)
    | inr o ↦ w.closed x c k o b (IsEdge-Stays f g x c (z x) e)
  ];
  reached = λ x a b. elim (Bool-cases (g x).gc_marked) [
    | inl o ↦ v.reached x a o
    | inr o ↦ Reaches-back z (w.reached x o b)
  ];
}

-- What a child reaches, its parent reaches.
pub Visited-parent :
    {ws : List Ptr} {f g : Contents} {c : Ptr} (m : Ptr)
    → IsEdge f m c
    → Visited ws f g c
    → Visited ws f g m
Visited-parent m e v = record {
  more = v.more;
  refs = v.refs;
  closed = v.closed;
  reached = λ x a b. step e (v.reached x a b);
}
