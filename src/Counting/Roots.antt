-- ===== src/Counting/Roots.antt =====
-- The third loop of `owned_rc_collect_cycles` in src/ownedc_rc.c: what the roots reach is marked.
use owned_c.Base.{
  ℕ, ◌≤◌, ◌<◌, ◌≡◌, ◌∙◌, ◌⊎◌, sym, subst, true, false, List, [], ◌∷◌, ◌∈◌, arith, inl, inr, ltb,
  length, ◌==◌, Bool-cases, ==→eq,
}
use owned_c.Runtime.State.{Ptr}
use owned_c.Counting.{mark_root}
use owned_c.Counting.Graph.{Contents, Stays, Stays-trans, IsUpdated-refl, read_counted-node}
use owned_c.Counting.Marks.{mark_alive-Marking}
use owned_c.Counting.Reach.{IsEdge, Reaches, unmarked, Visited, IsEdge-Stays, Reaches-back}
use owned_c.Counting.Phases.{Visits}

unmarked-length : (f : Contents) (ms : List Ptr) → unmarked f ms ≤ length ms
unmarked-length f [] = omega arith
unmarked-length f (m ∷ ms) = ground (arith, unmarked-length f ms)

-- A wrapper that some root among `ws` reaches.
abbrev pub IsRooted : (ws : List Ptr) → (f : Contents) → Ptr → Type 0
IsRooted ws f x = (r : Ptr) × (r ∈ ws) × (0 < (f r).gc_ref) × Reaches f r x

-- While the third loop runs: the roots in `rest` are still to be marked.
pub record Rooted (ws : List Ptr) (start f : Contents) (rest : List Ptr) : Type 0 where
  pub stays : (x : Ptr) → Stays (start x) (f x)
  pub counts : (x : Ptr) → (f x).gc_ref ≡ (start x).gc_ref
  pub roots : (r : Ptr) → r ∈ ws → 0 < (start r).gc_ref → (r ∈ rest) ⊎ ((f r).gc_marked ≡ true)
  pub closed :
      (x c : Ptr) → x ∈ ws → (f x).gc_marked ≡ true → IsEdge start x c → (f c).gc_marked ≡ true
  pub rooted : (x : Ptr) → x ∈ ws → (f x).gc_marked ≡ true → IsRooted ws start x

module _ {ws : List Ptr} {start f : Contents} (m : Ptr) (rest : List Ptr)
    (inv : Rooted ws start f (m ∷ rest)) where
  -- The wrapper is a root, and was searched.
  searched :
      (g : Contents)
      → m ∈ ws
      → 0 < (f m).gc_ref
      → ((x : Ptr) → Stays (f x) (g x))
      → Visited ws f g m
      → (g m).gc_marked ≡ true
      → Rooted ws start g rest
  searched g m_in root z v mark = record {
    stays = λ x. Stays-trans (inv.stays x) (z x);
    counts = λ x. v.refs x ∙ inv.counts x;
    roots = λ r r_in pos. elim (inv.roots r r_in pos) [
      | inl j ↦ elim (Bool-cases (r == m)) [
        | inl e ↦ inr (subst (λ x. (g x).gc_marked ≡ true) (sym (==→eq r m e)) mark)
        | inr e ↦ inl (ground arith)
      ]
      | inr e ↦ inr (v.more r e)
    ];
    closed = λ x c k b e. elim (Bool-cases (f x).gc_marked) [
      | inl o ↦ v.more c (inv.closed x c k o e)
      | inr o ↦ v.closed x c k o b (IsEdge-Stays start f x c (inv.stays x) e)
    ];
    rooted = λ x k b. elim (Bool-cases (f x).gc_marked) [
      | inl o ↦ inv.rooted x k o
      | inr o ↦
          (m, m_in, omega (arith, root, inv.counts m), Reaches-back inv.stays (v.reached x o b))
    ];
  }

  -- It is none.
  passed : ltb 0 (f m).gc_ref ≡ false → Rooted ws start f rest
  passed none_out = record {
    stays = inv.stays;
    counts = inv.counts;
    roots = λ r r_in pos. elim (inv.roots r r_in pos) [
      | inl j ↦ elim (Bool-cases (r == m)) [
        | inl e ↦ absurd (ground (arith, ==→eq r m e, inv.counts m))
        | inr e ↦ inl (ground arith)
      ]
      | inr e ↦ inr e
    ];
    closed = inv.closed;
    rooted = inv.rooted;
  }

pub mark_root-Visits :
    (ws : List Ptr) (fuel : ℕ) (start : Contents)
    → length ws < fuel
    → Visits ws (Rooted ws start) (mark_root fuel)
mark_root-Visits ws fuel start few m rest s f m_in w inv = elim (Bool-cases (ltb 0 (f m).gc_ref)) [
  | inl e ↦
      let (t, g, run, up, v, mark) =
        mark_alive-Marking ws fuel m s f m_in w (omega (arith, few, unmarked-length f ws)) in
      (
        t,
        g,
        rw (read_counted-node w m m_in, e, run),
        up,
        searched m rest inv g m_in (ground arith) up.stays v mark,
      )
  | inr e ↦ (s, f, rw (read_counted-node w m m_in, e), IsUpdated-refl w, passed m rest inv e)
]
