-- ===== src/Counting/Unlink.antt =====
-- `unregister_from_gc` of src/ownedc_rc.c takes a wrapper out of the global list.
use owned_c.Base.{
  ℕ, zero, suc, ◌≤◌, ◌≡◌, ◌≢◌, ◌∙◌, sym, subst, some, List, [], ◌∷◌, ◌∈◌, ◌∉◌, arith, inl, inr,
  length, ◌==◌, if◌then◌else◌, Bool-cases, ==→eq, ne→==, eq→==,
}
use owned_c.Runtime.State.{Ptr, null, State}
use owned_c.Runtime.Command.{ok}
use owned_c.Runtime.Registry.{user_ptr}
use owned_c.Runtime.Chain.{erase}
use owned_c.Objects.{Object, Counted, read_counted}
use owned_c.Counting.{write_place, unlink_at}
use owned_c.Counting.Graph.{Contents, replaced}
use owned_c.Counting.Phases.{Follows}

abbrev pub Distinct : List Ptr → Type 0
Distinct [] = Unit
Distinct (x ∷ xs) = (x ∉ xs) × Distinct xs

-- The wrapper in front of `m` in the list `b ∷ ws`.
abbrev pub before : (b m : Ptr) → (ws : List Ptr) → Ptr
before b m [] = b
before b m (x ∷ xs) = if x == m then b else before x m xs

pub before-mem : (b m : Ptr) (ws : List Ptr) → before b m ws ∈ b ∷ ws
before-mem b m [] = ground arith
before-mem b m (x ∷ xs) = ground (arith, before-mem x m xs)

pub before-ne : (b m : Ptr) (ws : List Ptr) → b ≢ m → before b m ws ≢ m
before-ne b m [] ne = ne
before-ne b m (x ∷ xs) ne = elim (Bool-cases (x == m)) [
  | inl e ↦ rw e ne
  | inr e ↦ rw e (before-ne x m xs (ground arith))
]

Follows-same :
    (f g : Contents) (p : Ptr) (ws : List Ptr)
    → ((x : Ptr) → x ∈ ws → g x ≡ f x)
    → Follows f p ws
    → Follows g p ws
Follows-same f g p [] same e = e
Follows-same f g p (m ∷ ms) same (e, rest) =
    let at : g m ≡ f m = same m (ground arith) in
    (
      e,
      subst (λ (h : Counted). Follows g h.gc_next ms) (sym at)
          (Follows-same f g (f m).gc_next ms (λ x k. same x (ground arith)) rest),
    )

-- The wrapper in front of `m` points behind `m`.
abbrev pub skipping : Contents → (b m : Ptr) → List Ptr → Contents
skipping f b m ws =
    replaced f (before b m ws) (record (f (before b m ws)) { gc_next = (f m).gc_next })

Follows-replaced :
    (f : Contents) (b p : Ptr) (ws : List Ptr)
    → b ∉ ws
    → Follows f p ws
    → Follows
        (replaced f b (record (f b) { gc_next = p }))
        (replaced f b (record (f b) { gc_next = p }) b).gc_next
        ws
Follows-replaced f b p ws out list =
    let g = replaced f b (record (f b) { gc_next = p }) in
    let next : (g b).gc_next ≡ p = ground arith in
    subst (λ z. Follows g z ws) (sym next)
      (Follows-same f g p ws
        (λ y k. elim (Bool-cases (y == b)) [
          | inl e ↦ absurd (ground (arith, ==→eq y b e))
          | inr e ↦ rw e
        ])
        list)

pub Follows-skipping :
    (f : Contents) (b m : Ptr) (ws : List Ptr)
    → Distinct (b ∷ ws)
    → m ∈ ws
    → Follows f (f b).gc_next ws
    → Follows (skipping f b m ws) (skipping f b m ws b).gc_next (erase m ws)
Follows-skipping f b m [] d k list = cc
Follows-skipping f b m (x ∷ xs) (out, rest) k (at, list) = elim (Bool-cases (x == m)) [
  | inl e ↦
      let same : x ≡ m = ==→eq x m e in
      rw e (
        Follows-replaced f b (f m).gc_next xs (ground arith)
          (subst (λ z. Follows f (f z).gc_next xs) same list))
  | inr e ↦
      let kept : (skipping f x m xs b).gc_next ≡ (f b).gc_next =
        ground (arith, before-mem x m xs) in
      rw e (kept ∙ at, Follows-skipping f x m xs rest (ground arith) list)
]

module _ (m : Ptr) (s : State Object) (f : Contents) where
  -- The loop from the wrapper `b` on.
  pub unlink_at-before :
      (k : ℕ) (b : Ptr) (ws : List Ptr)
      → ((x : Ptr) → x ∈ b ∷ ws → read_counted (user_ptr x) s ≡ ok (f x) s)
      → m ∈ ws
      → Follows f (f b).gc_next ws
      → length ws ≤ k
      → unlink_at k (user_ptr m) (some (user_ptr b)) s
        ≡ write_place (some (user_ptr (before b m ws))) (f m).gc_next s
  unfolding unlink_at
  unlink_at-before k b [] reads i list few = cc
  unlink_at-before zero b (x ∷ xs) reads i list few = absurd (omega (arith, few))
  unlink_at-before (suc k) b (x ∷ xs) reads i (at, list) few = elim (Bool-cases (x == m)) [
    | inl e ↦
        let same : x ≡ m = ==→eq x m e in
        rw (
          reads b (ground arith),
          at,
          ne→== (user_ptr x) null (omega arith),
          eq→== (user_ptr x) (user_ptr m) (omega (arith, same)),
          reads m (ground arith),
          e,
        )
    | inr e ↦
        rw
          (
            reads b (ground arith),
            at,
            ne→== (user_ptr x) null (omega arith),
            ne→== (user_ptr x) (user_ptr m) (ground arith),
            e,
          )
          (unlink_at-before k x xs (λ y j. reads y (ground arith)) (ground arith) list
            (omega (arith, few)))
  ]
