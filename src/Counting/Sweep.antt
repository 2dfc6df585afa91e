-- ===== src/Counting/Sweep.antt =====
-- The last loop of `owned_rc_collect_cycles` in src/ownedc_rc.c: what has no mark is dropped.
use owned_c.Base.{
  ℕ, zero, suc, ◌+◌, ◌≤◌, ◌<◌, ◌≡◌, ◌∙◌, refl, sym, ap, subst, true, false, List, [], ◌∷◌, ◌++◌,
  ◌∈◌, has, has-append, arith, inl, inr, length, length-append, if◌then◌else◌, Bool-cases, ne→==,
  eq→==,
}
use owned_c.Runtime.State.{Ptr, null, State}
use owned_c.Runtime.Command.{ok, ◌>>◌}
use owned_c.Runtime.Registry.{user_ptr}
use owned_c.Runtime.Chain.{erase}
use owned_c.Objects.{Object, Counted, read_counted}
use owned_c.Counting.{write_counted, owned_rc_drop, sweep}
use owned_c.Counting.Graph.{Contents, replaced}
use owned_c.Counting.Phases.{Follows}
use owned_c.Counting.Unregister.{SameCount, SameCount-refl, SameCount-trans, not_mem_erase}
use owned_c.Counting.Owned.{IsOwned, read_counted-owned, stored, write_counted-owned}
use owned_c.Counting.Drop.{dropped_shards}
use owned_c.Counting.Count.{with_count, with_count-IsOwned, last_drop}
use owned_c.Counting.Swept.{
  marked_of, unmarked_count, swept_shards, mem-marked_of, marked_of-same, swept_shards-same,
  Follows-rest, erase_middle, in_middle, out_of_front, append_assoc,
}

module _ (limit k n : ℕ) (m : Ptr) (h : Counted) (last : ℕ) (t : State Object) where
  sweep_marked :
      (s : State Object)
      → read_counted (user_ptr m) s ≡ ok h s
      → h.gc_marked ≡ true
      → sweep limit k h.gc_next n s ≡ ok last t
      → sweep limit (suc k) (user_ptr m) n s ≡ ok last t
  unfolding sweep
  sweep_marked s reads mark rest = rw (ne→== (user_ptr m) null (omega arith), reads, mark, rest)

  sweep_unmarked :
      (s u v : State Object)
      → read_counted (user_ptr m) s ≡ ok h s
      → h.gc_marked ≡ false
      → write_counted (user_ptr m) (record h { ref_count = 1 }) s ≡ ok tt u
      → owned_rc_drop limit (user_ptr m) u ≡ ok tt v
      → sweep limit k h.gc_next (n + 1) v ≡ ok last t
      → sweep limit (suc k) (user_ptr m) n s ≡ ok last t
  unfolding sweep
  sweep_unmarked s u v reads mark writes drops rest =
      rw (ne→== (user_ptr m) null (omega arith), reads)
        (ap
            (λ b.
              (if b then sweep limit k h.gc_next n else (do
                write_counted (user_ptr m) (record h { ref_count = 1 })
                owned_rc_drop limit (user_ptr m)
                sweep limit k h.gc_next (n + 1)))
                s)
            mark
          ∙ rw (writes, drops, rest))

-- The loop has gone past `front`, and has `rest` in front of it.
pub record IsSwept (shards : ℕ → List Ptr) (front rest : List Ptr) (f : Contents) (t : State Object)
    (g : Contents) : Type 0 where
  pub owned : IsOwned (swept_shards shards f rest) (front ++ marked_of f rest) t g
  pub same : (x : Ptr) → x ∈ front ++ marked_of f rest → SameCount (f x) (g x)

sweep-null : (limit k n : ℕ) (s : State Object) → sweep limit (suc k) null n s ≡ ok n s
unfolding sweep
sweep-null limit k n s = refl

-- The loop ends, and sweeps the rest.
abbrev pub Sweeps :
    (limit k n : ℕ)
    → (front rest : List Ptr) → (p : Ptr) → (ℕ → List Ptr)
    → State Object
    → Contents
    → Type 0
Sweeps limit k n front rest p shards s f =
    (t : State Object) × (g : Contents) × (sweep limit k p n s ≡ ok (n + unmarked_count f rest) t)
    × IsSwept shards front rest f t g

module _ (limit k n : ℕ) (front : List Ptr) {shards : ℕ → List Ptr} {s : State Object}
    {f : Contents} where
  nothing_left : IsOwned shards (front ++ []) s f → Sweeps limit (suc k) n front [] null shards s f
  nothing_left w = (
    s,
    f,
    sweep-null limit k n s ∙ ap (λ z. ok z s) (omega arith),
    record { owned = w; same = λ x j. SameCount-refl },
  )

  module _ (m : Ptr) (rest : List Ptr) (w : IsOwned shards (front ++ m ∷ rest) s f) where
    go_past :
        (f m).gc_marked ≡ true
        → Sweeps limit k n (front ++ m ∷ []) rest (f m).gc_next shards s f
        → Sweeps limit (suc k) n front (m ∷ rest) (user_ptr m) shards s f
    go_past e (t, g, run, swept) =
        let assoc = append_assoc front m (marked_of f rest) in
        (
          t,
          g,
          sweep_marked limit k n m (f m) (n + unmarked_count f rest) t s
                (read_counted-owned w m (in_middle m front rest)) e run
              ∙ ap (λ z. ok z t) (rw e refl),
          record {
            owned =
                rw e (subst (λ zs. IsOwned (swept_shards shards f rest) zs t g) assoc swept.owned);
            same = rw e (subst (λ zs. (x : Ptr) → x ∈ zs → SameCount (f x) (g x)) assoc swept.same);
          },
        )

    -- What the drop of `m` leaves for the rest of the loop.
    abbrev Left : (limit : ℕ) → (v : State Object) → (g : Contents) → Type 0
    Left limit v g =
        IsOwned (dropped_shards shards (f m) m) (front ++ rest) v g
        × ((x : Ptr) → x ∈ front ++ rest → SameCount (f x) (g x))

    m_in : m ∈ front ++ m ∷ rest
    m_in = in_middle m front rest

    abbrev forced : Counted
    forced = with_count w m m_in 1

    dropped_now :
        length (front ++ m ∷ rest) ≤ limit
        → (v : State Object) × (g : Contents) × (owned_rc_drop limit
              (user_ptr m)
              (stored w m m_in forced refl)
            ≡ ok tt v)
          × Left limit v g
    dropped_now enough =
        let ws = front ++ m ∷ rest in
        let f' = replaced f m forced in
        let at_m : f' m ≡ forced = rw (eq→== m m refl) refl in
        let (v, g, drops, gone) =
          last_drop (with_count-IsOwned w m m_in 1) m m_in limit enough
            (ap (λ (z : Counted). z.ref_count) at_m) in
        let shorter = erase_middle m front rest (out_of_front m front rest w.distinct) in
        let owned =
          subst (λ (z : Counted). IsOwned (dropped_shards shards z m) (erase m ws) v g) at_m
            gone.owned in
        let same : (x : Ptr) → x ∈ erase m ws → SameCount (f x) (g x) = λ x j.
          let apart =
            ne→== x m
              (λ z. cc (ap (λ a. has a (erase m ws)) z, j, not_mem_erase m ws w.distinct)) in
          let kept : f' x ≡ f x = rw apart refl in
          subst (λ z. SameCount z (g x)) kept (gone.same x j) in
        (
          v,
          g,
          drops,
          (
            subst (λ zs. IsOwned (dropped_shards shards (f m) m) zs v g) shorter owned,
            subst (λ zs. (x : Ptr) → x ∈ zs → SameCount (f x) (g x)) shorter same,
          ),
        )

    drop_it :
        (f m).gc_marked ≡ false
        → (v : State Object) (g : Contents)
        → owned_rc_drop limit (user_ptr m) (stored w m m_in forced refl) ≡ ok tt v
        → Left limit v g
        → Sweeps limit k (n + 1) front rest (f m).gc_next (dropped_shards shards (f m) m) v g
        → Sweeps limit (suc k) n front (m ∷ rest) (user_ptr m) shards s f
    drop_it e v g drops (owned, left) (t, h, run, swept) =
        let less = dropped_shards shards (f m) m in
        let same_rest : (x : Ptr) → x ∈ rest → SameCount (f x) (g x) =
          λ x j. left x (ground (arith, has-append x front rest, j)) in
        let (same_list, same_number) = marked_of-same f g rest same_rest in
        let same_shards = swept_shards-same f g rest less same_rest in
        let owned' : IsOwned (swept_shards less f rest) (front ++ marked_of f rest) t h =
          subst (λ zs. IsOwned (swept_shards less f rest) (front ++ zs) t h) same_list
            (subst (λ sh. IsOwned sh (front ++ marked_of g rest) t h) same_shards swept.owned) in
        let same : (x : Ptr) → x ∈ front ++ marked_of f rest → SameCount (f x) (h x) = λ x j.
          SameCount-trans
            (left x (
              ground (
                arith,
                has-append x front rest,
                has-append x front (marked_of f rest),
                mem-marked_of f x rest,
                j,
              )))
            (swept.same x (subst (λ zs. x ∈ front ++ zs) (sym same_list) j)) in
        (
          t,
          h,
          sweep_unmarked limit k n m (f m) (n + 1 + unmarked_count g rest) t s
                (stored w m m_in forced refl) v (read_counted-owned w m m_in) e
                (write_counted-owned w m m_in forced refl) drops run
              ∙ ap (λ z. ok z t) (rw (e, same_number) (omega arith)),
          record { owned = rw e owned'; same = rw e same },
        )

-- With fuel for the list the loop drops the wrappers without a mark, and keeps those with one.
pub sweep-IsSwept :
    (limit k n : ℕ) (front rest : List Ptr) (p : Ptr) (shards : ℕ → List Ptr) (s : State Object)
    (f : Contents)
    → IsOwned shards (front ++ rest) s f
    → Follows f p rest
    → length rest < k
    → length (front ++ rest) ≤ limit
    → Sweeps limit k n front rest p shards s f
sweep-IsSwept limit zero n front rest p shards s f w list few enough = absurd (omega (arith, few))
sweep-IsSwept limit (suc k) n front [] p shards s f w list few enough =
    subst (λ q. Sweeps limit (suc k) n front [] q shards s f) (sym list)
      (nothing_left limit k n front w)
sweep-IsSwept limit (suc k) n front (m ∷ rest) p shards s f w (at, list) few enough =
    let next = sweep-IsSwept limit k in
    subst (λ q. Sweeps limit (suc k) n front (m ∷ rest) q shards s f) (sym at)
      (elim (Bool-cases (f m).gc_marked) [
        | inl e ↦
            let assoc = append_assoc front m rest in
            go_past limit k n front m rest w e (
              next n (front ++ m ∷ []) rest (f m).gc_next shards s f
                (subst (λ zs. IsOwned shards zs s f) (sym assoc) w) list (omega (arith, few))
                (subst (λ (zs : List Ptr). length zs ≤ limit) (sym assoc) enough))
        | inr e ↦
            let (v, g, drops, (owned, same)) = dropped_now limit k n front m rest w enough in
            let list' = Follows-rest f g v.gc_head (f m).gc_next front rest list owned.list in
            drop_it limit k n front m rest w e v g drops (owned, same)
              (next (n + 1) front rest (f m).gc_next (dropped_shards shards (f m) m) v g owned list'
                (omega (arith, few))
                (omega (arith, enough, length-append front (m ∷ rest), length-append front rest)))
      ])
