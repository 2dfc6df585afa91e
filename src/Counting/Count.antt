-- ===== src/Counting/Count.antt =====
-- `owned_rc_clone` and `owned_rc_drop` of src/ownedc_rc.c over the registry: the count, and the last reference.
use owned_c.Base.{
  ℕ, ◌+◌, ◌-◌, ◌%◌, ◌≤◌, ◌<◌, ◌≡◌, ◌⊎◌, refl, sym, ap, subst, Bool, true, false, List, [], ◌∷◌, ◌∈◌,
  has, arith, inl, inr, length, ltb, ◌==◌, if◌then◌else◌, Bool-cases, ==→eq, ne→==, eq→==,
}
use owned_c.Runtime.State.{Ptr, null, size_mod, State}
use owned_c.Runtime.Command.{ok, pure}
use owned_c.Runtime.Registry.{user_ptr}
use owned_c.Runtime.Chain.{erase}
use owned_c.Objects.{Object, Counted, read_counted}
use owned_c.Counting.{write_counted, drop_last, owned_rc_drop, owned_rc_clone}
use owned_c.Counting.Graph.{Contents, replaced}
use owned_c.Counting.Phases.{Follows}
use owned_c.Counting.Owned.{
  IsOwned, read_counted-owned, stored, write_counted-owned, stored-IsOwned,
}
use owned_c.Counting.Unregister.{not_mem_erase, SameCount}
use owned_c.Counting.Drop.{dropped_shards, IsDropped, drop_last-IsDropped}

Follows-next :
    (f g : Contents) (p : Ptr) (ms : List Ptr)
    → ((x : Ptr) → (g x).gc_next ≡ (f x).gc_next)
    → Follows f p ms
    → Follows g p ms
Follows-next f g p [] same e = e
Follows-next f g p (m ∷ ms) same (e, rest) =
    (e, subst (λ q. Follows g q ms) (sym (same m)) (Follows-next f g (f m).gc_next ms same rest))

drop_counted :
    (s u t : State Object) (fuel : ℕ) (m : Ptr) (h : Counted) (last : Bool)
    → read_counted (user_ptr m) s ≡ ok h s
    → ltb 0 h.ref_count ≡ true
    → write_counted (user_ptr m) (record h { ref_count = h.ref_count - 1 }) s ≡ ok tt u
    → (h.ref_count - 1 == 0) ≡ last
    → (if last then drop_last fuel (user_ptr m) else pure tt) u ≡ ok tt t
    → owned_rc_drop fuel (user_ptr m) s ≡ ok tt t
unfolding owned_rc_drop
drop_counted s u t fuel m h last reads some_left writes is_last rest =
    rw (ne→== (user_ptr m) null (omega arith), reads, some_left, writes, is_last, rest)

module _ {shards : ℕ → List Ptr} {ws : List Ptr} {s : State Object} {f : Contents}
    (w : IsOwned shards ws s f) (m : Ptr) (k : m ∈ ws) where
  -- The wrapper with another count.
  abbrev pub with_count : ℕ → Counted
  with_count n = record (f m) { ref_count = n }

  next_same : (n : ℕ) (x : Ptr) → (replaced f m (with_count n) x).gc_next ≡ (f x).gc_next
  next_same n x = elim (Bool-cases (x == m)) [ inl e ↦ rw (e, ==→eq x m e) | inr e ↦ rw e ]

  pub with_count-IsOwned :
      (n : ℕ) → IsOwned shards ws (stored w m k (with_count n) refl) (replaced f m (with_count n))
  with_count-IsOwned n =
      stored-IsOwned w m k (with_count n) refl (λ x j. j) w.distinct
        (Follows-next f (replaced f m (with_count n)) s.gc_head ws (next_same n) w.list)

  -- A clone adds one to the count.
  owned_rc_clone-IsOwned :
      (owned_rc_clone (user_ptr m) s
        ≡ ok (user_ptr m) (stored w m k (with_count (((f m).ref_count + 1) % size_mod)) refl))
      × IsOwned shards ws
          (stored w m k (with_count (((f m).ref_count + 1) % size_mod)) refl)
          (replaced f m (with_count (((f m).ref_count + 1) % size_mod)))
  unfolding owned_rc_clone
  owned_rc_clone-IsOwned =
      let n = ((f m).ref_count + 1) % size_mod in
      (
        rw (
          ne→== (user_ptr m) null (omega arith),
          read_counted-owned w m k,
          write_counted-owned w m k (with_count n) refl,
        ),
        with_count-IsOwned n,
      )

  module _ (fuel : ℕ) (few : length ws ≤ fuel) where
    abbrev pub one_less : ℕ
    one_less = (f m).ref_count - 1

    pub last_drop :
        (f m).ref_count ≡ 1
        → (t : State Object) × (g : Contents) × (owned_rc_drop fuel (user_ptr m) s ≡ ok tt t)
          × IsDropped (dropped_shards shards (f m) m) (erase m ws) m t f g
    last_drop e =
        let h = with_count one_less in
        let f' = replaced f m h in
        let at_m : f' m ≡ h = rw (eq→== m m refl) refl in
        let (t, g, run, gone) = drop_last-IsDropped (with_count-IsOwned one_less) m k fuel few in
        (
          t,
          g,
          drop_counted s (stored w m k h refl) t fuel m (f m) true (read_counted-owned w m k)
              (ground (arith, e)) (write_counted-owned w m k h refl) (ground (arith, e)) run,
          record {
            owned =
                subst (λ (z : Counted). IsOwned (dropped_shards shards z m) (erase m ws) t g) at_m
                  gone.owned;
            same = λ x j.
                let apart : (x == m) ≡ false =
                  ne→== x m
                    (λ z. cc (ap (λ a. has a (erase m ws)) z, j, not_mem_erase m ws w.distinct)) in
                let kept : f' x ≡ f x = rw apart refl in
                subst (λ z. SameCount z (g x)) kept (gone.same x j);
            retired = gone.retired;
          },
        )

    -- A drop of a wrapper of the global list, where each wrapper and what it holds are in blocks of a well formed
    -- registry that the running thread may free, no two wrappers hold the same block, none holds a wrapper of the
    -- list, and the fuel is as long as the list, takes one off its count. At the last one the wrapper leaves the
    -- list, and it and what it holds leave the registry; a count of zero is left alone. All other wrappers stay, as
    -- they were but for the links of the list, with the blocks that they hold.
    pub owned_rc_drop-IsOwned :
        (((f m).ref_count ≡ 0) × (owned_rc_drop fuel (user_ptr m) s ≡ ok tt s))
        ⊎ ((1 < (f m).ref_count)
            × ((t : State Object) × (owned_rc_drop fuel (user_ptr m) s ≡ ok tt t)
                × IsOwned shards ws t (replaced f m (with_count one_less))))
        ⊎ (((f m).ref_count ≡ 1)
            × ((t : State Object) × (g : Contents) × (owned_rc_drop fuel (user_ptr m) s ≡ ok tt t)
                × IsDropped (dropped_shards shards (f m) m) (erase m ws) m t f g))
    unfolding owned_rc_drop
    owned_rc_drop-IsOwned = elim (Bool-cases (ltb 1 (f m).ref_count)) [
      | inl e ↦
          let h = with_count one_less in
          inr (
            inl (
              ground (arith, e),
              (
                stored w m k h refl,
                drop_counted s (stored w m k h refl) (stored w m k h refl) fuel m (f m) false
                    (read_counted-owned w m k) (ground (arith, e))
                    (write_counted-owned w m k h refl) (ground (arith, e)) refl,
                with_count-IsOwned one_less,
              ),
            ))
      | inr e ↦ elim (Bool-cases (ltb 0 (f m).ref_count)) [
        | inl o ↦
            let one : (f m).ref_count ≡ 1 = ground (arith, e, o) in inr (inr (one, last_drop one))
        | inr o ↦ inl (
          ground (arith, o),
          rw (ne→== (user_ptr m) null (omega arith), read_counted-owned w m k, o),
        )
      ]
    ]
