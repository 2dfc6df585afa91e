-- ===== src/Counting/Gone.antt =====
-- Which wrappers the last loop of `owned_rc_collect_cycles` in src/ownedc_rc.c takes out of the registry.
use owned_c.Base.{
  ℕ, ◌+◌, ◌≡◌, ◌∙◌, ◌↔◌, refl, sym, ap, subst, true, false, List, [], ◌∷◌, ◌∈◌, ◌∉◌, has, arith,
  inl, inr, length, Bool-cases, ◌==◌, if◌then◌else◌, ==→eq,
}
use owned_c.Runtime.State.{Ptr, null}
use owned_c.Runtime.Chain.{Chain, Links, erase}
use owned_c.Objects.{Counted, block_of}
use owned_c.Counting.Graph.{Contents}
use owned_c.Counting.Unlink.{Distinct}
use owned_c.Counting.Unregister.{not_mem_erase, still_out, Distinct-erase}
use owned_c.Counting.Drop.{dropped_shards}
use owned_c.Counting.Swept.{marked_of, unmarked_count, swept_shards}

pub Chain-Distinct :
    (l : Links) (before p : Ptr) (xs : List Ptr) → Chain l before p xs → Distinct xs
Chain-Distinct l before p [] c = tt
Chain-Distinct l before p (x ∷ xs) (e, ne, out, (q, h, c)) = (out, Chain-Distinct l x q xs c)

module _ (shards : ℕ → List Ptr) (h : Counted) (m : Ptr) (j : ℕ) where
  dropped-Distinct : Distinct (shards j) → Distinct (dropped_shards shards h m j)
  dropped-Distinct d = elim (Bool-cases (h.inner == null)) [
    | inl e ↦ rw e (Distinct-erase m (shards j) d)
    | inr e ↦ rw e (
        Distinct-erase m (erase (block_of h.inner) (shards j))
          (Distinct-erase (block_of h.inner) (shards j) d))
  ]

  dropped_out : (x : Ptr) → x ∉ shards j → x ∉ dropped_shards shards h m j
  dropped_out x out = elim (Bool-cases (h.inner == null)) [
    | inl e ↦ rw e (still_out x m (shards j) out)
    | inr e ↦ rw e (
        still_out x m (erase (block_of h.inner) (shards j))
          (still_out x (block_of h.inner) (shards j) out))
  ]

  dropped_self : Distinct (shards j) → m ∉ dropped_shards shards h m j
  dropped_self d = elim (Bool-cases (h.inner == null)) [
    | inl e ↦ rw e (not_mem_erase m (shards j) d)
    | inr e ↦ rw e (
        not_mem_erase m (erase (block_of h.inner) (shards j))
          (Distinct-erase (block_of h.inner) (shards j) d))
  ]

module _ (f : Contents) (j : ℕ) where
  swept_out :
      (ms : List Ptr) (shards : ℕ → List Ptr) (x : Ptr)
      → x ∉ shards j
      → x ∉ swept_shards shards f ms j
  swept_out [] shards x out = out
  swept_out (m ∷ ms) shards x out = elim (Bool-cases (f m).gc_marked) [
    | inl e ↦ rw e (swept_out ms shards x out)
    | inr e ↦
        rw e (swept_out ms (dropped_shards shards (f m) m) x (dropped_out shards (f m) m j x out))
  ]

  pub swept_gone :
      (ms : List Ptr) (shards : ℕ → List Ptr) (x : Ptr)
      → Distinct (shards j)
      → x ∈ ms
      → (f x).gc_marked ≡ false
      → x ∉ swept_shards shards f ms j
  swept_gone [] shards x d k no_mark = cc
  swept_gone (m ∷ ms) shards x d k no_mark = elim (Bool-cases (x == m)) [
    | inl e ↦
        let at : x ≡ m = ==→eq x m e in
        let no_mark' : (f m).gc_marked ≡ false = ap (λ z. (f z).gc_marked) (sym at) ∙ no_mark in
        rw no_mark' (
          swept_out ms (dropped_shards shards (f m) m) x (
            subst (λ z. z ∉ dropped_shards shards (f m) m j) (sym at)
              (dropped_self shards (f m) m j d)))
    | inr e ↦ elim (Bool-cases (f m).gc_marked) [
      | inl o ↦ rw o (swept_gone ms shards x d (ground (arith, e, k)) no_mark)
      | inr o ↦ rw o (
          swept_gone ms (dropped_shards shards (f m) m) x (dropped-Distinct shards (f m) m j d)
            (ground (arith, e, k)) no_mark)
    ]
  ]

module _ (f : Contents) where
  has-marked_of :
      (x : Ptr) (ms : List Ptr)
      → has x (marked_of f ms) ≡ (if (f x).gc_marked then has x ms else false)
  has-marked_of x [] = ground arith
  has-marked_of x (m ∷ ms) = elim (Bool-cases (x == m)) [
    | inl e ↦
        let same : (f x).gc_marked ≡ (f m).gc_marked = ap (λ z. (f z).gc_marked) (==→eq x m e) in
        ground (arith, has-marked_of x ms, e, same)
    | inr e ↦ ground (arith, has-marked_of x ms, e)
  ]

  pub marked_of_iff :
      (x : Ptr) (ms : List Ptr) → (x ∈ marked_of f ms) ↔ ((x ∈ ms) × ((f x).gc_marked ≡ true))
  marked_of_iff x ms =
      let same = has-marked_of x ms in
      (
        λ k. (ground (arith, same, k), ground (arith, same, k)),
        λ (k, e). ground (arith, same, k, e),
      )

  pub length-marked_of : (ms : List Ptr) → unmarked_count f ms + length (marked_of f ms) ≡ length ms
  length-marked_of [] = refl
  length-marked_of (m ∷ ms) = ground (arith, length-marked_of ms)
