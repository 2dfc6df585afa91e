-- ===== src/Runtime/Alloc/Quarantine.antt =====
-- The ring of freed blocks of src/runtime.c: what a freed block pushes out, and the invariant.
use owned_c.Base.{
  ℕ, ◌+◌, ◌%◌, ◌≡◌, refl, ap₂, fun_ext, ◌∙◌, ◌≢◌, inl, inr, Option, none, some, List, ◌∷◌, arith,
  ◌==◌, if◌then◌else◌, Bool-cases, ◌∈◌, ==→eq, ==→ne,
}
use owned_c.Runtime.State.{Ptr, null, quarantine_size, Block, Call, free_call, State}
use owned_c.Runtime.Command.{Run, ok}
use owned_c.Runtime.Allocator.{call_free}
use owned_c.Runtime.Alloc.{quarantine_put}
use owned_c.Runtime.Chain.{Chain-frame, null-not-mem, mem-ne}
use owned_c.Runtime.Registered.{links, IsRetired, IsRegistry}
use owned_c.Runtime.Relink.{IsMember-same, IsRetired-same, IsMember-ne_retired}

module _ {A : Type 0} where
  -- The block in the slot that comes next.
  abbrev pub oldest : State A → Ptr
  oldest s = s.quarantine s.quarantine_tail

  -- The block `m` in the ring, in the place of the oldest, which is given back.
  abbrev pub retire : Ptr → State A → State A
  retire m s = record s {
    cells = λ x. if x == oldest s then none else s.cells x;
    calls = if oldest s == null then s.calls else free_call s.global_free (oldest s) ∷ s.calls;
    quarantine = λ j. if j == s.quarantine_tail then m else s.quarantine j;
    quarantine_tail = (s.quarantine_tail + 1) % quarantine_size;
  }

  module _ (m : Ptr) (s : State A) where
    abbrev with_parts : (Ptr → Option (Block A)) → List Call → Run A Unit
    with_parts c calls = ok tt (record s {
      cells = c;
      calls = calls;
      quarantine = λ j. if j == s.quarantine_tail then m else s.quarantine j;
      quarantine_tail = (s.quarantine_tail + 1) % quarantine_size;
    })

    put_empty : oldest s ≡ null → quarantine_put m s ≡ with_parts s.cells s.calls
    unfolding quarantine_put
    put_empty e = ground arith

    put_over :
        {b : Block A}
        → oldest s ≢ null
        → s.global_free ≢ 0
        → s.cells (oldest s) ≡ some b
        → quarantine_put m s
          ≡ with_parts
              (λ x. if x == oldest s then none else s.cells x)
              (free_call s.global_free (oldest s) ∷ s.calls)
    unfolding quarantine_put call_free
    put_over ne can there = ground arith

    pub quarantine_put-retire :
        s.global_free ≢ 0
        → s.cells null ≡ none
        → (oldest s ≢ null → IsRetired s.cells (oldest s))
        → quarantine_put m s ≡ ok tt (retire m s)
    quarantine_put-retire can no_null old = elim (Bool-cases (oldest s == null)) [
      | inl e ↦ put_empty (==→eq _ _ e) ∙ ap₂ with_parts (fun_ext λ x. ground arith) (ground arith)
      | inr e ↦ let ne = ==→ne _ _ e in put_over ne can (old ne).here ∙ ap₂ with_parts refl (rw e)
    ]

  module _ {shards : ℕ → List Ptr} {s : State A} (r : IsRegistry shards s) (m : Ptr)
      (ne_null : m ≢ null) (outside : (j : ℕ) → s.quarantine j ≢ m)
      (gone : IsRetired s.cells m) where
    abbrev after : State A
    after = retire m s

    member_ne : (i : ℕ) (x : Ptr) → x ∈ shards i → x ≢ oldest s
    member_ne i x k = elim (Bool-cases (oldest s == null)) [
      | inl e ↦ ground (
        arith,
        mem-ne x null (shards i) k
            (null-not-mem (links s.cells) null (s.heads i) (shards i) (r.chains i)),
      )
      | inr e ↦
          IsMember-ne_retired s.cells s.cells x i (oldest s) (r.members i x k)
            (r.retired s.quarantine_tail (==→ne _ _ e))
    ]

    slot : (j : ℕ) → after.quarantine j ≢ null → IsRetired after.cells (after.quarantine j)
    slot j ne = elim (Bool-cases (j == s.quarantine_tail)) [
      | inl e ↦
          rw e
            (IsRetired-same s.cells after.cells m (ground (arith, outside s.quarantine_tail)) gone)
      | inr e ↦
          let ne' : s.quarantine j ≢ null = ground arith in
          rw e (
            IsRetired-same s.cells after.cells (s.quarantine j)
              (ground (arith, r.distinct j s.quarantine_tail)) (r.retired j ne'))
    ]

    apart : (j k : ℕ) → after.quarantine j ≢ null → after.quarantine j ≡ after.quarantine k → j ≡ k
    apart j k ne e = ground (arith, outside j, outside k, r.distinct j k)

    pub retire-IsRegistry : IsRegistry shards after
    retire-IsRegistry = record {
      no_null = ground (arith, r.no_null);
      chains = λ i.
          Chain-frame (links s.cells) (links after.cells) null (s.heads i) (shards i)
            (λ x k. ground (arith, member_ne i x k)) (r.chains i);
      members = λ i x k.
          IsMember-same s.cells after.cells x i (ground (arith, member_ne i x k)) (r.members i x k);
      retired = slot;
      distinct = apart;
      tail = omega arith;
      can_malloc = r.can_malloc;
      can_free = r.can_free;
      can_realloc = r.can_realloc;
    }
