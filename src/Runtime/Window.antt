-- ===== src/Runtime/Window.antt =====
-- How long src/runtime.c remembers a freed block: sequences of calls on the registry, and the ring of
-- `QUARANTINE_SIZE` slots.
use owned_c.Base.{
  ℕ, suc, ◌+◌, ◌%◌, ◌<◌, ◌≡◌, refl, subst, sym, ◌∙◌, ◌≢◌, Option, none, String, List, arith, ◌∈◌,
  ne→==,
}
use owned_c.Runtime.State.{Ptr, null, meta_size, size_mod, quarantine_size, Block, State}
use owned_c.Runtime.Command.{ok, exited, diagnostics_fatal}
use owned_c.Runtime.Allocator.{first_answer}
use owned_c.Runtime.Registry.{shard_of, user_ptr}
use owned_c.Runtime.Access.{load-ok, update-ok, get_meta-ok}
use owned_c.Runtime.Alloc.{owner_malloc_internal, owner_free_internal, owner_realloc_internal}
use owned_c.Runtime.Alloc.Malloc.{owner_malloc_internal-ok, allocated-IsRegistry}
use owned_c.Runtime.Alloc.Free.{owner_free_internal-ok, owner_free_internal_iff}
use owned_c.Runtime.Ownership.{ownership_borrow, ownership_release, borrow_meta, release_meta}
use owned_c.Runtime.Ownership.Borrow.{amend}
use owned_c.Runtime.Chain.{erase}
use owned_c.Runtime.Register.{listed}
use owned_c.Runtime.Registered.{IsRegistry, IsRetired}
use owned_c.Runtime.Live.{IsLive, member-IsLive}
use owned_c.Runtime.Amend.{IsRegistry-env, IsRegistry-set_cell}
use owned_c.Runtime.Misuse.{reported, retired_is_caught}

module _ {A : Type 0} where
  -- Calls that return, on blocks of the registry, from one state to another, by any threads, with the
  -- number of blocks that they free. The underlying allocator answers with memory that is not in use.
  pub data Uses (sh₀ : ℕ → List Ptr) (s₀ : State A) : ℕ → (ℕ → List Ptr) → State A → Type 0 where
    start : Uses sh₀ s₀ 0 sh₀ s₀
    malloc :
        {k : ℕ} {sh : ℕ → List Ptr} {s t : State A} {p : Ptr}
        → Uses sh₀ s₀ k sh s
        → (q size : ℕ) (file : Option String) (line : ℕ) → first_answer s.answers ≡ q
        → q ≢ null
        → s.cells q ≡ none
        → meta_size + size < size_mod
        → owner_malloc_internal size file line s ≡ ok p t
        → Uses sh₀ s₀ k (listed q sh) t
    free :
        {k : ℕ} {sh : ℕ → List Ptr} {s t : State A}
        → Uses sh₀ s₀ k sh s
        → (m : Ptr) (file : Option String) (line : ℕ) → m ∈ sh (shard_of m)
        → owner_free_internal (user_ptr m) file line s ≡ ok tt t
        → Uses sh₀ s₀ (suc k) (λ i. erase m (sh i)) t
    borrow :
        {k : ℕ} {sh : ℕ → List Ptr} {s t : State A}
        → Uses sh₀ s₀ k sh s
        → (m : Ptr) → m ∈ sh (shard_of m)
        → ownership_borrow (user_ptr m) s ≡ ok tt t
        → Uses sh₀ s₀ k sh t
    release :
        {k : ℕ} {sh : ℕ → List Ptr} {s t : State A}
        → Uses sh₀ s₀ k sh s
        → (m : Ptr) → m ∈ sh (shard_of m)
        → ownership_release (user_ptr m) s ≡ ok tt t
        → Uses sh₀ s₀ k sh t
    switch :
        {k : ℕ} {sh : ℕ → List Ptr} {s : State A}
        → Uses sh₀ s₀ k sh s
        → (self : ℕ) → Uses sh₀ s₀ k sh (record s { self = self })

  same_state : {B : Type 0} {b c : B} {s t : State A} → ok b s ≡ ok c t → s ≡ t
  same_state e = cc e

  module _ {s t : State A} (m : Ptr) {b : Block A} (l : IsLive s m b) where
    borrow_result : ownership_borrow (user_ptr m) s ≡ ok tt t → t ≡ amend m l (borrow_meta b.header)
    unfolding ownership_borrow diagnostics_fatal
    borrow_result e = ground (
      arith,
      ne→== (user_ptr m) null,
      get_meta-ok m s l.here l.ne_null l.tracked.magic,
      load-ok m s l.here,
      update-ok m s l.here borrow_meta,
    )

    release_result :
        ownership_release (user_ptr m) s ≡ ok tt t → t ≡ amend m l (release_meta b.header)
    unfolding ownership_release diagnostics_fatal
    release_result e = ground (
      arith,
      ne→== (user_ptr m) null,
      get_meta-ok m s l.here l.ne_null l.tracked.magic,
      load-ok m s l.here,
      update-ok m s l.here release_meta,
    )

  -- Every call that returns keeps the registry well formed.
  pub Uses-IsRegistry :
      {sh₀ : ℕ → List Ptr} {s₀ : State A} {k : ℕ} {sh : ℕ → List Ptr} {t : State A}
      → Uses sh₀ s₀ k sh t
      → IsRegistry sh₀ s₀
      → IsRegistry sh t
  Uses-IsRegistry start r = r
  Uses-IsRegistry (malloc {sh} u q size file line answer ne fresh fits e) r =
      let h = Uses-IsRegistry u r in
      subst (IsRegistry (listed q sh))
        (same_state (sym (owner_malloc_internal-ok h q size file line answer ne fresh fits) ∙ e))
        (allocated-IsRegistry h q size file line answer ne fresh fits)
  Uses-IsRegistry (free {sh} u m file line k e) r =
      let h = Uses-IsRegistry u r in
      let done =
        owner_free_internal-ok h m k (member-IsLive h m k).here file line
          ((owner_free_internal_iff h m k (member-IsLive h m k).here file line).0 (_, e)) in
      subst (IsRegistry (λ i. erase m (sh i))) (same_state (sym done.0 ∙ e)) done.1
  Uses-IsRegistry (borrow {sh} u m k e) r =
      let h = Uses-IsRegistry u r in
      let l = member-IsLive h m k in
      subst (IsRegistry sh) (sym (borrow_result m l e)) (
        IsRegistry-set_cell h m l.here (record {
          tracked = λ t. record { magic = t.magic; room = t.room };
          freed = ground (arith, l.alive);
          prev = refl;
          next = refl;
        }))
  Uses-IsRegistry (release {sh} u m k e) r =
      let h = Uses-IsRegistry u r in
      let l = member-IsLive h m k in
      subst (IsRegistry sh) (sym (release_result m l e)) (
        IsRegistry-set_cell h m l.here (record {
          tracked = λ t. record { magic = t.magic; room = t.room };
          freed = ground (arith, l.alive);
          prev = refl;
          next = refl;
        }))
  Uses-IsRegistry (switch {s} u self) r =
      IsRegistry-env (Uses-IsRegistry u r) s.atexit_registered s.answers s.calls self s.output

  -- `m` lies in slot `j`, and `k` slots behind it have been filled.
  record Held (j m k : ℕ) (s : State A) : Type 0 where
    slot : s.quarantine j ≡ m
    tail : s.quarantine_tail ≡ (j + 1 + k) % quarantine_size

  -- Fewer than `QUARANTINE_SIZE` further blocks leave the slot alone.
  Uses-Held :
      {sh₀ : ℕ → List Ptr} {s₀ : State A} {k : ℕ} {sh : ℕ → List Ptr} {t : State A} (j m : ℕ)
      → Uses sh₀ s₀ k sh t
      → IsRegistry sh₀ s₀
      → Held j m 0 s₀
      → j < quarantine_size
      → k < quarantine_size
      → Held j m k t
  Uses-Held j m start r h lt few = h
  Uses-Held j m (malloc u q size file line answer ne fresh fits e) r h lt few =
      subst (Held j m _)
        (same_state (
          sym (owner_malloc_internal-ok (Uses-IsRegistry u r) q size file line answer ne fresh fits)
          ∙ e))
        (let g = Uses-Held j m u r h lt few in record { slot = g.slot; tail = g.tail })
  Uses-Held j m (free {k} {s} u n file line i e) r h lt few =
      let g = Uses-Held j m u r h lt (omega arith) in
      let inv = Uses-IsRegistry u r in
      let done =
        owner_free_internal-ok inv n i (member-IsLive inv n i).here file line
          ((owner_free_internal_iff inv n i (member-IsLive inv n i).here file line).0 (_, e)) in
      let moved : s.quarantine_tail ≢ j = omega (arith, g.tail) in
      subst (Held j m (suc k)) (same_state (sym done.0 ∙ e))
        (record { slot = ground (arith, g.slot, moved); tail = omega (arith, g.tail) })
  Uses-Held j m (borrow u n i e) r h lt few =
      let g = Uses-Held j m u r h lt few in
      subst (Held j m _) (sym (borrow_result n (member-IsLive (Uses-IsRegistry u r) n i) e))
        (record { slot = g.slot; tail = g.tail })
  Uses-Held j m (release u n i e) r h lt few =
      let g = Uses-Held j m u r h lt few in
      subst (Held j m _) (sym (release_result n (member-IsLive (Uses-IsRegistry u r) n i) e))
        (record { slot = g.slot; tail = g.tail })
  Uses-Held j m (switch u self) r h lt few =
      let g = Uses-Held j m u r h lt few in record { slot = g.slot; tail = g.tail }

  -- After a block of the registry was freed and fewer than 1024 others since, with any allocations,
  -- borrows and releases by any threads between, a further use of its pointer ends the process: to
  -- free it is reported as a double free, to grow or to borrow it as a use after free.
  pub double_free_is_caught :
      {sh₀ sh : ℕ → List Ptr} {s₀ s t : State A} (r : IsRegistry sh₀ s₀) (m : Ptr)
      (i : m ∈ sh₀ (shard_of m)) (file : Option String) (line : ℕ) {k : ℕ}
      → owner_free_internal (user_ptr m) file line s₀ ≡ ok tt s
      → Uses (λ j. erase m (sh₀ j)) s k sh t
      → k < quarantine_size
      → (size : ℕ) (file' : Option String) (line' : ℕ) → size ≢ 0
      → (owner_free_internal (user_ptr m) file' line' t
          ≡ exited 1 (reported "Double-free" (user_ptr m) file' line' t))
        × (owner_realloc_internal (user_ptr m) size file' line' t
            ≡ exited 1
                (reported "Use-after-free (Realloc on freed pointer)" (user_ptr m) file' line' t))
        × (ownership_borrow (user_ptr m) t
            ≡ exited 1 (reported "Use-after-free (Borrow on freed pointer)" (user_ptr m) none 0 t))
  double_free_is_caught {sh₀} {s₀} {s} {t} r m i file line e u few size file' line' some_bytes =
      let l = member-IsLive r m i in
      let done =
        owner_free_internal-ok r m i l.here file line
          ((owner_free_internal_iff r m i l.here file line).0 (s, e)) in
      let same = same_state (sym done.0 ∙ e) in
      let r' = subst (IsRegistry (λ j. erase m (sh₀ j))) same done.1 in
      let h =
        Uses-Held s₀.quarantine_tail m u r'
          (subst (Held s₀.quarantine_tail m 0) same (record { slot = done.2; tail = omega arith }))
          r.tail few in
      let still =
        (Uses-IsRegistry u r').retired s₀.quarantine_tail (λ z. l.ne_null (sym h.slot ∙ z)) in
      retired_is_caught t m l.ne_null (subst (IsRetired t.cells) h.slot still) size file' line'
        some_bytes
