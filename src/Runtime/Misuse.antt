-- ===== src/Runtime/Misuse.antt =====
-- What src/runtime.c reports when a pointer is misused: freed twice, used after it was freed, or
-- freed while a borrow is out.
use owned_c.Base.{
  ℕ, ◌+◌, ◌-◌, ◌≤◌, ◌<◌, ◌≡◌, false, refl, ◌≢◌, Option, none, some, String, List, ◌++◌, arith,
  ne→==, lt→ltb,
}
use owned_c.Runtime.State.{Ptr, null, int_max, owned, Block, State}
use owned_c.Runtime.Command.{ok, ◌>>◌, exited, set_cell, diagnostics_fatal, fatal_report}
use owned_c.Runtime.Access.{load-ok, update-ok, get_meta-ok}
use owned_c.Runtime.Registry.{user_ptr}
use owned_c.Runtime.Alloc.{is_foreign, owner_free_internal, owner_realloc_internal}
use owned_c.Runtime.Ownership.{ownership_borrow, ownership_release, ownership_claim}
use owned_c.Runtime.Ownership.Borrow.{
  IsCounted, times, release-borrow_times, times-ownership_borrow, release-borrow_more,
}
use owned_c.Runtime.Registered.{IsRetired, IsRegistry}
use owned_c.Runtime.Live.{IsLive}

module _ {A : Type 0} where
  -- The state in which a fatal report leaves the process.
  abbrev pub reported : String → Ptr → Option String → ℕ → State A → State A
  reported why p file line s = record s { output = s.output ++ fatal_report why p file line }

  module _ (s : State A) (m : Ptr) (ne : m ≢ null) (g : IsRetired s.cells m) where
    -- A pointer whose block lies in the quarantine is caught whatever the client does with it: it is
    -- freed again, grown or borrowed, and nothing but the output changes.
    pub retired_is_caught :
        (size : ℕ) (file : Option String) (line : ℕ)
        → size ≢ 0
        → (owner_free_internal (user_ptr m) file line s
            ≡ exited 1 (reported "Double-free" (user_ptr m) file line s))
          × (owner_realloc_internal (user_ptr m) size file line s
              ≡ exited 1
                  (reported "Use-after-free (Realloc on freed pointer)" (user_ptr m) file line s))
          × (ownership_borrow (user_ptr m) s
              ≡ exited 1
                  (reported "Use-after-free (Borrow on freed pointer)" (user_ptr m) none 0 s))
    unfolding owner_free_internal owner_realloc_internal ownership_borrow diagnostics_fatal
    retired_is_caught size file line some_bytes = (
      rw
          (
            ne→== (user_ptr m) null (omega arith),
            get_meta-ok m s g.here ne g.tracked.magic,
            ne→== m null ne,
            load-ok m s g.here,
            g.gone,
          )
          (ground arith),
      rw
          (
            ne→== (user_ptr m) null (omega arith),
            ne→== size 0 some_bytes,
            get_meta-ok m s g.here ne g.tracked.magic,
            ne→== m null ne,
            load-ok m s g.here,
            g.gone,
          )
          (ground arith),
      rw
          (
            ne→== (user_ptr m) null (omega arith),
            get_meta-ok m s g.here ne g.tracked.magic,
            ne→== m null ne,
            load-ok m s g.here,
            g.gone,
          )
          (ground arith),
    )

  borrowed_is_refused :
      {s : State A} (m : Ptr) {b : Block A} (file : Option String) (line : ℕ)
      → IsLive s m b
      → 0 < b.header.borrow_count
      → owner_free_internal (user_ptr m) file line s
        ≡ exited 1 (reported "Freeing borrowed object" (user_ptr m) file line s)
  unfolding owner_free_internal diagnostics_fatal
  borrowed_is_refused {s} m {b} file line l out =
      rw
        (
          ne→== (user_ptr m) null (omega arith),
          get_meta-ok m s l.here l.ne_null l.tracked.magic,
          ne→== m null l.ne_null,
          load-ok m s l.here,
          l.alive,
          lt→ltb 0 b.header.borrow_count out,
        )
        (ground arith)

  -- A live block that a thread may borrow is borrowed `n` times, within int, and released fewer times,
  -- where its state and the count of its header go together: the calls return, and whichever thread
  -- frees the block then, the process ends with the report "Freeing borrowed object", and nothing but
  -- the output changes.
  pub borrowed_is_kept :
      (n k : ℕ) {s : State A} (m : Ptr) {b : Block A}
      → k < n
      → IsLive s m b
      → is_foreign b.header s.self ≡ false
      → IsCounted b.header
      → b.header.borrow_count + n ≤ int_max
      → (t : State A) × ((times n (ownership_borrow (user_ptr m))
              >> times k (ownership_release (user_ptr m)))
            s
          ≡ ok tt t)
        × ((thread : ℕ) (file : Option String) (line : ℕ)
            → owner_free_internal (user_ptr m) file line (record t { self = thread })
              ≡ exited 1 (
                  reported "Freeing borrowed object"
                    (user_ptr m)
                    file
                    line
                    (record t { self = thread })))
  borrowed_is_kept n k {s} m {b} fewer l own counted room =
      let (t, c, runs, l', own', counted', count) =
        times-ownership_borrow (n - k) m l own counted (omega (arith, fewer, room)) in
      (
        t,
        release-borrow_more n k (ownership_borrow (user_ptr m)) (ownership_release (user_ptr m)) s
            runs (omega (arith, fewer))
            (release-borrow_times k m l' own' counted' (omega (arith, fewer, room, count))),
        λ thread file line.
            borrowed_is_refused m {b = c} file line
              (record {
                here = l'.here;
                ne_null = l'.ne_null;
                tracked = l'.tracked;
                alive = l'.alive;
              })
              (omega (arith, fewer, count)),
      )

module _ {A : Type 0} {s : State A} {shards : ℕ → List Ptr} where
  -- A freed block that is still in the quarantine of a well formed registry can be claimed: the call
  -- returns, the block counts as owned again, by the caller, while its slot still holds it, and the
  -- registry is well formed no more.
  pub claim_revives :
      (r : IsRegistry shards s) (j : ℕ)
      → s.quarantine j ≢ null
      → (t : State A) × (ownership_claim (user_ptr (s.quarantine j)) s ≡ ok tt t)
        × (t.quarantine j ≡ s.quarantine j)
        × ((b : Block A) × (t.cells (s.quarantine j) ≡ some b)
            × (b.header.state ≡ owned)
            × (b.header.owner_thread ≡ s.self))
        × ((sh : ℕ → List Ptr) → ¬ IsRegistry sh t)
  unfolding ownership_claim
  claim_revives r j ne =
      let m = s.quarantine j in
      let g = r.retired j ne in
      let b = record g.block {
        header = record g.block.header { owner_thread = s.self; state = owned };
      } in
      (
        set_cell m (some b) s,
        rw (
          ne→== (user_ptr m) null (omega arith),
          get_meta-ok m s g.here ne g.tracked.magic,
          ne→== m null ne,
          update-ok m s g.here (λ h. record h { owner_thread = s.self; state = owned }),
        ),
        refl,
        (b, ground arith, refl, refl),
        λ sh w. let x = w.retired j ne in ground (arith, x.here, x.gone),
      )
