-- ===== src/Runtime/Ownership/Borrow.antt =====
-- Borrows of a block of the registry: `ownership_borrow` and `ownership_release` of src/runtime.c
-- count, and undo one another.
use owned_c.Base.{
  ℕ, zero, suc, ◌+◌, ◌-◌, ◌≤◌, ◌<◌, ◌≡◌, refl, ap, sym, fun_ext, ◌∙◌, ◌⊎◌, false, some, arith,
  ne→==, lt→ltb,
}
use owned_c.Runtime.State.{Ptr, null, int_max, Meta, Block, owned, borrowed, shared, State}
use owned_c.Runtime.Command.{Cmd, pure, ok, and_then, and_then_assoc, and_then_done, set_cell, ◌>>◌}
use owned_c.Runtime.Access.{load-ok, update-ok, get_meta-ok}
use owned_c.Runtime.Registry.{user_ptr}
use owned_c.Runtime.Alloc.{is_foreign}
use owned_c.Runtime.Ownership.{borrow_meta, release_meta, ownership_borrow, ownership_release}
use owned_c.Runtime.Live.{IsLive}

-- The state and the count of borrows of a header go together: `BORROWED` if and only if a borrow is
-- out, unless the block is shared.
abbrev pub IsCounted : Meta → Type 0
IsCounted h =
    (h.state ≡ shared)
    ⊎ ((h.state ≡ owned) × (h.borrow_count ≡ 0) ⊎ ((h.state ≡ borrowed) × (0 < h.borrow_count)))

pub release-borrow : (h : Meta) → IsCounted h → release_meta (borrow_meta h) ≡ h
release-borrow h c = ground (arith, c)

module _ {A : Type 0} {s : State A} (m : Ptr) {b : Block A} (l : IsLive s m b) where
  -- The state with another header at `m`.
  abbrev pub amend : Meta → State A
  amend h = set_cell m (some (record b { header = h })) s

  pub ownership_borrow-live :
      is_foreign b.header s.self ≡ false
      → b.header.borrow_count < int_max
      → ownership_borrow (user_ptr m) s ≡ ok tt (amend (borrow_meta b.header))
  unfolding ownership_borrow
  ownership_borrow-live own room = rw (
    ne→== (user_ptr m) null (omega arith),
    get_meta-ok m s l.here l.ne_null l.tracked.magic,
    ne→== m null l.ne_null,
    load-ok m s l.here,
    l.alive,
    own,
    ne→== b.header.borrow_count int_max (omega arith),
    update-ok m s l.here borrow_meta,
  )

  pub ownership_release-live :
      0 < b.header.borrow_count
      → ownership_release (user_ptr m) s ≡ ok tt (amend (release_meta b.header))
  unfolding ownership_release
  ownership_release-live out = rw (
    ne→== (user_ptr m) null (omega arith),
    get_meta-ok m s l.here l.ne_null l.tracked.magic,
    ne→== m null l.ne_null,
    load-ok m s l.here,
    lt→ltb 0 b.header.borrow_count out,
    update-ok m s l.here release_meta,
  )

  -- The block after a borrow is live too.
  pub borrowed-IsLive :
      IsLive (amend (borrow_meta b.header)) m (record b { header = borrow_meta b.header })
  borrowed-IsLive = record {
    here = ground arith;
    ne_null = l.ne_null;
    tracked = record { magic = l.tracked.magic; room = l.tracked.room };
    alive = ground (arith, l.alive);
  }

module _ {A : Type 0} where
  -- `n` calls of `c`, one after another.
  unfoldable pub times : ℕ → Cmd A Unit → Cmd A Unit
  times zero c = pure tt
  times (suc n) c = c >> times n c

module _ {A : Type 0} where
  times_snoc : (n : ℕ) (c : Cmd A Unit) (s : State A) → times (suc n) c s ≡ (times n c >> c) s
  unfolding times
  times_snoc zero c s = and_then_done (c s)
  times_snoc (suc n) c s =
      ap (λ k. and_then (c s) (λ (_ : Unit {0}). k)) (fun_ext (times_snoc n c))
      ∙ sym (and_then_assoc (c s) (λ _. times n c) (λ _. c))

  -- The two changes of the header cancel in the whole state.
  amend-amend :
      (s : State A) (m : Ptr) {b : Block A} (h : Meta)
      → s.cells m ≡ some b
      → set_cell m (some b) (set_cell m (some (record b { header = h })) s) ≡ s
  amend-amend s m h here = ap (λ c. record s { cells = c }) (fun_ext λ x. ground arith)

  -- Any number of borrows of a live block by a thread that may borrow it, followed by as many
  -- releases, leaves the whole state as it was.
  pub release-borrow_times :
      (n : ℕ) {s : State A} (m : Ptr) {b : Block A}
      → IsLive s m b
      → is_foreign b.header s.self ≡ false
      → IsCounted b.header
      → b.header.borrow_count + n ≤ int_max
      → (times n (ownership_borrow (user_ptr m)) >> times n (ownership_release (user_ptr m))) s
        ≡ ok tt s
  unfolding times
  release-borrow_times zero m l own counted room = refl
  release-borrow_times (suc n) {s} m {b} l own counted room =
      let b' : Block A = record b { header = borrow_meta b.header } in
      let s' : State A = amend m l (borrow_meta b.header) in
      let l' = borrowed-IsLive m l in
      let inner =
        release-borrow_times n {s = s'} m {b = b'} l' (ground (arith, own))
          (ground (arith, counted)) (omega arith) in
      ap (λ r. and_then (and_then r (λ _. takes n)) (λ _. gives (suc n)))
        (ownership_borrow-live m l own (omega arith))
      ∙ ap (λ k. and_then (takes n s') (λ (_ : Unit {0}). k)) (fun_ext (times_snoc n give))
      ∙ sym (and_then_assoc (takes n s') (λ _. gives n) (λ _. give))
      ∙ ap (λ r. and_then r (λ _. give)) inner
      ∙ ownership_release-live m l' (ground arith)
      ∙ ap (λ h. ok tt (set_cell m (some (record b { header = h })) s'))
          (release-borrow b.header counted)
      ∙ ap (ok tt) (amend-amend s m (borrow_meta b.header) l.here)
    where
      give : Cmd A Unit
      give = ownership_release (user_ptr m)

      takes : ℕ → Cmd A Unit
      takes k = times k (ownership_borrow (user_ptr m))

      gives : ℕ → Cmd A Unit
      gives k = times k give

  -- What `n` borrows leave: a live block with `n` borrows more.
  pub times-ownership_borrow :
      (n : ℕ) {s : State A} (m : Ptr) {b : Block A}
      → IsLive s m b
      → is_foreign b.header s.self ≡ false
      → IsCounted b.header
      → b.header.borrow_count + n ≤ int_max
      → (t : State A) × (c : Block A) × (times n (ownership_borrow (user_ptr m)) s ≡ ok tt t)
        × IsLive t m c
        × (is_foreign c.header t.self ≡ false)
        × IsCounted c.header
        × (c.header.borrow_count ≡ b.header.borrow_count + n)
  unfolding times
  times-ownership_borrow zero {s} m {b} l own counted room =
      (s, b, refl, l, own, counted, omega arith)
  times-ownership_borrow (suc n) {s} m {b} l own counted room =
      let (t, c, runs, l', own', counted', count) =
        times-ownership_borrow n {s = amend m l (borrow_meta b.header)} m
          {b = record b { header = borrow_meta b.header }} (borrowed-IsLive m l)
          (ground (arith, own)) (ground (arith, counted)) (omega arith) in
      (
        t,
        c,
        ap (λ r. and_then r (λ _. times n (ownership_borrow (user_ptr m))))
              (ownership_borrow-live m l own (omega arith))
            ∙ runs,
        l',
        own',
        counted',
        omega (arith, count),
      )

  times_add :
      (a b : ℕ) (c : Cmd A Unit) (s : State A) → times (a + b) c s ≡ (times a c >> times b c) s
  unfolding times
  times_add zero b c s = let e : 0 + b ≡ b = omega arith in ap (λ j. times j c s) e
  times_add (suc a) b c s =
      let e : suc a + b ≡ suc (a + b) = omega arith in
      ap (λ j. times j c s) e
      ∙ ap (λ k. and_then (c s) (λ (_ : Unit {0}). k)) (fun_ext (times_add a b c))
      ∙ sym (and_then_assoc (c s) (λ _. times a c) (λ _. times b c))

  -- More calls of `c` than of `d`: the last ones cancel.
  pub release-borrow_more :
      (n k : ℕ) (c d : Cmd A Unit) (s : State A) {t : State A}
      → times (n - k) c s ≡ ok tt t
      → k ≤ n
      → (times k c >> times k d) t ≡ ok tt t
      → (times n c >> times k d) s ≡ ok tt t
  release-borrow_more n k c d s first le rest =
      let e : n ≡ n - k + k = omega (arith, le) in
      ap (λ j. and_then (times j c s) (λ _. times k d)) e
      ∙ ap (λ r. and_then r (λ _. times k d)) (times_add (n - k) k c s)
      ∙ ap (λ r. and_then (and_then r (λ _. times k c)) (λ _. times k d)) first
      ∙ rest
