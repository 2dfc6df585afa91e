-- ===== src/Runtime/Report/Leaks.antt =====
-- `check_leaks` of src/runtime.c: which blocks it reports, what becomes of the quarantine, and how the
-- process ends.
use mathlib.Core.List.{append-nil}
use owned_c.Base.{
  ℕ, zero, suc, ◌+◌, ◌≤◌, ◌<◌, ◌≡◌, refl, ◌∙◌, ◌≢◌, Option, none, some, List, [], ◌∷◌, ◌++◌, arith,
  ltb, leb, ◌&&◌, ◌==◌, if◌then◌else◌, length, Bool-cases, inl, inr, ==→ne,
}
use owned_c.Runtime.State.{
  Ptr, null, Meta, Block, Line, State, leaks_found, free_call, num_shards, quarantine_size,
}
use owned_c.Runtime.Command.{
  Cmd, ok, exited, put, ◌>>◌, modify, leak_report, diagnostics_report_leak,
}
use owned_c.Runtime.Allocator.{call_free}
use owned_c.Runtime.Registry.{user_ptr, unless}
use owned_c.Runtime.Report.{is_leak, report_leak, clear_quarantine, check_leaks}
use owned_c.Runtime.Report.Walk.{blocks, header_at, log, total, lines, walk_shards_lem}
use owned_c.Runtime.Registered.{IsRegistry}

-- The report of one block.
abbrev report_of : Ptr → Meta → List Line
report_of m h = leak_report (user_ptr m) h.alloc_file h.alloc_line h.size

abbrev count_leak : Ptr → Meta → ℕ → ℕ
count_leak m h n = if is_leak h.state then n + 1 else n

abbrev leak_lines : Ptr → Meta → List Line
leak_lines m h = if is_leak h.state then report_of m h else []

module _ {A : Type 0} where
  -- The blocks among `xs` that are owned or shared.
  abbrev pub leaking : (Ptr → Option (Block A)) → List Ptr → List Ptr
  leaking c [] = []
  leaking c (x ∷ xs) = if is_leak (header_at c x).state then x ∷ leaking c xs else leaking c xs

  -- The reports of the blocks `xs`.
  abbrev pub reports : (Ptr → Option (Block A)) → List Ptr → List Line
  reports c [] = []
  reports c (x ∷ xs) = report_of x (header_at c x) ++ reports c xs

  total-leaking :
      (c : Ptr → Option (Block A)) (xs : List Ptr) (n : ℕ)
      → total {A = A} count_leak leak_lines c xs n ≡ n + length (leaking c xs)
  total-leaking c [] n = omega arith
  total-leaking c (x ∷ xs) n = ground (arith, total-leaking c xs (count_leak x (header_at c x) n))

  lines-leaking :
      (c : Ptr → Option (Block A)) (xs : List Ptr)
      → lines {B = ℕ} count_leak leak_lines c xs ≡ reports c (leaking c xs)
  lines-leaking c [] = refl
  lines-leaking c (x ∷ xs) = elim (Bool-cases (is_leak (header_at c x).state)) [
    | inl e ↦ rw (e, lines-leaking c xs)
    | inr e ↦ rw (e, lines-leaking c xs)
  ]

  report_leak_quiet :
      (m : Ptr) (h : Meta) (n : ℕ) (s : State A)
      → report_leak m h n s ≡ ok (count_leak m h n) (log (leak_lines m h) s)
  unfolding report_leak diagnostics_report_leak
  report_leak_quiet m h n s = elim (Bool-cases (is_leak h.state)) [
    | inl e ↦ rw e
    | inr e ↦ rw (e, append-nil)
  ]

  -- The slots from `i` on given back, `n` of them.
  abbrev empty_slot : ℕ → State A → State A
  empty_slot i s = if s.quarantine i == null then s else record s {
    cells = put s.cells (s.quarantine i) none;
    calls = free_call s.global_free (s.quarantine i) ∷ s.calls;
    quarantine = λ j. if j == i then null else s.quarantine j;
  }

  pub drained : (n i : ℕ) → State A → State A
  drained zero i s = s
  drained (suc n) i s = drained n (i + 1) (empty_slot i s)

  -- What the loop over the quarantine needs: the blocks of the slots from `i` on are there.
  record IsRing (i : ℕ) (s : State A) : Type 0 where
    can_free : s.global_free ≢ 0
    present :
        (j : ℕ)
        → i ≤ j
        → s.quarantine j ≢ null
        → (b : Block A) × (s.cells (s.quarantine j) ≡ some b)
    distinct : (j k : ℕ) → s.quarantine j ≢ null → s.quarantine j ≡ s.quarantine k → j ≡ k

  empty_slot-IsRing : (i : ℕ) (s : State A) → IsRing i s → IsRing (i + 1) (empty_slot i s)
  empty_slot-IsRing i s r = elim (Bool-cases (s.quarantine i == null)) [
    | inl e ↦ rw e (record {
      can_free = r.can_free;
      present = λ j le. r.present j (omega arith);
      distinct = r.distinct;
    })
    | inr e ↦ rw e (record {
      can_free = r.can_free;
      present = λ j le ne.
          let (b, here) = r.present j (omega arith) (ground arith) in
          (b, ground (arith, r.distinct j i));
      distinct = λ j k ne f. ground (arith, r.distinct j k);
    })
  ]

  call_free-ok :
      (m : Ptr) (s : State A) {b : Block A}
      → s.global_free ≢ 0
      → s.cells m ≡ some b
      → call_free m s
        ≡ ok tt
            (record s { cells = put s.cells m none; calls = free_call s.global_free m ∷ s.calls })
  unfolding call_free
  call_free-ok m s can here = ground arith

  clear_slot :
      (i : ℕ) (s : State A) (k : Cmd A Unit)
      → IsRing i s
      → ((unless (s.quarantine i == null) (do
        call_free (s.quarantine i)
        modify (λ t. record t { quarantine = λ j. if j == i then null else t.quarantine j })))
            >> k)
          s
        ≡ k (empty_slot i s)
  clear_slot i s k r = elim (Bool-cases (s.quarantine i == null)) [
    | inl e ↦ rw e
    | inr e ↦
        let (b, here) = r.present i (omega arith) (==→ne _ _ e) in
        rw (e, call_free-ok (s.quarantine i) s r.can_free here)
  ]

  clear_quarantine-drained :
      (n i : ℕ) (s : State A) → IsRing i s → clear_quarantine n i s ≡ ok tt (drained n i s)
  unfolding clear_quarantine drained
  clear_quarantine-drained zero i s r = refl
  clear_quarantine-drained (suc n) i s r =
      clear_slot i s (clear_quarantine n (i + 1)) r
      ∙ clear_quarantine-drained n (i + 1) (empty_slot i s) (empty_slot-IsRing i s r)

  -- The slots of the range are empty afterwards, the others are not touched.
  pub quarantine-drained :
      (n i j : ℕ) (s : State A)
      → (drained n i s).quarantine j ≡ (if leb i j && ltb j (i + n) then null else s.quarantine j)
  unfolding drained
  quarantine-drained zero i j s = ground arith
  quarantine-drained (suc n) i j s = ground (arith, quarantine-drained n (i + 1) j (empty_slot i s))

  pub output-drained : (n i : ℕ) (s : State A) → (drained n i s).output ≡ s.output
  unfolding drained
  output-drained zero i s = refl
  output-drained (suc n) i s = output-drained n (i + 1) (empty_slot i s) ∙ ground arith

  module _ {shards : ℕ → List Ptr} {s : State A} (r : IsRegistry shards s) where
    -- The blocks that the handler reports.
    abbrev pub leaks : List Ptr
    leaks = leaking s.cells (blocks shards num_shards 0)

    -- The state when the handler is done, but for its last line.
    abbrev pub at_end : State A
    at_end = drained quarantine_size 0 (log (reports s.cells leaks) s)

    -- With fuel for the longest shard the handler reports every block that is owned or shared, in the
    -- order of the shards, and no other; it empties the quarantine, giving each block in it back; and
    -- the process ends with status 1 if and only if a block was reported.
    pub check_leaks_lem :
        (fuel : ℕ)
        → ((j : ℕ) → length (shards j) < fuel)
        → (check_leaks fuel s ≡ (
            if ltb 0 (length leaks)
            then exited 1 (log (leaks_found (length leaks) ∷ []) at_end)
            else ok tt at_end))
          × (at_end.output ≡ s.output ++ reports s.cells leaks)
          × ((j : ℕ) → j < quarantine_size → at_end.quarantine j ≡ null)
    unfolding check_leaks
    check_leaks_lem fuel few = (
      rw
          (
            walk_shards_lem count_leak leak_lines report_leak report_leak_quiet shards fuel
                num_shards 0 0 s r.chains few,
            count_all,
            lines-leaking s.cells (blocks shards num_shards 0),
            clear_quarantine-drained quarantine_size 0 (log (reports s.cells leaks) s) ring,
          )
          (elim (Bool-cases (ltb 0 (length leaks))) [ inl e ↦ rw e | inr e ↦ rw e ]),
      output-drained quarantine_size 0 (log (reports s.cells leaks) s),
      λ j lt.
          ground (arith, quarantine-drained quarantine_size 0 j (log (reports s.cells leaks) s)),
    )
      where
        count_all :
            total {A = A} count_leak leak_lines s.cells (blocks shards num_shards 0) 0
            ≡ length leaks
        count_all = omega (arith, total-leaking s.cells (blocks shards num_shards 0) 0)

        ring : IsRing 0 (log (reports s.cells leaks) s)
        ring = record {
          can_free = r.can_free;
          present = λ j le ne. let g = r.retired j ne in (g.block, g.here);
          distinct = r.distinct;
        }
