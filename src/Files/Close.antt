-- ===== src/Files/Close.antt =====
-- The life of the wrapper of a file: src/ownedc_file.c closes its handle and gives it up.
use owned_c.Base.{
  ℕ, ◌+◌, ◌≡◌, ◌≢◌, true, false, none, List, [], ◌∷◌, ◌++◌, arith, inl, inr, ◌==◌, if◌then◌else◌,
  ne→==, Bool-cases,
}
use owned_c.Runtime.State.{Ptr, null, meta_size, Call, fopen_call, fclose_call, malloc_call, State}
use owned_c.Runtime.Command.{ok, fault}
use owned_c.Runtime.Allocator.{first_answer, called}
use owned_c.Runtime.Registry.{user_ptr}
use owned_c.Runtime.Amend.{IsRegistry-env}
use owned_c.Runtime.Register.{listed}
use owned_c.Runtime.Registered.{IsRegistry, IsRetired}
use owned_c.Objects.{Object, SafeFile, safe_file}
use owned_c.Objects.Lifetime.{
  gave_back, IsGivenUp, IsGivenUp-calls, IsHeld, deref-held, assign-held, rewritten-IsHeld,
  called-IsHeld, owner_free-held, deref-retired, owner_malloc-made, assign-made, made, made-IsHeld,
}
use owned_c.Files.{file_size, read_file, safe_fopen, safe_fclose, safe_file_get, cleanup_safe_file}

-- What closing a file asks of the system.
abbrev pub closing : SafeFile → List Call
closing f = if f.is_closed then [] else if f.handle == null then [] else fclose_call f.handle ∷ []

module _ {shards : ℕ → List Ptr} {s : State Object} {m : ℕ} {f : SafeFile}
    (h : IsHeld shards s m file_size (safe_file f)) where
  read_file-held : read_file (user_ptr m) s ≡ ok f s
  unfolding read_file
  read_file-held = rw (deref-held h)

  closed :
      (t : State Object) × (safe_fclose (user_ptr m) s ≡ ok tt t)
      × IsGivenUp shards s.quarantine_tail (gave_back s (closing f ++ s.calls)) t m
  unfolding safe_fclose
  closed = elim (Bool-cases f.is_closed) [
    | inl e ↦
        let (t, frees, g) = owner_free-held h in
        (t, rw (ne→== (user_ptr m) null (omega arith), read_file-held, e, frees), rw e g)
    | inr e ↦ elim (Bool-cases (f.handle == null)) [
      | inl z ↦
          let o = safe_file (record f { is_closed = true }) in
          let (t, frees, g) = owner_free-held (rewritten-IsHeld h o) in
          (
            t,
            rw (
              ne→== (user_ptr m) null (omega arith),
              read_file-held,
              e,
              z,
              assign-held h o,
              frees,
            ),
            rw (e, z) g,
          )
      | inr n ↦
          let o = safe_file (record f { is_closed = true }) in
          let k = called-IsHeld h (fclose_call f.handle) in
          let (t, frees, g) = owner_free-held (rewritten-IsHeld k o) in
          (
            t,
            rw (
              ne→== (user_ptr m) null (omega arith),
              read_file-held,
              e,
              n,
              assign-held k o,
              frees,
            ),
            rw (e, n) g,
          )
    ]
  ]

pub read_file-retired :
    (t : State Object) (m : Ptr) → IsRetired t.cells m → read_file (user_ptr m) t ≡ fault
unfolding read_file
read_file-retired t m g = rw (deref-retired t m g)

module _ {shards : ℕ → List Ptr} {s : State Object} {m : ℕ} {f : SafeFile}
    (h : IsHeld shards s m file_size (safe_file f)) where
  -- The wrapper of a file is in a block of a well formed registry that the caller may free: without a
  -- borrow out, and shared or owned by the caller. Closing it asks for one `fclose` of its handle, unless
  -- it was closed before or has none, and gives the wrapper up to the quarantine, in a registry that is
  -- still well formed. From then on a second close of the wrapper, by the call or by the cleanup of its
  -- variable, reads freed memory.
  pub safe_fclose-held :
      (t : State Object) × (safe_fclose (user_ptr m) s ≡ ok tt t)
      × IsGivenUp shards s.quarantine_tail (gave_back s (closing f ++ s.calls)) t m
      × (safe_fclose (user_ptr m) t ≡ fault)
      × (cleanup_safe_file (user_ptr m) t ≡ fault)
  unfolding safe_fclose cleanup_safe_file
  safe_fclose-held =
      let (t, e, g) = closed h in
      (
        t,
        e,
        g,
        rw (ne→== (user_ptr m) null (omega arith), read_file-retired t m g.retired),
        rw (ne→== (user_ptr m) null (omega arith), read_file-retired t m g.retired),
      )

module _ {shards : ℕ → List Ptr} {s : State Object} (r : IsRegistry shards s)
    (filename mode raw_file q : Ptr) (opened : raw_file ≢ null)
    (answer : first_answer s.answers ≡ q) (ne : q ≢ null) (fresh : s.cells q ≡ none) where
  abbrev asked : State Object
  asked = called (fopen_call filename mode) s

  base : IsRegistry shards asked
  base = IsRegistry-env r s.atexit_registered s.answers asked.calls s.self s.output

  abbrev wrapper : SafeFile
  wrapper = record { handle = raw_file; is_closed = false }

  abbrev start : State Object
  start = made base q file_size answer ne fresh (omega arith) (safe_file wrapper)

  safe_fopen-ok : safe_fopen filename mode raw_file s ≡ ok (user_ptr q) start
  unfolding safe_fopen
  safe_fopen-ok = rw (
    ne→== raw_file null opened,
    owner_malloc-made base q file_size answer ne fresh (omega arith) (safe_file wrapper),
    ne→== (user_ptr q) null (omega arith),
    assign-made base q file_size answer ne fresh (omega arith) (safe_file wrapper),
  )

  -- A file that was opened, with memory for its wrapper, has the handle of `fopen` and can be closed:
  -- the handle is closed exactly once, and the wrapper leaves the registry again.
  pub safe_fclose-safe_fopen :
      (u : State Object) × (t : State Object) × (safe_fopen filename mode raw_file s
        ≡ ok (user_ptr q) u)
      × (safe_file_get (user_ptr q) u ≡ ok raw_file u)
      × (safe_fclose (user_ptr q) u ≡ ok tt t)
      × IsGivenUp
          (listed q shards)
          s.quarantine_tail
          (gave_back s (
            fclose_call raw_file
            ∷ malloc_call s.global_malloc (meta_size + file_size)
            ∷ fopen_call filename mode
            ∷ s.calls))
          t
          q
  unfolding safe_file_get
  safe_fclose-safe_fopen =
      let h = made-IsHeld base q file_size answer ne fresh (omega arith) (safe_file wrapper) in
      let (t, e, g) = closed h in
      (
        start,
        t,
        safe_fopen-ok,
        rw (ne→== (user_ptr q) null (omega arith), read_file-held h),
        e,
        IsGivenUp-calls (ground (arith, opened)) g,
      )
