-- ===== src/Threads/Cleanup.antt =====
-- The life of the wrapper of a thread: src/ownedc_thread.c joins or detaches the thread and gives the
-- wrapper up.
use owned_c.Base.{
  ℕ, ◌+◌, ◌≡◌, ◌≢◌, true, false, none, some, List, [], ◌∷◌, ◌++◌, arith, inl, inr, if◌then◌else◌,
  ne→==, Bool-cases,
}
use owned_c.Runtime.State.{Ptr, null, meta_size, Call, create_call, malloc_call, State}
use owned_c.Runtime.Command.{ok, fault, ◌>>=◌}
use owned_c.Runtime.Allocator.{first_answer, called}
use owned_c.Runtime.Registry.{user_ptr}
use owned_c.Runtime.Register.{listed}
use owned_c.Runtime.Registered.{IsRegistry, IsRetired}
use owned_c.Objects.{Object, CleanupPolicy, cleanup_join, SafeThread, safe_thread}
use owned_c.Objects.Lifetime.{
  gave_back, IsGivenUp, IsHeld, deref-held, assign-held, rewritten-IsHeld, called-IsHeld,
  owner_free-held, owner_free-called, deref-retired, owner_malloc-made, assign-called, made,
  made-IsHeld, rewritten,
}
use owned_c.Threads.{
  thread_size, read_thread, ending, safe_thread_spawn, safe_thread_set_policy, safe_thread_cleanup,
  cleanup_safe_thread,
}

-- What the cleanup of a thread asks of the system.
abbrev pub closing : SafeThread → List Call
closing f = if f.is_active then ending f.policy f.handle ∷ [] else []

module _ {shards : ℕ → List Ptr} {s : State Object} {m : ℕ} {f : SafeThread}
    (h : IsHeld shards s m thread_size (safe_thread f)) where
  read_thread-held : read_thread (user_ptr m) s ≡ ok f s
  unfolding read_thread
  read_thread-held = rw (deref-held h)

  closed :
      (t : State Object) × (safe_thread_cleanup (user_ptr m) s ≡ ok tt t)
      × IsGivenUp shards s.quarantine_tail (gave_back s (closing f ++ s.calls)) t m
  unfolding safe_thread_cleanup
  closed = elim (Bool-cases f.is_active) [
    | inr e ↦
        let (t, frees, g) = owner_free-held h in
        (t, rw (ne→== (user_ptr m) null (omega arith), read_thread-held, e, frees), rw e g)
    | inl e ↦
        let o = safe_thread (record f { is_active = false }) in
        let k = called-IsHeld h (ending f.policy f.handle) in
        let (t, frees, g) = owner_free-held (rewritten-IsHeld k o) in
        (
          t,
          rw (ne→== (user_ptr m) null (omega arith), read_thread-held, e, assign-held k o, frees),
          rw e g,
        )
  ]

pub read_thread-retired :
    (t : State Object) (m : Ptr) → IsRetired t.cells m → read_thread (user_ptr m) t ≡ fault
unfolding read_thread
read_thread-retired t m g = rw (deref-retired t m g)

module _ {shards : ℕ → List Ptr} {s : State Object} {m : ℕ} {f : SafeThread}
    (h : IsHeld shards s m thread_size (safe_thread f)) where
  -- The cleanup of a thread asks for one call by which its policy ends it, a join or a detach, unless
  -- the thread is no longer active, and gives the wrapper up to the quarantine, in a registry that is
  -- still well formed. A second cleanup of the wrapper, by the call or by the cleanup of its variable,
  -- reads freed memory.
  pub safe_thread_cleanup-held :
      (t : State Object) × (safe_thread_cleanup (user_ptr m) s ≡ ok tt t)
      × IsGivenUp shards s.quarantine_tail (gave_back s (closing f ++ s.calls)) t m
      × (safe_thread_cleanup (user_ptr m) t ≡ fault)
      × (cleanup_safe_thread (user_ptr m) t ≡ fault)
  unfolding safe_thread_cleanup cleanup_safe_thread
  safe_thread_cleanup-held =
      let (t, e, g) = closed h in
      (
        t,
        e,
        g,
        rw (ne→== (user_ptr m) null (omega arith), read_thread-retired t m g.retired),
        rw (ne→== (user_ptr m) null (omega arith), read_thread-retired t m g.retired),
      )

module _ {shards : ℕ → List Ptr} {s : State Object} (r : IsRegistry shards s) (start_routine : ℕ)
    (arg q : Ptr) (answer : first_answer s.answers ≡ q) (ne : q ≢ null)
    (fresh : s.cells q ≡ none) where
  abbrev wrapper : ℕ → SafeThread
  wrapper handle = record { handle = handle; policy = cleanup_join; is_active = true }

  abbrev start : ℕ → State Object
  start handle =
      called (create_call start_routine arg)
        (made r q thread_size answer ne fresh (omega arith) (safe_thread (wrapper handle)))

  safe_thread_spawn-ok :
      (handle : ℕ)
      → safe_thread_spawn start_routine arg (some handle) s ≡ ok (user_ptr q) (start handle)
  unfolding safe_thread_spawn
  safe_thread_spawn-ok handle = rw (
    owner_malloc-made r q thread_size answer ne fresh (omega arith) (safe_thread (wrapper handle)),
    ne→== (user_ptr q) null (omega arith),
    assign-called r q thread_size answer ne fresh (omega arith) (safe_thread (wrapper handle))
        (create_call start_routine arg),
  )

  -- A thread that was started, with memory for its wrapper, and given a policy is ended by the cleanup
  -- exactly once and as the policy says, and the wrapper leaves the registry again. From then on a
  -- second cleanup, by the call or by the cleanup of the variable, reads freed memory.
  pub safe_thread_cleanup-safe_thread_spawn :
      (handle : ℕ) (policy : CleanupPolicy)
      → (u : State Object) × (t : State Object) × ((do
        thread ← safe_thread_spawn start_routine arg (some handle)
        safe_thread_set_policy thread policy)
            s
          ≡ ok tt u)
        × (safe_thread_cleanup (user_ptr q) u ≡ ok tt t)
        × IsGivenUp
            (listed q shards)
            s.quarantine_tail
            (gave_back s (
              ending policy handle
              ∷ create_call start_routine arg
              ∷ malloc_call s.global_malloc (meta_size + thread_size)
              ∷ s.calls))
            t
            q
        × (safe_thread_cleanup (user_ptr q) t ≡ fault)
        × (cleanup_safe_thread (user_ptr q) t ≡ fault)
  unfolding safe_thread_set_policy
  safe_thread_cleanup-safe_thread_spawn handle policy =
      let h =
        called-IsHeld
          (made-IsHeld r q thread_size answer ne fresh (omega arith) (safe_thread (wrapper handle)))
          (create_call start_routine arg) in
      let o = safe_thread (record (wrapper handle) { policy = policy }) in
      let (t, e, g, again, scope) = safe_thread_cleanup-held (rewritten-IsHeld h o) in
      (
        rewritten h o,
        t,
        rw (
          safe_thread_spawn-ok handle,
          ne→== (user_ptr q) null (omega arith),
          read_thread-held h,
          assign-held h o,
        ),
        e,
        g,
        again,
        scope,
      )

  -- A thread that could not be started leaves nothing behind: the call returns null, and the wrapper
  -- has left the registry again.
  pub safe_thread_spawn-none :
      (t : State Object) × (safe_thread_spawn start_routine arg none s ≡ ok null t)
      × IsGivenUp
          (listed q shards)
          s.quarantine_tail
          (gave_back s (
            create_call start_routine arg
            ∷ malloc_call s.global_malloc (meta_size + thread_size)
            ∷ s.calls))
          t
          q
  unfolding safe_thread_spawn
  safe_thread_spawn-none =
      let c = create_call start_routine arg in
      let (t, e, g) = owner_free-called r q thread_size answer ne fresh (omega arith) c in
      (
        t,
        rw (
          owner_malloc-made r q thread_size answer ne fresh (omega arith) (safe_thread (wrapper 0)),
          ne→== (user_ptr q) null (omega arith),
          e,
        ),
        g,
      )
