-- ===== src/Sockets/Close.antt =====
-- The life of the wrapper of a socket: src/ownedc_socket.c closes its descriptor and gives it up.
use owned_c.Base.{
  ℕ, ◌+◌, ◌≡◌, ◌≢◌, true, false, none, List, [], ◌∷◌, ◌++◌, arith, inl, inr, is_negative, ℤ,
  if◌then◌else◌, ne→==, Bool-cases,
}
use owned_c.Runtime.State.{Ptr, null, meta_size, Call, socket_call, close_call, malloc_call, State}
use owned_c.Runtime.Command.{ok, fault}
use owned_c.Runtime.Allocator.{first_answer, called}
use owned_c.Runtime.Registry.{user_ptr}
use owned_c.Runtime.Amend.{IsRegistry-env}
use owned_c.Runtime.Register.{listed}
use owned_c.Runtime.Registered.{IsRegistry, IsRetired}
use owned_c.Objects.{Object, SafeSocket, safe_socket}
use owned_c.Objects.Lifetime.{
  gave_back, IsGivenUp, IsGivenUp-calls, IsHeld, deref-held, assign-held, rewritten-IsHeld,
  called-IsHeld, owner_free-held, deref-retired, owner_malloc-made, assign-made, made, made-IsHeld,
}
use owned_c.Sockets.{
  socket_size, read_socket, safe_socket_new, safe_socket_create, safe_socket_close, safe_socket_get,
  cleanup_safe_socket,
}

-- What closing a socket asks of the system.
abbrev pub closing : SafeSocket → List Call
closing f = if f.is_closed then [] else if is_negative f.fd then [] else close_call f.fd ∷ []

module _ {shards : ℕ → List Ptr} {s : State Object} {m : ℕ} {f : SafeSocket}
    (h : IsHeld shards s m socket_size (safe_socket f)) where
  read_socket-held : read_socket (user_ptr m) s ≡ ok f s
  unfolding read_socket
  read_socket-held = rw (deref-held h)

  closed :
      (t : State Object) × (safe_socket_close (user_ptr m) s ≡ ok tt t)
      × IsGivenUp shards s.quarantine_tail (gave_back s (closing f ++ s.calls)) t m
  unfolding safe_socket_close
  closed = elim (Bool-cases f.is_closed) [
    | inl e ↦
        let (t, frees, g) = owner_free-held h in
        (t, rw (ne→== (user_ptr m) null (omega arith), read_socket-held, e, frees), rw e g)
    | inr e ↦ elim (Bool-cases (is_negative f.fd)) [
      | inl z ↦
          let o = safe_socket (record f { is_closed = true }) in
          let (t, frees, g) = owner_free-held (rewritten-IsHeld h o) in
          (
            t,
            rw (
              ne→== (user_ptr m) null (omega arith),
              read_socket-held,
              e,
              z,
              assign-held h o,
              frees,
            ),
            rw (e, z) g,
          )
      | inr n ↦
          let o = safe_socket (record f { is_closed = true }) in
          let k = called-IsHeld h (close_call f.fd) in
          let (t, frees, g) = owner_free-held (rewritten-IsHeld k o) in
          (
            t,
            rw (
              ne→== (user_ptr m) null (omega arith),
              read_socket-held,
              e,
              n,
              assign-held k o,
              frees,
            ),
            rw (e, n) g,
          )
    ]
  ]

pub read_socket-retired :
    (t : State Object) (m : Ptr) → IsRetired t.cells m → read_socket (user_ptr m) t ≡ fault
unfolding read_socket
read_socket-retired t m g = rw (deref-retired t m g)

module _ {shards : ℕ → List Ptr} {s : State Object} {m : ℕ} {f : SafeSocket}
    (h : IsHeld shards s m socket_size (safe_socket f)) where
  -- Closing a socket asks for one `close` of its descriptor, unless it was closed before or has none, and
  -- gives the wrapper up to the quarantine, in a registry that is still well formed. From then on a
  -- second close of the wrapper, by the call or by the cleanup of its variable, reads freed memory.
  pub safe_socket_close-held :
      (t : State Object) × (safe_socket_close (user_ptr m) s ≡ ok tt t)
      × IsGivenUp shards s.quarantine_tail (gave_back s (closing f ++ s.calls)) t m
      × (safe_socket_close (user_ptr m) t ≡ fault)
      × (cleanup_safe_socket (user_ptr m) t ≡ fault)
  unfolding safe_socket_close cleanup_safe_socket
  safe_socket_close-held =
      let (t, e, g) = closed h in
      (
        t,
        e,
        g,
        rw (ne→== (user_ptr m) null (omega arith), read_socket-retired t m g.retired),
        rw (ne→== (user_ptr m) null (omega arith), read_socket-retired t m g.retired),
      )

module _ {shards : ℕ → List Ptr} {s : State Object} (r : IsRegistry shards s)
    (domain type protocol : ℕ) (raw_fd : ℤ) (q : Ptr) (opened : is_negative raw_fd ≡ false)
    (answer : first_answer s.answers ≡ q) (ne : q ≢ null) (fresh : s.cells q ≡ none) where
  abbrev asked : State Object
  asked = called (socket_call domain type protocol) s

  base : IsRegistry shards asked
  base = IsRegistry-env r s.atexit_registered s.answers asked.calls s.self s.output

  abbrev wrapper : SafeSocket
  wrapper = record { fd = raw_fd; is_closed = false }

  abbrev start : State Object
  start = made base q socket_size answer ne fresh (omega arith) (safe_socket wrapper)

  safe_socket_create-ok : safe_socket_create domain type protocol raw_fd s ≡ ok (user_ptr q) start
  unfolding safe_socket_create safe_socket_new
  safe_socket_create-ok = rw (
    opened,
    owner_malloc-made base q socket_size answer ne fresh (omega arith) (safe_socket wrapper),
    ne→== (user_ptr q) null (omega arith),
    assign-made base q socket_size answer ne fresh (omega arith) (safe_socket wrapper),
    ne→== (user_ptr q) null (omega arith),
  )

  -- A socket that was made, with memory for its wrapper, has the descriptor of `socket` and can be
  -- closed: the descriptor is closed exactly once, and the wrapper leaves the registry again. From
  -- then on a second close, by the call or by the cleanup of the variable, reads freed memory.
  pub safe_socket_close-safe_socket_create :
      (u : State Object) × (t : State Object) × (safe_socket_create domain type protocol raw_fd s
        ≡ ok (user_ptr q) u)
      × (safe_socket_get (user_ptr q) u ≡ ok raw_fd u)
      × (safe_socket_close (user_ptr q) u ≡ ok tt t)
      × IsGivenUp
          (listed q shards)
          s.quarantine_tail
          (gave_back s (
            close_call raw_fd
            ∷ malloc_call s.global_malloc (meta_size + socket_size)
            ∷ socket_call domain type protocol
            ∷ s.calls))
          t
          q
      × (safe_socket_close (user_ptr q) t ≡ fault)
      × (cleanup_safe_socket (user_ptr q) t ≡ fault)
  unfolding safe_socket_get
  safe_socket_close-safe_socket_create =
      let h = made-IsHeld base q socket_size answer ne fresh (omega arith) (safe_socket wrapper) in
      let (t, e, g, again, scope) = safe_socket_close-held h in
      (
        start,
        t,
        safe_socket_create-ok,
        rw (ne→== (user_ptr q) null (omega arith), read_socket-held h),
        e,
        IsGivenUp-calls (ground (arith, opened)) g,
        again,
        scope,
      )
