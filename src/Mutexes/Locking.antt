-- ===== src/Mutexes/Locking.antt =====
-- The life of the wrapper of a mutex, src/ownedc_mutex.c: locks and unlocks, and the cleanup of its
-- variable.
use owned_c.Base.{
  ℕ, ◌≡◌, refl, Bool, true, false, not, ◌&&◌, List, [], ◌∷◌, arith, subst, sym, ne→==,
}
use owned_c.Runtime.State.{Ptr, null, Call, lock_call, unlock_call, State}
use owned_c.Runtime.Command.{ok, ◌>>◌, pure}
use owned_c.Runtime.Registry.{user_ptr}
use owned_c.Objects.{Act, Object, safe_mutex}
use owned_c.Objects.Lifetime.{
  SameRing, SameRing-trans, IsGivenUp-ring, gave_back, IsGivenUp, IsHeld, deref-held, assign-held,
  rewritten, rewritten-IsHeld, called-IsHeld, owner_free-held,
}
use owned_c.Mutexes.{
  mutex_size, read_mutex, safe_mutex_lock, safe_mutex_unlock, safe_mutex_free,
  cleanup_safe_mutex_unlock,
}

-- What a client does with a wrapper before its variable goes out of scope.
pub data Use : Type 0 where
  lock unlock : Use

unfoldable pub use_mutex :
    (pthread_mutex_lock : Ptr → List Call → Bool) → (sm : Ptr) → List Use → Act Unit
use_mutex pthread_mutex_lock sm [] = pure tt
use_mutex pthread_mutex_lock sm (lock ∷ us) = do
  safe_mutex_lock pthread_mutex_lock sm
  use_mutex pthread_mutex_lock sm us
use_mutex pthread_mutex_lock sm (unlock ∷ us) = do
  safe_mutex_unlock sm
  use_mutex pthread_mutex_lock sm us

-- Whether the wrapper is never locked while it is locked.
abbrev pub never_relocks : (is_locked : Bool) → List Use → Bool
never_relocks is_locked [] = true
never_relocks is_locked (lock ∷ us) = not is_locked && never_relocks true us
never_relocks is_locked (unlock ∷ us) = never_relocks false us

-- The calls `cs` with locks and unlocks of the mutex `p` in front, the newest first, in turn and
-- beginning with a lock. The Boolean says whether the newest is a lock.
pub data Guarded (p : Ptr) (cs : List Call) : Bool → List Call → Type 0 where
  untouched : Guarded p cs false cs
  locks : {ds : List Call} → Guarded p cs false ds → Guarded p cs true (lock_call p ∷ ds)
  unlocks : {ds : List Call} → Guarded p cs true ds → Guarded p cs false (unlock_call p ∷ ds)

abbrev pub wrapper : Ptr → Bool → Object
wrapper p b = safe_mutex (record { raw_mutex = p; is_locked = b })

abbrev pub IsLock : (shards : ℕ → List Ptr) → (m p : Ptr) → State Object → Bool → Type 0
IsLock shards m p s b = IsHeld shards s m mutex_size (wrapper p b)

module _ {shards : ℕ → List Ptr} {m p : ℕ} where
  module _ {s : State Object} {b : Bool} (h : IsLock shards m p s b) where
    read_mutex-held : read_mutex (user_ptr m) s ≡ ok (record { raw_mutex = p; is_locked = b }) s
    unfolding read_mutex
    read_mutex-held = rw (deref-held h)

    locked :
        (pthread_mutex_lock : Ptr → List Call → Bool)
        → pthread_mutex_lock p s.calls ≡ true
        → (u : State Object) × (safe_mutex_lock pthread_mutex_lock (user_ptr m) s
            ≡ ok (user_ptr m) u)
          × IsLock shards m p u true
          × SameRing s u
          × (u.calls ≡ lock_call p ∷ s.calls)
    unfolding safe_mutex_lock
    locked pthread_mutex_lock returns =
        let k = called-IsHeld h (lock_call p) in
        (
          rewritten k (wrapper p true),
          rw (
            ne→== (user_ptr m) null (omega arith),
            read_mutex-held,
            returns,
            assign-held k (wrapper p true),
          ),
          rewritten-IsHeld k (wrapper p true),
          record { tail = refl; oldest = refl; free = refl },
          refl,
        )

  unlocked :
      {s : State Object} {cs : List Call} (b : Bool) (h : IsLock shards m p s b)
      → Guarded p cs b s.calls
      → (u : State Object) × (safe_mutex_unlock (user_ptr m) s ≡ ok tt u)
        × IsLock shards m p u false
        × Guarded p cs false u.calls
        × SameRing s u
  unfolding safe_mutex_unlock
  unlocked {s} false h g = (
    s,
    rw (ne→== (user_ptr m) null (omega arith), read_mutex-held h),
    h,
    g,
    record { tail = refl; oldest = refl; free = refl },
  )
  unlocked true h g =
      let k = called-IsHeld h (unlock_call p) in
      (
        rewritten k (wrapper p false),
        rw (
          ne→== (user_ptr m) null (omega arith),
          read_mutex-held h,
          assign-held k (wrapper p false),
        ),
        rewritten-IsHeld k (wrapper p false),
        unlocks g,
        record { tail = refl; oldest = refl; free = refl },
      )

  module _ (pthread_mutex_lock : Ptr → List Call → Bool) {cs : List Call}
      (returns : (ds : List Call) → Guarded p cs false ds → pthread_mutex_lock p ds ≡ true) where
    used :
        (us : List Use) {s : State Object} (b : Bool) (h : IsLock shards m p s b)
        → never_relocks b us ≡ true
        → Guarded p cs b s.calls
        → (u : State Object) × (b' : Bool) × (use_mutex pthread_mutex_lock (user_ptr m) us s
            ≡ ok tt u)
          × IsLock shards m p u b'
          × Guarded p cs b' u.calls
          × SameRing s u
    unfolding use_mutex
    used [] {s} b h once g = (s, b, refl, h, g, record { tail = refl; oldest = refl; free = refl })
    used (lock ∷ us) true h once g = ground arith
    used (lock ∷ us) {s} false h once g =
        let (v, e, k, x, c) = locked h pthread_mutex_lock (returns s.calls g) in
        let (u, b', e', k', g', y) =
          used us true k once (subst (Guarded p cs true) (sym c) (locks g)) in
        (u, b', rw (e, e'), k', g', SameRing-trans x y)
    used (unlock ∷ us) b h once g =
        let (v, e, k, g', x) = unlocked b h g in
        let (u, b', e', k', g'', y) = used us false k once g' in
        (u, b', rw (e, e'), k', g'', SameRing-trans x y)

  -- A client locks and unlocks the wrapper of a mutex, unlocked at first, in any order in which it never
  -- locks a locked one. The wrapper is in a block of a well formed registry that the caller may free, and
  -- `pthread_mutex_lock` returns whenever each lock of the mutex so far was followed by an unlock. Then all
  -- the calls return, and the cleanup of the variable unlocks the mutex if it is locked and gives the
  -- wrapper up: of all the calls on the mutex the first is a lock, locks and unlocks come in turn, and the
  -- last is no lock.
  pub cleanup-use_mutex :
      (pthread_mutex_lock : Ptr → List Call → Bool) {s : State Object}
      (h : IsLock shards m p s false)
      → ((ds : List Call) → Guarded p s.calls false ds → pthread_mutex_lock p ds ≡ true)
      → (us : List Use) → never_relocks false us ≡ true
      → (u : State Object) × (t : State Object) × (calls : List Call) × (use_mutex
            pthread_mutex_lock
            (user_ptr m)
            us
            s
          ≡ ok tt u)
        × (cleanup_safe_mutex_unlock (user_ptr m) u ≡ ok tt t)
        × Guarded p s.calls false calls
        × IsGivenUp shards s.quarantine_tail (gave_back s calls) t m
  unfolding cleanup_safe_mutex_unlock safe_mutex_free
  cleanup-use_mutex pthread_mutex_lock {s} h returns us once =
      let (u, b, e, k, g, x) = used pthread_mutex_lock returns us false h once untouched in
      let (v, e', k', g', y) = unlocked b k g in
      let (t, e'', r) = owner_free-held k' in
      (
        u,
        t,
        v.calls,
        e,
        rw (ne→== (user_ptr m) null (omega arith), e', e''),
        g',
        IsGivenUp-ring v.calls (SameRing-trans x y) r,
      )
