-- ===== src/Mutexes.antt =====
-- src/ownedc_mutex.c: the wrapper of a mutex.
pub mod Locking
use owned_c.Base.{ℕ, Bool, List, true, false, not, ◌==◌, if◌then◌else◌}
use owned_c.Runtime.State.{Ptr, null, Call, lock_call, unlock_call}
use owned_c.Runtime.Command.{◌>>=◌, ◌>>◌, pure, gets, undefined}
use owned_c.Runtime.Allocator.{call_out}
use owned_c.Runtime.Registry.{unless}
use owned_c.Runtime.Alloc.{owner_malloc, owner_free}
use owned_c.Objects.{Act, SafeMutex, safe_mutex, deref, assign}

-- `sizeof(safe_mutex_t)`
abbrev pub mutex_size : ℕ
mutex_size = 16

unfoldable pub read_mutex : Ptr → Act SafeMutex
read_mutex p = do o ← deref p; elim o [ safe_mutex x ↦ pure x | _ ↦ undefined ]

unfoldable pub safe_mutex_new : (raw_mutex : Ptr) → Act Ptr
safe_mutex_new raw_mutex = if raw_mutex == null then pure null else do
  sm ← owner_malloc mutex_size
  if sm == null then pure null else do
    assign sm mutex_size (safe_mutex (record { raw_mutex = raw_mutex; is_locked = false }))
    pure sm

-- Whether `pthread_mutex_lock` returns depends on the mutex and on the calls so far; where it does not,
-- nothing is said of the run.
unfoldable pub safe_mutex_lock :
    (pthread_mutex_lock : Ptr → List Call → Bool) → (sm : Ptr) → Act Ptr
safe_mutex_lock pthread_mutex_lock sm = if sm == null then pure null else do
  m ← read_mutex sm
  calls ← gets (λ s. s.calls)
  if not (pthread_mutex_lock m.raw_mutex calls) then undefined else do
    call_out (lock_call m.raw_mutex)
    assign sm mutex_size (safe_mutex (record m { is_locked = true }))
    pure sm

unfoldable pub safe_mutex_unlock : (sm : Ptr) → Act Unit
safe_mutex_unlock sm = if sm == null then pure tt else do
  m ← read_mutex sm
  unless (not m.is_locked) (do
    call_out (unlock_call m.raw_mutex)
    assign sm mutex_size (safe_mutex (record m { is_locked = false })))

unfoldable pub safe_mutex_free : (sm : Ptr) → Act Unit
safe_mutex_free sm = if sm == null then pure tt else owner_free sm

-- The cleanup of an `OWNED_LOCK` variable, on the value that the variable holds.
unfoldable pub cleanup_safe_mutex_unlock : (sm : Ptr) → Act Unit
cleanup_safe_mutex_unlock sm = unless (sm == null) (do safe_mutex_unlock sm; safe_mutex_free sm)
