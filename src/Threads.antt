-- ===== src/Threads.antt =====
-- src/ownedc_thread.c: the wrapper of a thread. Whether `pthread_create` succeeds, and with which
-- handle, is an argument.
pub mod Cleanup
use owned_c.Base.{ℕ, true, false, not, Option, none, some, ◌==◌, if◌then◌else◌}
use owned_c.Runtime.State.{Ptr, null, create_call, join_call, detach_call, Call}
use owned_c.Runtime.Command.{◌>>=◌, ◌>>◌, pure, undefined}
use owned_c.Runtime.Allocator.{call_out}
use owned_c.Runtime.Registry.{unless}
use owned_c.Runtime.Alloc.{owner_malloc, owner_free}
use owned_c.Objects.{
  Act, CleanupPolicy, cleanup_join, cleanup_detach, SafeThread, safe_thread, deref, assign,
}

-- `sizeof(safe_thread_t)`
abbrev pub thread_size : ℕ
thread_size = 16

unfoldable pub read_thread : Ptr → Act SafeThread
read_thread p = do o ← deref p; elim o [ safe_thread x ↦ pure x | _ ↦ undefined ]

unfoldable pub safe_thread_spawn :
    (start_routine : ℕ) → (arg : Ptr) → (created : Option ℕ) → Act Ptr
safe_thread_spawn start_routine arg created = do
  thread ← owner_malloc thread_size
  if thread == null then pure null else do
    call_out (create_call start_routine arg)
    elim created [
      | none ↦ (do owner_free thread; pure null)
      | some handle ↦ (do
        assign thread thread_size
            (safe_thread (record { handle = handle; policy = cleanup_join; is_active = true }))
        pure thread)
    ]

unfoldable pub safe_thread_set_policy : (thread : Ptr) → CleanupPolicy → Act Unit
safe_thread_set_policy thread policy = if thread == null then pure tt else do
  t ← read_thread thread
  assign thread thread_size (safe_thread (record t { policy = policy }))

-- The call by which the policy ends a thread.
abbrev pub ending : CleanupPolicy → ℕ → Call
ending cleanup_join handle = join_call handle
ending cleanup_detach handle = detach_call handle

unfoldable pub safe_thread_cleanup : (thread : Ptr) → Act Unit
safe_thread_cleanup thread = if thread == null then pure tt else do
  t ← read_thread thread
  unless (not t.is_active) (do
    call_out (ending t.policy t.handle)
    assign thread thread_size (safe_thread (record t { is_active = false })))
  owner_free thread

-- The cleanup of an `OWNED_THREAD` variable, on the value that the variable holds.
unfoldable pub cleanup_safe_thread : (thread : Ptr) → Act Unit
cleanup_safe_thread thread = unless (thread == null) (safe_thread_cleanup thread)
