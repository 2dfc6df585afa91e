-- ===== src/Futures.antt =====
-- src/ownedc_future.c with threads: a task on a thread of its own, and the wait for its result. A call
-- is one step, so the mutex of the future is not part of its state. What the code at a function pointer
-- does is an argument, and so is whether `pthread_create` succeeds, and with which handle.
pub mod Await
pub mod Worker
pub mod Whole
use owned_c.Base.{ℕ, true, false, not, Option, none, some, ◌==◌, if◌then◌else◌}
use owned_c.Runtime.State.{Ptr, null, create_call, join_call}
use owned_c.Runtime.Command.{◌>>=◌, ◌>>◌, pure, undefined}
use owned_c.Runtime.Allocator.{call_out}
use owned_c.Runtime.Registry.{unless}
use owned_c.Runtime.Alloc.{owner_malloc, owner_free}
use owned_c.Runtime.Ownership.{ownership_claim}
use owned_c.Objects.{Act, Future, future, deref, assign}

-- `sizeof(struct owned_future)` with a mutex of 40 bytes and a condition of 48.
abbrev pub future_size : ℕ
future_size = 128

-- The function pointer of `future_thread_worker`.
abbrev pub worker : ℕ
worker = 1

unfoldable pub read_future : Ptr → Act Future
read_future p = do o ← deref p; elim o [ future x ↦ pure x | _ ↦ undefined ]

-- The body of the thread. The task may change the heap, so the future is read again behind it.
unfoldable pub future_thread_worker : (tasks : ℕ → Ptr → Act Ptr) → (f_arg : Ptr) → Act Ptr
future_thread_worker tasks f_arg = do
  f ← read_future f_arg
  unless (f.arg == null) (ownership_claim f.arg)
  res ← tasks f.task f.arg
  g ← read_future f_arg
  assign f_arg future_size (future (record g { result = res; is_ready = true }))
  pure null

-- The handle of a thread that was not created is never written.
abbrev pub handle_of : Option ℕ → ℕ
handle_of none = 0
handle_of (some handle) = handle

unfoldable pub owned_future_spawn : (task : ℕ) → (arg : Ptr) → (created : Option ℕ) → Act Ptr
owned_future_spawn task arg created = do
  f ← owner_malloc future_size
  if f == null then pure null else do
    call_out (create_call worker f)
    assign f future_size (
        future (record {
          task = task;
          arg = arg;
          result = null;
          is_ready = false;
          thread = handle_of created;
        }))
    pure f

-- `none` where the call waits; the state is then as it was.
unfoldable pub owned_future_await : (f : Ptr) → Act (Option Ptr)
owned_future_await f = if f == null then pure (some null) else do
  g ← read_future f
  if not g.is_ready then pure none else do
    call_out (join_call g.thread)
    owner_free f
    unless (g.result == null) (ownership_claim g.result)
    pure (some g.result)
