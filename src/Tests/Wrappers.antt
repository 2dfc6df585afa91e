-- ===== src/Tests/Wrappers.antt =====
-- The wrappers of files, sockets, mutexes and threads, and futures, at concrete inputs.
use owned_c.Base.{
  ℕ, pos, ◌≡◌, ◌⊎◌, refl, inl, inr, ◌==◌, not, Bool, true, false, none, some, List, [], ◌∷◌, arith,
}
use owned_c.Runtime.State.{
  Ptr, null, owned, Block, Call, malloc_call, fopen_call, fclose_call, socket_call, close_call,
  create_call, lock_call, join_call, detach_call, State,
}
use owned_c.Runtime.Command.{ok, fault, ◌>>=◌}
use owned_c.Runtime.Alloc.Malloc.{allocated, allocated-IsRegistry}
use owned_c.Runtime.Chain.{erase}
use owned_c.Runtime.Registry.{user_ptr}
use owned_c.Runtime.Register.{listed}
use owned_c.Runtime.Registered.{IsRegistry}
use owned_c.Objects.{Object, safe_file, cleanup_detach, Future, future}
use owned_c.Objects.Lifetime.{IsGivenUp, IsHeld, made, made-IsHeld}
use owned_c.Files.{safe_fopen, safe_fclose, safe_file_get, cleanup_safe_file}
use owned_c.Files.Close.{safe_fclose-held, safe_fclose-safe_fopen}
use owned_c.Sockets.{safe_socket_create, safe_socket_close, safe_socket_get, cleanup_safe_socket}
use owned_c.Sockets.Close.{safe_socket_close-safe_socket_create}
use owned_c.Mutexes.{cleanup_safe_mutex_unlock}
use owned_c.Mutexes.Locking.{
  lock, unlock, untouched, unlocks, use_mutex, Guarded, wrapper, cleanup-use_mutex,
}
use owned_c.Threads.{
  safe_thread_spawn, safe_thread_set_policy, safe_thread_cleanup, cleanup_safe_thread,
}
use owned_c.Threads.Cleanup.{safe_thread_cleanup-safe_thread_spawn, safe_thread_spawn-none}
use owned_c.Runtime.State.{holds}
use owned_c.Runtime.Alloc.{new_meta}
use owned_c.Runtime.Ownership.Claim.{claimed, ownership_claim-ok}
use owned_c.Objects.{Act}
use owned_c.Futures.Worker.{IsFuture, future_thread_worker-ok}
use owned_c.Futures.{future_thread_worker, owned_future_await}
use owned_c.Futures.Await.{owned_future_await-held}
use owned_c.Tests.{idle, no_shards, idle-IsRegistry}

abbrev begin : State Object
begin = idle (4096 ∷ 8192 ∷ [])

begin-IsRegistry : IsRegistry no_shards begin
begin-IsRegistry = idle-IsRegistry (4096 ∷ 8192 ∷ [])

abbrev shards : ℕ → List Ptr
shards = listed 4096 no_shards

-- A structure of 16 bytes in the first block.
abbrev first : Object → State Object
first o = made begin-IsRegistry 4096 16 refl (omega arith) refl (omega arith) o

abbrev first-IsHeld : (o : Object) → IsHeld shards (first o) 4096 16 o
first-IsHeld o = made-IsHeld begin-IsRegistry 4096 16 refl (omega arith) refl (omega arith) o

abbrev a_file : Object
a_file = safe_file (record { handle = 77; is_closed = false })

safe_fclose-held_example :
    (t : State Object) × (safe_fclose 4176 (first a_file) ≡ ok tt t)
    × IsGivenUp shards 0 (fclose_call 77 ∷ malloc_call 1 96 ∷ []) t 4096
    × (safe_fclose 4176 t ≡ fault)
    × (cleanup_safe_file 4176 t ≡ fault)
safe_fclose-held_example = safe_fclose-held (first-IsHeld a_file)

safe_fclose-safe_fopen_example :
    (u : State Object) × (t : State Object) × (safe_fopen 10 20 77 begin ≡ ok 4176 u)
    × (safe_file_get 4176 u ≡ ok 77 u)
    × (safe_fclose 4176 u ≡ ok tt t)
    × IsGivenUp shards 0 (fclose_call 77 ∷ malloc_call 1 96 ∷ fopen_call 10 20 ∷ []) t 4096
safe_fclose-safe_fopen_example =
    safe_fclose-safe_fopen begin-IsRegistry 10 20 77 4096 (omega arith) refl (omega arith) refl

safe_socket_close-safe_socket_create_example :
    (u : State Object) × (t : State Object) × (safe_socket_create 2 1 0 (pos 5) begin ≡ ok 4176 u)
    × (safe_socket_get 4176 u ≡ ok (pos 5) u)
    × (safe_socket_close 4176 u ≡ ok tt t)
    × IsGivenUp shards 0 (close_call (pos 5) ∷ malloc_call 1 88 ∷ socket_call 2 1 0 ∷ []) t 4096
    × (safe_socket_close 4176 t ≡ fault)
    × (cleanup_safe_socket 4176 t ≡ fault)
safe_socket_close-safe_socket_create_example =
    safe_socket_close-safe_socket_create begin-IsRegistry 2 1 0 (pos 5) 4096 refl refl (omega arith)
      refl

safe_thread_cleanup-safe_thread_spawn_example :
    (u : State Object) × (t : State Object) × ((do
      thread ← safe_thread_spawn 3 50 (some 9)
      safe_thread_set_policy thread cleanup_detach)
        begin
      ≡ ok tt u)
    × (safe_thread_cleanup 4176 u ≡ ok tt t)
    × IsGivenUp shards 0 (detach_call 9 ∷ create_call 3 50 ∷ malloc_call 1 96 ∷ []) t 4096
    × (safe_thread_cleanup 4176 t ≡ fault)
    × (cleanup_safe_thread 4176 t ≡ fault)
safe_thread_cleanup-safe_thread_spawn_example =
    safe_thread_cleanup-safe_thread_spawn begin-IsRegistry 3 50 4096 refl (omega arith) refl 9
      cleanup_detach

safe_thread_spawn-none_example :
    (t : State Object) × (safe_thread_spawn 3 50 none begin ≡ ok null t)
    × IsGivenUp shards 0 (create_call 3 50 ∷ malloc_call 1 96 ∷ []) t 4096
safe_thread_spawn-none_example =
    safe_thread_spawn-none begin-IsRegistry 3 50 4096 refl (omega arith) refl

-- A lock of a mutex that is not recursive returns unless its last call was a lock.
abbrev unless_locked : Ptr → List Call → Bool
unless_locked p [] = true
unless_locked p (lock_call q ∷ cs) = not (q == p)
unless_locked p (c ∷ cs) = true

unlocked-returns :
    (ds : List Call) → Guarded 60 (malloc_call 1 96 ∷ []) false ds → unless_locked 60 ds ≡ true
unlocked-returns _ untouched = refl
unlocked-returns _ (unlocks g) = refl

cleanup-use_mutex_example :
    (u : State Object) × (t : State Object) × (calls : List Call) × (use_mutex unless_locked 4176
        (unlock ∷ lock ∷ unlock ∷ unlock ∷ lock ∷ [])
        (first (wrapper 60 false))
      ≡ ok tt u)
    × (cleanup_safe_mutex_unlock 4176 u ≡ ok tt t)
    × Guarded 60 (malloc_call 1 96 ∷ []) false calls
    × IsGivenUp shards 0 calls t 4096
cleanup-use_mutex_example =
    cleanup-use_mutex unless_locked (first-IsHeld (wrapper 60 false)) unlocked-returns
      (unlock ∷ lock ∷ unlock ∷ unlock ∷ lock ∷ []) refl

-- A future that is ready, at 8192, with its result in the first block.
abbrev a_future : Future
a_future = record { task = 3; arg = null; result = 4176; is_ready = true; thread = 9 }

abbrev result-IsRegistry : IsRegistry shards (allocated 4096 100 none 0 begin)
result-IsRegistry =
    allocated-IsRegistry begin-IsRegistry 4096 100 none 0 refl (omega arith) refl (omega arith)

abbrev with_future : State Object
with_future =
    made result-IsRegistry 8192 128 refl (omega arith) refl (omega arith) (future a_future)

abbrev both : ℕ → List Ptr
both = listed 8192 shards

a_future-IsHeld : IsHeld both with_future 8192 128 (future a_future)
a_future-IsHeld =
    made-IsHeld result-IsRegistry 8192 128 refl (omega arith) refl (omega arith) (future a_future)

owned_future_await-held_example :
    ((true ≡ false) × (owned_future_await 8272 with_future ≡ ok none with_future))
    ⊎ ((true ≡ true)
        × (4176 ≡ null)
        × ((t : State Object) × (owned_future_await 8272 with_future ≡ ok (some null) t)
            × IsGivenUp both 0 (join_call 9 ∷ malloc_call 1 208 ∷ malloc_call 1 180 ∷ []) t 8192))
    ⊎ ((true ≡ true)
        × (4176 ≡ user_ptr 4096)
        × ((u : State Object) × (t : State Object) × (owned_future_await 8272 with_future
              ≡ ok (some 4176) t)
            × IsGivenUp both 0 (join_call 9 ∷ malloc_call 1 208 ∷ malloc_call 1 180 ∷ []) u 8192
            × IsRegistry (λ i. erase 8192 (both i)) t
            × ((b : Block Object) × (t.cells 4096 ≡ some b)
                × (b.header.owner_thread ≡ 7)
                × (b.header.state ≡ owned))
            × (t.calls ≡ u.calls)))
owned_future_await-held_example =
    owned_future_await-held a_future-IsHeld 4096 (inr (inr (refl, refl, refl, omega arith)))

-- A future that is ready and has no result.
abbrev no_result : Future
no_result = record { task = 3; arg = null; result = null; is_ready = true; thread = 9 }

abbrev with_nothing : State Object
with_nothing =
    made result-IsRegistry 8192 128 refl (omega arith) refl (omega arith) (future no_result)

no_result-IsHeld : IsHeld both with_nothing 8192 128 (future no_result)
no_result-IsHeld =
    made-IsHeld result-IsRegistry 8192 128 refl (omega arith) refl (omega arith) (future no_result)

ends_without :
    (t : State Object) × (owned_future_await 8272 with_nothing ≡ ok (some null) t)
    × IsGivenUp both 0 (join_call 9 ∷ malloc_call 1 208 ∷ malloc_call 1 180 ∷ []) t 8192
ends_without = elim (owned_future_await-held no_result-IsHeld 4096 (inr (inl (refl, refl)))) [
  | inl (w, _) ↦ cc
  | inr (inl (_, _, ended)) ↦ ended
  | inr (inr (_, e, _)) ↦ let z : null ≡ user_ptr 4096 = e in ground (arith, z)
]

-- A future at 8192 whose task returns its argument, the first block.
abbrev waiting : Future
waiting = record { task = 3; arg = 4176; result = null; is_ready = false; thread = 9 }

abbrev with_waiting : State Object
with_waiting =
    made result-IsRegistry 8192 128 refl (omega arith) refl (omega arith) (future waiting)

waiting-IsHeld : IsHeld both with_waiting 8192 128 (future waiting)
waiting-IsHeld =
    made-IsHeld result-IsRegistry 8192 128 refl (omega arith) refl (omega arith) (future waiting)

with_waiting-IsRegistry : IsRegistry both with_waiting
with_waiting-IsRegistry = let h = waiting-IsHeld in h.registry

-- A wait before the thread has run.
waits_on : owned_future_await 8272 with_waiting ≡ ok none with_waiting
waits_on = elim (owned_future_await-held waiting-IsHeld null (inl refl)) [
  | inl (_, e) ↦ e
  | inr (inl (w, _, _)) ↦ cc
  | inr (inr (w, _, _)) ↦ cc
]

abbrev same_task : ℕ → Ptr → Act Ptr
same_task task x s = ok x s

abbrev future_block : Block Object
future_block = record {
  room = 208;
  header = record (new_meta 128 none 0 7) { prev = null; next = 4096 };
  body = holds (future waiting);
}

abbrev running : State Object
running = claimed with_waiting-IsRegistry 4096 refl

waiting-IsFuture : IsFuture with_waiting 8272 waiting
waiting-IsFuture = record {
  block = future_block;
  here = refl;
  alive = refl;
  room = omega arith;
  fields = refl;
}

running-IsFuture : IsFuture running 8272 waiting
running-IsFuture = record {
  block = future_block;
  here = refl;
  alive = refl;
  room = omega arith;
  fields = refl;
}

future_thread_worker-ok_example :
    ((b : Block Object) × (running.cells 4096 ≡ some b) × (b.header.owner_thread ≡ 7))
    × ((t : State Object) × (future_thread_worker same_task 8272 with_waiting ≡ ok null t)
        × IsRegistry both t
        × IsFuture t 8272 (record waiting { result = 4176; is_ready = true }))
future_thread_worker-ok_example =
    future_thread_worker-ok with_waiting-IsRegistry same_task 8272 4096 4176 waiting-IsFuture refl
      refl refl (ownership_claim-ok with_waiting-IsRegistry 4096 refl).1 running-IsFuture
