-- ===== src/Tests/Futures.antt =====
-- A future whose task returns its argument, from its making to its result.
use owned_c.Base.{ℕ, ◌≡◌, refl, none, some, inr, List, [], ◌∷◌, arith}
use owned_c.Runtime.State.{Ptr, null, owned, holds, Block, State}
use owned_c.Runtime.Command.{ok, ◌>>=◌, ◌>>◌}
use owned_c.Runtime.Alloc.{new_meta}
use owned_c.Runtime.Alloc.Malloc.{allocated, allocated-IsRegistry}
use owned_c.Runtime.Amend.{IsRegistry-env}
use owned_c.Runtime.Chain.{erase}
use owned_c.Runtime.Ownership.Claim.{ownership_claim-ok}
use owned_c.Runtime.Register.{listed}
use owned_c.Runtime.Registered.{IsRegistry}
use owned_c.Objects.{Act, Object, future}
use owned_c.Objects.Lifetime.{IsHeld}
use owned_c.Futures.{future_thread_worker, owned_future_spawn, owned_future_await}
use owned_c.Futures.Whole.{
  on, by_thread, spawned, after_spawn, at_task, spawned-IsHeld, arg_in, await-spawn,
}
use owned_c.Tests.{idle, no_shards, idle-IsRegistry}

abbrev begin : State Object
begin = allocated 4096 100 none 0 (idle (4096 ∷ 8192 ∷ []))

abbrev shards : ℕ → List Ptr
shards = listed 4096 no_shards

begin-IsRegistry : IsRegistry shards begin
begin-IsRegistry =
    allocated-IsRegistry (idle-IsRegistry (4096 ∷ 8192 ∷ [])) 4096 100 none 0 refl (omega arith)
      refl (omega arith)

abbrev same_task : ℕ → Ptr → Act Ptr
same_task task x s = ok x s

abbrev waits : State Object
waits = after_spawn begin-IsRegistry 8192 refl (omega arith) refl same_task 3 9 4096 refl

abbrev runs : State Object
runs = at_task begin-IsRegistry 8192 refl (omega arith) refl same_task 3 9 4096 refl

abbrev both : ℕ → List Ptr
both = listed 8192 shards

runs-IsRegistry : IsRegistry both runs
runs-IsRegistry =
    let h = spawned-IsHeld begin-IsRegistry 8192 refl (omega arith) refl same_task 3 9 4096 refl in
    let r =
      IsRegistry-env h.registry waits.atexit_registered waits.answers waits.calls 9 waits.output in
    (ownership_claim-ok r 4096
      (arg_in begin-IsRegistry 8192 refl (omega arith) refl same_task 3 9 4096 refl)).1

runs-IsHeld :
    IsHeld both
      (on 7 runs)
      8192
      128
      (future (spawned begin-IsRegistry 8192 refl (omega arith) refl same_task 3 9 4096 refl))
runs-IsHeld = record {
  registry =
      IsRegistry-env runs-IsRegistry runs.atexit_registered runs.answers runs.calls 7 runs.output;
  in_shard = refl;
  block = record {
    room = 208;
    header = record (new_meta 128 none 0 7) { prev = null; next = 4096 };
    body =
        holds
          (future (spawned begin-IsRegistry 8192 refl (omega arith) refl same_task 3 9 4096 refl));
  };
  here = refl;
  contents = refl;
  room = omega arith;
  may = record { unborrowed = refl; allowed = inr refl };
}

await-spawn_example :
    ((do f ← owned_future_spawn 3 4176 (some 9); owned_future_await f) begin ≡ ok none waits)
    × ((t : State Object) × ((do
      f ← owned_future_spawn 3 4176 (some 9)
      by_thread 9 (future_thread_worker same_task f)
      owned_future_await f)
            begin
          ≡ ok (some 4176) t)
        × IsRegistry (λ i. erase 8192 (both i)) t
        × ((b : Block Object) × (t.cells 4096 ≡ some b)
            × (b.header.owner_thread ≡ 7)
            × (b.header.state ≡ owned)))
await-spawn_example =
    await-spawn begin-IsRegistry 8192 refl (omega arith) refl same_task 3 9 4096 refl 4096 refl
      runs-IsHeld refl (omega arith)
