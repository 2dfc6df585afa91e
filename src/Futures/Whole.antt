-- ===== src/Futures/Whole.antt =====
-- A future of src/ownedc_future.c from its making to its result: the call that makes it, the thread that runs
-- its task, and the wait.
use owned_c.Base.{
  ℕ, ◌+◌, ◌<◌, ◌≡◌, ◌≢◌, ◌∈◌, ◌∙◌, ap, subst, sym, refl, true, false, none, some, List, arith, inl,
  inr, ne→==,
}
use owned_c.Runtime.State.{Ptr, null, meta_size, size_mod, owned, holds, Block, create_call, State}
use owned_c.Runtime.Command.{Run, ok, exited, aborted, fault, out_of_fuel, set_cell, ◌>>=◌, ◌>>◌}
use owned_c.Runtime.Allocator.{first_answer, called}
use owned_c.Runtime.Amend.{IsRegistry-env}
use owned_c.Runtime.Registry.{shard_of, user_ptr}
use owned_c.Runtime.Register.{listed}
use owned_c.Runtime.Registered.{IsRegistry}
use owned_c.Runtime.Chain.{erase}
use owned_c.Runtime.Ownership.Claim.{claimed}
use owned_c.Objects.{Act, Object, Future, future}
use owned_c.Objects.Lifetime.{
  block_of-user_ptr, rewritten-IsHeld, IsHeld, held-IsLive, made, made-IsHeld, owner_malloc-made,
  assign-called, called-IsHeld,
}
use owned_c.Futures.{future_size, future_thread_worker, owned_future_spawn, owned_future_await}
use owned_c.Futures.Await.{waiting, owned_future_await-held}
use owned_c.Futures.Worker.{IsFuture, rewritten, future_thread_worker-rewritten}

-- The thread `self` runs.
abbrev pub on : (self : ℕ) → State Object → State Object
on self s = record s { self = self }

abbrev back_on : {B : Type 0} → (self : ℕ) → Run Object B → Run Object B
back_on self (ok x s) = ok x (on self s)
back_on self (exited code s) = exited code (on self s)
back_on self (aborted s) = aborted (on self s)
back_on self fault = fault
back_on self out_of_fuel = out_of_fuel

-- A command of the thread `thread`, between two of the running one.
abbrev pub by_thread : {B : Type 0} → (thread : ℕ) → Act B → Act B
by_thread thread act s = back_on s.self (act (on thread s))

module _ {shards : ℕ → List Ptr} {s : State Object} (r : IsRegistry shards s) (q : Ptr)
    (answer : first_answer s.answers ≡ q) (ne : q ≢ null) (fresh : s.cells q ≡ none)
    (tasks : ℕ → Ptr → Act Ptr) (task thread a : ℕ) (a_in : a ∈ shards (shard_of a)) where
  abbrev pub spawned : Future
  spawned = record {
    task = task;
    arg = user_ptr a;
    result = null;
    is_ready = false;
    thread = thread;
  }

  pub fits : meta_size + future_size < size_mod
  fits = omega arith

  -- Behind the call that makes the future.
  abbrev pub after_spawn : State Object
  after_spawn =
      called (create_call 1 (user_ptr q))
        (made r q future_size answer ne fresh fits (future spawned))

  pub spawned-IsHeld : IsHeld (listed q shards) after_spawn q future_size (future spawned)
  spawned-IsHeld =
      called-IsHeld (made-IsHeld r q future_size answer ne fresh fits (future spawned))
        (create_call 1 (user_ptr q))

  owned_future_spawn-ok :
      owned_future_spawn task (user_ptr a) (some thread) s ≡ ok (user_ptr q) after_spawn
  unfolding owned_future_spawn
  owned_future_spawn-ok = rw (
    owner_malloc-made r q future_size answer ne fresh fits (future spawned),
    ne→== (user_ptr q) null (omega arith),
    assign-called r q future_size answer ne fresh fits (future spawned)
        (create_call 1 (user_ptr q)),
  )

  pub arg_in : a ∈ listed q shards (shard_of a)
  arg_in = ground (arith, a_in)

  -- Where the task starts: on its thread, which owns the argument.
  abbrev pub at_task : State Object
  at_task =
      claimed
        (IsRegistry-env spawned-IsHeld.registry after_spawn.atexit_registered after_spawn.answers
          after_spawn.calls thread after_spawn.output)
        a arg_in

  module _ (res : Ptr) {v : State Object}
      (runs : tasks task (user_ptr a) at_task ≡ ok (user_ptr res) v) {later : ℕ → List Ptr}
      (held : IsHeld later (on s.self v) q future_size (future spawned))
      (res_in : res ∈ later (shard_of res)) (apart : res ≢ q) where
    abbrev ready : Future
    ready = record spawned { result = user_ptr res; is_ready = true }

    left-IsFuture : IsFuture v (user_ptr q) spawned
    left-IsFuture = record {
      block = held.block;
      here = ap v.cells (block_of-user_ptr q) ∙ held.here;
      alive = (held-IsLive held).alive;
      room = held.room;
      fields = held.contents;
    }

    abbrev after_task : State Object
    after_task = on s.self (rewritten left-IsFuture ready)

    thread_run :
        by_thread thread (future_thread_worker tasks (user_ptr q)) after_spawn ≡ ok null after_task
    thread_run =
        let h = spawned-IsHeld in
        let u = after_spawn in
        let w : IsFuture (on thread u) (user_ptr q) spawned = record {
          block = h.block;
          here = ap u.cells (block_of-user_ptr q) ∙ h.here;
          alive = (held-IsLive h).alive;
          room = h.room;
          fields = h.contents;
        } in
        let g = IsRegistry-env h.registry u.atexit_registered u.answers u.calls thread u.output in
        let still =
          IsRegistry-env held.registry v.atexit_registered v.answers v.calls v.self v.output in
        ap (back_on s.self) (
          future_thread_worker-rewritten g tasks (user_ptr q) a (user_ptr res) w refl arg_in runs
            still left-IsFuture)

    after_task-IsHeld : IsHeld later after_task q future_size (future ready)
    unfolding left-IsFuture
    after_task-IsHeld =
        subst
          (λ x.
            IsHeld later
              (on s.self (set_cell x (some (record held.block { body = holds (future ready) })) v))
              q future_size (future ready))
          (sym (block_of-user_ptr q)) (rewritten-IsHeld held (future ready))

    -- In a well formed registry, where the underlying allocator answers with memory not in use and the argument is
    -- in a block of the registry: making a future returns, and a wait before its thread has run goes on and changes
    -- nothing more. If the task, run by the thread as the owner of the argument, returns a block of the registry
    -- other than that of the future, and leaves the registry well formed and the future to the thread that made it,
    -- then behind the thread the wait returns that block, which belongs to the caller, in a registry that is still
    -- well formed and without the future.
    pub await-spawn :
        ((do f ← owned_future_spawn task (user_ptr a) (some thread); owned_future_await f) s
          ≡ ok none after_spawn)
        × ((t : State Object) × ((do
          f ← owned_future_spawn task (user_ptr a) (some thread)
          by_thread thread (future_thread_worker tasks f)
          owned_future_await f)
                s
              ≡ ok (some (user_ptr res)) t)
            × IsRegistry (λ i. erase q (later i)) t
            × ((b : Block Object) × (t.cells res ≡ some b)
                × (b.header.owner_thread ≡ s.self)
                × (b.header.state ≡ owned)))
    await-spawn = (
      rw (owned_future_spawn-ok, waiting spawned-IsHeld refl),
      elim (owned_future_await-held after_task-IsHeld res (inr (inr (refl, refl, res_in, apart)))) [
        | inl (e, _) ↦ cc
        | inr (inl (_, no_result, _)) ↦ let z : user_ptr res ≡ null = no_result in ground (arith, z)
        | inr (inr (_, _, (u, t, awaits, _, registry, (b, there, own, state), _))) ↦
            (t, rw (owned_future_spawn-ok, thread_run, awaits), registry, (b, there, own, state))
      ],
    )
