-- ===== src/Futures/Worker.antt =====
-- What the thread of a future of src/ownedc_future.c leaves behind.
use owned_c.Base.{ℕ, ◌+◌, ◌≤◌, ◌≡◌, ◌∈◌, refl, false, true, some, List, arith, ne→==}
use owned_c.Runtime.State.{Ptr, null, meta_size, is_freed, holds, Block, State}
use owned_c.Runtime.Command.{ok, set_cell}
use owned_c.Runtime.Registry.{shard_of, user_ptr}
use owned_c.Runtime.Ownership.Claim.{claimed, ownership_claim-ok}
use owned_c.Runtime.Registered.{IsRegistry}
use owned_c.Objects.{Act, Object, Future, future, block_of}
use owned_c.Objects.Access.{deref-ok, assign-ok}
use owned_c.Objects.Written.{set_cell-IsWritten}
use owned_c.Futures.{future_size, read_future, future_thread_worker}

-- The future at `p` is `g`, whoever owns it.
pub record IsFuture (s : State Object) (p : Ptr) (g : Future) : Type 0 where
  pub block : Block Object
  pub here : s.cells (block_of p) ≡ some block
  pub alive : is_freed block.header.state ≡ false
  pub room : meta_size + future_size ≤ block.room
  pub fields : block.body ≡ holds (future g)

module _ {s : State Object} {p : Ptr} {g : Future} (w : IsFuture s p g) where
  read_future-ok : read_future p s ≡ ok g s
  unfolding read_future
  read_future-ok = rw (deref-ok p s w.here w.alive w.fields)

  abbrev pub rewritten : Future → State Object
  rewritten g' = set_cell (block_of p) (some (record w.block { body = holds (future g') })) s

  rewritten-IsFuture : (g' : Future) → IsFuture (rewritten g') p g'
  rewritten-IsFuture g' = record {
    block = record w.block { body = holds (future g') };
    here = ground arith;
    alive = w.alive;
    room = w.room;
    fields = refl;
  }

module _ {shards : ℕ → List Ptr} {s : State Object} (r : IsRegistry shards s)
    (tasks : ℕ → Ptr → Act Ptr) (p a res : Ptr) {g g' : Future} (w : IsFuture s p g)
    (arg : g.arg ≡ user_ptr a) (a_in : a ∈ shards (shard_of a)) {later : ℕ → List Ptr}
    {v : State Object} (runs : tasks g.task (user_ptr a) (claimed r a a_in) ≡ ok res v)
    (still : IsRegistry later v) (left : IsFuture v p g') where
  pub future_thread_worker-rewritten :
      future_thread_worker tasks p s
      ≡ ok null (rewritten left (record g' { result = res; is_ready = true }))
  unfolding future_thread_worker
  future_thread_worker-rewritten = rw (
    read_future-ok w,
    arg,
    ne→== (user_ptr a) null (omega arith),
    (ownership_claim-ok r a a_in).0,
    runs,
    read_future-ok left,
    assign-ok p v left.here left.alive future_size
        (future (record g' { result = res; is_ready = true })) left.room,
  )

  -- The thread of a future whose argument is in a block `a` of the registry runs the task as the owner
  -- of that block. If the task returns, with the registry well formed and the future where it was, then
  -- so does the thread, and the future is ready with what the task returned.
  pub future_thread_worker-ok :
      ((b : Block Object) × ((claimed r a a_in).cells a ≡ some b)
        × (b.header.owner_thread ≡ s.self))
      × ((t : State Object) × (future_thread_worker tasks p s ≡ ok null t)
          × IsRegistry later t
          × IsFuture t p (record g' { result = res; is_ready = true }))
  future_thread_worker-ok =
      let (claims, _, (b, there, own, _, _)) = ownership_claim-ok r a a_in in
      let o = record g' { result = res; is_ready = true } in
      (
        (b, there, own),
        (
          rewritten left o,
          future_thread_worker-rewritten,
          (set_cell-IsWritten v (block_of p) left.here (holds (future o))).registry later still,
          rewritten-IsFuture left o,
        ),
      )
