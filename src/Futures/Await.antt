-- ===== src/Futures/Await.antt =====
-- What a caller gets of a future of src/ownedc_future.c: the wait, and the result.
use owned_c.Base.{
  ℕ, ◌≡◌, ◌≢◌, ◌⊎◌, ◌∈◌, ◌∙◌, refl, ap, true, false, none, some, List, ◌∷◌, arith, inl, inr, ne→==,
}
use owned_c.Runtime.State.{Ptr, null, owned, Block, join_call, State}
use owned_c.Runtime.Command.{ok}
use owned_c.Runtime.Allocator.{called}
use owned_c.Runtime.Registry.{shard_of, user_ptr}
use owned_c.Runtime.Alloc.{owner_free}
use owned_c.Runtime.Chain.{erase, mem_erase_of_ne}
use owned_c.Runtime.Registered.{IsRegistry}
use owned_c.Runtime.Ownership.{ownership_claim}
use owned_c.Runtime.Ownership.Claim.{claimed, ownership_claim-ok}
use owned_c.Objects.{Object, Future, future}
use owned_c.Objects.Lifetime.{
  gave_back, IsGivenUp, IsHeld, deref-held, called-IsHeld, owner_free-held, owner_free-held_self,
}
use owned_c.Futures.{future_size, read_future, owned_future_await}

module _ {shards : ℕ → List Ptr} {s : State Object} {m : ℕ} {g : Future}
    (h : IsHeld shards s m future_size (future g)) where
  read_future-held : read_future (user_ptr m) s ≡ ok g s
  unfolding read_future
  read_future-held = rw (deref-held h)

  pub waiting : g.is_ready ≡ false → owned_future_await (user_ptr m) s ≡ ok none s
  unfolding owned_future_await
  waiting w = rw (ne→== (user_ptr m) null (omega arith), read_future-held, w)

  returned :
      (r : Ptr) {u t : State Object}
      → g.is_ready ≡ true
      → g.result ≡ user_ptr r
      → owner_free (user_ptr m) (called (join_call g.thread) s) ≡ ok tt u
      → ownership_claim (user_ptr r) u ≡ ok tt t
      → owned_future_await (user_ptr m) s ≡ ok (some g.result) t
  unfolding owned_future_await
  returned r w e frees claims = rw (
    ne→== (user_ptr m) null (omega arith),
    read_future-held,
    w,
    frees,
    e,
    ne→== (user_ptr r) null (omega arith),
    claims,
  )

  returned_null :
      {u : State Object}
      → g.is_ready ≡ true
      → g.result ≡ null
      → owner_free (user_ptr m) (called (join_call g.thread) s) ≡ ok tt u
      → owned_future_await (user_ptr m) s ≡ ok (some g.result) u
  unfolding owned_future_await
  returned_null w e frees =
      rw (ne→== (user_ptr m) null (omega arith), read_future-held, w, frees, e)

  -- A future is in a block of a well formed registry that the caller may free. The wait for one that is
  -- not ready goes on and changes nothing. On one that is ready, with no result or with one in another
  -- block of the registry, the call joins the thread, gives the future up, and returns the result, which
  -- the caller then owns if there is one; the registry stays well formed.
  pub owned_future_await-held :
      (r : Ptr)
      → (g.is_ready ≡ false)
        ⊎ ((g.is_ready ≡ true) × (g.result ≡ null))
        ⊎ ((g.is_ready ≡ true) × (g.result ≡ user_ptr r) × (r ∈ shards (shard_of r)) × (r ≢ m))
      → ((g.is_ready ≡ false) × (owned_future_await (user_ptr m) s ≡ ok none s))
        ⊎ ((g.is_ready ≡ true)
            × (g.result ≡ null)
            × ((t : State Object) × (owned_future_await (user_ptr m) s ≡ ok (some null) t)
                × IsGivenUp shards s.quarantine_tail
                    (gave_back s (join_call g.thread ∷ s.calls))
                    t
                    m))
        ⊎ ((g.is_ready ≡ true)
            × (g.result ≡ user_ptr r)
            × ((u : State Object) × (t : State Object) × (owned_future_await (user_ptr m) s
                  ≡ ok (some g.result) t)
                × IsGivenUp shards s.quarantine_tail
                    (gave_back s (join_call g.thread ∷ s.calls))
                    u
                    m
                × IsRegistry (λ i. erase m (shards i)) t
                × ((b : Block Object) × (t.cells r ≡ some b)
                    × (b.header.owner_thread ≡ s.self)
                    × (b.header.state ≡ owned))
                × (t.calls ≡ u.calls)))
  owned_future_await-held r cases = elim cases [
    | inl w ↦ inl (w, waiting w)
    | inr (inl (w, e)) ↦
        let (u, frees, x) = owner_free-held (called-IsHeld h (join_call g.thread)) in
        inr (inl (w, e, (u, returned_null w e frees ∙ ap (λ z. ok (some z) u) e, x)))
    | inr (inr (w, e, k, d)) ↦
        let c = called-IsHeld h (join_call g.thread) in
        let (u, frees, x) = owner_free-held c in
        let k' = mem_erase_of_ne r m (shards (shard_of r)) k d in
        let (claims, y, (b, there, own, st, _)) = ownership_claim-ok x.registry r k' in
        inr (
          inr (
            w,
            e,
            (
              u,
              claimed x.registry r k',
              returned r w e frees claims,
              x,
              y,
              (b, there, own ∙ owner_free-held_self c, st),
              refl,
            ),
          ))
  ]
