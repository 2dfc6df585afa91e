-- ===== src/Counting/Drop.antt =====
-- `owned_rc_drop` of src/ownedc_rc.c over the registry: the last reference frees what is held and the wrapper.
use owned_c.Base.{
  ℕ, ◌≤◌, ◌≡◌, ◌≢◌, ◌∙◌, refl, sym, ap, subst, false, List, ◌∈◌, ◌∉◌, has, arith, inl, inr, length,
  ◌==◌, if◌then◌else◌, Bool-cases, ==→ne,
}
use owned_c.Runtime.State.{Ptr, null, Body, State}
use owned_c.Runtime.Command.{ok}
use owned_c.Runtime.Registry.{user_ptr}
use owned_c.Runtime.Registered.{IsRetired}
use owned_c.Runtime.Chain.{erase, mem-erase}
use owned_c.Runtime.Alloc.{owner_free}
use owned_c.Objects.{Object, Counted, counted, block_of, read_counted}
use owned_c.Objects.Lifetime.{block_of-user_ptr}
use owned_c.Objects.Mine.{
  IsMine, Spares, deref-mine, assigned, assign-mine, assigned-IsMine, assigned-Spares, freed_state,
  owner_free-mine, freed-Spares,
}
use owned_c.Counting.{rc_size, write_counted, unregister_from_gc, drop_last}
use owned_c.Counting.Graph.{Contents}
use owned_c.Counting.Owned.{IsOwned, spared-IsOwned}
use owned_c.Counting.Unregister.{not_mem_erase, still_out, SameCount, unregister_from_gc-IsUnlinked}

-- A wrapper that is not in the list is freed.
gone-IsOwned :
    {shards : ℕ → List Ptr} {ws : List Ptr} {s : State Object} {f : Contents} {m : Ptr}
    {body : Body Object} {room : ℕ}
    → IsOwned shards ws s f
    → IsMine shards s m body room
    → m ∉ ws
    → ((x : Ptr) → x ∈ ws → (f x).inner ≢ user_ptr m)
    → (t : State Object) × (owner_free (user_ptr m) s ≡ ok tt t)
      × IsOwned (λ i. erase m (shards i)) ws t f
      × IsRetired t.cells m
      × Spares m shards (λ i. erase m (shards i)) s t
gone-IsOwned {m} w mine out free =
    let (run, retired) = owner_free-mine w.registry mine in
    (
      freed_state w.registry mine,
      run,
      spared-IsOwned m w (freed-Spares w.registry mine) out free,
      retired,
      freed-Spares w.registry mine,
    )

drop_steps :
    (s u v v' t : State Object) (fuel : ℕ) (m : Ptr) (h : Counted)
    → unregister_from_gc fuel (user_ptr m) s ≡ ok tt u
    → read_counted (user_ptr m) u ≡ ok h u
    → (h.inner == null) ≡ false
    → owner_free h.inner u ≡ ok tt v
    → write_counted (user_ptr m) (record h { inner = null }) v ≡ ok tt v'
    → owner_free (user_ptr m) v' ≡ ok tt t
    → drop_last fuel (user_ptr m) s ≡ ok tt t
unfolding drop_last
drop_steps s u v v' t fuel m h run reads holding frees_inner writes frees =
    rw (run, reads, holding, frees_inner, writes, frees)

-- The shards without the wrapper `m` and what it holds.
abbrev pub dropped_shards : (shards : ℕ → List Ptr) → Counted → Ptr → ℕ → List Ptr
dropped_shards shards h m =
    if h.inner == null
    then (λ j. erase m (shards j))
    else (λ j. erase m (erase (block_of h.inner) (shards j)))

-- The wrapper `m` and what it held are no longer in the registry, and the list is `ws'`.
pub record IsDropped (shards' : ℕ → List Ptr) (ws' : List Ptr) (m : Ptr) (t : State Object)
    (f g : Contents) : Type 0 where
  pub owned : IsOwned shards' ws' t g
  pub same : (x : Ptr) → x ∈ ws' → SameCount (f x) (g x)
  pub retired : IsRetired t.cells m

module _ {shards : ℕ → List Ptr} {ws : List Ptr} {s : State Object} {f : Contents}
    (w : IsOwned shards ws s f) (m : Ptr) (k : m ∈ ws) (fuel : ℕ) (few : length ws ≤ fuel) where
  no_wrapper_held : (x : Ptr) → x ∈ ws → (f x).inner ≢ user_ptr m
  no_wrapper_held x j at =
      let (i, at', out, _) = w.inner x j (λ e. omega (arith, e, at)) in
      let same : i ≡ m = omega (arith, sym at' ∙ at) in cc (ap (λ z. has z ws) same, out, k)

  pub drop_last-IsDropped :
      (t : State Object) × (g : Contents) × (drop_last fuel (user_ptr m) s ≡ ok tt t)
      × IsDropped (dropped_shards shards (f m) m) (erase m ws) m t f g
  unfolding drop_last read_counted
  drop_last-IsDropped =
      let (u, g, run, x) = unregister_from_gc-IsUnlinked m fuel ws w k few in
      let (room, mine, le) = x.node in
      let out : m ∉ erase m ws = not_mem_erase m ws w.distinct in
      let reads = deref-mine x.owned.registry mine refl in
      let reads' : read_counted (user_ptr m) u ≡ ok (f m) u = rw reads in
      let unheld : (y : Ptr) → y ∈ erase m ws → (g y).inner ≢ user_ptr m =
        λ y j e. no_wrapper_held y (mem-erase y m ws j) (sym (x.same y).inner ∙ e) in
      elim (Bool-cases ((f m).inner == null)) [
        | inl e ↦
            let (t, frees, owned, retired, _) = gone-IsOwned x.owned mine out unheld in
            (
              t,
              g,
              rw (run, reads, e, frees),
              rw e (record { owned = owned; same = λ y j. x.same y; retired = retired }),
            )
        | inr e ↦
            let (i, at, i_out, (body, n, held)) = w.inner m k (==→ne (f m).inner null e) in
            let held' = x.others i i_out held in
            let unshared : (y : Ptr) → y ∈ erase m ws → (g y).inner ≢ user_ptr i = λ y j e'.
              let apart : m ≢ y = λ z. cc (ap (λ a. has a (erase m ws)) z, j, out) in
              w.alone m y k (mem-erase y m ws j) apart (==→ne (f m).inner null e)
                (at ∙ sym e' ∙ (x.same y).inner) in
            let (v, frees_inner, owned, _, spares) =
              gone-IsOwned x.owned held' (still_out i m ws i_out) unshared in
            let mine' = spares.others m (λ z. cc (ap (λ a. has a ws) z, k, i_out)) mine in
            let h = record (f m) { inner = null } in
            let writes = assign-mine owned.registry mine' (counted h) rc_size le in
            let cleared =
              spared-IsOwned m owned (assigned-Spares owned.registry mine' (counted h)) out
                unheld in
            let (t, frees, owned', retired, _) =
              gone-IsOwned cleared (assigned-IsMine owned.registry mine' (counted h)) out unheld in
            (
              t,
              g,
              drop_steps s u v (assigned owned.registry mine' (counted h)) t fuel m (f m) run reads'
                  e (subst (λ z. owner_free z u ≡ ok tt v) (sym at) frees_inner) writes frees,
              rw e (
                  subst (λ z. IsDropped (λ j. erase m (erase z (shards j))) (erase m ws) m t f g)
                    (sym (ap block_of at ∙ block_of-user_ptr i))
                    (record { owned = owned'; same = λ y j. x.same y; retired = retired })),
            )
      ]
