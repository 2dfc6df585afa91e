-- ===== src/Objects/Lifetime.antt =====
-- A structure that a client keeps in a block of the registry: how it is made, and how it is given up.
use owned_c.Base.{
  ℕ, ◌+◌, ◌≤◌, ◌<◌, ◌≡◌, ◌≢◌, ◌∙◌, ap, subst, sym, refl, none, some, List, arith, ◌∈◌, inr, ◌==◌,
  if◌then◌else◌, ◌∷◌,
}
use owned_c.Runtime.State.{Ptr, null, meta_size, size_mod, holds, Block, Call, free_call, State}
use owned_c.Runtime.Command.{ok, fault, set_cell}
use owned_c.Runtime.Allocator.{first_answer, called}
use owned_c.Runtime.Registry.{shard_of, user_ptr}
use owned_c.Runtime.Alloc.{owner_malloc, owner_free}
use owned_c.Runtime.Alloc.Malloc.{
  allocated, allocated_block, allocated-IsRegistry, owner_malloc_internal-ok,
}
use owned_c.Runtime.Alloc.Free.{MayFree, released, owner_free_internal-ok}
use owned_c.Runtime.Alloc.Quarantine.{oldest}
use owned_c.Runtime.Amend.{IsRegistry-set_cell, IsRegistry-env}
use owned_c.Runtime.Chain.{erase}
use owned_c.Runtime.Live.{IsLive, member-IsLive}
use owned_c.Runtime.Register.{listed}
use owned_c.Runtime.Registered.{IsRegistry, IsRetired}
use owned_c.Objects.{Object, block_of, deref, assign}
use owned_c.Objects.Written.{IsKept, Relinked-IsKept}
use owned_c.Runtime.Relink.{Relinked, in_front-Relinked}
use owned_c.Objects.Access.{assign-ok, deref-ok}

pub block_of-user_ptr : (m : Ptr) → block_of (user_ptr m) ≡ m
block_of-user_ptr m = omega arith

-- The calls when the oldest block of the quarantine has been given back, if there is one.
abbrev pub gave_back : State Object → List Call → List Call
gave_back s cs = if oldest s == null then cs else free_call s.global_free (oldest s) ∷ cs

-- The block `m` has left its shard for the slot `j` of the quarantine, in the state `t`.
pub record IsGivenUp (shards : ℕ → List Ptr) (j : ℕ) (calls : List Call) (t : State Object)
    (m : Ptr) : Type 0 where
  pub registry : IsRegistry (λ i. erase m (shards i)) t
  pub slot : t.quarantine j ≡ m
  pub retired : IsRetired t.cells m
  pub made_calls : t.calls ≡ calls

pub IsGivenUp-calls :
    {shards : ℕ → List Ptr} {j : ℕ} {cs ds : List Call} {t : State Object} {m : Ptr}
    → cs ≡ ds
    → IsGivenUp shards j cs t m
    → IsGivenUp shards j ds t m
IsGivenUp-calls {shards} {j} {t} {m} e g = subst (λ xs. IsGivenUp shards j xs t m) e g

-- The quarantine has not moved from `s` to `u`.
pub record SameRing (s u : State Object) : Type 0 where
  pub tail : u.quarantine_tail ≡ s.quarantine_tail
  pub oldest : oldest u ≡ oldest s
  pub free : u.global_free ≡ s.global_free

pub SameRing-trans : {s u v : State Object} → SameRing s u → SameRing u v → SameRing s v
SameRing-trans x y = record {
  tail = y.tail ∙ x.tail;
  oldest = y.oldest ∙ x.oldest;
  free = y.free ∙ x.free;
}

pub IsGivenUp-ring :
    {shards : ℕ → List Ptr} {s u t : State Object} (cs : List Call) {m : Ptr}
    → SameRing s u
    → IsGivenUp shards u.quarantine_tail (gave_back u cs) t m
    → IsGivenUp shards s.quarantine_tail (gave_back s cs) t m
IsGivenUp-ring {t} cs {m} ring g = record {
  registry = g.registry;
  slot = ap t.quarantine (sym ring.tail) ∙ g.slot;
  retired = g.retired;
  made_calls = g.made_calls ∙ cc (ring.oldest, ring.free);
}

-- A structure in a block of the registry that the running thread may free.
pub record IsHeld (shards : ℕ → List Ptr) (s : State Object) (m size : ℕ) (o : Object)
    : Type 0 where
  pub registry : IsRegistry shards s
  pub in_shard : m ∈ shards (shard_of m)
  pub block : Block Object
  pub here : s.cells m ≡ some block
  pub contents : block.body ≡ holds o
  pub room : meta_size + size ≤ block.room
  pub may : MayFree block.header s.self

module _ {shards : ℕ → List Ptr} {s : State Object} {m size : ℕ} {o : Object}
    (h : IsHeld shards s m size o) where
  pub held-IsLive : IsLive s m h.block
  held-IsLive =
      let l = member-IsLive h.registry m h.in_shard in
      record {
        here = h.here;
        ne_null = l.ne_null;
        tracked = ground (arith, l.here, l.tracked, h.here);
        alive = ground (arith, l.here, l.alive, h.here);
      }

  abbrev pub rewritten : Object → State Object
  rewritten o' = set_cell m (some (record h.block { body = holds o' })) s

  pub deref-held : deref (user_ptr m) s ≡ ok o s
  deref-held =
      deref-ok (user_ptr m) s {b = h.block} (ap s.cells (block_of-user_ptr m) ∙ h.here)
        held-IsLive.alive h.contents

  pub assign-held : (o' : Object) → assign (user_ptr m) size o' s ≡ ok tt (rewritten o')
  assign-held o' =
      assign-ok (user_ptr m) s {b = h.block} (ap s.cells (block_of-user_ptr m) ∙ h.here)
        held-IsLive.alive size o' h.room
      ∙ ap (λ x. ok tt (set_cell x (some (record h.block { body = holds o' })) s))
          (block_of-user_ptr m)

  pub rewritten-IsHeld : (o' : Object) → IsHeld shards (rewritten o') m size o'
  rewritten-IsHeld o' = record {
    registry = IsRegistry-set_cell h.registry m h.here (record {
      tracked = λ t. record { magic = t.magic; room = t.room };
      freed = refl;
      prev = refl;
      next = refl;
    });
    in_shard = h.in_shard;
    block = record h.block { body = holds o' };
    here = ground arith;
    contents = refl;
    room = h.room;
    may = h.may;
  }

  pub called-IsHeld : (c : Call) → IsHeld shards (called c s) m size o
  called-IsHeld c = record {
    registry =
        IsRegistry-env h.registry s.atexit_registered s.answers (c ∷ s.calls) s.self s.output;
    in_shard = h.in_shard;
    block = h.block;
    here = h.here;
    contents = h.contents;
    room = h.room;
    may = h.may;
  }

  pub owner_free-held :
      (t : State Object) × (owner_free (user_ptr m) s ≡ ok tt t)
      × IsGivenUp shards s.quarantine_tail (gave_back s s.calls) t m
  unfolding owner_free
  owner_free-held =
      let (e, registry, slot, retired, _) =
        owner_free_internal-ok h.registry m h.in_shard {b = h.block} h.here none 0 h.may in
      (
        released h.registry m h.in_shard {b = h.block} h.here none 0,
        e,
        record { registry = registry; slot = slot; retired = retired; made_calls = refl },
      )

  pub owner_free-held_self : owner_free-held.0.self ≡ s.self
  unfolding owner_free-held
  owner_free-held_self = refl

-- A new block is given up before anything was written to it.
module _ {shards : ℕ → List Ptr} {s : State Object} (r : IsRegistry shards s) (q size : ℕ)
    (answer : first_answer s.answers ≡ q) (ne : q ≢ null) (fresh : s.cells q ≡ none)
    (fits : meta_size + size < size_mod) (c : Call) where
  abbrev unused : State Object
  unused = called c (allocated q size none 0 s)

  pub owner_free-called :
      (t : State Object) × (owner_free (user_ptr q) unused ≡ ok tt t)
      × IsGivenUp (listed q shards) s.quarantine_tail (gave_back s unused.calls) t q
  unfolding owner_free
  owner_free-called =
      let w = allocated-IsRegistry r q size none 0 answer ne fresh fits in
      let w' =
        IsRegistry-env w unused.atexit_registered unused.answers unused.calls unused.self
          unused.output in
      let in_shard : q ∈ listed q shards (shard_of q) = ground arith in
      let (e, registry, slot, retired, _) =
        owner_free_internal-ok w' q in_shard {b = allocated_block q size none 0 s} (ground arith)
          none 0 (record { unborrowed = refl; allowed = inr refl }) in
      (
        released w' q in_shard {b = allocated_block q size none 0 s} (ground arith) none 0,
        e,
        record { registry = registry; slot = slot; retired = retired; made_calls = refl },
      )

-- Whoever looks at the structure of a block in the quarantine reads freed memory.
pub deref-retired :
    (t : State Object) (m : Ptr) → IsRetired t.cells m → deref (user_ptr m) t ≡ fault
unfolding deref
deref-retired t m g = ground (arith, g.here, g.gone)

-- A block that is asked for and filled with a structure.
module _ {shards : ℕ → List Ptr} {s : State Object} (r : IsRegistry shards s) (q size : ℕ)
    (answer : first_answer s.answers ≡ q) (ne : q ≢ null) (fresh : s.cells q ≡ none)
    (fits : meta_size + size < size_mod) (o : Object) where
  abbrev pub made : State Object
  made =
      set_cell q (some (record (allocated_block q size none 0 s) { body = holds o }))
        (allocated q size none 0 s)

  pub owner_malloc-made : owner_malloc size s ≡ ok (user_ptr q) (allocated q size none 0 s)
  unfolding owner_malloc
  owner_malloc-made = owner_malloc_internal-ok r q size none 0 answer ne fresh fits

  pub assign-made : assign (user_ptr q) size o (allocated q size none 0 s) ≡ ok tt made
  assign-made =
      assign-ok (user_ptr q) (allocated q size none 0 s) {b = allocated_block q size none 0 s}
        (ground arith) refl size o (omega arith)
      ∙ ap
          (λ x. ok tt (
            set_cell x (some (record (allocated_block q size none 0 s) { body = holds o }))
              (allocated q size none 0 s)))
          (block_of-user_ptr q)

  -- The same with a call in between.
  pub assign-called :
      (c : Call)
      → assign (user_ptr q) size o (called c (allocated q size none 0 s)) ≡ ok tt (called c made)
  assign-called c =
      assign-ok (user_ptr q) (called c (allocated q size none 0 s))
        {b = allocated_block q size none 0 s} (ground arith) refl size o (omega arith)
      ∙ ap
          (λ x. ok tt (
            set_cell x (some (record (allocated_block q size none 0 s) { body = holds o }))
              (called c (allocated q size none 0 s))))
          (block_of-user_ptr q)

  pub made-IsHeld : IsHeld (listed q shards) made q size o
  made-IsHeld = record {
    registry =
        IsRegistry-set_cell (allocated-IsRegistry r q size none 0 answer ne fresh fits) q
          {b = allocated_block q size none 0 s} (ground arith)
          (record {
            tracked = λ t. record { magic = t.magic; room = t.room };
            freed = refl;
            prev = refl;
            next = refl;
          });
    in_shard = ground arith;
    block = record (allocated_block q size none 0 s) { body = holds o };
    here = ground arith;
    contents = refl;
    room = omega arith;
    may = record { unborrowed = refl; allowed = inr refl };
  }

  -- Of another block at most the links have changed.
  pub made-Relinked :
      (x : Ptr) {b : Block Object} → s.cells x ≡ some b → Relinked s.cells made.cells x
  made-Relinked x {b} at_x =
      let (p, n, e) = in_front-Relinked s.cells x {b = b} at_x q (s.heads (shard_of q)) in
      let other : x ≢ q = λ d. cc (at_x, ap s.cells d, fresh) in (p, n, ground (arith, e))

  pub made-IsKept : (x : Ptr) → IsKept s.cells made.cells x
  made-IsKept x = record {
    kept = λ b at_x alive.
        (Relinked-IsKept s.cells made.cells x (made-Relinked x at_x)).kept b at_x alive;
  }
