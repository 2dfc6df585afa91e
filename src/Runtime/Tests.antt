-- ===== src/Runtime/Tests.antt =====
-- The registry at concrete inputs.
use owned_c.Base.{
  ℕ, ◌<◌, ◌≡◌, refl, inl, inr, ◌↔◌, Bool, true, false, Option, none, some, String, List, [], ◌∷◌,
  ◌++◌, arith, length, ltb, if◌then◌else◌,
}
use owned_c.Runtime.State.{
  Ptr, null, owned, freed, filled, quarantine_size, leaks_found, Block, State,
}
use owned_c.Runtime.Command.{Cmd, Run, ok, exited, ◌>>=◌, ◌>>◌, load, update, memset}
use owned_c.Runtime.Allocator.{call_malloc, call_free}
use owned_c.Runtime.Registry.{get_meta, insert_meta, remove_meta}
use owned_c.Runtime.Alloc.{
  owner_malloc_internal, owner_free_internal, owner_realloc_internal, write_header, release_block,
  quarantine_put,
}
use owned_c.Runtime.Alloc.Malloc.{allocated, allocated_block, allocated-IsRegistry}
use owned_c.Runtime.Alloc.Free.{MayFree, released, owner_free_internal-ok, owner_free_internal_iff}
use owned_c.Runtime.Chain.{erase}
use owned_c.Runtime.Live.{IsLive}
use owned_c.Runtime.Misuse.{claim_revives, reported, borrowed_is_kept}
use owned_c.Runtime.Ownership.{ownership_claim, ownership_borrow, ownership_release}
use owned_c.Runtime.Ownership.Borrow.{times, release-borrow_times}
use owned_c.Runtime.Register.{listed}
use owned_c.Runtime.Registered.{IsRegistry, IsRetired}
use owned_c.Runtime.Report.{check_leaks}
use owned_c.Runtime.Report.Leaks.{leaks, reports, at_end, check_leaks_lem}
use owned_c.Runtime.Report.Walk.{log}
use owned_c.Runtime.Window.{start, free, Uses-IsRegistry, double_free_is_caught}

-- A process that has not called the library yet; the underlying allocator will answer with three
-- addresses.
abbrev begin : State ℕ
begin = record {
  cells = λ _. none;
  heads = λ _. null;
  quarantine = λ _. null;
  quarantine_tail = 0;
  atexit_registered = false;
  global_malloc = 1;
  global_free = 2;
  global_realloc = 3;
  answers = 4096 ∷ 8192 ∷ 12288 ∷ [];
  calls = [];
  self = 7;
  gc_head = null;
  output = [];
}

abbrev no_shards : ℕ → List Ptr
no_shards _ = []

begin-IsRegistry : IsRegistry no_shards begin
begin-IsRegistry = record {
  no_null = refl;
  chains = λ i. refl;
  members = λ i m k. cc;
  retired = λ j ne. absurd (ne refl);
  distinct = λ j k ne e. absurd (ne refl);
  tail = omega arith;
  can_malloc = omega arith;
  can_free = omega arith;
  can_realloc = omega arith;
}

one-IsRegistry : IsRegistry (listed 4096 no_shards) (allocated 4096 100 none 0 begin)
one-IsRegistry =
    allocated-IsRegistry begin-IsRegistry 4096 100 none 0 refl (omega arith) refl (omega arith)

abbrev one : State ℕ
one = allocated 4096 100 none 0 begin

owner_free_internal_iff_example :
    ((t : State ℕ) × (owner_free_internal 4176 none 0 one ≡ ok tt t))
    ↔ MayFree (allocated_block 4096 100 none 0 begin).header 7
owner_free_internal_iff_example =
    owner_free_internal_iff one-IsRegistry 4096 refl {b = allocated_block 4096 100 none 0 begin}
      refl none 0

one_may_be_freed : MayFree (allocated_block 4096 100 none 0 begin).header 7
one_may_be_freed = record { unborrowed = refl; allowed = inr refl }

abbrev gone : State ℕ
gone = released one-IsRegistry 4096 refl {b = allocated_block 4096 100 none 0 begin} refl none 0

abbrev first_block : Block ℕ
first_block = allocated_block 4096 100 none 0 begin

free_one :
    (owner_free_internal 4176 none 0 one ≡ ok tt gone)
    × IsRegistry (λ i. erase 4096 (listed 4096 no_shards i)) gone
    × (gone.quarantine 0 ≡ 4096)
    × IsRetired gone.cells 4096
    × ((c : Block ℕ) × (gone.cells 4096 ≡ some c)
        × (c.header.state ≡ freed)
        × (c.header.free_line ≡ 0)
        × (c.body ≡ filled 0xEF 100))
free_one =
    owner_free_internal-ok one-IsRegistry 4096 refl {b = first_block} refl none 0 one_may_be_freed

double_free_is_caught_example :
    (owner_free_internal 4176 none 0 gone ≡ exited 1 (reported "Double-free" 4176 none 0 gone))
    × (owner_realloc_internal 4176 8 none 0 gone
        ≡ exited 1 (reported "Use-after-free (Realloc on freed pointer)" 4176 none 0 gone))
    × (ownership_borrow 4176 gone
        ≡ exited 1 (reported "Use-after-free (Borrow on freed pointer)" 4176 none 0 gone))
double_free_is_caught_example =
    double_free_is_caught one-IsRegistry 4096 refl none 0 free_one.0 start (omega arith) 8 none 0
      (omega arith)

Uses-IsRegistry_example : IsRegistry (λ i. erase 4096 (listed 4096 no_shards i)) gone
Uses-IsRegistry_example = Uses-IsRegistry (free start 4096 none 0 refl free_one.0) one-IsRegistry

one-IsLive : IsLive one 4096 first_block
one-IsLive = record {
  here = refl;
  ne_null = omega arith;
  tracked = record { magic = refl; room = omega arith };
  alive = refl;
}

release-borrow_times_example :
    (times 3 (ownership_borrow 4176) >> times 3 (ownership_release 4176)) one ≡ ok tt one
release-borrow_times_example =
    release-borrow_times 3 4096 one-IsLive refl (inr (inl (refl, refl))) (omega arith)

borrowed_is_kept_example :
    (t : State ℕ) × ((times 3 (ownership_borrow 4176) >> times 2 (ownership_release 4176)) one
      ≡ ok tt t)
    × ((thread : ℕ) (file : Option String) (line : ℕ)
        → owner_free_internal 4176 file line (record t { self = thread })
          ≡ exited 1
              (reported "Freeing borrowed object" 4176 file line (record t { self = thread })))
borrowed_is_kept_example =
    borrowed_is_kept 3 2 4096 (omega arith) one-IsLive refl (inr (inl (refl, refl))) (omega arith)

check_leaks_lem_example :
    (check_leaks 2 one ≡ (
      if ltb 0 (length (leaks one-IsRegistry))
      then exited 1 (log (leaks_found (length (leaks one-IsRegistry)) ∷ []) (at_end one-IsRegistry))
      else ok tt (at_end one-IsRegistry)))
    × ((at_end one-IsRegistry).output ≡ one.output ++ reports one.cells (leaks one-IsRegistry))
    × ((j : ℕ) → j < quarantine_size → (at_end one-IsRegistry).quarantine j ≡ null)
check_leaks_lem_example = check_leaks_lem one-IsRegistry 2 λ j. ground arith

leaks_of_one : leaks one-IsRegistry ≡ 4096 ∷ []
leaks_of_one = refl

-- The calls run: a block is allocated, borrowed, released and freed.
session : Cmd ℕ Unit
unfolding owner_malloc_internal owner_free_internal ownership_borrow ownership_release insert_meta
    remove_meta get_meta load update memset call_malloc call_free write_header release_block
    quarantine_put
session = do
  p ← owner_malloc_internal 100 none 0
  ownership_borrow p
  ownership_release p
  owner_free_internal p none 0

abbrev is_done : Run ℕ Unit → Bool
is_done (ok _ _) = true
is_done _ = false

session_returns : is_done (session begin) ≡ true
unfolding session
session_returns = refl

claim_revives_example :
    (t : State ℕ) × (ownership_claim 4176 gone ≡ ok tt t)
    × (t.quarantine 0 ≡ 4096)
    × ((b : Block ℕ) × (t.cells 4096 ≡ some b)
        × (b.header.state ≡ owned)
        × (b.header.owner_thread ≡ 7))
    × ((sh : ℕ → List Ptr) → ¬ IsRegistry sh t)
claim_revives_example = claim_revives free_one.1 0 (omega arith)
