-- ===== src/Runtime/Report.antt =====
-- src/runtime.c, what walks the registry: `check_leaks` (the `atexit` handler), `ownership_inspect`,
-- `ownership_dump`, `ownership_dump_borrows`, `ownership_stats`, `ownership_dump_json`. A walk along a shard takes fuel.
pub mod Walk
pub mod Leaks
use owned_c.Base.{ℕ, zero, suc, ◌+◌, Bool, true, false, ◌||◌, ltb, ◌==◌, if◌then◌else◌}
use owned_c.Runtime.State.{
  Ptr, null, Ownership, is_owned, is_shared, is_borrowed, is_freed, num_shards, quarantine_size,
  Meta, text, leaks_found, untracked, inspected, entry, borrow_entry, stats, file_text, file_entry,
  fopen_call, fclose_call,
}
use owned_c.Runtime.Command.{
  Cmd, exited, out_of_fuel, pure, gets, modify, ◌>>=◌, ◌>>◌, load, print, diagnostics_report_leak,
}
use owned_c.Runtime.Allocator.{call_free, call_out}
use owned_c.Runtime.Registry.{user_ptr, unless, get_meta}

-- The states that `check_leaks` reports.
abbrev pub is_leak : Ownership → Bool
is_leak o = is_owned o || is_shared o

-- The states that `ownership_stats` counts as active.
abbrev pub is_active : Ownership → Bool
is_active o = is_owned o || is_shared o || is_borrowed o

-- The slots of the quarantine in use, among `n` from slot `i` on.
unfoldable pub quarantined : (ℕ → Ptr) → (n i count : ℕ) → ℕ
quarantined q zero i count = count
quarantined q (suc n) i count = quarantined q n (i + 1) (if q i == null then count else count + 1)

module _ {A B : Type 0} where
  -- `while (curr) { visit; curr = curr->next; }`
  unfoldable pub walk : ℕ → (Ptr → Meta → B → Cmd A B) → Ptr → B → Cmd A B
  walk zero visit p acc = λ _. out_of_fuel
  walk (suc k) visit p acc =
      if p == null then pure acc else do h ← load p; acc' ← visit p h acc; walk k visit h.next acc'

  -- The walks along `n` shards from shard `i` on.
  unfoldable pub walk_shards : ℕ → (Ptr → Meta → B → Cmd A B) → (n i : ℕ) → B → Cmd A B
  walk_shards fuel visit zero i acc = pure acc
  walk_shards fuel visit (suc n) i acc = do
    head ← gets (λ s. s.heads i)
    acc' ← walk fuel visit head acc
    walk_shards fuel visit n (i + 1) acc'

module _ {A : Type 0} where
  unfoldable pub report_leak : Ptr → Meta → ℕ → Cmd A ℕ
  report_leak m h count =
      if is_leak h.state
      then (do
        diagnostics_report_leak (user_ptr m) h.alloc_file h.alloc_line h.size
        pure (count + 1))
      else pure count

  -- The quarantine is given back, slot by slot.
  unfoldable pub clear_quarantine : (n i : ℕ) → Cmd A Unit
  clear_quarantine zero i = pure tt
  clear_quarantine (suc n) i = do
    old ← gets (λ s. s.quarantine i)
    unless (old == null) (do
      call_free old
      modify (λ s. record s { quarantine = λ j. if j == i then null else s.quarantine j }))
    clear_quarantine n (i + 1)

  unfoldable pub check_leaks : (fuel : ℕ) → Cmd A Unit
  check_leaks fuel = do
    count ← walk_shards fuel report_leak num_shards 0 0
    clear_quarantine quarantine_size 0
    if ltb 0 count then (do print (leaks_found count); exited 1) else pure tt

  unfoldable pub ownership_inspect : Ptr → Cmd A Unit
  ownership_inspect p = do
    m ← get_meta p
    if m == null then print (untracked p) else (do h ← load m; print (inspected p h))

  abbrev pub dump_entry : Ptr → Meta → Unit {0} → Cmd A Unit
  dump_entry m h _ = print (entry (user_ptr m) h)

  unfoldable pub ownership_dump : (fuel : ℕ) → Cmd A Unit
  ownership_dump fuel = do
    print (text "--- Ownership Dump ---")
    walk_shards fuel dump_entry num_shards 0 tt

  abbrev pub dump_borrow : Ptr → Meta → ℕ → Cmd A ℕ
  dump_borrow m h found =
      if ltb 0 h.borrow_count
      then (do print (borrow_entry (user_ptr m) h); pure (found + 1))
      else pure found

  unfoldable pub ownership_dump_borrows : (fuel : ℕ) → Cmd A Unit
  ownership_dump_borrows fuel = do
    print (text "--- Borrowed Objects Dump ---")
    found ← walk_shards fuel dump_borrow num_shards 0 0
    if found == 0 then print (text "No active borrows.") else pure tt

  -- Active and freed blocks, counted along the shards.
  abbrev pub tally : Ptr → Meta → ℕ × ℕ → Cmd A (ℕ × ℕ)
  tally m h (active, gone) =
      if is_active h.state
      then pure (active + 1, gone)
      else if is_freed h.state
      then pure (active, gone + 1)
      else pure (active, gone)

  unfoldable pub ownership_stats : (fuel : ℕ) → Cmd A Unit
  ownership_stats fuel = do
    (active, gone) ← walk_shards fuel tally num_shards 0 (0, 0)
    q ← gets (λ s. s.quarantine)
    print (stats active (quarantined q quarantine_size 0 gone))

  -- An entry of the file, behind a comma unless it is the first.
  unfoldable pub json_entry : (f : Ptr) → Ptr → Meta → (first : Bool) → Cmd A Bool
  json_entry f m h first = if is_freed h.state then pure first else do
    unless first (print (file_text f ",\n"))
    print (file_entry f (user_ptr m) h)
    pure false

  -- `mode` is the address of the literal "w", and `f` what `fopen` returns.
  unfoldable pub ownership_dump_json : (fuel : ℕ) → (filepath mode f : Ptr) → Cmd A Unit
  ownership_dump_json fuel filepath mode f = do
    call_out (fopen_call filepath mode)
    if f == null then pure tt else do
      print (file_text f "{\n  \"allocations\": [\n")
      walk_shards fuel (json_entry f) num_shards 0 true
      print (file_text f "\n  ]\n}\n")
      call_out (fclose_call f)
