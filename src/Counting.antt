-- ===== src/Counting.antt =====
-- src/ownedc_rc.c: reference counts, and the collector of cycles over the global list of counts.
pub mod Graph
pub mod Reach
pub mod Marks
pub mod Phases
pub mod References
pub mod Roots
pub mod Alive
pub mod Unlink
pub mod Owned
pub mod Unregister
pub mod Drop
pub mod Count
pub mod Swept
pub mod Gone
pub mod Sweep
pub mod Collect
use owned_c.Base.{
  ℕ, zero, suc, ◌+◌, ◌-◌, ◌%◌, true, false, ◌||◌, Option, none, some, ltb, ◌==◌, if◌then◌else◌,
}
use owned_c.Runtime.State.{Ptr, null, size_mod}
use owned_c.Runtime.Command.{◌>>=◌, ◌>>◌, pure, gets, modify, out_of_fuel}
use owned_c.Runtime.Registry.{unless}
use owned_c.Runtime.Alloc.{owner_malloc, owner_free}
use owned_c.Objects.{Act, Counted, counted, read_counted, assign}

-- `sizeof(owned_rc_t)`
abbrev pub rc_size : ℕ
rc_size = 80

abbrev pub max_rc_children : ℕ
max_rc_children = 4

-- `*rc = h`
abbrev pub write_counted : (rc : Ptr) → Counted → Act Unit
write_counted rc h = assign rc rc_size (counted h)

unfoldable pub register_in_gc : (rc : Ptr) → Act Unit
register_in_gc rc = do
  first ← gets (λ s. s.gc_head)
  h ← read_counted rc
  write_counted rc (record h { gc_next = first })
  modify (λ s. record s { gc_head = rc })

-- What `curr` points at in `unregister_from_gc`: `gc_head`, or the `gc_next` of a wrapper.
abbrev pub read_place : Option Ptr → Act Ptr
read_place none = gets (λ s. s.gc_head)
read_place (some x) = do h ← read_counted x; pure h.gc_next

abbrev pub write_place : Option Ptr → Ptr → Act Unit
write_place none p = modify (λ s. record s { gc_head = p })
write_place (some x) p = do h ← read_counted x; write_counted x (record h { gc_next = p })

unfoldable pub unlink_at : (fuel : ℕ) → (rc : Ptr) → (place : Option Ptr) → Act Unit
unlink_at zero rc place = λ _. out_of_fuel
unlink_at (suc k) rc place = do
  x ← read_place place
  if x == null
      then pure tt
      else if x == rc
      then (do h ← read_counted rc; write_place place h.gc_next)
      else unlink_at k rc (some x)

unfoldable pub unregister_from_gc : (fuel : ℕ) → (rc : Ptr) → Act Unit
unregister_from_gc fuel rc = unlink_at fuel rc none

-- The children, which are not written, are null here: none is read at or above `child_count`.
unfoldable pub owned_rc_new : (p : Ptr) → Act Ptr
owned_rc_new p = do
  rc ← owner_malloc rc_size
  if rc == null then (do unless (p == null) (owner_free p); pure null) else do
    write_counted rc (record {
      inner = p;
      ref_count = 1;
      children = λ _. null;
      child_count = 0;
      gc_ref = 0;
      gc_marked = false;
      gc_next = null;
    })
    register_in_gc rc
    pure rc

unfoldable pub owned_rc_clone : (rc : Ptr) → Act Ptr
owned_rc_clone rc = if rc == null then pure null else do
  h ← read_counted rc
  write_counted rc (record h { ref_count = (h.ref_count + 1) % size_mod })
  pure rc

-- What `owned_rc_drop` does once the count is zero.
unfoldable pub drop_last : (fuel : ℕ) → (rc : Ptr) → Act Unit
drop_last fuel rc = do
  unregister_from_gc fuel rc
  h ← read_counted rc
  unless (h.inner == null) (do owner_free h.inner; write_counted rc (record h { inner = null }))
  owner_free rc

unfoldable pub owned_rc_drop : (fuel : ℕ) → (rc : Ptr) → Act Unit
owned_rc_drop fuel rc = if rc == null then pure tt else do
  h ← read_counted rc
  if ltb 0 h.ref_count
      then (do
        write_counted rc (record h { ref_count = h.ref_count - 1 })
        if h.ref_count - 1 == 0 then drop_last fuel rc else pure tt)
      else pure tt

unfoldable pub owned_rc_get : (rc : Ptr) → Act Ptr
owned_rc_get rc = if rc == null then pure null else (do h ← read_counted rc; pure h.inner)

unfoldable pub owned_rc_register_child : (parent child : Ptr) → Act Unit
owned_rc_register_child parent child = if parent == null || child == null then pure tt else do
  h ← read_counted parent
  if ltb h.child_count max_rc_children
      then write_counted parent (record h {
        children = λ i. if i == h.child_count then child else h.children i;
        child_count = h.child_count + 1;
      })
      else pure tt

-- The loop over `n` children of `rc` from child `i` on.
unfoldable pub each_child : (Ptr → Act Unit) → (rc : Ptr) → (n i : ℕ) → Act Unit
each_child visit rc zero i = pure tt
each_child visit rc (suc n) i = do
  h ← read_counted rc
  visit (h.children i)
  each_child visit rc n (i + 1)

-- The fuel bounds the depth of the recursion.
unfoldable pub mark_alive : (fuel : ℕ) → (rc : Ptr) → Act Unit
mark_alive zero rc = λ _. out_of_fuel
mark_alive (suc k) rc = do
  h ← read_counted rc
  if h.gc_marked then pure tt else do
    write_counted rc (record h { gc_marked = true })
    each_child (λ c. mark_alive k c) rc h.child_count 0

-- `while (curr) { visit; curr = curr->gc_next; }`
unfoldable pub walk_gc : (fuel : ℕ) → (Ptr → Act Unit) → (curr : Ptr) → Act Unit
walk_gc zero visit curr = λ _. out_of_fuel
walk_gc (suc k) visit curr =
    if curr == null
    then pure tt
    else do visit curr; h ← read_counted curr; walk_gc k visit h.gc_next

abbrev pub copy_count : Ptr → Act Unit
copy_count rc = do
  h ← read_counted rc
  write_counted rc (record h { gc_ref = h.ref_count; gc_marked = false })

abbrev pub take_reference : Ptr → Act Unit
take_reference c = do
  h ← read_counted c
  if ltb 0 h.gc_ref then write_counted c (record h { gc_ref = h.gc_ref - 1 }) else pure tt

abbrev pub take_references : Ptr → Act Unit
take_references rc = do h ← read_counted rc; each_child take_reference rc h.child_count 0

abbrev pub mark_root : (fuel : ℕ) → Ptr → Act Unit
mark_root fuel rc = do h ← read_counted rc; if ltb 0 h.gc_ref then mark_alive fuel rc else pure tt

-- The last loop of `owned_rc_collect_cycles`. The next wrapper is read before this one is freed.
unfoldable pub sweep : (limit fuel : ℕ) → (curr : Ptr) → (freed_count : ℕ) → Act ℕ
sweep limit zero curr freed_count = λ _. out_of_fuel
sweep limit (suc k) curr freed_count = if curr == null then pure freed_count else do
  h ← read_counted curr
  if h.gc_marked then sweep limit k h.gc_next freed_count else do
    write_counted curr (record h { ref_count = 1 })
    owned_rc_drop limit curr
    sweep limit k h.gc_next (freed_count + 1)

-- The three loops of `owned_rc_collect_cycles` before the last.
unfoldable pub mark_phase : (fuel : ℕ) → Act Unit
mark_phase fuel = do
  a ← gets (λ s. s.gc_head)
  walk_gc fuel copy_count a
  b ← gets (λ s. s.gc_head)
  walk_gc fuel take_references b
  c ← gets (λ s. s.gc_head)
  walk_gc fuel (mark_root fuel) c

unfoldable pub owned_rc_collect_cycles : (fuel : ℕ) → Act ℕ
owned_rc_collect_cycles fuel = do mark_phase fuel; d ← gets (λ s. s.gc_head); sweep fuel fuel d 0

-- The cleanup of an `OWNED_RC` variable, on the value that the variable holds.
unfoldable pub cleanup_owned_rc_drop : (fuel : ℕ) → (rc : Ptr) → Act Unit
cleanup_owned_rc_drop fuel rc = unless (rc == null) (owned_rc_drop fuel rc)
