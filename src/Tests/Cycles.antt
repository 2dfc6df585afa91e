-- ===== src/Tests/Cycles.antt =====
-- The collector of cycles at concrete inputs.
use owned_c.Base.{ℕ, ◌≡◌, refl, Bool, true, false, Option, none, some, ◌==◌, ◌||◌, if◌then◌else◌}
use owned_c.Runtime.State.{Ptr, null, State}
use owned_c.Runtime.Command.{ok, Run}
use owned_c.Objects.{Object, Counted, counted, read_counted, deref, assign}
use owned_c.Counting.{each_child, mark_alive, walk_gc, mark_phase}
use owned_c.Counting.Graph.{Contents}
use owned_c.Tests.{block, still}

-- Three wrappers with one reference each. The first, at 1000, has the second as a child; the third, at 3000,
-- is its own child.
abbrev wrapper : (child next : Ptr) → (child_count : ℕ) → Counted
wrapper child next child_count = record {
  inner = null;
  ref_count = 1;
  children = λ _. child;
  child_count = child_count;
  gc_ref = 0;
  gc_marked = false;
  gc_next = next;
}

abbrev contents : Contents
contents m =
    if m == 1000
    then wrapper 2080 2080 1
    else if m == 2000
    then wrapper null 3080 0
    else wrapper 3080 null 1

abbrev heap : State Object
heap =
    record (still (λ p.
      if p == 1000 || p == 2000 || p == 3000
      then some (block 80 (counted (contents p)))
      else none)) { gc_head = 1080 }

-- The marks of the three wrappers after the loops.
abbrev mark_of : Run Object Unit → Ptr → Option Bool
mark_of (ok _ t) p = elim (read_counted p t) [ ok h _ ↦ some h.gc_marked | _ ↦ none ]
mark_of _ p = none

first_mark : mark_of (mark_phase 4 heap) 1080 ≡ some true
unfolding mark_phase walk_gc mark_alive each_child read_counted deref assign
first_mark = refl

second_mark : mark_of (mark_phase 4 heap) 2080 ≡ some true
unfolding mark_phase walk_gc mark_alive each_child read_counted deref assign
second_mark = refl

third_mark : mark_of (mark_phase 4 heap) 3080 ≡ some false
unfolding mark_phase walk_gc mark_alive each_child read_counted deref assign
third_mark = refl
