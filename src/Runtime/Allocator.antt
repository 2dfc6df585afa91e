-- ===== src/Runtime/Allocator.antt =====
-- The underlying allocator behind `global_malloc`, `global_free` and `global_realloc` of
-- src/runtime.c. It is not part of the repository: what it answers is read from the state, and the
-- model keeps which blocks it has given out. A call through a null function pointer, and a block
-- given back that is not out, are undefined.
use owned_c.Base.{ℕ, none, some, List, [], ◌∷◌, ◌==◌, if◌then◌else◌, min}
use owned_c.Runtime.State.{
  Ptr, null, invalid, Meta, Body, filled, holds, Call, malloc_call, free_call, realloc_call, State,
}
use owned_c.Runtime.Command.{ok, fault, Cmd, set_cell}

abbrev pub first_answer : List Ptr → Ptr
first_answer [] = null
first_answer (p ∷ ps) = p

abbrev pub later_answers : List Ptr → List Ptr
later_answers [] = []
later_answers (p ∷ ps) = ps

-- The header of a new block, before the registry writes it.
abbrev pub blank : Meta
blank = record {
  magic = 0;
  size = 0;
  state = invalid;
  borrow_count = 0;
  owner_thread = 0;
  alloc_file = "";
  alloc_line = 0;
  free_file = none;
  free_line = 0;
  prev = null;
  next = null;
}

module _ {A : Type 0} where
  abbrev pub called : Call → State A → State A
  called c s = record s { calls = c ∷ s.calls }

  -- A call of what is not part of the repository, for which only the record of calls is kept.
  abbrev pub call_out : Call → Cmd A Unit
  call_out c s = ok tt (called c s)

  abbrev pub answered : State A → State A
  answered s = record s { answers = later_answers s.answers }

  unfoldable pub call_malloc : (bytes : ℕ) → Cmd A Ptr
  call_malloc bytes s =
      let p = first_answer s.answers in
      let s' = called (malloc_call s.global_malloc bytes) (answered s) in
      if s.global_malloc == 0
      then fault
      else if p == null
      then ok null s'
      else ok p (set_cell p (some (record { room = bytes; header = blank; body = filled 0 0 })) s')

  unfoldable pub call_free : Ptr → Cmd A Unit
  call_free m s = if s.global_free == 0 then fault else elim (s.cells m) [
    | none ↦ fault
    | some b ↦ ok tt (set_cell m none (called (free_call s.global_free m) s))
  ]

  -- `realloc` keeps the leading bytes. An object stays in the block whatever the size; whoever reads
  -- it knows how much of it was copied.
  abbrev pub kept_body : ℕ → Body A → Body A
  kept_body bytes (filled v n) = filled v (min n bytes)
  kept_body bytes (holds a) = holds a

  unfoldable pub call_realloc : Ptr → (bytes : ℕ) → Cmd A Ptr
  call_realloc m bytes s =
      let q = first_answer s.answers in
      let s' = called (realloc_call s.global_realloc m bytes) (answered s) in
      if s.global_realloc == 0 then fault else elim (s.cells m) [
        | none ↦ fault
        | some b ↦
            if q == null
            then ok null s'
            else ok q (
                set_cell q
                  (some (record { room = bytes; header = b.header; body = kept_body bytes b.body }))
                  (set_cell m none s'))
      ]
