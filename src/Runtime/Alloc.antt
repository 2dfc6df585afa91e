-- ===== src/Runtime/Alloc.antt =====
-- src/runtime.c, the public allocation calls: `owner_malloc`, `owner_calloc`, `owner_realloc`,
-- `owner_free`, their `_internal` forms, `owner_malloc_usable_size`, `ownedc_set_allocators`, and
-- `owner_free_cleanup` of include/ownedc.h.
pub mod Malloc
pub mod Realloc
pub mod Free
pub mod Quarantine
use owned_c.Base.{
  ℕ, ◌+◌, ◌-◌, ◌*◌, ◌%◌, String, Bool, true, not, ◌&&◌, Option, none, some, ltb, ◌==◌,
  if◌then◌else◌,
}
use owned_c.Runtime.State.{
  Ptr, null, owned, freed, is_freed, is_shared, magic_word, meta_size, size_mod, quarantine_size,
  Meta,
}
use owned_c.Runtime.Command.{
  Cmd, fault, pure, gets, modify, ◌>>=◌, ◌>>◌, load, update, memset, diagnostics_fatal,
}
use owned_c.Runtime.Allocator.{call_malloc, call_free, call_realloc}
use owned_c.Runtime.Registry.{user_ptr, unless, get_meta, insert_meta, remove_meta}

abbrev pub or_unknown : Option String → String
or_unknown none = "<unknown>"
or_unknown (some f) = f

-- The header that `owner_malloc_internal` writes. `insert_meta` writes the links.
abbrev pub new_meta : (size : ℕ) → Option String → ℕ → (self : ℕ) → Meta
new_meta size file line self = record {
  magic = magic_word;
  size = size;
  state = owned;
  borrow_count = 0;
  owner_thread = self;
  alloc_file = or_unknown file;
  alloc_line = line;
  free_file = none;
  free_line = 0;
  prev = null;
  next = null;
}

-- The thread check of `owner_realloc_internal`, `owner_free_internal` and `ownership_borrow`.
abbrev pub is_foreign : Meta → (self : ℕ) → Bool
is_foreign h self = not (is_shared h.state) && not (h.owner_thread == self)

-- What `owner_free_internal` writes to the header.
abbrev pub freed_meta : Option String → ℕ → Meta → Meta
freed_meta file line h = record h {
  state = freed;
  free_file = some (or_unknown file);
  free_line = line;
}

module _ {A : Type 0} where
  unfoldable pub ownedc_set_allocators : (m_fn f_fn r_fn : ℕ) → Cmd A Unit
  ownedc_set_allocators m_fn f_fn r_fn = modify λ s. record s {
    global_malloc = if m_fn == 0 then s.global_malloc else m_fn;
    global_free = if f_fn == 0 then s.global_free else f_fn;
    global_realloc = if r_fn == 0 then s.global_realloc else r_fn;
  }

  -- A header needs its bytes: a block smaller than the header is written out of bounds.
  unfoldable pub write_header : Ptr → Meta → Cmd A Unit
  write_header m h s = elim (s.cells m) [
    | none ↦ fault
    | some b ↦ if ltb b.room meta_size then fault else update m (λ _. h) s
  ]

  unfoldable pub owner_malloc_internal : (size : ℕ) → Option String → ℕ → Cmd A Ptr
  unfolding write_header
  owner_malloc_internal size file line = do
    modify (λ s. record s { atexit_registered = true })
    m ← call_malloc ((meta_size + size) % size_mod)
    if m == null then pure null else do
      self ← gets (λ s. s.self)
      write_header m (new_meta size file line self)
      insert_meta m
      memset m 0xAA size
      pure (user_ptr m)

  unfoldable pub owner_malloc : (size : ℕ) → Cmd A Ptr
  owner_malloc size = owner_malloc_internal size none 0

  unfoldable pub owner_calloc : (num size : ℕ) → Cmd A Ptr
  owner_calloc num size = do
    let total = num * size % size_mod
    p ← owner_malloc_internal total none 0
    unless (p == null) (memset (p - meta_size) 0 total)
    pure p

  -- The ring of freed blocks: the oldest is given back to make room.
  unfoldable pub quarantine_put : Ptr → Cmd A Unit
  quarantine_put m = do
    t ← gets (λ s. s.quarantine_tail)
    old ← gets (λ s. s.quarantine t)
    unless (old == null) (call_free old)
    modify λ s. record s {
      quarantine = λ j. if j == t then m else s.quarantine j;
      quarantine_tail = (t + 1) % quarantine_size;
    }

  -- What follows the checks of `owner_free_internal`.
  unfoldable pub release_block : Ptr → Option String → ℕ → Cmd A Unit
  release_block m file line = do
    update m (freed_meta file line)
    h ← load m
    memset m 0xEF h.size
    remove_meta m
    quarantine_put m

  unfoldable pub owner_free_internal : Ptr → Option String → ℕ → Cmd A Unit
  owner_free_internal p file line = if p == null then pure tt else do
    m ← get_meta p
    if m == null then diagnostics_fatal "Invalid free (Untracked pointer)" p file line else do
      h ← load m
      self ← gets (λ s. s.self)
      if is_freed h.state
          then diagnostics_fatal "Double-free" p file line
          else if ltb 0 h.borrow_count
          then diagnostics_fatal "Freeing borrowed object" p file line
          else if is_foreign h self
          then diagnostics_fatal "Thread Ownership Violation (Free)" p file line
          else release_block m file line

  unfoldable pub owner_free : Ptr → Cmd A Unit
  owner_free p = owner_free_internal p none 0

  -- What follows the checks of `owner_realloc_internal`.
  unfoldable pub move_block : Ptr → (size : ℕ) → Cmd A Ptr
  move_block m size = do
    remove_meta m
    m' ← call_realloc m ((meta_size + size) % size_mod)
    if m' == null
        then (do insert_meta m; pure null)
        else do update m' (λ h. record h { size = size }); insert_meta m'; pure (user_ptr m')

  unfoldable pub owner_realloc_internal : Ptr → (size : ℕ) → Option String → ℕ → Cmd A Ptr
  owner_realloc_internal p size file line =
      if p == null
      then owner_malloc_internal size file line
      else if size == 0
      then (do owner_free_internal p file line; pure null)
      else do
        m ← get_meta p
        if m == null
            then diagnostics_fatal "Invalid Realloc (Untracked pointer)" p file line
            else do
              h ← load m
              self ← gets (λ s. s.self)
              if is_freed h.state
                  then diagnostics_fatal "Use-after-free (Realloc on freed pointer)" p file line
                  else if is_foreign h self
                  then diagnostics_fatal "Thread Ownership Violation (Realloc)" p file line
                  else move_block m size

  unfoldable pub owner_realloc : Ptr → (size : ℕ) → Cmd A Ptr
  owner_realloc p size = owner_realloc_internal p size none 0

  -- The cleanup of an `OWNED` variable, on the value that the variable holds.
  unfoldable pub owner_free_cleanup : Ptr → Cmd A Unit
  owner_free_cleanup p = unless (p == null) (owner_free p)

  unfoldable pub owner_malloc_usable_size : Ptr → Cmd A ℕ
  owner_malloc_usable_size p =
      if p == null
      then pure 0
      else do m ← get_meta p; if m == null then pure 0 else (do h ← load m; pure h.size)
