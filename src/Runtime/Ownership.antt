-- ===== src/Runtime/Ownership.antt =====
-- src/runtime.c, the ownership calls: `ownership_transfer`, `ownership_claim`, `ownership_borrow`,
-- `ownership_release`, `ownership_share`.
pub mod Borrow
pub mod Claim
use owned_c.Base.{◌+◌, ◌-◌, ◌&&◌, none, ltb, ◌==◌, if◌then◌else◌}
use owned_c.Runtime.State.{
  Ptr, null, owned, borrowed, shared, is_freed, is_shared, is_borrowed, int_max, Meta,
}
use owned_c.Runtime.Command.{Cmd, undefined, pure, gets, ◌>>=◌, load, update, diagnostics_fatal}
use owned_c.Runtime.Registry.{get_meta}
use owned_c.Runtime.Alloc.{is_foreign}

-- The header with one borrow more, and with one less.
abbrev pub borrow_meta : Meta → Meta
borrow_meta h = record h {
  borrow_count = h.borrow_count + 1;
  state = if is_shared h.state then h.state else borrowed;
}

abbrev pub release_meta : Meta → Meta
release_meta h = record h {
  borrow_count = h.borrow_count - 1;
  state = if h.borrow_count - 1 == 0 && is_borrowed h.state then owned else h.state;
}

module _ {A : Type 0} where
  unfoldable pub ownership_transfer : (from to : Ptr) → Cmd A Unit
  ownership_transfer from to = pure tt

  unfoldable pub ownership_claim : Ptr → Cmd A Unit
  ownership_claim p = if p == null then pure tt else do
    m ← get_meta p
    if m == null then diagnostics_fatal "Invalid claim (Untracked pointer)" p none 0 else do
      self ← gets (λ s. s.self)
      update m (λ h. record h { owner_thread = self; state = owned })

  -- Past the largest `int` the count is undefined.
  unfoldable pub ownership_borrow : Ptr → Cmd A Unit
  ownership_borrow p = if p == null then pure tt else do
    m ← get_meta p
    if m == null then diagnostics_fatal "Invalid borrow (Untracked pointer)" p none 0 else do
      h ← load m
      self ← gets (λ s. s.self)
      if is_freed h.state
          then diagnostics_fatal "Use-after-free (Borrow on freed pointer)" p none 0
          else if is_foreign h self
          then diagnostics_fatal "Thread Ownership Violation (Borrow)" p none 0
          else if h.borrow_count == int_max
          then undefined
          else update m borrow_meta

  unfoldable pub ownership_release : Ptr → Cmd A Unit
  ownership_release p = if p == null then pure tt else do
    m ← get_meta p
    if m == null then diagnostics_fatal "Invalid release (Untracked pointer)" p none 0 else do
      h ← load m
      if ltb 0 h.borrow_count
          then update m release_meta
          else diagnostics_fatal "Release without borrow" p none 0

  unfoldable pub ownership_share : Ptr → Cmd A Unit
  ownership_share p = if p == null then pure tt else do
    m ← get_meta p
    if m == null then diagnostics_fatal "Invalid share (Untracked pointer)" p none 0 else do
      h ← load m
      self ← gets (λ s. s.self)
      if h.owner_thread == self
          then update m (λ g. record g { state = shared })
          else diagnostics_fatal "Thread Ownership Violation (Share must be called by owner)" p none
              0
