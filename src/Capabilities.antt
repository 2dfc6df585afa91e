-- ===== src/Capabilities.antt =====
-- include/ownedc_cheri.h: the allocation calls for hardware with capabilities, where the compiler's
-- `cheri_bounds_set` is an argument, and for hardware without.
use owned_c.Base.{ℕ, ◌*◌, ◌%◌, ◌==◌, if◌then◌else◌}
use owned_c.Runtime.State.{Ptr, null, size_mod}
use owned_c.Runtime.Command.{pure, ◌>>=◌}
use owned_c.Runtime.Alloc.{owner_malloc, owner_calloc}
use owned_c.Objects.{Act}

module _ (cheri_bounds_set : Ptr → (size : ℕ) → Ptr) where
  unfoldable pub bounded_malloc : (size : ℕ) → Act Ptr
  bounded_malloc size = do
    p ← owner_malloc size
    if p == null then pure null else pure (cheri_bounds_set p size)

  unfoldable pub bounded_calloc : (num size : ℕ) → Act Ptr
  bounded_calloc num size = do
    p ← owner_calloc num size
    if p == null then pure null else pure (cheri_bounds_set p (num * size % size_mod))

abbrev pub owner_malloc_cheri : (size : ℕ) → Act Ptr
owner_malloc_cheri size = owner_malloc size

abbrev pub owner_calloc_cheri : (num size : ℕ) → Act Ptr
owner_calloc_cheri num size = owner_calloc num size
