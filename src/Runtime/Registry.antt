-- ===== src/Runtime/Registry.antt =====
-- src/runtime.c, the registry: `get_shard_idx`, `get_meta`, `insert_meta`, `remove_meta`. Each shard
-- is a doubly linked list through the headers. The calls of a function run one after another, so the
-- mutexes of the shards, which keep each of these bodies whole, have no part in the state.
use owned_c.Base.{ℕ, Bool, ◌+◌, ◌-◌, ◌/◌, ◌%◌, ◌==◌, if◌then◌else◌}
use owned_c.Runtime.State.{Ptr, null, num_shards, magic_word, meta_size, Meta, State}
use owned_c.Runtime.Command.{Cmd, pure, gets, modify, ◌>>=◌, ◌>>◌, load, update}

-- `(uintptr_t)ptr >> 4) % NUM_SHARDS`
abbrev pub get_shard_idx : Ptr → ℕ
get_shard_idx p = p / 16 % num_shards

abbrev pub user_ptr : Ptr → Ptr
user_ptr m = m + meta_size

-- The shard of the block with header `m`.
abbrev pub shard_of : Ptr → ℕ
shard_of m = get_shard_idx (user_ptr m)

abbrev pub set_prev : Ptr → Meta → Meta
set_prev p h = record h { prev = p }

abbrev pub set_next : Ptr → Meta → Meta
set_next p h = record h { next = p }

module _ {A : Type 0} where
  -- The header in front of `p`, or null if the magic word is not there.
  unfoldable pub get_meta : Ptr → Cmd A Ptr
  unfolding load
  get_meta p =
      if p == null
      then pure null
      else do let m = p - meta_size; h ← load m; if h.magic == magic_word then pure m else pure null

  abbrev pub set_head : ℕ → Ptr → State A → State A
  set_head i p s = record s { heads = λ j. if j == i then p else s.heads j }

  abbrev pub unless : Bool → Cmd A Unit → Cmd A Unit
  unless b c = if b then pure tt else c

  unfoldable pub insert_meta : Ptr → Cmd A Unit
  unfolding update
  insert_meta m = do
    let i = shard_of m
    head ← gets (λ s. s.heads i)
    update m (λ h. record h { prev = null; next = head })
    unless (head == null) (update head (set_prev m))
    modify (set_head i m)

  unfoldable pub remove_meta : Ptr → Cmd A Unit
  unfolding load update
  remove_meta m = do
    let i = shard_of m
    h ← load m
    head ← gets (λ s. s.heads i)
    (if h.prev == null
        then (if head == m then modify (set_head i h.next) else pure tt)
        else update h.prev (set_next h.next))
    h' ← load m
    unless (h'.next == null) (update h'.next (set_prev h'.prev))
    update m (λ h. record h { prev = null; next = null })
