-- ===== src/Runtime/Access.antt =====
-- Reads and writes of a block that is there, and `get_meta` of src/runtime.c on a user pointer.
use owned_c.Base.{ℕ, ◌+◌, ◌-◌, ◌≤◌, ◌≡◌, ◌≢◌, some, arith, false, ◌==◌}
use owned_c.Runtime.State.{Ptr, null, Meta, Block, filled, meta_size, magic_word, State}
use owned_c.Runtime.Command.{ok, set_cell, load, update, memset}
use owned_c.Runtime.Registry.{user_ptr, get_meta}

module _ {A : Type 0} (m : Ptr) (s : State A) {b : Block A} (at_m : s.cells m ≡ some b) where
  pub load-ok : load m s ≡ ok b.header s
  unfolding load
  load-ok = ground arith

  pub update-ok :
      (f : Meta → Meta)
      → update m f s ≡ ok tt (set_cell m (some (record b { header = f b.header })) s)
  unfolding update
  update-ok f = ground arith

  pub memset-ok :
      (v n : ℕ)
      → meta_size + n ≤ b.room
      → memset m v n s ≡ ok tt (set_cell m (some (record b { body = filled v n })) s)
  unfolding memset
  memset-ok v n fits = ground arith

  -- The header of a user pointer is found where it stands in front of it.
  pub get_meta-ok : m ≢ null → b.header.magic ≡ magic_word → get_meta (user_ptr m) s ≡ ok m s
  unfolding get_meta
  get_meta-ok ne h =
      let back : user_ptr m - meta_size ≡ m = omega arith in
      let nonnull : (user_ptr m == null) ≡ false = ground arith in
      rw (nonnull, back, load-ok) (ground arith)

  -- Without the magic word the pointer is taken for one that the registry does not know.
  pub get_meta-unknown : b.header.magic ≢ magic_word → get_meta (user_ptr m) s ≡ ok null s
  unfolding get_meta
  get_meta-unknown h =
      let back : user_ptr m - meta_size ≡ m = omega arith in
      let nonnull : (user_ptr m == null) ≡ false = ground arith in
      rw (nonnull, back, load-ok) (ground arith)
