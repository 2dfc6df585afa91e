-- ===== src/Runtime/Insert.antt =====
-- What `insert_meta` of src/runtime.c does to the headers and the heads.
use mathlib.Core.Path.{fun_ext}
use owned_c.Base.{◌≡◌, ap, ◌∙◌, ◌≢◌, ◌⊎◌, inl, inr, Option, none, some, arith, ◌==◌, if◌then◌else◌}
use owned_c.Runtime.State.{Ptr, null, Meta, Block, State}
use owned_c.Runtime.Command.{Run, ok, set_cell}
use owned_c.Runtime.Registry.{shard_of, set_prev, set_head, insert_meta}

module _ {A : Type 0} where
  abbrev pub map_header : (Meta → Meta) → Option (Block A) → Option (Block A)
  map_header f none = none
  map_header f (some b) = some (record b { header = f b.header })

  -- The block `m` in front of the one at `head`.
  abbrev pub in_front : (m head : Ptr) → (Ptr → Option (Block A)) → Ptr → Option (Block A)
  in_front m head c x =
      if x == m
      then map_header (λ h. record h { prev = null; next = head }) (c x)
      else if x == head
      then map_header (set_prev m) (c x)
      else c x

  abbrev pub inserted : Ptr → State A → State A
  inserted m s =
      set_head (shard_of m) m (record s { cells = in_front m (s.heads (shard_of m)) s.cells })

  module _ (m : Ptr) (s : State A) {b : Block A} (at_m : s.cells m ≡ some b) where
    front_block : Block A
    front_block = record b { header = record b.header { prev = null; next = s.heads (shard_of m) } }

    insert_empty :
        s.heads (shard_of m) ≡ null
        → insert_meta m s ≡ ok tt (set_head (shard_of m) m (set_cell m (some front_block) s))
    unfolding insert_meta front_block
    insert_empty empty = ground arith

    insert_before :
        {c : Block A}
        → s.heads (shard_of m) ≢ null
        → s.heads (shard_of m) ≢ m
        → s.cells (s.heads (shard_of m)) ≡ some c
        → insert_meta m s
          ≡ ok tt (
              set_head (shard_of m) m (
                set_cell
                  (s.heads (shard_of m))
                  (some (record c { header = set_prev m c.header }))
                  (set_cell m (some front_block) s)))
    unfolding insert_meta front_block
    insert_before used ne at_head = ground arith

    abbrev with_cells : (Ptr → Option (Block A)) → Run A Unit
    with_cells c = ok tt (set_head (shard_of m) m (record s { cells = c }))

    pub insert_meta-inserted :
        s.cells null ≡ none
        → s.heads (shard_of m) ≢ m
        → (s.heads (shard_of m) ≡ null)
          ⊎ ((c : Block A) × (s.cells (s.heads (shard_of m)) ≡ some c))
        → insert_meta m s ≡ ok tt (inserted m s)
    insert_meta-inserted no_null ne (inl empty) =
        insert_empty empty ∙ ap with_cells (fun_ext λ x. unfold front_block in ground arith)
    insert_meta-inserted no_null ne (inr (c, at_head)) =
        insert_before (ground arith) ne at_head
        ∙ ap with_cells (fun_ext λ x. unfold front_block in ground arith)
