-- ===== src/Runtime/Remove.antt =====
-- What `remove_meta` of src/runtime.c does to the headers and the heads.
use mathlib.Core.Path.{fun_ext, ap₂}
use owned_c.Base.{ℕ, ◌≡◌, ◌∙◌, ◌≢◌, ◌⊎◌, inl, inr, Option, none, some, arith, ◌==◌, if◌then◌else◌}
use owned_c.Runtime.State.{Ptr, null, Block, State}
use owned_c.Runtime.Command.{Run, ok, set_cell}
use owned_c.Runtime.Registry.{shard_of, set_prev, set_next, set_head, remove_meta}
use owned_c.Runtime.Insert.{map_header}

module _ {A : Type 0} where
  -- The neighbours `a` and `b` of `m` joined, and `m` without links.
  abbrev pub bypassed : (m a b : Ptr) → (Ptr → Option (Block A)) → Ptr → Option (Block A)
  bypassed m a b c x =
      if x == m
      then map_header (λ h. record h { prev = null; next = null }) (c x)
      else if x == a
      then map_header (set_next b) (c x)
      else if x == b
      then map_header (set_prev a) (c x)
      else c x

  abbrev pub next_head : (m b : Ptr) → State A → ℕ → Ptr
  next_head m b s j =
      if j == shard_of m
      then (if s.heads (shard_of m) == m then b else s.heads (shard_of m))
      else s.heads j

  abbrev pub removed : (m a b : Ptr) → State A → State A
  removed m a b s = record s { cells = bypassed m a b s.cells; heads = next_head m b s }

  -- A neighbour is absent, or its header is there.
  abbrev pub IsNeighbour : State A → Ptr → Type 0
  IsNeighbour s a = (a ≡ null) ⊎ ((c : Block A) × (s.cells a ≡ some c))

  module _ (m : Ptr) (s : State A) {b : Block A} (at_m : s.cells m ≡ some b) where
    alone : Block A
    alone = record b { header = record b.header { prev = null; next = null } }

    abbrev with_parts : (Ptr → Option (Block A)) → (ℕ → Ptr) → Run A Unit
    with_parts c h = ok tt (record s { cells = c; heads = h })

    abbrev linked_next : Ptr → Block A → State A → State A
    linked_next a c = set_cell a (some (record c { header = set_next b.header.next c.header }))

    abbrev linked_prev : Ptr → Block A → State A → State A
    linked_prev n c = set_cell n (some (record c { header = set_prev b.header.prev c.header }))

    module _ (no_null : s.cells null ≡ none) (p_ne : b.header.prev ≢ m) (n_ne : b.header.next ≢ m)
        (apart : b.header.prev ≢ null → b.header.prev ≢ b.header.next)
        (first : (b.header.prev == null) ≡ (s.heads (shard_of m) == m)) where
      front_last :
          b.header.prev ≡ null
          → b.header.next ≡ null
          → remove_meta m s ≡ ok tt (set_cell m (some alone) (set_head (shard_of m) null s))
      unfolding remove_meta alone
      front_last e f = ground arith

      front_more :
          {c : Block A}
          → b.header.prev ≡ null
          → b.header.next ≢ null
          → s.cells b.header.next ≡ some c
          → remove_meta m s
            ≡ ok tt (
                set_cell m
                  (some alone)
                  (linked_prev b.header.next c (set_head (shard_of m) b.header.next s)))
      unfolding remove_meta alone
      front_more e f at_next = ground arith

      behind_last :
          {c : Block A}
          → b.header.prev ≢ null
          → b.header.next ≡ null
          → s.cells b.header.prev ≡ some c
          → remove_meta m s ≡ ok tt (set_cell m (some alone) (linked_next b.header.prev c s))
      unfolding remove_meta alone
      behind_last e f at_prev = ground arith

      behind_more :
          {c d : Block A}
          → b.header.prev ≢ null
          → b.header.next ≢ null
          → s.cells b.header.prev ≡ some c
          → s.cells b.header.next ≡ some d
          → remove_meta m s
            ≡ ok tt (
                set_cell m
                  (some alone)
                  (linked_prev b.header.next d (linked_next b.header.prev c s)))
      unfolding remove_meta alone
      behind_more e f at_prev at_next = ground arith

      pub remove_meta-removed :
          IsNeighbour s b.header.prev
          → IsNeighbour s b.header.next
          → remove_meta m s ≡ ok tt (removed m b.header.prev b.header.next s)
      unfolding alone
      remove_meta-removed (inl e) (inl f) =
          front_last e f ∙ ap₂ with_parts (fun_ext λ x. ground arith) (fun_ext λ j. ground arith)
      remove_meta-removed (inl e) (inr (c, at_next)) =
          front_more e (ground arith) at_next
          ∙ ap₂ with_parts (fun_ext λ x. ground arith) (fun_ext λ j. ground arith)
      remove_meta-removed (inr (c, at_prev)) (inl f) =
          behind_last (ground arith) f at_prev
          ∙ ap₂ with_parts (fun_ext λ x. ground arith) (fun_ext λ j. ground arith)
      remove_meta-removed (inr (c, at_prev)) (inr (d, at_next)) =
          behind_more (ground arith) (ground arith) at_prev at_next
          ∙ ap₂ with_parts (fun_ext λ x. ground arith) (fun_ext λ j. ground arith)
