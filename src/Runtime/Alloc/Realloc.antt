-- ===== src/Runtime/Alloc/Realloc.antt =====
-- `owner_realloc_internal` of src/runtime.c on a block of the registry: the block moves to where the
-- underlying allocator puts it, with its header and its bytes, or it stays where it was.
use owned_c.Base.{
  ℕ, ◌+◌, ◌%◌, ◌<◌, ◌≡◌, refl, ap, subst, sym, ◌∙◌, ◌≢◌, ◌⊎◌, false, Option, none, some, List, ◌∷◌,
  String, arith, ◌∈◌, ne→==,
}
use owned_c.Runtime.State.{Ptr, null, is_freed, meta_size, size_mod, Block, realloc_call, State}
use owned_c.Runtime.Command.{ok, put, set_cell}
use owned_c.Runtime.Access.{load-ok, update-ok, get_meta-ok}
use owned_c.Runtime.Allocator.{first_answer, later_answers, kept_body, call_realloc}
use owned_c.Runtime.Registry.{shard_of, user_ptr, insert_meta}
use owned_c.Runtime.Alloc.{is_foreign, move_block, owner_realloc_internal}
use owned_c.Runtime.Alloc.Malloc.{unlisted_of_none, not_retired_of_none}
use owned_c.Runtime.Chain.{erase, not-mem-erase_self}
use owned_c.Runtime.Insert.{inserted}
use owned_c.Runtime.Remove.{removed, next_head}
use owned_c.Runtime.Register.{listed, insert_meta-ok, inserted-IsRegistry}
use owned_c.Runtime.Unregister.{remove_meta-ok, removed-IsRegistry}
use owned_c.Runtime.Registered.{links, IsTracked, IsRegistry}
use owned_c.Runtime.Relink.{Relinked, in_front-Relinked, bypassed-Relinked}
use owned_c.Runtime.Live.{IsLive, member-IsLive}
use owned_c.Runtime.Amend.{IsRegistry-env, IsRegistry-drop}

module _ {A : Type 0} where
  call_realloc-ok :
      (m : Ptr) (bytes : ℕ) (q : Ptr) (s : State A) {b : Block A}
      → s.global_realloc ≢ 0
      → s.cells m ≡ some b
      → first_answer s.answers ≡ q
      → q ≢ null
      → call_realloc m bytes s
        ≡ ok q (
            set_cell q
              (some (record { room = bytes; header = b.header; body = kept_body bytes b.body }))
              (set_cell m none (record s {
                answers = later_answers s.answers;
                calls = realloc_call s.global_realloc m bytes ∷ s.calls;
              })))
  unfolding call_realloc
  call_realloc-ok m bytes q s can here answer ne =
      let ne' : first_answer s.answers ≢ null = λ z. ne (sym answer ∙ z) in
      rw (← answer) (ground arith)

module _ {A : Type 0} {shards : ℕ → List Ptr} {s : State A} (r : IsRegistry shards s) (m : Ptr)
    (i : m ∈ shards (shard_of m)) {b : Block A} (at_m : s.cells m ≡ some b) (q : Ptr) (size : ℕ)
    (answer : first_answer s.answers ≡ q) (ne : q ≢ null) (fresh : (q ≡ m) ⊎ (s.cells q ≡ none))
    (fits : meta_size + size < size_mod) where
  abbrev unlinked : State A
  unlinked = removed m b.header.prev b.header.next s

  -- The block where it was is gone, and nothing is yet where it goes.
  abbrev base : State A
  base = set_cell m none (record unlinked {
    answers = later_answers s.answers;
    calls = realloc_call s.global_realloc m ((meta_size + size) % size_mod) ∷ s.calls;
  })

  l : IsLive s m (r.members (shard_of m) m i).block
  l = member-IsLive r m i

  same : (r.members (shard_of m) m i).block ≡ b
  same = ground (arith, at_m, l.here)

  unlinked-IsRegistry : IsRegistry (λ j. erase m (shards j)) unlinked
  unlinked-IsRegistry = removed-IsRegistry r m i s.cells at_m (λ x d. refl) refl

  base-IsRegistry : IsRegistry (λ j. erase m (shards j)) base
  base-IsRegistry =
      IsRegistry-drop
        (IsRegistry-env unlinked-IsRegistry s.atexit_registered (later_answers s.answers)
          (realloc_call s.global_realloc m ((meta_size + size) % size_mod) ∷ s.calls) s.self
          s.output)
        m (λ j. not-mem-erase_self (links s.cells) null (s.heads j) m (shards j) (r.chains j))
        (λ j e.
          let g = r.retired j (λ z. l.ne_null (sym e ∙ z)) in
          ground (arith, at_m, ap s.cells e, g.here, g.gone, l.alive, l.here))

  not_there : base.cells q ≡ none
  not_there = ground (arith, fresh)

  -- The block where it goes: the header as it was, with the new size.
  abbrev moved_block : Block A
  moved_block = record {
    room = (meta_size + size) % size_mod;
    header = record b.header { size = size; prev = null; next = null };
    body = kept_body ((meta_size + size) % size_mod) b.body;
  }

  abbrev arrived : Block A
  arrived = record {
    room = (meta_size + size) % size_mod;
    header = record b.header { prev = null; next = null };
    body = kept_body ((meta_size + size) % size_mod) b.body;
  }

  abbrev written : Ptr → Option (Block A)
  written = put (put base.cells q (some arrived)) q (some moved_block)

  tracked : IsTracked moved_block
  tracked = record { magic = (subst IsTracked same l.tracked).magic; room = omega arith }

  alive : is_freed b.header.state ≡ false
  alive = subst (λ (c : Block A). is_freed c.header.state ≡ false) same l.alive

  abbrev pub moved : State A
  moved = inserted q (record base { cells = written })

  inserted_moved : insert_meta q (record base { cells = written }) ≡ ok tt moved
  inserted_moved =
      insert_meta-ok base-IsRegistry q ne (unlisted_of_none base-IsRegistry q not_there)
        (not_retired_of_none base-IsRegistry q ne not_there) written {b = moved_block}
        (ground arith) (λ x d. ground arith) tracked alive

  pub moved-IsRegistry : IsRegistry (listed q (λ j. erase m (shards j))) moved
  moved-IsRegistry =
      inserted-IsRegistry base-IsRegistry q ne (unlisted_of_none base-IsRegistry q not_there)
        (not_retired_of_none base-IsRegistry q ne not_there) written {b = moved_block}
        (ground arith) (λ x d. ground arith) tracked alive

  gone_room : Block A
  gone_room = record b { header = record b.header { prev = null; next = null } }

  move_block-ok : move_block m size s ≡ ok (user_ptr q) moved
  unfolding move_block gone_room
  move_block-ok = rw (
    remove_meta-ok r m i s.cells at_m (λ x d. refl) refl,
    call_realloc-ok m ((meta_size + size) % size_mod) q unlinked {b = gone_room} r.can_realloc
        (ground arith) answer ne,
    ne→== q null ne,
    update-ok q (set_cell q (some arrived) base) {b = arrived} (ground arith)
        (λ h. record h { size = size }),
    inserted_moved,
  )

  pub owner_realloc_internal_lem :
      (file : Option String) (line : ℕ)
      → size ≢ 0
      → is_foreign b.header s.self ≡ false
      → (t : State A) × (owner_realloc_internal (user_ptr m) size file line s ≡ ok (user_ptr q) t)
        × IsRegistry (listed q (λ j. erase m (shards j))) t
        × ((c : Block A) × (t.cells q ≡ some c)
            × ((p : Ptr) × (n : Ptr) × (c.header
                  ≡ record b.header { size = size; prev = p; next = n }))
            × (c.body ≡ kept_body (meta_size + size) b.body))
        × ((x : Ptr) (c : Block A)
            → x ≢ m
            → x ≢ q
            → s.cells x ≡ some c
            → Relinked s.cells t.cells x)
  unfolding owner_realloc_internal
  owner_realloc_internal_lem file line some_bytes own = (
    moved,
    rw (
      ne→== (user_ptr m) null (omega arith),
      ne→== size 0 some_bytes,
      get_meta-ok m s at_m l.ne_null (subst IsTracked same l.tracked).magic,
      ne→== m null l.ne_null,
      load-ok m s at_m,
      alive,
      own,
      move_block-ok,
    ),
    moved-IsRegistry,
    (
      record moved_block {
        header = record moved_block.header { next = next_head m b.header.next s (shard_of q) };
      },
      ground arith,
      (null, next_head m b.header.next s (shard_of q), refl),
      ap (λ n. kept_body n b.body) (omega arith),
    ),
    λ x c out away here.
        let (p, n, e) =
          bypassed-Relinked s.cells x {b = c} here m b.header.prev b.header.next out in
        let (p', n', e') =
          in_front-Relinked written x
            {b = record c { header = record c.header { prev = p; next = n } }} (ground arith) q
            (next_head m b.header.next s (shard_of q)) in
        (p', n', ground arith),
  )
