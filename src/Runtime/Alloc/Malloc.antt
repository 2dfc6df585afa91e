-- ===== src/Runtime/Alloc/Malloc.antt =====
-- What `owner_malloc_internal` of src/runtime.c returns and registers.
use owned_c.Base.{
  ℕ, ◌+◌, ◌%◌, ◌≤◌, ◌<◌, ◌≡◌, refl, ap, subst, fun_ext, sym, ◌∙◌, ◌≢◌, inl, inr, true, Option, none,
  some, List, ◌∷◌, String, arith, Bool-cases, has, ◌∉◌, ne→==,
}
use owned_c.Runtime.State.{Ptr, null, meta_size, size_mod, Meta, Block, filled, malloc_call, State}
use owned_c.Runtime.Command.{Run, ok, put, set_cell}
use owned_c.Runtime.Allocator.{first_answer, later_answers, blank, call_malloc}
use owned_c.Runtime.Registry.{set_head, shard_of, user_ptr, insert_meta}
use owned_c.Runtime.Access.{update-ok, memset-ok}
use owned_c.Runtime.Alloc.{new_meta, owner_malloc_internal, write_header}
use owned_c.Runtime.Insert.{inserted, in_front}
use owned_c.Runtime.Register.{listed, insert_meta-ok, inserted-IsRegistry}
use owned_c.Runtime.Registered.{IsRegistry}
use owned_c.Runtime.Amend.{IsRegistry-env, IsRegistry-set_cell}

module _ {A : Type 0} where
  -- The request of `size` user bytes, before the header is written.
  abbrev pub requested : (size : ℕ) → State A → State A
  requested size s = record s {
    atexit_registered = true;
    answers = later_answers s.answers;
    calls = malloc_call s.global_malloc ((meta_size + size) % size_mod) ∷ s.calls;
  }

  -- The new block, in front of its shard.
  abbrev pub allocated_block : (q : Ptr) (size : ℕ) → Option String → ℕ → State A → Block A
  allocated_block q size file line s = record {
    room = meta_size + size;
    header = record (new_meta size file line s.self) { prev = null; next = s.heads (shard_of q) };
    body = filled 0xAA size;
  }

  -- The state behind a call that was answered with `q`.
  abbrev pub allocated : (q : Ptr) (size : ℕ) → Option String → ℕ → State A → State A
  allocated q size file line s = set_head (shard_of q) q (record (requested size s) {
    cells =
        put (in_front q (s.heads (shard_of q)) s.cells) q
          (some (allocated_block q size file line s));
  })

  -- A block that is not there is in no shard and in no slot of the quarantine.
  pub unlisted_of_none :
      {shards : ℕ → List Ptr} {s : State A} (r : IsRegistry shards s) (q : Ptr)
      → s.cells q ≡ none
      → (i : ℕ) → q ∉ shards i
  unlisted_of_none {shards} r q fresh i = elim (Bool-cases (has q (shards i))) [
    | inl k ↦ cc (fresh, (r.members i q k).here)
    | inr o ↦ o
  ]

  pub not_retired_of_none :
      {shards : ℕ → List Ptr} {s : State A} (r : IsRegistry shards s) (q : Ptr)
      → q ≢ null
      → s.cells q ≡ none
      → (j : ℕ) → s.quarantine j ≢ q
  not_retired_of_none {s} r q ne fresh j e =
      let g = r.retired j (λ z. ne (sym e ∙ z)) in cc (fresh, g.here, ap s.cells e)

  pub write_header-ok :
      (m : Ptr) (s : State A) {b : Block A}
      → s.cells m ≡ some b
      → (h : Meta) → meta_size ≤ b.room
      → write_header m h s ≡ ok tt (set_cell m (some (record b { header = h })) s)
  unfolding write_header
  write_header-ok m s at_m h fits = ground (arith, update-ok m s at_m (λ _. h))

  pub call_malloc-ok :
      (bytes : ℕ) (q : Ptr) (s : State A)
      → s.global_malloc ≢ 0
      → first_answer s.answers ≡ q
      → q ≢ null
      → call_malloc bytes s
        ≡ ok q (
            set_cell q
              (some (record { room = bytes; header = blank; body = filled 0 0 }))
              (record s {
                answers = later_answers s.answers;
                calls = malloc_call s.global_malloc bytes ∷ s.calls;
              }))
  unfolding call_malloc
  call_malloc-ok bytes q s can answer ne = rw answer (ground arith)

  module _ {shards : ℕ → List Ptr} {s : State A} (r : IsRegistry shards s) (q : Ptr) (size : ℕ)
      (file : Option String) (line : ℕ) (answer : first_answer s.answers ≡ q) (ne : q ≢ null)
      (fresh : s.cells q ≡ none) (fits : meta_size + size < size_mod) where
    base : IsRegistry shards (requested size s)
    base =
        IsRegistry-env r true (later_answers s.answers)
          (malloc_call s.global_malloc ((meta_size + size) % size_mod) ∷ s.calls) s.self s.output

    abbrev blank_block : Block A
    blank_block = record { room = (meta_size + size) % size_mod; header = blank; body = filled 0 0 }

    -- The headers when `insert_meta` is called.
    abbrev written : Ptr → Option (Block A)
    written =
        put (put s.cells q (some blank_block)) q
          (some (record blank_block { header = new_meta size file line s.self }))

    abbrev new_block : Block A
    new_block = record blank_block { header = new_meta size file line s.self }

    abbrev front_block : Block A
    front_block = record blank_block {
      header = record (new_meta size file line s.self) { prev = null; next = s.heads (shard_of q) };
    }

    inserted_new :
        insert_meta q (record (requested size s) { cells = written })
        ≡ ok tt (inserted q (record (requested size s) { cells = written }))
    inserted_new =
        insert_meta-ok base q ne (unlisted_of_none r q fresh) (not_retired_of_none r q ne fresh)
          written {b = new_block} (ground arith) (λ x d. ground arith)
          (record { magic = refl; room = omega arith }) refl

    abbrev with_cells : (Ptr → Option (Block A)) → Run A Ptr
    with_cells c =
        ok (user_ptr q) (set_head (shard_of q) q (record (requested size s) { cells = c }))

    raw :
        owner_malloc_internal size file line s
        ≡ with_cells (
            put (in_front q (s.heads (shard_of q)) written) q (
              some (record {
                room = (meta_size + size) % size_mod;
                header = record (new_meta size file line s.self) {
                  prev = null;
                  next = s.heads (shard_of q);
                };
                body = filled 0xAA size;
              })))
    unfolding owner_malloc_internal
    raw = rw (
      call_malloc-ok ((meta_size + size) % size_mod) q (record s { atexit_registered = true })
          r.can_malloc answer ne,
      ne→== q null ne,
      write_header-ok q (record (requested size s) { cells = put s.cells q (some blank_block) })
          {b = blank_block} (ground arith) (new_meta size file line s.self) (omega arith),
      inserted_new,
      memset-ok q (inserted q (record (requested size s) { cells = written })) {b = front_block}
          (ground arith) 0xAA size (omega arith),
    )

    pub owner_malloc_internal-ok :
        owner_malloc_internal size file line s ≡ ok (user_ptr q) (allocated q size file line s)
    owner_malloc_internal-ok = raw ∙ ap with_cells (fun_ext λ x. ground arith)

    front :
        IsRegistry (listed q shards) (inserted q (record (requested size s) { cells = written }))
    front =
        inserted-IsRegistry base q ne (unlisted_of_none r q fresh)
          (not_retired_of_none r q ne fresh) written {b = new_block} (ground arith)
          (λ x d. ground arith) (record { magic = refl; room = omega arith }) refl

    pub allocated-IsRegistry : IsRegistry (listed q shards) (allocated q size file line s)
    allocated-IsRegistry =
        subst
          (λ c.
            IsRegistry (listed q shards)
              (set_head (shard_of q) q (record (requested size s) { cells = c })))
          (fun_ext λ x. ground arith)
          (IsRegistry-set_cell front q {b = front_block} {b' = allocated_block q size file line s}
            (ground arith)
            (record {
              tracked = λ t. record { magic = refl; room = omega arith };
              freed = refl;
              prev = refl;
              next = refl;
            }))

  -- When the underlying allocator has nothing, the call returns null and registers nothing.
  pub owner_malloc_internal-null :
      (size : ℕ) (file : Option String) (line : ℕ) (s : State A)
      → s.global_malloc ≢ 0
      → first_answer s.answers ≡ null
      → owner_malloc_internal size file line s ≡ ok null (requested size s)
  unfolding owner_malloc_internal call_malloc
  owner_malloc_internal-null size file line s can none_left = ground arith
