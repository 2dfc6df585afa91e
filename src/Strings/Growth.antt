-- ===== src/Strings/Growth.antt =====
-- `safe_string_grow` of src/ownedc_string.c: the buffer is moved to a larger one, with its bytes.
use owned_c.Base.{
  ℕ, ◌+◌, ◌≤◌, ◌<◌, ◌≡◌, ◌≢◌, ap, subst, refl, ◌∙◌, ◌⊎◌, false, Option, none, some, List, arith,
  leb, ne→==, ◌∈◌, length, inl, inr, Bool-cases,
}
use owned_c.Runtime.State.{
  Meta, Ptr, null, meta_size, size_mod, is_freed, Block, Body, filled, holds, State,
}
use owned_c.Runtime.Command.{ok, set_cell}
use owned_c.Runtime.Allocator.{first_answer, kept_body}
use owned_c.Runtime.Registry.{shard_of, user_ptr}
use owned_c.Runtime.Registered.{IsTracked, IsRegistry}
use owned_c.Runtime.Register.{listed}
use owned_c.Runtime.Chain.{erase}
use owned_c.Runtime.Live.{member-IsLive}
use owned_c.Runtime.Alloc.{is_foreign, owner_realloc, owner_realloc_internal}
use owned_c.Runtime.Alloc.Realloc.{owner_realloc_internal_lem}
use owned_c.Objects.{Object, SafeString, safe_string, block_of, byte_at}
use owned_c.Objects.Access.{assign-ok}
use owned_c.Objects.Written.{IsKept, same-IsKept, Relinked-IsKept, set_cell-IsWritten}
use owned_c.Strings.{safe_string_grow, grown_capacity, string_size}
use owned_c.Strings.Texts.{IsText, read_safe_string-ok}

-- A buffer that is moved keeps the bytes that fit.
byte_at-kept_body :
    (b : Body Object) (size i : ℕ) {x : Option ℕ}
    → meta_size + i + 1 ≤ meta_size + size
    → byte_at b i ≡ x
    → byte_at (kept_body (meta_size + size) b) i ≡ x
byte_at-kept_body (filled v n) size i le e = ground arith
byte_at-kept_body (holds o) size i le e = e

-- The buffer can be moved to one of `size` bytes: it is a block of a well formed registry that the caller may
-- move, and the underlying allocator answers with the same address or with memory not in use.
pub record CanMove (s : State Object) (v : SafeString) (shards : ℕ → List Ptr)
    (store : Block Object) (q size : ℕ) : Type 0 where
  pub in_shard : block_of v.chars ∈ shards (shard_of (block_of v.chars))
  pub answer : first_answer s.answers ≡ q
  pub nonnull : q ≢ null
  pub fresh : (q ≡ block_of v.chars) ⊎ (s.cells q ≡ none)
  pub fits : meta_size + size < size_mod
  pub own : is_foreign store.header s.self ≡ false

pub grown_capacity-le : (capacity n : ℕ) → n ≤ grown_capacity capacity n
unfolding grown_capacity
grown_capacity-le capacity n = ground arith

-- What a call on the string leaves: the string, a well formed registry, and all else in the live blocks.
pub record IsGrown (s t : State Object) (str : Ptr) (v w : SafeString) (xs : List ℕ)
    (shards : ℕ → List Ptr) : Type 0 where
  pub text : IsText t str w xs
  pub registry : IsRegistry shards t
  pub kept : (x : Ptr) → x ≢ block_of str → x ≢ block_of v.chars → IsKept s.cells t.cells x

module _ {s : State Object} {str : Ptr} {v : SafeString} {xs : List ℕ} (r : IsText s str v xs)
    {shards : ℕ → List Ptr} (g : IsRegistry shards s) (q : Ptr) where
  abbrev moved_string : (n : ℕ) → SafeString
  moved_string n = record v { chars = user_ptr q; capacity = grown_capacity v.capacity n }

  pub safe_string_grow-moved :
      (n : ℕ)
      → v.capacity < n
      → CanMove s v shards r.parts.store q (grown_capacity v.capacity n)
      → (t : State Object) × (safe_string_grow str n s ≡ ok tt t)
        × IsGrown s t str v
            (moved_string n)
            xs
            (listed q (λ j. erase (block_of v.chars) (shards j)))
  unfolding safe_string_grow owner_realloc
  safe_string_grow-moved n more can =
      let p = r.parts in
      let m = block_of v.chars in
      let size = grown_capacity v.capacity n in
      let large : n ≤ size = grown_capacity-le v.capacity n in
      let l = member-IsLive g m can.in_shard in
      let at_chars : user_ptr m ≡ v.chars = omega (arith, l.ne_null) in
      let (t, run, g', (c, at_q, (_, _, new_header), kept), others) =
        owner_realloc_internal_lem g m can.in_shard p.store_here q size can.answer can.nonnull
          can.fresh can.fits none 0 (omega (arith, large, more)) can.own in
      let mem : q ∈ listed q (λ j. erase m (shards j)) (shard_of q) = ground arith in
      let l' = member-IsLive g' q mem in
      let same : (g'.members (shard_of q) q mem).block ≡ c = ground (arith, l'.here, at_q) in
      let tracked : IsTracked c = subst IsTracked same l'.tracked in
      let away : block_of str ≢ q = ground (arith, p.apart, p.frame_here, can.fresh) in
      let (prev', next', still) = others (block_of str) p.frame p.apart away p.frame_here in
      let w = moved_string n in
      let frame' : Block Object = record p.frame {
        header = record p.frame.header { prev = prev'; next = next' };
      } in
      let there : t.cells (block_of str) ≡ some frame' = still ∙ ground (arith, p.frame_here) in
      let new : Block Object = record frame' { body = holds (safe_string w) } in
      let run' : owner_realloc_internal v.chars size none 0 s ≡ ok (user_ptr q) t =
        subst (λ k. owner_realloc_internal k size none 0 s ≡ ok (user_ptr q) t) at_chars run in
      let put = assign-ok str t there p.frame_alive string_size (safe_string w) p.frame_room in
      let small : leb n v.capacity ≡ false = ground arith in
      let f = set_cell-IsWritten t (block_of str) there (holds (safe_string w)) in
      (
        set_cell (block_of str) (some new) t,
        rw (read_safe_string-ok p, small, run', ne→== (user_ptr q) null (omega arith), put),
        record {
          text = record {
            body = kept_body (meta_size + size) r.body;
            parts = record {
              frame = new;
              frame_here = ground arith;
              frame_alive = p.frame_alive;
              frame_room = p.frame_room;
              fields = refl;
              store = c;
              store_here = ground (arith, at_q, away);
              store_alive = ap (λ (h : Meta). is_freed h.state) new_header ∙ p.store_alive;
              store_room = omega (arith, tracked.room, ap (λ (h : Meta). h.size) new_header);
              contents = kept ∙ ap (λ z. kept_body (meta_size + size) z) p.contents;
              apart = omega (arith, away);
              nonnull = p.nonnull;
              buffer = omega arith;
              small = omega (arith, can.fits);
            };
            count = r.count;
            in_capacity = omega (arith, r.in_capacity, large, more);
            stored = λ j lt.
                byte_at-kept_body r.body size j
                  (omega (arith, lt, r.count, r.in_capacity, large, more)) (r.stored j lt);
            ends =
                byte_at-kept_body r.body size (length xs)
                  (omega (arith, r.count, r.in_capacity, large, more)) r.ends;
          };
          registry = f.registry (listed q (λ j. erase m (shards j))) g';
          kept = λ x not_frame not_store. record {
            kept = λ b at alive.
                let out : x ≢ q = ground (arith, at, not_store, can.fresh) in
                let k = Relinked-IsKept s.cells t.cells x (others x b not_store out at) in
                let (b', at', body, room, live) = k.kept b at alive in
                (b', ground (arith, at', not_frame), body, room, live);
          };
        },
      )

  -- Where the string is now.
  pub record HasRoom (t : State Object) (w : SafeString) (n : ℕ) : Type 0 where
    pub shards' : ℕ → List Ptr
    pub grown : IsGrown s t str v w xs shards'
    pub enough : n ≤ w.capacity
    pub same_length : w.length ≡ v.length
    pub place : (block_of w.chars ≡ block_of v.chars) ⊎ (s.cells (block_of w.chars) ≡ none)

  pub safe_string_grow-HasRoom :
      (n : ℕ)
      → (n ≤ v.capacity) ⊎ CanMove s v shards r.parts.store q (grown_capacity v.capacity n)
      → (t : State Object) × (w : SafeString) × (safe_string_grow str n s ≡ ok tt t) × HasRoom t w n
  unfolding safe_string_grow
  safe_string_grow-HasRoom n may = elim (Bool-cases (leb n v.capacity)) [
    | inl e ↦ (
      s,
      v,
      rw (read_safe_string-ok r.parts, e),
      record {
        shards' = shards;
        grown = record { text = r; registry = g; kept = λ x a b. same-IsKept refl };
        enough = ground arith;
        same_length = refl;
        place = inl refl;
      },
    )
    | inr e ↦ elim may [
      | inl le ↦ absurd (ground arith)
      | inr can ↦
          let (t, run, grown) = safe_string_grow-moved n (ground arith) can in
          (
            t,
            moved_string n,
            run,
            record {
              shards' = listed q (λ j. erase (block_of v.chars) (shards j));
              grown = grown;
              enough = grown_capacity-le v.capacity n;
              same_length = refl;
              place = elim can.fresh [
                | inl at ↦ inl (omega (arith, at))
                | inr none_there ↦ inr (ap s.cells (omega arith) ∙ none_there)
              ];
            },
          )
    ]
  ]
