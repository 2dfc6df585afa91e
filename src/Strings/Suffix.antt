-- ===== src/Strings/Suffix.antt =====
-- The whole of `safe_string_append` of src/ownedc_string.c, with a buffer that has room or is moved.
use owned_c.Base.{
  ℕ, ◌+◌, ◌%◌, ◌≤◌, ◌<◌, ◌≡◌, ◌≢◌, ◌∙◌, ◌⊎◌, refl, sym, ap, subst, List, [], ◌∷◌, ◌++◌, ◌∉◌, arith,
  length, ne→==, inl, inr,
}
use owned_c.Runtime.State.{Ptr, null, size_mod, State}
use owned_c.Runtime.Command.{ok}
use owned_c.Runtime.Registered.{IsRegistry}
use owned_c.Objects.{Object, SafeString, block_of, byte_at}
use owned_c.Objects.Written.{IsKept-trans, same-IsKept}
use owned_c.Strings.{
  CharPointer, in_block, append_chars, safe_string_append, safe_string_append_safe,
  safe_string_cstr, grown_capacity,
}
use owned_c.Strings.Bytes.{
  HasChars, IsCString, of_literal, of_block, IsAway, IsCString-away_two, IsAway-fresh,
  strlen-IsCString,
}
use owned_c.Strings.Texts.{IsText, read_safe_string-ok}
use owned_c.Strings.Append.{append-IsText}
use owned_c.Strings.Growth.{CanMove, IsGrown, safe_string_grow-HasRoom}

append_nil : (xs : List ℕ) → xs ++ [] ≡ xs
append_nil [] = refl
append_nil (x ∷ xs) = ap (λ zs. x ∷ zs) (append_nil xs)

safe_string_append-chars :
    {s : State Object} {str : Ptr} {p : CharPointer} {ys : List ℕ} (fuel : ℕ)
    → IsCString s p ys
    → str ≢ null
    → safe_string_append fuel str p s ≡ append_chars fuel str p s
unfolding safe_string_append
safe_string_append-chars {str} fuel (of_literal ys) nonnull = rw (ne→== str null nonnull)
safe_string_append-chars {str} fuel (of_block h) nonnull = rw (ne→== str null nonnull)

module _ {s : State Object} {str : Ptr} {v : SafeString} {xs : List ℕ} (r : IsText s str v xs)
    {shards : ℕ → List Ptr} (g : IsRegistry shards s) (q : Ptr) where
  -- The bytes that the buffer must have room for are there, or the buffer can be moved.
  abbrev pub MayGrow : (n : ℕ) → Type 0
  MayGrow n = (n ≤ v.capacity) ⊎ CanMove s v shards r.parts.store q (grown_capacity v.capacity n)

  abbrev pub Appended : (Run : State Object → Type 0) → (ys : List ℕ) → Type 0
  Appended Run ys =
      (t : State Object) × (w : SafeString) × (shards' : ℕ → List Ptr) × Run t
      × IsGrown s t str v w (xs ++ ys) shards'

  append_chars-IsGrown :
      (fuel : ℕ) (p : CharPointer) (ys : List ℕ)
      → IsCString s p ys
      → 0 ∉ ys
      → length ys < fuel
      → IsAway p (block_of str)
      → IsAway p (block_of v.chars)
      → v.length + length ys + 1 < size_mod
      → MayGrow (v.length + length ys + 1)
      → Appended (λ t. append_chars fuel str p s ≡ ok tt t) ys
  unfolding append_chars
  append_chars-IsGrown fuel p [] c no_zero few off away fits may =
      let len = strlen-IsCString fuel 0 c no_zero (omega arith) (omega (arith, few)) in
      (
        s,
        v,
        shards,
        rw len,
        record {
          text = subst (λ zs. IsText s str v zs) (sym (append_nil xs)) r;
          registry = g;
          kept = λ x a b. same-IsKept refl;
        },
      )
  append_chars-IsGrown fuel p (y ∷ ys) c no_zero few off away fits may =
      let zs = y ∷ ys in
      let n = v.length + length zs + 1 in
      let len = strlen-IsCString fuel 0 c no_zero (omega arith) (omega (arith, few)) in
      let (t, w, run, room) = safe_string_grow-HasRoom r g q n may in
      let old = room.grown in
      let c' : IsCString t p zs =
        IsCString-away_two (block_of str) (block_of v.chars) old.kept off away c in
      let away' = IsAway-fresh (block_of w.chars) (block_of v.chars) room.place away c in
      let enough : length xs + length zs < w.capacity = omega (arith, room.enough, r.count) in
      let (u, run', text, written, same) = append-IsText old.text p zs c' away' enough in
      let no_wrap : n % size_mod ≡ n = omega (arith, fits) in
      (
        u,
        record w { length = length (xs ++ zs) },
        room.shards',
        rw (
          len,
          ne→== (length zs) 0 (omega arith),
          read_safe_string-ok r.parts,
          no_wrap,
          run,
          read_safe_string-ok old.text.parts,
          run',
        ),
        record {
          text = text;
          registry = written.registry room.shards' old.registry;
          kept = λ x a b. record {
            kept = λ k at alive.
                let out : x ≢ block_of w.chars = λ e. elim room.place [
                  | inl old_place ↦ b (e ∙ old_place)
                  | inr new ↦ cc (at, ap s.cells e, new)
                ] in
                (IsKept-trans {e = u.cells} (old.kept x a b) (same-IsKept (same x a out))).kept k at
                  alive;
          };
        },
      )

  -- Appending a C string without a zero among its bytes, which lies neither in the structure nor in the buffer of
  -- the string, with fuel for its length, where the length does not wrap and the buffer has room or can be moved:
  -- the call returns, and the bytes of the string are the old ones and those of the suffix, with a zero behind
  -- them. The registry is well formed still, and all other live blocks keep what is in them.
  pub safe_string_append-IsGrown :
      (fuel : ℕ) (p : CharPointer) (ys : List ℕ)
      → IsCString s p ys
      → 0 ∉ ys
      → length ys < fuel
      → IsAway p (block_of str)
      → IsAway p (block_of v.chars)
      → v.length + length ys + 1 < size_mod
      → MayGrow (v.length + length ys + 1)
      → Appended (λ t. safe_string_append fuel str p s ≡ ok tt t) ys
  safe_string_append-IsGrown fuel p ys c no_zero few off away fits may =
      let (t, w, shards', run, grown) =
        append_chars-IsGrown fuel p ys c no_zero few off away fits may in
      (t, w, shards', safe_string_append-chars fuel c r.parts.nonnull ∙ run, grown)

-- The bytes of a string are a C string.
IsText-HasChars :
    {s : State Object} {str : Ptr} {v : SafeString} {xs : List ℕ}
    → IsText s str v xs
    → HasChars s v.chars xs
IsText-HasChars {xs} r =
    let p = r.parts in
    record {
      block = p.store;
      here = p.store_here;
      alive = p.store_alive;
      room = omega (arith, p.store_room, r.in_capacity, r.count);
      chars = λ i lt. ap (λ z. byte_at z i) p.contents ∙ r.stored i lt;
      ends = ap (λ z. byte_at z (length xs)) p.contents ∙ r.ends;
    }

-- The same for the bytes of another string.
safe_string_append_safe-IsGrown :
    {s : State Object} {str suffix : Ptr} {v v' : SafeString} {xs ys : List ℕ}
    (r : IsText s str v xs) (r' : IsText s suffix v' ys) {shards : ℕ → List Ptr}
    (g : IsRegistry shards s) (q : Ptr) (fuel : ℕ)
    → 0 ∉ ys
    → length ys < fuel
    → block_of v'.chars ≢ block_of str
    → block_of v'.chars ≢ block_of v.chars
    → v.length + length ys + 1 < size_mod
    → MayGrow r g q (v.length + length ys + 1)
    → Appended r g q (λ t. safe_string_append_safe fuel str suffix s ≡ ok tt t) ys
unfolding safe_string_append_safe safe_string_cstr
safe_string_append_safe-IsGrown {str} {suffix} {v'} {ys} r r' g q fuel no_zero few off away fits
      may =
    let (t, w, shards', run, grown) =
      safe_string_append-IsGrown r g q fuel (in_block v'.chars) ys (of_block (IsText-HasChars r'))
        no_zero few off away fits may in
    (
      t,
      w,
      shards',
      rw (
        ne→== str null r.parts.nonnull,
        ne→== suffix null r'.parts.nonnull,
        read_safe_string-ok r'.parts,
        ne→== v'.chars null r'.parts.buffer,
        run,
      ),
      grown,
    )
