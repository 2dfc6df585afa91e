-- ===== src/Json/Strings.antt =====
-- What the parser of src/owned_json.c makes of a string.
use owned_c.Base.{
  Bytes, ℕ, zero, suc, ◌+◌, ◌%◌, ◌≤◌, ◌<◌, ◌≡◌, ◌≢◌, ◌∙◌, refl, sym, ap, Bool, true, false, Option,
  none, some, List, [], ◌∷◌, ◌++◌, ◌∉◌, arith, ◌==◌, if◌then◌else◌, length, ne→==, Bool-cases, inl,
  inr, ==→eq,
}
use owned_c.Runtime.State.{Ptr, null, meta_size, is_freed, Body, holds, Block, State}
use owned_c.Runtime.Command.{ok, set_cell, ◌>>◌}
use owned_c.Objects.{Object, block_of, byte_at, bytes, written_at, write_byte}
use owned_c.Objects.Access.{write_byte-ok}
use owned_c.Objects.Written.{IsWritten, same-IsWritten, IsWritten-trans, set_cell-IsWritten}
use owned_c.Runtime.State.{size_mod}
use owned_c.Runtime.Allocator.{first_answer}
use owned_c.Runtime.Registry.{user_ptr}
use owned_c.Runtime.Alloc.Malloc.{allocated, allocated_block, allocated-IsRegistry}
use owned_c.Runtime.Register.{listed}
use owned_c.Runtime.Registered.{IsRegistry}
use owned_c.Objects.{json, json_null}
use owned_c.Objects.Lifetime.{block_of-user_ptr, owner_malloc-made}
use owned_c.Json.Lookup.{char_at, IsText}
use owned_c.Json.Parse.{scan_string, copy_text, parse_raw_string}

-- A piece of a string: a byte, or a byte behind a backslash.
pub data Piece : Type 0 where
  plain escaped : (c : ℕ) → Piece

abbrev pub written : List Piece → Bytes
written [] = []
written (plain c ∷ ps) = c ∷ written ps
written (escaped c ∷ ps) = b'\\' ∷ c ∷ written ps

-- A byte by itself is no quotation mark and no backslash.
abbrev pub are_plain : List Piece → Bool
are_plain [] = true
are_plain (plain c ∷ ps) = if c == b'"' then false else if c == b'\\' then false else are_plain ps
are_plain (escaped c ∷ ps) = are_plain ps

-- A byte by itself is counted, whatever stands behind it.
scan_plain :
    (c : ℕ) (t : Bytes)
    → (c == b'"') ≡ false
    → (c == b'\\') ≡ false
    → scan_string (c ∷ t) ≡ (1 + (scan_string t).0, (scan_string t).1)
unfolding scan_string
scan_plain c [] q b = ground arith
scan_plain c (d ∷ cs) q b = rw (q, b, scan_string)

scan_quote : (rest : Bytes) → scan_string (b'"' ∷ rest) ≡ (0, b'"' ∷ rest)
unfolding scan_string
scan_quote [] = refl
scan_quote (d ∷ cs) = refl

-- Up to the closing quotation mark the loop counts the bytes of the pieces, and it stops there.
pub scan_string-written :
    (ps : List Piece) (rest : Bytes)
    → are_plain ps ≡ true
    → scan_string (written ps ++ b'"' ∷ rest) ≡ (length (written ps), b'"' ∷ rest)
unfolding scan_string
scan_string-written [] rest e = scan_quote rest
scan_string-written (plain c ∷ ps) rest e =
    let q : (c == b'"') ≡ false = ground arith in
    let b : (c == b'\\') ≡ false = ground arith in
    rw
      (
        scan_plain c (written ps ++ b'"' ∷ rest) q b,
        scan_string-written ps rest (ground (arith, e)),
      )
      (ground arith)
scan_string-written (escaped c ∷ ps) rest e = rw (scan_string-written ps rest e) (ground arith)

one_more :
    (c : ℕ) (cs : Bytes) (n : ℕ) (g : ℕ → Option ℕ)
    → g 0 ≡ some c
    → ((j : ℕ) → j < n → g (suc j) ≡ some (char_at cs j))
    → (j : ℕ) → j < suc n
    → g j ≡ some (char_at (c ∷ cs) j)
one_more c cs n g first others zero lt = first
one_more c cs n g first others (suc j) lt = others j (omega arith)

-- The bytes from `i` on are copied, and those before are as they were.
copied :
    (str : Ptr) (cs : Bytes) (n i : ℕ) (s : State Object) {b : Block Object}
    → s.cells (block_of str) ≡ some b
    → is_freed b.header.state ≡ false
    → meta_size + i + n ≤ b.room
    → n ≤ length cs
    → (t : State Object) × (copy_text str cs n i s ≡ ok tt t)
      × IsWritten s t
      × ((f : Body Object) × (t.cells (block_of str) ≡ some (record b { body = f }))
          × ((j : ℕ) → j < i → byte_at f j ≡ byte_at b.body j)
          × ((j : ℕ) → j < n → byte_at f (i + j) ≡ some (char_at cs j)))
unfolding copy_text
copied str cs zero i s {b} here alive room le =
    (s, refl, same-IsWritten s, (b.body, here, λ j lt. refl, λ j lt. ground arith))
copied str [] (suc n) i s here alive room le = ground arith
copied str (c ∷ cs) (suc n) i s {b} here alive room le =
    let b' : Block Object = record b { body = holds (bytes (written_at (byte_at b.body) i c)) } in
    let u : State Object = set_cell (block_of str) (some b') s in
    let w = write_byte-ok str s {b = b} here alive i c (omega (arith, room)) in
    let (t, e, v, (f, there, before, after)) =
      copied str cs n (i + 1) u {b = b'} (ground arith) alive (omega (arith, room))
        (omega (arith, le)) in
    (
      t,
      rw (w, e),
      IsWritten-trans
          (set_cell-IsWritten s (block_of str) here
            (holds (bytes (written_at (byte_at b.body) i c))))
          v,
      (
        f,
        there,
        (λ j lt. before j (omega arith) ∙ ground arith),
        one_more c cs n (λ j. byte_at f (i + j))
            (ap (byte_at f) (omega arith) ∙ before i (omega arith) ∙ ground arith)
            (λ j lt. ap (byte_at f) (omega arith) ∙ after j lt),
      ),
    )

char_end : (t : Bytes) → char_at t (length t) ≡ 0
char_end [] = refl
char_end (c ∷ cs) = char_end cs

length_le_append : (t rest : Bytes) → length t ≤ length (t ++ rest)
length_le_append [] rest = omega arith
length_le_append (c ∷ cs) rest = let le = length_le_append cs rest in omega (arith, le)

written_out : (t rest : Bytes) (j : ℕ) → j < length t → char_at (t ++ rest) j ≡ char_at t j
written_out [] rest j lt = ground arith
written_out (c ∷ cs) rest zero lt = refl
written_out (c ∷ cs) rest (suc j) lt = written_out cs rest j (omega arith)

-- A string written into a block of its length and one byte more.
module _ (str : Ptr) (t rest : Bytes) (s : State Object) {b : Block Object}
    (here : s.cells (block_of str) ≡ some b) (alive : is_freed b.header.state ≡ false)
    (room : meta_size + length t + 1 ≤ b.room) (t_out : 0 ∉ t) where
  pub filled-IsText :
      (u : State Object) × ((do copy_text str (t ++ rest) (length t) 0; write_byte str (length t) 0)
          s
        ≡ ok tt u)
      × IsWritten s u
      × IsText u str t
  filled-IsText =
      let (v, e, w, (f, there, _, after)) =
        copied str (t ++ rest) (length t) 0 s here alive (omega (arith, room))
          (length_le_append t rest) in
      let b' : Block Object = record b { body = f } in
      let last : Body Object = holds (bytes (written_at (byte_at f) (length t) 0)) in
      (
        set_cell (block_of str) (some (record b { body = last })) v,
        rw (e, write_byte-ok str v {b = b'} there alive (length t) 0 (omega (arith, room))),
        IsWritten-trans w (set_cell-IsWritten v (block_of str) {b = b'} there last),
        record {
          block = record b { body = last };
          here = ground arith;
          alive = alive;
          room = room;
          stored = λ i le. elim (Bool-cases (i == length t)) [
            | inl same ↦ rw same (ap some (sym (ap (char_at t) (==→eq _ _ same) ∙ char_end t)))
            | inr other ↦
                let lt : i < length t = ground arith in
                rw other
                  (ap (byte_at f) (omega arith) ∙ after i lt ∙ ap some (written_out t rest i lt))
          ];
          no_zero = t_out;
        },
      )

module _ {shards : ℕ → List Ptr} {s : State Object} (r : IsRegistry shards s) (ps : List Piece)
    (rest : Bytes) (q : Ptr) (plain_bytes : are_plain ps ≡ true) (no_zero : 0 ∉ written ps)
    (answer : first_answer s.answers ≡ q) (ne : q ≢ null) (fresh : s.cells q ≡ none)
    (fits : meta_size + length (written ps) + 1 < size_mod) where
  abbrev size : ℕ
  size = length (written ps) + 1

  small : size % size_mod ≡ size
  small = omega (arith, fits)

  abbrev start : State Object
  start = allocated q size none 0 s

  here : start.cells q ≡ some (allocated_block q size none 0 s)
  here = ground arith

  -- A string of bytes and escapes, with memory for it, is copied as it stands between its quotation
  -- marks, with a zero behind it, into a block of the registry, which is still well formed; the text
  -- behind the string is left.
  pub parse_raw_string-written :
      (t : State Object) × (parse_raw_string (b'"' ∷ (written ps ++ b'"' ∷ rest)) s
        ≡ ok (user_ptr q, rest) t)
      × IsText t (user_ptr q) (written ps)
      × IsRegistry (listed q shards) t
  unfolding parse_raw_string
  parse_raw_string-written =
      let (t, e, w, text) =
        filled-IsText (user_ptr q) (written ps) (b'"' ∷ rest) start
          {b = allocated_block q size none 0 s} (ap start.cells (block_of-user_ptr q) ∙ here) refl
          (omega arith) no_zero in
      (
        t,
        rw (
          scan_string-written ps rest plain_bytes,
          small,
          owner_malloc-made r q size answer ne fresh (omega (arith, fits)) (json json_null),
          ne→== (user_ptr q) null (omega arith),
          e,
        ),
        text,
        w.registry (listed q shards)
            (allocated-IsRegistry r q size none 0 answer ne fresh (omega (arith, fits))),
      )
