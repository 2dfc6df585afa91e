-- ===== src/Strings/Texts.antt =====
-- The string of src/ownedc_string.c stands for the list of its bytes.
use owned_c.Base.{
  ℕ, ◌+◌, ◌≤◌, ◌<◌, ◌≡◌, ◌≢◌, ◌∙◌, refl, ap, false, some, List, arith, length, get_elem?,
}
use owned_c.Runtime.State.{Ptr, null, meta_size, size_mod, is_freed, holds, Body, Block, State}
use owned_c.Runtime.Command.{ok, ◌>>◌, set_cell}
use owned_c.Objects.{
  Object, SafeString, safe_string, read_safe_string, bytes, block_of, byte_at, written_at,
}
use owned_c.Objects.Access.{deref-ok, assign-ok, write_byte-ok}
use owned_c.Objects.Written.{IsWritten, IsWritten-trans, set_cell-IsWritten}
use owned_c.Strings.{string_size, set_length, set_char}

-- The structure at `str` and its buffer are two live blocks, the structure has the fields `v`, and the buffer
-- holds `body`.
pub record IsBuffered (s : State Object) (str : Ptr) (v : SafeString) (body : Body Object)
    : Type 0 where
  pub frame : Block Object
  pub frame_here : s.cells (block_of str) ≡ some frame
  pub frame_alive : is_freed frame.header.state ≡ false
  pub frame_room : meta_size + string_size ≤ frame.room
  pub fields : frame.body ≡ holds (safe_string v)
  pub store : Block Object
  pub store_here : s.cells (block_of v.chars) ≡ some store
  pub store_alive : is_freed store.header.state ≡ false
  pub store_room : meta_size + v.capacity ≤ store.room
  pub contents : store.body ≡ body
  pub apart : block_of str ≢ block_of v.chars
  pub nonnull : str ≢ null
  pub buffer : v.chars ≢ null
  pub small : v.capacity < size_mod

-- The first bytes of the buffer are `xs`.
abbrev pub HasBytes : Body Object → List ℕ → Type 0
HasBytes b xs = (i : ℕ) → i < length xs → byte_at b i ≡ get_elem? xs i

-- The string holds the bytes `xs`, and a zero behind them.
pub record IsText (s : State Object) (str : Ptr) (v : SafeString) (xs : List ℕ) : Type 0 where
  pub body : Body Object
  pub parts : IsBuffered s str v body
  pub count : v.length ≡ length xs
  pub in_capacity : v.length + 1 ≤ v.capacity
  pub stored : HasBytes body xs
  pub ends : byte_at body (length xs) ≡ some 0

module _ {s : State Object} {str : Ptr} {v : SafeString} {body : Body Object}
    (r : IsBuffered s str v body) where
  pub read_safe_string-ok : read_safe_string str s ≡ ok v s
  unfolding read_safe_string
  read_safe_string-ok = rw (deref-ok str s {b = r.frame} r.frame_here r.frame_alive r.fields)

  -- `str->length = n`
  abbrev pub resized : ℕ → State Object
  resized n =
      set_cell (block_of str)
        (some (record r.frame { body = holds (safe_string (record v { length = n })) })) s

  pub set_length-ok : (n : ℕ) → set_length str n s ≡ ok tt (resized n)
  unfolding set_length
  set_length-ok n = rw (
    read_safe_string-ok,
    assign-ok str s {b = r.frame} r.frame_here r.frame_alive string_size
        (safe_string (record v { length = n })) r.frame_room,
  )

  pub resized-IsBuffered : (n : ℕ) → IsBuffered (resized n) str (record v { length = n }) body
  resized-IsBuffered n = record {
    frame = record r.frame { body = holds (safe_string (record v { length = n })) };
    frame_here = ground arith;
    frame_alive = r.frame_alive;
    frame_room = r.frame_room;
    fields = refl;
    store = r.store;
    store_here = ground (arith, r.store_here, r.apart);
    store_alive = r.store_alive;
    store_room = r.store_room;
    contents = r.contents;
    apart = r.apart;
    nonnull = r.nonnull;
    buffer = r.buffer;
    small = r.small;
  }

  -- The bytes of the buffer are other ones.
  abbrev pub refilled : Body Object → State Object
  refilled new = set_cell (block_of v.chars) (some (record r.store { body = new })) s

  pub set_char-ok :
      (i x : ℕ)
      → i < v.capacity
      → set_char str i x s ≡ ok tt (refilled (holds (bytes (written_at (byte_at body) i x))))
  unfolding set_char
  set_char-ok i x lt =
      let put =
        write_byte-ok v.chars s {b = r.store} r.store_here r.store_alive i x
          (omega (arith, r.store_room, lt)) in
      rw (read_safe_string-ok, put)
        (ap (λ z. ok tt (refilled (holds (bytes (written_at (byte_at z) i x))))) r.contents)

  -- Another state with the same structure, and with `new` in the buffer.
  pub filled-IsBuffered :
      {t : State Object} (new : Body Object)
      → t.cells (block_of v.chars) ≡ some (record r.store { body = new })
      → ((x : Ptr) → x ≢ block_of v.chars → t.cells x ≡ s.cells x)
      → IsBuffered t str v new
  filled-IsBuffered new there others = record {
    frame = r.frame;
    frame_here = others (block_of str) r.apart ∙ r.frame_here;
    frame_alive = r.frame_alive;
    frame_room = r.frame_room;
    fields = r.fields;
    store = record r.store { body = new };
    store_here = there;
    store_alive = r.store_alive;
    store_room = r.store_room;
    contents = refl;
    apart = r.apart;
    nonnull = r.nonnull;
    buffer = r.buffer;
    small = r.small;
  }

  pub refilled-IsBuffered : (new : Body Object) → IsBuffered (refilled new) str v new
  refilled-IsBuffered new = filled-IsBuffered new (ground arith) (λ x ne. ground arith)

-- The length is set to that of the bytes in the buffer, and a zero is put behind them.
module _ {s : State Object} {str : Ptr} {v : SafeString} {body : Body Object}
    (r : IsBuffered s str v body) where
  pub closed-IsText :
      (xs : List ℕ)
      → HasBytes body xs
      → length xs < v.capacity
      → (t : State Object) × ((do set_length str (length xs); set_char str (length xs) 0) s
          ≡ ok tt t)
        × IsText t str (record v { length = length xs }) xs
        × IsWritten s t
        × ((x : Ptr) → x ≢ block_of str → x ≢ block_of v.chars → t.cells x ≡ s.cells x)
  closed-IsText xs has lt =
      let n = length xs in
      let r' = resized-IsBuffered r n in
      let new : Body Object = holds (bytes (written_at (byte_at body) n 0)) in
      (
        refilled r' new,
        rw (set_length-ok r n, set_char-ok r' n 0 lt),
        record {
          body = new;
          parts = refilled-IsBuffered r' new;
          count = refl;
          in_capacity = omega (arith, lt);
          stored = λ i small. ground (arith, has i small);
          ends = ground arith;
        },
        IsWritten-trans
            (set_cell-IsWritten s (block_of str) r.frame_here
              (holds (safe_string (record v { length = n }))))
            (set_cell-IsWritten (resized r n) (block_of v.chars) r'.store_here new),
        λ x a b. ground arith,
      )
