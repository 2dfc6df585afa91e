-- ===== src/Strings.antt =====
-- src/ownedc_string.c: the growing string. A C string is a literal, which is no block of the registry
-- and does not move, or it lies in a block; `strlen` of the latter takes fuel.
pub mod Bytes
pub mod Copying
pub mod Texts
pub mod Append
pub mod Growth
pub mod Suffix
use owned_c.Base.{ℕ, zero, suc, ◌+◌, ◌*◌, ◌%◌, ◌||◌, List, [], ◌∷◌, ltb, leb, ◌==◌, if◌then◌else◌}
use owned_c.Runtime.State.{Ptr, null, size_mod, text, violation}
use owned_c.Runtime.Command.{◌>>=◌, ◌>>◌, pure, abort, undefined, out_of_fuel}
use owned_c.Runtime.Registry.{unless}
use owned_c.Runtime.Alloc.{owner_malloc, owner_realloc, owner_free}
use owned_c.Objects.{Act, safe_string, read_safe_string, assign, read_byte, write_byte}

-- `sizeof(safe_string_t)`
abbrev pub string_size : ℕ
string_size = 24

-- `const char*`, with the bytes of a literal but its last, which is zero.
pub data CharPointer : Type 0 where
  no_string : CharPointer
  literal : List ℕ → CharPointer
  in_block : Ptr → CharPointer

abbrev pub literal_byte : List ℕ → ℕ → Act ℕ
literal_byte [] zero = pure 0
literal_byte [] (suc i) = undefined
literal_byte (x ∷ xs) zero = pure x
literal_byte (x ∷ xs) (suc i) = literal_byte xs i

-- `p[i]`
unfoldable pub char_of : CharPointer → ℕ → Act ℕ
char_of no_string i = undefined
char_of (literal xs) i = literal_byte xs i
char_of (in_block p) i = read_byte p i

-- OWNEDC_STRLEN, with the bytes counted so far.
unfoldable pub strlen : (fuel : ℕ) → CharPointer → (len : ℕ) → Act ℕ
strlen zero p len = λ _. out_of_fuel
strlen (suc k) p len = do x ← char_of p len; if x == 0 then pure len else strlen k p (len + 1)

-- OWNEDC_MEMCPY of `n` bytes from `source + i` to index `target + i` of the block, from `i` on.
unfoldable pub memcpy : (p : Ptr) → (target : ℕ) → CharPointer → (n i : ℕ) → Act Unit
memcpy p target source zero i = pure tt
memcpy p target source (suc n) i = do
  x ← char_of source i
  write_byte p (target + i) x
  memcpy p target source n (i + 1)

-- The capacity that `safe_string_grow` asks for.
unfoldable pub grown_capacity : (capacity min_capacity : ℕ) → ℕ
grown_capacity capacity min_capacity =
    let doubled = if capacity == 0 then 16 else capacity * 2 % size_mod in
    if ltb doubled min_capacity then min_capacity else doubled

unfoldable pub safe_string_grow : (str : Ptr) → (min_capacity : ℕ) → Act Unit
safe_string_grow str min_capacity = do
  v ← read_safe_string str
  if leb min_capacity v.capacity then pure tt else do
    new_data ← owner_realloc v.chars (grown_capacity v.capacity min_capacity)
    if new_data == null
        then abort (text "OWNEDC FATAL: Out of memory in safe_string_grow")
        else assign str string_size (
            safe_string
              (record v { chars = new_data; capacity = grown_capacity v.capacity min_capacity }))

-- `str->length = n`
unfoldable pub set_length : (str : Ptr) → (n : ℕ) → Act Unit
set_length str n = do
  v ← read_safe_string str
  assign str string_size (safe_string (record v { length = n }))

-- `str->data[i] = x`
unfoldable pub set_char : (str : Ptr) → (i x : ℕ) → Act Unit
set_char str i x = do v ← read_safe_string str; write_byte v.chars i x

unfoldable pub fill_new : (fuel : ℕ) → (str : Ptr) → CharPointer → Act Unit
fill_new fuel str no_string = do safe_string_grow str 16; set_char str 0 0
fill_new fuel str initial_cstr = do
  len ← strlen fuel initial_cstr 0
  safe_string_grow str ((len + 1) % size_mod)
  v ← read_safe_string str
  memcpy v.chars 0 initial_cstr len 0
  set_char str len 0
  set_length str len

unfoldable pub safe_string_new : (fuel : ℕ) → CharPointer → Act Ptr
safe_string_new fuel initial_cstr = do
  str ← owner_malloc string_size
  if str == null then pure null else do
    assign str string_size (safe_string (record { chars = null; length = 0; capacity = 0 }))
    fill_new fuel str initial_cstr
    pure str

unfoldable pub safe_string_cstr : (str : Ptr) → Act CharPointer
safe_string_cstr str = if str == null then pure (literal []) else do
  v ← read_safe_string str
  pure (if v.chars == null then literal [] else in_block v.chars)

-- `safe_string_append` of a string that is not a null pointer.
unfoldable pub append_chars : (fuel : ℕ) → (str : Ptr) → CharPointer → Act Unit
append_chars fuel str suffix = do
  suffix_len ← strlen fuel suffix 0
  if suffix_len == 0 then pure tt else do
    v ← read_safe_string str
    safe_string_grow str ((v.length + suffix_len + 1) % size_mod)
    w ← read_safe_string str
    memcpy w.chars w.length suffix suffix_len 0
    set_length str ((w.length + suffix_len) % size_mod)
    set_char str ((w.length + suffix_len) % size_mod) 0

unfoldable pub safe_string_append : (fuel : ℕ) → (str : Ptr) → CharPointer → Act Unit
safe_string_append fuel str no_string = pure tt
safe_string_append fuel str suffix = if str == null then pure tt else append_chars fuel str suffix

unfoldable pub safe_string_append_safe : (fuel : ℕ) → (str suffix : Ptr) → Act Unit
safe_string_append_safe fuel str suffix =
    if str == null || suffix == null
    then pure tt
    else do p ← safe_string_cstr suffix; safe_string_append fuel str p

unfoldable pub safe_string_push_char : (str : Ptr) → (c : ℕ) → Act Unit
safe_string_push_char str c = if str == null then pure tt else do
  v ← read_safe_string str
  safe_string_grow str ((v.length + 2) % size_mod)
  set_char str v.length c
  set_length str ((v.length + 1) % size_mod)
  set_char str ((v.length + 1) % size_mod) 0

unfoldable pub safe_string_char_at : (str : Ptr) → (index : ℕ) → Act ℕ
safe_string_char_at str index =
    if str == null then abort (text "OWNEDC FATAL: Null string access.") else do
      v ← read_safe_string str
      if v.chars == null
          then abort (text "OWNEDC FATAL: Null string access.")
          else if leb v.length index
          then abort (violation "OWNEDC FATAL: String bounds violation!" index v.length)
          else read_byte v.chars index

unfoldable pub safe_string_truncate : (str : Ptr) → (new_length : ℕ) → Act Unit
safe_string_truncate str new_length = if str == null then pure tt else do
  v ← read_safe_string str
  if ltb v.length new_length
      then abort (text "OWNEDC FATAL: Cannot truncate to length greater than current.")
      else do set_length str new_length; unless (v.chars == null) (write_byte v.chars new_length 0)

unfoldable pub safe_string_free : (str : Ptr) → Act Unit
safe_string_free str = if str == null then pure tt else do
  v ← read_safe_string str
  unless (v.chars == null)
      (do owner_free v.chars; assign str string_size (safe_string (record v { chars = null })))
  owner_free str

-- The cleanup of an `OWNED_STRING` variable, on the value that the variable holds.
unfoldable pub cleanup_safe_string_free : (str : Ptr) → Act Unit
cleanup_safe_string_free str = unless (str == null) (safe_string_free str)
