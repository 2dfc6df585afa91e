-- ===== src/Tests/Documents.antt =====
-- Lookups in a tree of blocks, at concrete inputs.
use owned_c.Base.{
  Bytes, ℕ, zero, suc, ◌<◌, ◌≤◌, ◌≡◌, refl, inl, inr, none, some, List, [], ◌∷◌, arith, ◌==◌,
  if◌then◌else◌, get_elem?,
}
use owned_c.Runtime.State.{Ptr, null, Block, State}
use owned_c.Runtime.Command.{ok}
use owned_c.Objects.{Object, json_array, json_object, json, pointers, bytes}
use owned_c.Json.{json_get_object_item, json_get_array_item}
use owned_c.Json.Lookup.{
  char_at, IsText, IsField, IsObject, IsArray, name_at, value_at, json_get_object_item-lookup,
  json_get_array_item-item,
}
use owned_c.Runtime.Register.{listed}
use owned_c.Runtime.Registered.{IsRegistry}
use owned_c.Json.Parse.{parse_raw_string}
use owned_c.Base.{Option, codes, skip_spaces, Bool, true, false}
use owned_c.Runtime.Command.{Run, load, update, memset}
use owned_c.Runtime.Allocator.{call_malloc, call_realloc}
use owned_c.Runtime.Registry.{insert_meta, remove_meta, get_meta}
use owned_c.Runtime.Alloc.{
  owner_malloc, owner_malloc_internal, owner_realloc, owner_realloc_internal, write_header,
  move_block,
}
use owned_c.Objects.{read_pointer, write_pointer, assign, deref}
use owned_c.Json.{create_node, read_json}
use owned_c.Json.Parse.{json_parse, parse_value, parse_null, parse_bool, add_item}
use owned_c.Json.Strings.{Piece, plain, escaped, parse_raw_string-written}
use owned_c.Tests.{block, still, idle, no_shards, idle-IsRegistry}

-- An object at 1080 with the fields "a" and "b", its names from 2080 on and its values from 3080 on,
-- and an array at 6080 that shares them.
abbrev names : Block Object
names = block 32 (pointers (λ i. get_elem? (4080 ∷ 5080 ∷ []) i))

abbrev values : Block Object
values = block 32 (pointers (λ i. get_elem? (7 ∷ 8 ∷ []) i))

abbrev name : ℕ → Block Object
name c = block 2 (bytes (λ i. get_elem? (c ∷ 0 ∷ []) i))

abbrev tree : State Object
tree = still (λ p.
    if p == 1000
    then some (block 40 (json (json_object 2080 3080 2 4)))
    else if p == 2000
    then some names
    else if p == 3000
    then some values
    else if p == 4000
    then some (name b'a')
    else if p == 5000
    then some (name b'b')
    else if p == 6000
    then some (block 40 (json (json_array 3080 2 4)))
    else none)

abbrev two_fields : List (Bytes × Ptr)
two_fields = (b'a' ∷ [], 7) ∷ (b'b' ∷ [], 8) ∷ []

one_char : (c i : ℕ) → i ≤ 1 → get_elem? (c ∷ 0 ∷ []) i ≡ some (char_at (c ∷ []) i)
one_char c zero le = refl
one_char c (suc zero) le = refl
one_char c (suc (suc i)) le = ground arith

first-IsText : IsText tree 4080 (b'a' ∷ [])
first-IsText = record {
  block = name b'a';
  here = refl;
  alive = refl;
  room = omega arith;
  stored = one_char b'a';
  no_zero = refl;
}

second-IsText : IsText tree 5080 (b'b' ∷ [])
second-IsText = record {
  block = name b'b';
  here = refl;
  alive = refl;
  room = omega arith;
  stored = one_char b'b';
  no_zero = refl;
}

two : (i : ℕ) → i < 2 → IsField tree names values i (name_at two_fields i) (value_at two_fields i)
two zero lt = record { at_name = 4080; named = refl; text = first-IsText; valued = refl }
two (suc zero) lt = record { at_name = 5080; named = refl; text = second-IsText; valued = refl }
two (suc (suc i)) lt = ground arith

tree-IsObject : IsObject tree 1080 two_fields
tree-IsObject = record {
  node = block 40 (json (json_object 2080 3080 2 4));
  node_here = refl;
  node_alive = refl;
  keys = 2080;
  values = 3080;
  capacity = 4;
  contents = refl;
  buffers = inr (record {
    key_block = names;
    keys_here = refl;
    keys_alive = refl;
    keys_room = omega arith;
    value_block = values;
    values_here = refl;
    values_alive = refl;
    values_room = omega arith;
    field = two;
  });
}

json_get_object_item-lookup_example : json_get_object_item 1080 (b'b' ∷ []) tree ≡ ok 8 tree
json_get_object_item-lookup_example =
    json_get_object_item-lookup tree-IsObject (b'b' ∷ []) refl refl

tree-IsArray : IsArray tree 6080 (7 ∷ 8 ∷ [])
tree-IsArray = record {
  node = block 40 (json (json_array 3080 2 4));
  node_here = refl;
  node_alive = refl;
  items = 3080;
  capacity = 4;
  contents = refl;
  buffer = inr (record {
    store = values;
    store_here = refl;
    store_alive = refl;
    store_room = omega arith;
    stored = λ i lt. refl;
  });
}

json_get_array_item-item_example : json_get_array_item 6080 1 tree ≡ ok 8 tree
json_get_array_item-item_example = json_get_array_item-item tree-IsArray 1 refl

-- The empty object and the empty array, as the parser makes them: without buffers.
abbrev empties : State Object
empties = still (λ p.
    if p == 1000
    then some (block 40 (json (json_object null null 0 0)))
    else if p == 2000
    then some (block 40 (json (json_array null 0 0)))
    else none)

empty-IsObject : IsObject empties 1080 []
empty-IsObject = record {
  node = block 40 (json (json_object null null 0 0));
  node_here = refl;
  node_alive = refl;
  keys = null;
  values = null;
  capacity = 0;
  contents = refl;
  buffers = inl refl;
}

empty-IsArray : IsArray empties 2080 []
empty-IsArray = record {
  node = block 40 (json (json_array null 0 0));
  node_here = refl;
  node_alive = refl;
  items = null;
  capacity = 0;
  contents = refl;
  buffer = inl refl;
}

no_field : json_get_object_item 1080 (b'a' ∷ []) empties ≡ ok null empties
no_field = json_get_object_item-lookup empty-IsObject (b'a' ∷ []) refl refl

no_item : json_get_array_item 2080 0 empties ≡ ok null empties
no_item = json_get_array_item-item empty-IsArray 0 refl

-- The string a\"b, before a colon.
abbrev pieces : List Piece
pieces = plain b'a' ∷ escaped b'"' ∷ plain b'b' ∷ []

parse_raw_string-written_example :
    (t : State Object) × (parse_raw_string
        (b'"' ∷ b'a' ∷ b'\\' ∷ b'"' ∷ b'b' ∷ b'"' ∷ b':' ∷ [])
        (idle (4096 ∷ []))
      ≡ ok (4176, b':' ∷ []) t)
    × IsText t 4176 (b'a' ∷ b'\\' ∷ b'"' ∷ b'b' ∷ [])
    × IsRegistry (listed 4096 no_shards) t
parse_raw_string-written_example =
    parse_raw_string-written (idle-IsRegistry (4096 ∷ [])) pieces (b':' ∷ []) 4096 refl refl refl
      (omega arith) refl (omega arith)

-- The parser runs on a whole text.
document : Run Object (Ptr × Option Bytes)
unfolding json_parse parse_value parse_null parse_bool create_node add_item read_json assign deref
    read_pointer write_pointer owner_malloc owner_malloc_internal owner_realloc
    owner_realloc_internal write_header insert_meta remove_meta get_meta load update memset
    call_malloc call_realloc move_block skip_spaces
document =
    json_parse (λ p. (0, 0)) 30 (codes "[ true, null]")
      (idle (4096 ∷ 8192 ∷ 12288 ∷ 16384 ∷ 20480 ∷ []))

abbrev is_whole : Run Object (Ptr × Option Bytes) → Bool
is_whole (ok (p, none) s) = p == 4176
is_whole _ = false

document-whole : is_whole document ≡ true
unfolding document
document-whole = refl
