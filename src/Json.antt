-- ===== src/Json.antt =====
-- src/owned_json.c: the parser of JSON into a tree of blocks, the recursive free, and the lookups. The
-- text is the list of its bytes before the zero, and a pointer into it is the bytes from it on. What
-- `strtod` reads at the start of a text, the bits of a double and the number of bytes, is an argument.
pub mod Parse
pub mod Lookup
pub mod Strings
use owned_c.Base.{
  ℕ, zero, suc, ◌+◌, ◌*◌, ◌%◌, Bool, true, false, not, ◌&&◌, ◌||◌, Option, none, some, List, [],
  ◌∷◌, leb, ltb, ◌==◌, if◌then◌else◌, length,
}
use owned_c.Runtime.State.{Ptr, null, size_mod}
use owned_c.Runtime.Command.{◌>>=◌, ◌>>◌, pure, undefined, out_of_fuel}
use owned_c.Runtime.Registry.{unless}
use owned_c.Runtime.Alloc.{owner_malloc, owner_free}
use owned_c.Objects.{
  Act, Json, json_null, json_bool, json_number, json_string, json_array, json_object, json, deref,
  assign, read_pointer, read_byte, write_byte,
}

-- `sizeof(json_node_t)`
abbrev pub json_size : ℕ
json_size = 40

unfoldable pub read_json : Ptr → Act Json
read_json p = do o ← deref p; elim o [ json x ↦ pure x | _ ↦ undefined ]

abbrev pub write_json : Ptr → Json → Act Unit
write_json p j = assign p json_size (json j)

-- `json_node_t` of each type with the bytes of the union set to zero, in a new block or not at all.
unfoldable pub create_node : Json → Act Ptr
create_node zeroed = do
  node ← owner_malloc json_size
  unless (node == null) (write_json node zeroed)
  pure node

-- The loops of `json_free` over `n` indices from `i` on.
unfoldable pub free_items : (Ptr → Act Unit) → (items : Ptr) → (n i : ℕ) → Act Unit
free_items free_one items zero i = pure tt
free_items free_one items (suc n) i = do
  x ← read_pointer items i
  free_one x
  free_items free_one items n (i + 1)

unfoldable pub free_fields : (Ptr → Act Unit) → (keys values : Ptr) → (n i : ℕ) → Act Unit
free_fields free_one keys values zero i = pure tt
free_fields free_one keys values (suc n) i = do
  k ← read_pointer keys i
  owner_free k
  x ← read_pointer values i
  free_one x
  free_fields free_one keys values n (i + 1)

-- What `json_free` frees of a node before the node.
abbrev pub free_contents : (Ptr → Act Unit) → Json → Act Unit
free_contents free_one (json_string str_val) = unless (str_val == null) (owner_free str_val)
free_contents free_one (json_array items count capacity) =
    unless (items == null) (do free_items free_one items count 0; owner_free items)
free_contents free_one (json_object keys values count capacity) =
    unless (keys == null)
      (do free_fields free_one keys values count 0; owner_free keys; owner_free values)
free_contents free_one _ = pure tt

-- The fuel bounds the depth of the tree.
unfoldable pub json_free : (fuel : ℕ) → (node : Ptr) → Act Unit
json_free zero node = λ _. out_of_fuel
json_free (suc k) node =
    if node == null
    then pure tt
    else do j ← read_json node; free_contents (λ x. json_free k x) j; owner_free node

-- `strcmp` of a string in a block with a key, from index `i` on.
unfoldable pub same_key : (str : Ptr) → (key : List ℕ) → (i : ℕ) → Act Bool
same_key str [] i = do x ← read_byte str i; pure (x == 0)
same_key str (c ∷ cs) i = do
  x ← read_byte str i
  if x == c then same_key str cs (i + 1) else pure false

-- The loop of `json_get_object_item` over `n` fields from `i` on.
unfoldable pub find_field : (keys values : Ptr) → (key : List ℕ) → (n i : ℕ) → Act Ptr
find_field keys values key zero i = pure null
find_field keys values key (suc n) i = do
  k ← read_pointer keys i
  same ← same_key k key 0
  if same then read_pointer values i else find_field keys values key n (i + 1)

abbrev pub object_item : (key : List ℕ) → Json → Act Ptr
object_item key (json_object keys values count capacity) = find_field keys values key count 0
object_item key _ = pure null

unfoldable pub json_get_object_item : (node : Ptr) → (key : List ℕ) → Act Ptr
json_get_object_item node key =
    if node == null then pure null else do j ← read_json node; object_item key j

abbrev pub array_item : (index : ℕ) → Json → Act Ptr
array_item index (json_array items count capacity) =
    if leb count index then pure null else read_pointer items index
array_item index _ = pure null

unfoldable pub json_get_array_item : (node : Ptr) → (index : ℕ) → Act Ptr
json_get_array_item node index =
    if node == null then pure null else do j ← read_json node; array_item index j

abbrev pub string_of : Json → Ptr
string_of (json_string str_val) = str_val
string_of _ = null

unfoldable pub json_get_string : (node : Ptr) → Act Ptr
json_get_string node =
    if node == null then pure null else (do j ← read_json node; pure (string_of j))

-- The bits of `0.0` are zero.
abbrev pub number_of : Json → ℕ
number_of (json_number num_val) = num_val
number_of _ = 0

unfoldable pub json_get_number : (node : Ptr) → Act ℕ
json_get_number node = if node == null then pure 0 else (do j ← read_json node; pure (number_of j))

abbrev pub bool_of : Json → ℕ
bool_of (json_bool bool_val) = bool_val
bool_of _ = 0

unfoldable pub json_get_bool : (node : Ptr) → Act ℕ
json_get_bool node = if node == null then pure 0 else (do j ← read_json node; pure (bool_of j))

-- The cleanup of an `OWNED_JSON` variable, on the value that the variable holds.
unfoldable pub json_free_cleanup : (fuel : ℕ) → (node : Ptr) → Act Unit
json_free_cleanup fuel node = unless (node == null) (json_free fuel node)
