-- ===== src/Json/Parse.antt =====
-- src/owned_json.c, the parser. The functions return the node, or a null pointer, with the text that is
-- left.
use owned_c.Base.{
  Bytes, codes, starts_with, drop, skip_spaces, ℕ, zero, suc, ◌+◌, ◌*◌, ◌%◌, Bool, true, false, not,
  ◌||◌, Option, none, some, [], ◌∷◌, leb, ltb, ◌==◌, if◌then◌else◌, length,
}
use owned_c.Runtime.State.{Ptr, null, size_mod}
use owned_c.Runtime.Command.{◌>>=◌, ◌>>◌, pure, undefined, out_of_fuel}
use owned_c.Runtime.Registry.{unless}
use owned_c.Runtime.Alloc.{owner_malloc, owner_realloc, owner_free}
use owned_c.Objects.{
  Act, Json, json_null, json_bool, json_number, json_string, json_array, json_object, write_pointer,
  write_byte,
}
use owned_c.Json.{read_json, write_json, create_node, json_free}

-- `**p == c`
abbrev pub at : ℕ → Bytes → Bool
at c [] = false
at c (x ∷ xs) = x == c

abbrev pub next : Bytes → Bytes
next p = drop 1 p

-- `skip_whitespace`
abbrev pub skip_whitespace : Bytes → Bytes
skip_whitespace p = skip_spaces p

unfoldable pub parse_null : Bytes → Act (Ptr × Bytes)
parse_null p =
    if starts_with (codes "null") p
    then (do node ← create_node json_null; pure (node, drop 4 p))
    else pure (null, p)

abbrev pub bool_node : ℕ → Act Ptr
bool_node b = do
  node ← create_node (json_bool 0)
  unless (node == null) (write_json node (json_bool b))
  pure node

unfoldable pub parse_bool : Bytes → Act (Ptr × Bytes)
parse_bool p =
    if starts_with (codes "true") p
    then (do node ← bool_node 1; pure (node, drop 4 p))
    else if starts_with (codes "false") p
    then (do node ← bool_node 0; pure (node, drop 5 p))
    else pure (null, p)

unfoldable pub parse_number : (strtod : Bytes → ℕ × ℕ) → Bytes → Act (Ptr × Bytes)
parse_number strtod p = do
  let (val, n) = strtod p
  if n == 0 then pure (null, p) else do
    node ← create_node (json_number 0)
    unless (node == null) (write_json node (json_number val))
    pure (node, drop n p)

-- The loop of `parse_raw_string`: the number of bytes up to the closing quotation mark or the end of
-- the text, and the text from there on.
unfoldable pub scan_string : Bytes → ℕ × Bytes
scan_string [] = (0, [])
scan_string (c ∷ []) = if c == b'"' then (0, c ∷ []) else (1, [])
scan_string (c ∷ d ∷ cs) = elim (c == b'"') [
  | true ↦ (0, c ∷ d ∷ cs)
  | false ↦ elim (c == b'\\') [
    | true ↦ let (n, r) = scan_string cs in (2 + n, r)
    | false ↦ let (n, r) = scan_string (d ∷ cs) in (1 + n, r)
  ]
]

-- `memcpy` of the first `n` bytes of a text to index `i` of a block.
unfoldable pub copy_text : (str : Ptr) → Bytes → (n i : ℕ) → Act Unit
copy_text str p zero i = pure tt
copy_text str [] (suc n) i = undefined
copy_text str (c ∷ cs) (suc n) i = do write_byte str i c; copy_text str cs n (i + 1)

unfoldable pub parse_raw_string : Bytes → Act (Ptr × Bytes)
parse_raw_string p = if not (at b'"' p) then pure (null, p) else do
  let (len, rest) = scan_string (next p)
  if not (at b'"' rest) then pure (null, rest) else do
    str ← owner_malloc ((len + 1) % size_mod)
    unless (str == null) (do copy_text str (next p) len 0; write_byte str len 0)
    pure (str, next rest)

unfoldable pub parse_string : Bytes → Act (Ptr × Bytes)
parse_string p = do
  (str, rest) ← parse_raw_string p
  if str == null then pure (null, rest) else do
    node ← create_node (json_string null)
    if node == null
        then (do owner_free str; pure (null, rest))
        else (do write_json node (json_string str); pure (node, rest))

-- What the loops read of the fields of their node.
abbrev pub array_fields : Json → Act (Ptr × ℕ × ℕ)
array_fields (json_array items count capacity) = pure (items, count, capacity)
array_fields _ = undefined

abbrev pub object_fields : Json → Act (Ptr × Ptr × ℕ × ℕ)
object_fields (json_object keys values count capacity) = pure (keys, values, count, capacity)
object_fields _ = undefined

abbrev pub doubled : ℕ → ℕ
doubled capacity = if capacity == 0 then 4 else capacity * 2 % size_mod

-- An item is added to an array; `false` where there is no memory for it.
unfoldable pub add_item : (node item : Ptr) → Act Bool
add_item node item = do
  j ← read_json node
  (items, count, capacity) ← array_fields j
  if leb capacity count
      then (do
        new_items ← owner_realloc items (doubled capacity * 8 % size_mod)
        if new_items == null then pure false else do
          write_json node (json_array new_items (count + 1) (doubled capacity))
          write_pointer new_items count item
          pure true)
      else (do
        write_json node (json_array items (count + 1) capacity)
        write_pointer items count item
        pure true)

-- A field is added to an object; where one of the buffers cannot be had, those that were are freed.
unfoldable pub add_field : (free_node : Ptr → Act Unit) → (node key val : Ptr) → Act Bool
add_field free_node node key val = do
  j ← read_json node
  (keys, values, count, capacity) ← object_fields j
  if leb capacity count
      then (do
        new_keys ← owner_realloc keys (doubled capacity * 8 % size_mod)
        new_values ← owner_realloc values (doubled capacity * 8 % size_mod)
        if new_keys == null || new_values == null
            then (do
              owner_free key
              free_node val
              unless (new_keys == null) (owner_free new_keys)
              unless (new_values == null) (owner_free new_values)
              pure false)
            else do
              write_json node (json_object new_keys new_values (count + 1) (doubled capacity))
              write_pointer new_keys count key
              write_pointer new_values count val
              pure true)
      else (do
        write_json node (json_object keys values (count + 1) capacity)
        write_pointer keys count key
        write_pointer values count val
        pure true)

-- The ways out of the loops by an error.
abbrev pub failed : (free_node : Ptr → Act Unit) → (node : Ptr) → Bytes → Act (Ptr × Bytes)
failed free_node node p = do free_node node; pure (null, p)

module _ (strtod : Bytes → ℕ × ℕ) where
  -- The fuel bounds the depth of the recursion and the rounds of the loops; `json_free` gets as much.
  unfoldable mutual
    pub parse_value : (fuel : ℕ) → Bytes → Act (Ptr × Bytes)
    parse_value zero p = λ _. out_of_fuel
    parse_value (suc k) p = dispatch_value k (skip_whitespace p)

    pub dispatch_value : (fuel : ℕ) → Bytes → Act (Ptr × Bytes)
    dispatch_value zero p = λ _. out_of_fuel
    dispatch_value (suc k) [] = pure (null, [])
    dispatch_value (suc k) (c ∷ cs) =
        let array = parse_array k (c ∷ cs) in
        let object = parse_object k (c ∷ cs) in
        if c == b'n'
        then parse_null (c ∷ cs)
        else if c == b't' || c == b'f'
        then parse_bool (c ∷ cs)
        else if c == b'"'
        then parse_string (c ∷ cs)
        else if c == b'['
        then array
        else if c == b'{'
        then object
        else parse_number strtod (c ∷ cs)

    pub parse_array : (fuel : ℕ) → Bytes → Act (Ptr × Bytes)
    parse_array zero p = λ _. out_of_fuel
    parse_array (suc k) p = if not (at b'[' p) then pure (null, p) else do
      let q = skip_whitespace (next p)
      node ← create_node (json_array null 0 0)
      if node == null
          then pure (null, q)
          else if at b']' q
          then pure (node, next q)
          else parse_items k node q

    -- `while (1)` of `parse_array`
    pub parse_items : (fuel : ℕ) → (node : Ptr) → Bytes → Act (Ptr × Bytes)
    parse_items zero node p = λ _. out_of_fuel
    parse_items (suc k) node p = do
      (item, q) ← parse_value k p
      if item == null then failed (λ x. json_free k x) node q else do
        added ← add_item node item
        if not added
            then (do json_free k item; failed (λ x. json_free k x) node q)
            else after_item k node (skip_whitespace q)

    pub after_item : (fuel : ℕ) → (node : Ptr) → Bytes → Act (Ptr × Bytes)
    after_item zero node p = λ _. out_of_fuel
    after_item (suc k) node p =
        let more = parse_items k node (skip_whitespace (next p)) in
        if at b']' p
        then pure (node, next p)
        else if at b',' p
        then more
        else failed (λ x. json_free k x) node p

    pub parse_object : (fuel : ℕ) → Bytes → Act (Ptr × Bytes)
    parse_object zero p = λ _. out_of_fuel
    parse_object (suc k) p = if not (at b'{' p) then pure (null, p) else do
      let q = skip_whitespace (next p)
      node ← create_node (json_object null null 0 0)
      if node == null
          then pure (null, q)
          else if at b'}' q
          then pure (node, next q)
          else parse_fields k node q

    -- `while (1)` of `parse_object`
    pub parse_fields : (fuel : ℕ) → (node : Ptr) → Bytes → Act (Ptr × Bytes)
    parse_fields zero node p = λ _. out_of_fuel
    parse_fields (suc k) node p = do
      (key, q) ← parse_raw_string p
      if key == null
          then failed (λ x. json_free k x) node q
          else parse_field k node key (skip_whitespace q)

    -- From the colon on.
    pub parse_field : (fuel : ℕ) → (node key : Ptr) → Bytes → Act (Ptr × Bytes)
    parse_field zero node key p = λ _. out_of_fuel
    parse_field (suc k) node key p =
        if not (at b':' p) then (do owner_free key; failed (λ x. json_free k x) node p) else do
          (val, q) ← parse_value k (skip_whitespace (next p))
          if val == null then (do owner_free key; failed (λ x. json_free k x) node q) else do
            added ← add_field (λ x. json_free k x) node key val
            if not added
                then failed (λ x. json_free k x) node q
                else after_field k node (skip_whitespace q)

    pub after_field : (fuel : ℕ) → (node : Ptr) → Bytes → Act (Ptr × Bytes)
    after_field zero node p = λ _. out_of_fuel
    after_field (suc k) node p =
        let more = parse_fields k node (skip_whitespace (next p)) in
        if at b'}' p
        then pure (node, next p)
        else if at b',' p
        then more
        else failed (λ x. json_free k x) node p

  -- The root, and what `*error_pos` is set to where the caller passes a place for it.
  unfoldable pub json_parse : (fuel : ℕ) → (json_str : Bytes) → Act (Ptr × Option Bytes)
  json_parse fuel json_str = do
    (root, p) ← parse_value fuel json_str
    let q = skip_whitespace p
    if root == null || ltb 0 (length q)
        then (do unless (root == null) (json_free fuel root); pure (null, some q))
        else pure (root, none)
