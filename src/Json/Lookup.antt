-- ===== src/Json/Lookup.antt =====
-- What the lookups of src/owned_json.c find: a tree of blocks as a list of named fields.
use owned_c.Base.{
  Bytes, ℕ, zero, suc, ◌+◌, ◌*◌, ◌≤◌, ◌<◌, ◌≡◌, ◌≢◌, ◌⊎◌, ◌∙◌, refl, ap, subst, Bool, true, false,
  none, some, List, [], ◌∷◌, ◌∉◌, arith, ◌==◌, if◌then◌else◌, length, ne→==, Bool-cases, inl, inr,
  leb, get_elem?,
}
use owned_c.Runtime.State.{Ptr, null, meta_size, is_freed, holds, Block, State}
use owned_c.Runtime.Command.{ok}
use owned_c.Objects.{
  Object, json_array, json_object, json, block_of, byte_at, pointer_at, read_byte,
}
use owned_c.Objects.Access.{deref-ok, read_pointer-ok}
use owned_c.Json.{read_json, same_key, find_field, json_get_object_item, json_get_array_item}

-- The bytes of a string with the zero behind them.
abbrev pub char_at : Bytes → ℕ → ℕ
char_at [] i = 0
char_at (c ∷ cs) zero = c
char_at (c ∷ cs) (suc i) = char_at cs i

abbrev pub same_text : Bytes → Bytes → Bool
same_text [] [] = true
same_text [] (c ∷ cs) = false
same_text (d ∷ ds) [] = false
same_text (d ∷ ds) (c ∷ cs) = if d == c then same_text ds cs else false

-- The string at `p` is `t`.
pub record IsText (s : State Object) (p : Ptr) (t : Bytes) : Type 0 where
  pub block : Block Object
  pub here : s.cells (block_of p) ≡ some block
  pub alive : is_freed block.header.state ≡ false
  pub room : meta_size + length t + 1 ≤ block.room
  pub stored : (i : ℕ) → i ≤ length t → byte_at block.body i ≡ some (char_at t i)
  pub no_zero : 0 ∉ t

module _ {s : State Object} {p : Ptr} {t : Bytes} (w : IsText s p t) where
  read_byte-text : (i : ℕ) → i ≤ length t → read_byte p i s ≡ ok (char_at t i) s
  unfolding read_byte
  read_byte-text i le = ground (arith, w.here, w.alive, w.room, w.stored i le)

  -- The comparison from index `i` on, where `u` is left of the string.
  compared :
      (u key : Bytes) (i : ℕ)
      → i + length u ≡ length t
      → ((j : ℕ) → j ≤ length u → char_at t (i + j) ≡ char_at u j)
      → 0 ∉ u
      → 0 ∉ key
      → same_key p key i s ≡ ok (same_text u key) s
  unfolding same_key
  compared [] [] i len rest u_out key_out =
      let r = read_byte-text i (omega arith) in ground (arith, r, rest 0 (omega arith))
  compared (d ∷ ds) [] i len rest u_out key_out =
      let r = read_byte-text i (omega arith) in ground (arith, r, rest 0 (omega arith), u_out)
  compared [] (c ∷ cs) i len rest u_out key_out =
      let r = read_byte-text i (omega arith) in ground (arith, r, rest 0 (omega arith), key_out)
  compared (d ∷ ds) (c ∷ cs) i len rest u_out key_out =
      let r = read_byte-text i (omega arith) in
      let e : char_at t i ≡ d = ground (arith, rest 0 (omega arith)) in
      let next =
        compared ds cs (i + 1) (omega arith) (λ j le. ground (arith, rest (suc j) (omega arith)))
          (ground (arith, u_out)) (ground (arith, key_out)) in
      elim (Bool-cases (d == c)) [ inl same ↦ rw (r, e, same) next | inr other ↦ rw (r, e, other) ]

  pub same_key-text : (key : Bytes) → 0 ∉ key → same_key p key 0 s ≡ ok (same_text t key) s
  same_key-text key key_out =
      compared t key 0 (omega arith) (λ j le. ap (char_at t) (omega arith)) w.no_zero key_out

-- The first value with a name, or null.
abbrev pub lookup : Bytes → List (Bytes × Ptr) → Ptr
lookup key [] = null
lookup key ((name, value) ∷ fs) = if same_text name key then value else lookup key fs

-- The name and the value of the field `i`.
abbrev pub name_at : List (Bytes × Ptr) → ℕ → Bytes
name_at [] i = []
name_at ((name, value) ∷ fs) zero = name
name_at ((name, value) ∷ fs) (suc i) = name_at fs i

abbrev pub value_at : List (Bytes × Ptr) → ℕ → Ptr
value_at [] i = null
value_at ((name, value) ∷ fs) zero = value
value_at ((name, value) ∷ fs) (suc i) = value_at fs i

-- The field `i` of an object: a string and a value in the two buffers.
pub record IsField (s : State Object) (ks vs : Block Object) (i : ℕ) (name : Bytes) (value : Ptr)
    : Type 0 where
  pub at_name : Ptr
  pub named : pointer_at ks.body i ≡ some at_name
  pub text : IsText s at_name name
  pub valued : pointer_at vs.body i ≡ some value

-- The two buffers hold these fields, in this order.
pub record IsBuffers (s : State Object) (keys values : Ptr) (fs : List (Bytes × Ptr)) : Type 0 where
  pub key_block : Block Object
  pub keys_here : s.cells (block_of keys) ≡ some key_block
  pub keys_alive : is_freed key_block.header.state ≡ false
  pub keys_room : meta_size + 8 * length fs ≤ key_block.room
  pub value_block : Block Object
  pub values_here : s.cells (block_of values) ≡ some value_block
  pub values_alive : is_freed value_block.header.state ≡ false
  pub values_room : meta_size + 8 * length fs ≤ value_block.room
  pub field :
      (i : ℕ) → i < length fs → IsField s key_block value_block i (name_at fs i) (value_at fs i)

-- The node at `p` is an object with these fields, in this order. One without fields may have any
-- buffers: those that the parser makes have none.
pub record IsObject (s : State Object) (p : Ptr) (fs : List (Bytes × Ptr)) : Type 0 where
  pub node : Block Object
  pub node_here : s.cells (block_of p) ≡ some node
  pub node_alive : is_freed node.header.state ≡ false
  pub keys : Ptr
  pub values : Ptr
  pub capacity : ℕ
  pub contents : node.body ≡ holds (json (json_object keys values (length fs) capacity))
  pub buffers : (length fs ≡ 0) ⊎ IsBuffers s keys values fs

module _ {s : State Object} {keys values : Ptr} {all : List (Bytes × Ptr)}
    (w : IsBuffers s keys values all) (key : Bytes) (key_out : 0 ∉ key) where
  -- The search from index `i` on, where the fields `fs` are left.
  found :
      (fs : List (Bytes × Ptr)) (i : ℕ)
      → i + length fs ≡ length all
      → ((j : ℕ)
          → j < length fs
          → IsField s w.key_block w.value_block (i + j) (name_at fs j) (value_at fs j))
      → find_field keys values key (length fs) i s ≡ ok (lookup key fs) s
  unfolding find_field
  found [] i len fields = refl
  found ((name, value) ∷ fs) i len fields =
      let f : IsField s w.key_block w.value_block i name value =
        subst (λ k. IsField s w.key_block w.value_block k name value) (omega arith)
          (fields 0 (omega arith)) in
      let k =
        read_pointer-ok keys s w.keys_here w.keys_alive i (omega (arith, w.keys_room)) f.named in
      let v =
        read_pointer-ok values s w.values_here w.values_alive i (omega (arith, w.values_room))
          f.valued in
      let next = found fs (i + 1) (omega arith) (λ j lt.
        subst (λ k. IsField s w.key_block w.value_block k (name_at fs j) (value_at fs j))
          (omega arith) (fields (suc j) (omega arith))) in
      elim (Bool-cases (same_text name key)) [
        | inl same ↦ rw (k, same_key-text f.text key key_out, same, v)
        | inr other ↦ rw (k, same_key-text f.text key key_out, other) next
      ]

  pub find_field-buffers : find_field keys values key (length all) 0 s ≡ ok (lookup key all) s
  find_field-buffers = found all 0 (omega arith) (λ j lt.
      subst (λ k. IsField s w.key_block w.value_block k (name_at all j) (value_at all j))
        (omega arith) (w.field j lt))

none_found :
    (keys values : Ptr) (key : Bytes) (s : State Object) (fs : List (Bytes × Ptr))
    → length fs ≡ 0
    → find_field keys values key (length fs) 0 s ≡ ok (lookup key fs) s
unfolding find_field
none_found keys values key s [] e = refl
none_found keys values key s (f ∷ fs) e = ground arith

module _ {s : State Object} {p : Ptr} {all : List (Bytes × Ptr)} (w : IsObject s p all)
    (key : Bytes) (key_out : 0 ∉ key) where
  object_nonnull : s.cells null ≡ none → p ≢ null
  object_nonnull no_null e = cc (w.node_here, ap (λ x. s.cells (block_of x)) e, no_null)

  -- On an object whose names are strings in blocks, be it empty and without buffers, the lookup of a
  -- name without a zero byte is its lookup in the list of the fields: the value of the first field with
  -- that name, or null, in any state in which the null pointer has no block.
  pub json_get_object_item-lookup :
      s.cells null ≡ none → json_get_object_item p key s ≡ ok (lookup key all) s
  unfolding json_get_object_item read_json
  json_get_object_item-lookup no_null =
      rw (ne→== p null (object_nonnull no_null), deref-ok p s w.node_here w.node_alive w.contents)
        (elim w.buffers [
          | inl empty ↦ none_found w.keys w.values key s all empty
          | inr b ↦ find_field-buffers b key key_out
        ])

-- The buffer holds these items.
pub record IsItems (s : State Object) (items : Ptr) (xs : List Ptr) : Type 0 where
  pub store : Block Object
  pub store_here : s.cells (block_of items) ≡ some store
  pub store_alive : is_freed store.header.state ≡ false
  pub store_room : meta_size + 8 * length xs ≤ store.room
  pub stored : (i : ℕ) → i < length xs → pointer_at store.body i ≡ get_elem? xs i

-- The node at `p` is an array of these items. One without items may have any buffer: those that the
-- parser makes have none.
pub record IsArray (s : State Object) (p : Ptr) (xs : List Ptr) : Type 0 where
  pub node : Block Object
  pub node_here : s.cells (block_of p) ≡ some node
  pub node_alive : is_freed node.header.state ≡ false
  pub items : Ptr
  pub capacity : ℕ
  pub contents : node.body ≡ holds (json (json_array items (length xs) capacity))
  pub buffer : (length xs ≡ 0) ⊎ IsItems s items xs

abbrev pub item_or_null : List Ptr → ℕ → Ptr
item_or_null [] i = null
item_or_null (x ∷ xs) zero = x
item_or_null (x ∷ xs) (suc i) = item_or_null xs i

item_inside : (xs : List Ptr) (i : ℕ) → i < length xs → get_elem? xs i ≡ some (item_or_null xs i)
item_inside [] i lt = ground arith
item_inside (x ∷ xs) zero lt = refl
item_inside (x ∷ xs) (suc i) lt = item_inside xs i (omega arith)

item_outside : (xs : List Ptr) (i : ℕ) → length xs ≤ i → item_or_null xs i ≡ null
item_outside [] i le = refl
item_outside (x ∷ xs) zero le = ground arith
item_outside (x ∷ xs) (suc i) le = item_outside xs i (omega arith)

module _ {s : State Object} {p : Ptr} {xs : List Ptr} (w : IsArray s p xs) (index : ℕ) where
  array_nonnull : s.cells null ≡ none → p ≢ null
  array_nonnull no_null e = cc (w.node_here, ap (λ x. s.cells (block_of x)) e, no_null)

  has_buffer : index < length xs → IsItems s w.items xs
  has_buffer lt = elim w.buffer [ inl empty ↦ ground arith | inr b ↦ b ]

  -- On an array, be it empty and without a buffer, an item is read inside the array, and null is
  -- returned for an index outside of it, in any state in which the null pointer has no block.
  pub json_get_array_item-item :
      s.cells null ≡ none → json_get_array_item p index s ≡ ok (item_or_null xs index) s
  unfolding json_get_array_item read_json
  json_get_array_item-item no_null =
      let e = deref-ok p s w.node_here w.node_alive w.contents in
      elim (Bool-cases (leb (length xs) index)) [
        | inl out ↦ rw (
          ne→== p null (array_nonnull no_null),
          e,
          out,
          item_outside xs index (ground (arith, out)),
        )
        | inr inside ↦
            let lt : index < length xs = ground (arith, inside) in
            let b = has_buffer lt in
            rw (
              ne→== p null (array_nonnull no_null),
              e,
              inside,
              read_pointer-ok w.items s b.store_here b.store_alive index
                  (omega (arith, b.store_room)) (b.stored index lt ∙ item_inside xs index lt),
            )
      ]
