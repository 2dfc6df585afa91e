-- ===== src/Tests/Texts.antt =====
-- A C string appended to a string, at concrete inputs.
use owned_c.Base.{ℕ, ◌≡◌, refl, Option, none, some, List, [], ◌∷◌, arith, inr, get_elem?}
use owned_c.Runtime.State.{Body, filled, Ptr, null, holds, Block, State}
use owned_c.Runtime.Alloc.{new_meta}
use owned_c.Runtime.Alloc.Malloc.{allocated, allocated-IsRegistry}
use owned_c.Runtime.Command.{set_cell, ok}
use owned_c.Runtime.Register.{listed}
use owned_c.Runtime.Registered.{IsRegistry}
use owned_c.Runtime.Amend.{IsRegistry-set_cell}
use owned_c.Objects.{Object, SafeString, safe_string, bytes}
use owned_c.Strings.{literal, grown_capacity, safe_string_append}
use owned_c.Strings.Bytes.{of_literal}
use owned_c.Strings.Texts.{IsText}
use owned_c.Strings.Suffix.{Appended, safe_string_append-IsGrown}
use owned_c.Tests.{idle, no_shards, idle-IsRegistry}

-- A registry of two blocks: the structure of the string "ab", and its buffer of four bytes.
abbrev begin : State Object
begin = idle (4096 ∷ 8192 ∷ 12288 ∷ [])

abbrev first : State Object
first = allocated 4096 24 none 0 begin

first-IsRegistry : IsRegistry (listed 4096 no_shards) first
first-IsRegistry =
    allocated-IsRegistry (idle-IsRegistry (4096 ∷ 8192 ∷ 12288 ∷ [])) 4096 24 none 0 refl
      (omega arith) refl (omega arith)

abbrev second : State Object
second = allocated 8192 4 none 0 first

abbrev shards : ℕ → List Ptr
shards = listed 8192 (listed 4096 no_shards)

second-IsRegistry : IsRegistry shards second
second-IsRegistry =
    allocated-IsRegistry first-IsRegistry 8192 4 none 0 refl (omega arith) refl (omega arith)

abbrev frame_block : Body Object → Block Object
frame_block b = record {
  room = 104;
  header = record (new_meta 24 none 0 7) { prev = 8192; next = null };
  body = b;
}

abbrev chars_block : Body Object → Block Object
chars_block b = record {
  room = 84;
  header = record (new_meta 4 none 0 7) { prev = null; next = 4096 };
  body = b;
}

abbrev fields : SafeString
fields = record { chars = 8272; length = 2; capacity = 4 }

abbrev written : ℕ → Option ℕ
written i = get_elem? (97 ∷ 98 ∷ 0 ∷ []) i

abbrev third : State Object
third = set_cell 4096 (some (frame_block (holds (safe_string fields)))) second

third-IsRegistry : IsRegistry shards third
third-IsRegistry =
    IsRegistry-set_cell second-IsRegistry 4096 {b = frame_block (filled 0xAA 24)} refl (record {
      tracked = λ w. record { magic = w.magic; room = w.room };
      freed = refl;
      prev = refl;
      next = refl;
    })

abbrev text : State Object
text = set_cell 8192 (some (chars_block (holds (bytes written)))) third

text-IsRegistry : IsRegistry shards text
text-IsRegistry =
    IsRegistry-set_cell third-IsRegistry 8192 {b = chars_block (filled 0xAA 4)} refl (record {
      tracked = λ w. record { magic = w.magic; room = w.room };
      freed = refl;
      prev = refl;
      next = refl;
    })

text-IsText : IsText text 4176 fields (97 ∷ 98 ∷ [])
text-IsText = record {
  body = holds (bytes written);
  parts = record {
    frame = frame_block (holds (safe_string fields));
    frame_here = refl;
    frame_alive = refl;
    frame_room = omega arith;
    fields = refl;
    store = chars_block (holds (bytes written));
    store_here = refl;
    store_alive = refl;
    store_room = omega arith;
    contents = refl;
    apart = omega arith;
    nonnull = omega arith;
    buffer = omega arith;
    small = omega arith;
  };
  count = refl;
  in_capacity = omega arith;
  stored = λ i lt. ground arith;
  ends = refl;
}

-- "cd" does not fit: the buffer is moved to the third block.
safe_string_append-IsGrown_example :
    Appended text-IsText text-IsRegistry 12288
      (λ t. safe_string_append 3 4176 (literal (99 ∷ 100 ∷ [])) text ≡ ok tt t)
      (99 ∷ 100 ∷ [])
unfolding text-IsText grown_capacity
safe_string_append-IsGrown_example =
    safe_string_append-IsGrown text-IsText text-IsRegistry 12288 3 (literal (99 ∷ 100 ∷ []))
      (99 ∷ 100 ∷ []) (of_literal (99 ∷ 100 ∷ [])) refl (omega arith) tt tt (omega arith)
      (inr (record {
        in_shard = refl;
        answer = refl;
        nonnull = omega arith;
        fresh = inr refl;
        fits = omega arith;
        own = refl;
      }))
