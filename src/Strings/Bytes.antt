-- ===== src/Strings/Bytes.antt =====
-- C strings, and the loops of strlen and memcpy over them, as src/ownedc_string.c calls them.
use owned_c.Base.{
  ℕ, zero, suc, ◌+◌, ◌≤◌, ◌<◌, ◌≡◌, ◌≢◌, ◌∙◌, ◌⊎◌, refl, ap, false, none, some, List, [], ◌∷◌, ◌∉◌,
  arith, length, get_elem?, ◌==◌, inl, inr, Bool-cases, ne→==, get_elem?-inside,
}
use owned_c.Runtime.State.{Ptr, meta_size, is_freed, Block, State}
use owned_c.Runtime.Command.{ok}
use owned_c.Objects.{Object, block_of, byte_at, read_byte}
use owned_c.Objects.Written.{IsKept}
use owned_c.Strings.{CharPointer, literal, in_block, literal_byte, char_of, strlen}

-- The bytes `ys` and a zero stand at `q`, the first of a live block.
pub record HasChars (s : State Object) (q : Ptr) (ys : List ℕ) : Type 0 where
  pub block : Block Object
  pub here : s.cells (block_of q) ≡ some block
  pub alive : is_freed block.header.state ≡ false
  pub room : meta_size + length ys + 1 ≤ block.room
  pub chars : (i : ℕ) → i < length ys → byte_at block.body i ≡ get_elem? ys i
  pub ends : byte_at block.body (length ys) ≡ some 0

-- The C string at `p` has the bytes `ys` in front of its zero.
pub data IsCString (s : State Object) : CharPointer → List ℕ → Type 0 where
  of_literal : (ys : List ℕ) → IsCString s (literal ys) ys
  of_block : {q : Ptr} {ys : List ℕ} → HasChars s q ys → IsCString s (in_block q) ys

-- The string is not in the block `m`.
abbrev pub IsAway : CharPointer → Ptr → Type 0
IsAway (in_block q) m = block_of q ≢ m
IsAway _ m = Unit

pub HasChars-IsKept :
    {s t : State Object} {q : Ptr} {ys : List ℕ}
    → IsKept s.cells t.cells (block_of q)
    → HasChars s q ys
    → HasChars t q ys
HasChars-IsKept {ys} k h =
    let (b, at, body, room, alive) = k.kept h.block h.here h.alive in
    record {
      block = b;
      here = at;
      alive = alive;
      room = omega (arith, h.room, room);
      chars = λ i lt. ap (λ z. byte_at z i) body ∙ h.chars i lt;
      ends = ap (λ z. byte_at z (length ys)) body ∙ h.ends;
    }

-- Outside the block `m` everything is kept.
pub IsCString-away :
    {s t : State Object} {p : CharPointer} {ys : List ℕ} (m : Ptr)
    → ((x : Ptr) → x ≢ m → IsKept s.cells t.cells x)
    → IsAway p m
    → IsCString s p ys
    → IsCString t p ys
IsCString-away m kept away (of_literal ys) = of_literal ys
IsCString-away m kept away (of_block {q} h) = of_block (HasChars-IsKept (kept (block_of q) away) h)

-- The same outside two blocks.
pub IsCString-away_two :
    {s t : State Object} {p : CharPointer} {ys : List ℕ} (m n : Ptr)
    → ((x : Ptr) → x ≢ m → x ≢ n → IsKept s.cells t.cells x)
    → IsAway p m
    → IsAway p n
    → IsCString s p ys
    → IsCString t p ys
IsCString-away_two m n kept out away (of_literal ys) = of_literal ys
IsCString-away_two m n kept out away (of_block {q} h) =
    of_block (HasChars-IsKept (kept (block_of q) out away) h)

-- Where no block was there is no string.
pub IsAway-fresh :
    {s : State Object} {p : CharPointer} {ys : List ℕ} (m n : Ptr)
    → (m ≡ n) ⊎ (s.cells m ≡ none)
    → IsAway p n
    → IsCString s p ys
    → IsAway p m
IsAway-fresh m n place away (of_literal ys) = tt
IsAway-fresh {s} m n (inl e) away (of_block {q} h) = λ same. away (same ∙ e)
IsAway-fresh {s} m n (inr e) away (of_block {q} h) = λ same. cc (h.here, ap s.cells same, e)

pub read_byte-ok :
    (p : Ptr) (s : State Object) {b : Block Object} (i : ℕ) {x : ℕ}
    → s.cells (block_of p) ≡ some b
    → is_freed b.header.state ≡ false
    → meta_size + i + 1 ≤ b.room
    → byte_at b.body i ≡ some x
    → read_byte p i s ≡ ok x s
unfolding read_byte
read_byte-ok p s i here alive le e = ground arith

literal_byte-get_elem :
    (s : State Object) (ys : List ℕ) (i : ℕ) {x : ℕ}
    → get_elem? ys i ≡ some x
    → literal_byte ys i s ≡ ok x s
literal_byte-get_elem s [] i e = cc
literal_byte-get_elem s (y ∷ ys) zero e = ground arith
literal_byte-get_elem s (y ∷ ys) (suc i) e = literal_byte-get_elem s ys i e

literal_byte-end : (s : State Object) (ys : List ℕ) → literal_byte ys (length ys) s ≡ ok 0 s
literal_byte-end s [] = refl
literal_byte-end s (y ∷ ys) = literal_byte-end s ys

pub length-get_elem : (ys : List ℕ) (i : ℕ) {x : ℕ} → get_elem? ys i ≡ some x → i < length ys
length-get_elem [] i e = cc
length-get_elem (y ∷ ys) zero e = omega arith
length-get_elem (y ∷ ys) (suc i) e = omega (arith, length-get_elem ys i e)

nonzero : (ys : List ℕ) (i : ℕ) {x : ℕ} → 0 ∉ ys → get_elem? ys i ≡ some x → x ≢ 0
nonzero [] i no_zero e = cc
nonzero (y ∷ ys) zero no_zero e = ground arith
nonzero (y ∷ ys) (suc i) no_zero e = nonzero ys i (ground arith) e

module _ {s : State Object} where
  pub char_of-IsCString :
      {p : CharPointer} {ys : List ℕ} (i : ℕ) {x : ℕ}
      → IsCString s p ys
      → get_elem? ys i ≡ some x
      → char_of p i s ≡ ok x s
  unfolding char_of
  char_of-IsCString i (of_literal ys) e = literal_byte-get_elem s ys i e
  char_of-IsCString i (of_block {q} {ys} h) e =
      let lt = length-get_elem ys i e in
      read_byte-ok q s i h.here h.alive (omega (arith, h.room, lt)) (h.chars i lt ∙ e)

  char_of-end :
      {p : CharPointer} {ys : List ℕ} → IsCString s p ys → char_of p (length ys) s ≡ ok 0 s
  unfolding char_of
  char_of-end (of_literal ys) = literal_byte-end s ys
  char_of-end (of_block {q} {ys} h) = read_byte-ok q s (length ys) h.here h.alive h.room h.ends

  -- Fuel beyond the bytes that are left is enough.
  pub strlen-IsCString :
      {p : CharPointer} {ys : List ℕ} (k i : ℕ)
      → IsCString s p ys
      → 0 ∉ ys
      → i ≤ length ys
      → length ys < k + i
      → strlen k p i s ≡ ok (length ys) s
  unfolding strlen
  strlen-IsCString zero i c no_zero le few = absurd (omega (arith, le, few))
  strlen-IsCString {p} {ys} (suc k) i c no_zero le few = elim (Bool-cases (i == length ys)) [
    | inl e ↦ let at_end : i ≡ length ys = ground arith in rw (at_end, char_of-end c)
    | inr e ↦
        let (x, there) = get_elem?-inside ys i (ground arith) in
        rw (char_of-IsCString i c there, ne→== x 0 (nonzero ys i no_zero there))
          (strlen-IsCString k (i + 1) c no_zero (ground arith) (omega (arith, few)))
  ]
