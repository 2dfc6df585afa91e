-- ===== src/Strings/Copying.antt =====
-- memcpy of a C string into a block, as src/ownedc_string.c calls it.
use owned_c.Base.{
  ℕ, zero, suc, ◌+◌, ◌≤◌, ◌<◌, ◌≡◌, ◌≢◌, ◌∙◌, refl, false, some, List, arith, length, get_elem?,
  ◌==◌, inl, inr, Bool-cases, ==→eq, ==→ne, get_elem?-inside,
}
use owned_c.Runtime.State.{Ptr, meta_size, is_freed, holds, Body, Block, State}
use owned_c.Runtime.Command.{ok, set_cell}
use owned_c.Objects.{Object, bytes, block_of, byte_at, written_at}
use owned_c.Objects.Access.{write_byte-ok}
use owned_c.Objects.Written.{IsKept, IsWritten, IsWritten-trans, same-IsWritten, set_cell-IsWritten}
use owned_c.Strings.{CharPointer, memcpy}
use owned_c.Strings.Bytes.{IsCString, IsAway, IsCString-away, char_of-IsCString}

-- From `s` to `t` only the bytes in the block `m` were written: they are `body`.
pub record IsFilled (s t : State Object) (m : Ptr) (b : Block Object) (body : Body Object)
    : Type 0 where
  pub here : t.cells m ≡ some (record b { body = body })
  pub others : (x : Ptr) → x ≢ m → t.cells x ≡ s.cells x
  pub written : IsWritten s t

pub IsFilled-IsKept :
    {s t : State Object} {m : Ptr} {b : Block Object} {body : Body Object}
    → IsFilled s t m b body
    → (x : Ptr) → x ≢ m
    → IsKept s.cells t.cells x
IsFilled-IsKept f x ne = record { kept = λ c at alive. (c, f.others x ne ∙ at, refl, refl, alive) }

pub IsFilled-trans :
    {s t u : State Object} {m : Ptr} {b : Block Object} {v w : Body Object}
    → IsFilled s t m b v
    → IsFilled t u m (record b { body = v }) w
    → IsFilled s u m b w
IsFilled-trans f g = record {
  here = g.here;
  others = λ x ne. g.others x ne ∙ f.others x ne;
  written = IsWritten-trans f.written g.written;
}

module _ (s : State Object) {m : Ptr} {b : Block Object} (here : s.cells m ≡ some b) where
  pub same-IsFilled : IsFilled s s m b b.body
  same-IsFilled = record { here = here; others = λ x ne. refl; written = same-IsWritten s }

  pub set_cell-IsFilled :
      (body : Body Object) → IsFilled s (set_cell m (some (record b { body = body })) s) m b body
  set_cell-IsFilled body = record {
    here = ground arith;
    others = λ x ne. ground arith;
    written = set_cell-IsWritten s m here body;
  }

-- The bytes of the C string from `i` on stand behind the first `target + i` bytes of the block.
module _ (d : Ptr) (target : ℕ) (p : CharPointer) (ys : List ℕ) where
  pub memcpy-IsFilled :
      (n i : ℕ) (s : State Object) (b : Block Object)
      → s.cells (block_of d) ≡ some b
      → is_freed b.header.state ≡ false
      → meta_size + target + length ys ≤ b.room
      → IsCString s p ys
      → IsAway p (block_of d)
      → i + n ≡ length ys
      → (t : State Object) × (body : Body Object) × (memcpy d target p n i s ≡ ok tt t)
        × IsFilled s t (block_of d) b body
        × ((j : ℕ) → j < target + i → byte_at body j ≡ byte_at b.body j)
        × ((j : ℕ) → i ≤ j → j < length ys → byte_at body (target + j) ≡ get_elem? ys j)
  unfolding memcpy
  memcpy-IsFilled zero i s b here alive room c away len = (
    s,
    b.body,
    refl,
    same-IsFilled s here,
    λ j lt. refl,
    λ j le lt. absurd (omega (arith, le, lt, len)),
  )
  memcpy-IsFilled (suc n) i s b here alive room c away len =
      let (x, there) = get_elem?-inside ys i (omega (arith, len)) in
      let body : Body Object = holds (bytes (written_at (byte_at b.body) (target + i) x)) in
      let put = write_byte-ok d s here alive (target + i) x (omega (arith, room, len)) in
      let f = set_cell-IsFilled s here body in
      let (t, last, run, g, before, behind) =
        memcpy-IsFilled n (i + 1) (set_cell (block_of d) (some (record b { body = body })) s)
          (record b { body = body }) f.here alive room
          (IsCString-away (block_of d) (IsFilled-IsKept f) away c) away (omega (arith, len)) in
      (
        t,
        last,
        rw (char_of-IsCString i c there, put, run),
        IsFilled-trans f g,
        λ j lt. before j (omega (arith, lt)) ∙ ground (arith, lt),
        λ j le lt. elim (Bool-cases (j == i)) [
          | inl e ↦
              let same = ==→eq j i e in
              before (target + j) (omega (arith, same)) ∙ rw same (ground (arith, there))
          | inr e ↦ behind j (omega (arith, le, ==→ne j i e)) lt
        ],
      )
