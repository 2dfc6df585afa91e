-- ===== src/Strings/Append.antt =====
-- `safe_string_append` of src/ownedc_string.c puts the bytes of the suffix behind those of the string.
use owned_c.Base.{
  ℕ, ◌+◌, ◌-◌, ◌%◌, ◌≤◌, ◌<◌, ◌≡◌, ◌≢◌, ◌∙◌, sym, ap, List, ◌++◌, arith, length, length-append,
  get_elem?, ltb, inl, inr, Bool-cases, get_elem?-append_before, get_elem?-append_behind,
}
use owned_c.Runtime.State.{Ptr, size_mod, Body, State}
use owned_c.Runtime.Command.{ok, ◌>>◌}
use owned_c.Objects.{Object, SafeString, block_of, byte_at}
use owned_c.Objects.Written.{IsWritten, IsWritten-trans}
use owned_c.Strings.{CharPointer, memcpy, set_length, set_char}
use owned_c.Strings.Bytes.{IsCString, IsAway}
use owned_c.Strings.Copying.{memcpy-IsFilled}
use owned_c.Strings.Texts.{HasBytes, IsText, filled-IsBuffered, closed-IsText}

HasBytes-append :
    (old new : Body Object) (xs ys : List ℕ)
    → HasBytes old xs
    → ((j : ℕ) → j < length xs + 0 → byte_at new j ≡ byte_at old j)
    → ((j : ℕ) → 0 ≤ j → j < length ys → byte_at new (length xs + j) ≡ get_elem? ys j)
    → HasBytes new (xs ++ ys)
HasBytes-append old new xs ys has before behind i lt = elim (Bool-cases (ltb i (length xs))) [
  | inl e ↦
      let small : i < length xs = ground arith in
      before i (omega (arith, small)) ∙ has i small ∙ sym (get_elem?-append_before xs ys i small)
  | inr e ↦
      let le : length xs ≤ i = ground arith in
      let at : i ≡ length xs + (i - length xs) = omega (arith, le) in
      ap (byte_at new) at
      ∙ behind (i - length xs) (omega arith) (omega (arith, le, lt, length-append xs ys))
      ∙ sym (get_elem?-append_behind xs ys (i - length xs))
      ∙ ap (get_elem? (xs ++ ys)) (sym at)
]

append_steps :
    (chars str : Ptr) (p : CharPointer) (at n total k : ℕ) (s t u : State Object)
    → at ≡ n
    → (at + k) % size_mod ≡ total
    → memcpy chars n p k 0 s ≡ ok tt t
    → (do set_length str total; set_char str total 0) t ≡ ok tt u
    → (do
      memcpy chars at p k 0
      set_length str ((at + k) % size_mod)
      set_char str ((at + k) % size_mod) 0)
        s
      ≡ ok tt u
append_steps chars str p at n total k s t u same sum copied closed = rw (sum, same, copied, closed)

-- The bytes fit.
module _ {s : State Object} {str : Ptr} {v : SafeString} {xs : List ℕ} (r : IsText s str v xs) where
  pub append-IsText :
      (p : CharPointer) (ys : List ℕ)
      → IsCString s p ys
      → IsAway p (block_of v.chars)
      → length xs + length ys < v.capacity
      → (t : State Object) × ((do
        memcpy v.chars v.length p (length ys) 0
        set_length str ((v.length + length ys) % size_mod)
        set_char str ((v.length + length ys) % size_mod) 0)
            s
          ≡ ok tt t)
        × IsText t str (record v { length = length (xs ++ ys) }) (xs ++ ys)
        × IsWritten s t
        × ((x : Ptr) → x ≢ block_of str → x ≢ block_of v.chars → t.cells x ≡ s.cells x)
  append-IsText p ys c away room =
      let b = r.parts in
      let total : (v.length + length ys) % size_mod ≡ length (xs ++ ys) =
        omega (arith, length-append xs ys, room, b.small, r.count) in
      let (t, new, run, f, before, behind) =
        memcpy-IsFilled v.chars (length xs) p ys (length ys) 0 s b.store b.store_here b.store_alive
          (omega (arith, b.store_room, room)) c away (omega arith) in
      let (u, run', text, w, same) =
        closed-IsText (filled-IsBuffered b new f.here f.others) (xs ++ ys)
          (HasBytes-append r.body new xs ys r.stored
            (λ j lt. before j lt ∙ ap (λ z. byte_at z j) b.contents) behind)
          (omega (arith, length-append xs ys, room)) in
      (
        u,
        append_steps v.chars str p v.length (length xs) (length (xs ++ ys)) (length ys) s t u
            r.count total run run',
        text,
        IsWritten-trans f.written w,
        λ x a d. same x a d ∙ f.others x d,
      )
