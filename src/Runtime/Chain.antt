-- ===== src/Runtime/Chain.antt =====
-- The doubly linked lists of src/runtime.c in the abstract: what the `prev` and `next` fields of the
-- headers have to be for a shard to hold a list of blocks, and how inserting at the front and
-- unlinking anywhere change that list.
use owned_c.Base.{
  ◌≡◌, refl, ap, ◌≢◌, ◌⊎◌, inl, inr, true, false, Option, none, some, List, [], ◌∷◌, arith, ◌==◌,
  if◌then◌else◌, Bool-cases, has, ◌∈◌, ◌∉◌, ==→eq,
}
use owned_c.Runtime.State.{Ptr, null}

-- The `prev` and `next` of a header, where there is one.
abbrev pub Links : Type 0
Links = Ptr → Option (Ptr × Ptr)

-- From `p`, whose `prev` is `before`, the links lead through `xs` and end.
abbrev pub Chain : Links → (before p : Ptr) → List Ptr → Type 0
Chain l before p [] = p ≡ null
Chain l before p (x ∷ xs) =
    (p ≡ x) × (x ≢ null) × (x ∉ xs) × ((q : Ptr) × (l x ≡ some (before, q)) × Chain l x q xs)

abbrev pub erase : Ptr → List Ptr → List Ptr
erase m [] = []
erase m (x ∷ xs) = if x == m then xs else x ∷ erase m xs

abbrev pub with_prev : Ptr → Option (Ptr × Ptr) → Option (Ptr × Ptr)
with_prev a none = none
with_prev a (some (_, n)) = some (a, n)

abbrev pub with_next : Ptr → Option (Ptr × Ptr) → Option (Ptr × Ptr)
with_next b none = none
with_next b (some (p, _)) = some (p, b)

-- The links after the neighbours `a` and `b` of a block have been joined.
abbrev pub joined : (a b : Ptr) → Links → Links
joined a b l x = if x == a then with_next b (l x) else if x == b then with_prev a (l x) else l x

pub null-not-mem : (l : Links) (before p : Ptr) (xs : List Ptr) → Chain l before p xs → null ∉ xs
null-not-mem l before p [] c = refl
null-not-mem l before p (x ∷ xs) (e, ne, out, (q, h, c)) = ground (arith, null-not-mem l x q xs c)

pub Chain-frame :
    (l l' : Links) (before p : Ptr) (xs : List Ptr)
    → ((x : Ptr) → x ∈ xs → l' x ≡ l x)
    → Chain l before p xs
    → Chain l' before p xs
Chain-frame l l' before p [] same c = c
Chain-frame l l' before p (x ∷ xs) same (e, ne, out, (q, h, c)) = (
  e,
  ne,
  out,
  (q, ground (arith, same x), Chain-frame l l' x q xs (λ y i. same y (ground arith)) c),
)

-- The first block gets another `prev`.
pub Chain-with_prev :
    (l l' : Links) (before after p : Ptr) (xs : List Ptr)
    → ((x : Ptr) → x ∈ xs → l' x ≡ (if x == p then with_prev after (l x) else l x))
    → Chain l before p xs
    → Chain l' after p xs
Chain-with_prev l l' before after p [] same c = c
Chain-with_prev l l' before after p (x ∷ xs) same (e, ne, out, (q, h, c)) = (
  e,
  ne,
  out,
  (q, ground (arith, same x), Chain-frame l l' x q xs (λ y i. ground (arith, same y)) c),
)

-- A new first block.
pub Chain-cons :
    (l l' : Links) (m p : Ptr) (xs : List Ptr)
    → m ≢ null
    → m ∉ xs
    → l' m ≡ some (null, p)
    → ((x : Ptr) → x ∈ xs → l' x ≡ (if x == p then with_prev m (l x) else l x))
    → Chain l null p xs
    → Chain l' null m (m ∷ xs)
Chain-cons l l' m p xs ne out h same c =
    (refl, ne, out, (p, h, Chain-with_prev l l' null m p xs same c))

-- A block of the list has links, which lead into the list or out of its ends.
pub record Linked (l : Links) (before p m : Ptr) (xs : List Ptr) : Type 0 where
  pub prev : Ptr
  pub next : Ptr
  pub links : l m ≡ some (prev, next)
  pub prev_in : (prev ≡ before) ⊎ (prev ∈ xs)
  pub next_in : (next ≡ null) ⊎ (next ∈ xs)
  pub prev_ne : prev ≢ m
  pub next_ne : next ≢ m
  pub first : (prev == before) ≡ (p == m)
  pub apart : prev ≢ null → prev ≢ next

pub head_in :
    (l : Links) (before p : Ptr) (xs : List Ptr) → Chain l before p xs → (p ≡ null) ⊎ (p ∈ xs)
head_in l before p [] c = inl c
head_in l before p (x ∷ xs) c = inr (ground (arith, c.0))

pub mem-ne : (a b : Ptr) (xs : List Ptr) → a ∈ xs → b ∉ xs → a ≢ b
mem-ne a b xs i o e = cc (i, o, ap (λ x. has x xs) e)

module _ (l : Links) where
  pub Chain-Linked :
      (before p m : Ptr) (xs : List Ptr)
      → before ∉ xs
      → Chain l before p xs
      → m ∈ xs
      → Linked l before p m xs
  Chain-Linked before p m [] fresh c i = cc
  Chain-Linked before p m (x ∷ xs) fresh (e, ne, out, (q, h, c)) i = elim (Bool-cases (m == x)) [
    | inl here ↦ record {
      prev = before;
      next = q;
      links = rw (==→eq m x here) h;
      prev_in = inl refl;
      next_in = ground (arith, head_in l x q xs c);
      prev_ne = ground arith;
      next_ne = ground (arith, head_in l x q xs c, mem-ne q x xs);
      first = ground arith;
      apart = ground (arith, head_in l x q xs c, mem-ne q before xs);
    }
    | inr later ↦
        let r = Chain-Linked x q m xs out c (ground arith) in
        record {
          prev = r.prev;
          next = r.next;
          links = r.links;
          prev_in = ground (arith, r.prev_in);
          next_in = ground (arith, r.next_in);
          prev_ne = r.prev_ne;
          next_ne = r.next_ne;
          first = ground (arith, r.prev_in, mem-ne r.prev before xs);
          apart = r.apart;
        }
  ]

pub mem-erase : (a m : Ptr) (xs : List Ptr) → a ∈ erase m xs → a ∈ xs
mem-erase a m [] i = i
mem-erase a m (x ∷ xs) i = ground (arith, mem-erase a m xs)

pub mem_erase_of_ne : (a m : Ptr) (xs : List Ptr) → a ∈ xs → a ≢ m → a ∈ erase m xs
mem_erase_of_ne a m [] i ne = i
mem_erase_of_ne a m (x ∷ xs) i ne = ground (arith, mem_erase_of_ne a m xs)

not-mem-erase : (a m : Ptr) (xs : List Ptr) → a ∉ xs → a ∉ erase m xs
not-mem-erase a m [] o = refl
not-mem-erase a m (x ∷ xs) o = ground (arith, not-mem-erase a m xs)

module _ (l l' : Links) where
  -- What the unlinking of a later block does to the first one.
  joined_at_first :
      (before q m a b x : Ptr) (xs : List Ptr)
      → x ≢ null
      → l x ≡ some (before, q)
      → l m ≡ some (a, b)
      → Linked l x q m xs
      → x ∉ xs
      → joined a b l x ≡ some (before, if q == m then b else q)
  joined_at_first before q m a b x xs ne h lm r out =
      ground (arith, r.links, r.first, r.next_in, mem-ne r.next x xs)

  pub Chain-erase :
      (before p m a b : Ptr) (xs : List Ptr)
      → before ∉ xs
      → m ∈ xs
      → l m ≡ some (a, b)
      → ((x : Ptr) → x ∈ erase m xs → l' x ≡ joined a b l x)
      → Chain l before p xs
      → Chain l' before (if p == m then b else p) (erase m xs)
  Chain-erase before p m a b [] fresh i lm same c = cc
  Chain-erase before p m a b (x ∷ xs) fresh i lm same (e, ne, out, (q, h, c)) =
      elim (Bool-cases (x == m)) [
        | inl here ↦
            let pm : (p == m) ≡ true = ground arith in
            let ends : (a ≡ before) × (b ≡ q) = ground arith in
            rw (pm, here, ends.1)
              (Chain-with_prev l l' x before q xs
                (λ y k. ground (arith, same y, mem-ne y before xs, ends.0, ends.1)) c)
        | inr later ↦
            let pm : (p == m) ≡ false = ground arith in
            let mi : m ∈ xs = ground arith in
            rw (pm, later)
              (
                e,
                ne,
                not-mem-erase x m xs out,
                (
                  if q == m then b else q,
                  ground (
                    arith,
                    same x,
                    joined_at_first before q m a b x xs ne h lm (Chain-Linked l x q m xs out c mi)
                        out,
                  ),
                  Chain-erase x q m a b xs out mi lm (λ y k. same y (ground arith)) c,
                ),
              )
      ]

-- A block that is not in the list is not erased, and an erased block is gone.
pub erase_absent : (m : Ptr) (xs : List Ptr) → m ∉ xs → erase m xs ≡ xs
erase_absent m [] o = refl
erase_absent m (x ∷ xs) o = ground (arith, erase_absent m xs)

pub not-mem-erase_self :
    (l : Links) (before p m : Ptr) (xs : List Ptr) → Chain l before p xs → m ∉ erase m xs
not-mem-erase_self l before p m [] c = refl
not-mem-erase_self l before p m (x ∷ xs) (e, ne, out, (q, h, c)) =
    ground (arith, not-mem-erase_self l x q m xs c)
