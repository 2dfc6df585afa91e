-- ===== src/Runtime/Relink.antt =====
-- Changing the links of headers leaves the rest of every block as it was.
use owned_c.Base.{ℕ, ◌≡◌, ap, ◌≢◌, inl, inr, Option, some, arith, ◌==◌, Bool-cases}
use owned_c.Runtime.State.{Ptr, null, Block}
use owned_c.Runtime.Insert.{map_header, in_front}
use owned_c.Runtime.Remove.{bypassed}
use owned_c.Runtime.Registered.{IsMember, IsRetired}

module _ {A : Type 0} where
  abbrev pub relink : (p n : Ptr) → Option (Block A) → Option (Block A)
  relink p n = map_header (λ h. record h { prev = p; next = n })

  -- The block at `x` is the same but for its links.
  abbrev pub Relinked : (c c' : Ptr → Option (Block A)) → Ptr → Type 0
  Relinked c c' x = (p n : Ptr) × (c' x ≡ relink p n (c x))

  module _ (c : Ptr → Option (Block A)) (x : Ptr) {b : Block A} (at_x : c x ≡ some b) where
    pub bypassed-Relinked : (m p n : Ptr) → x ≢ m → Relinked c (bypassed m p n c) x
    bypassed-Relinked m p n ne = elim (Bool-cases (x == p)) [
      | inl e ↦ (b.header.prev, n, ground arith)
      | inr e ↦ elim (Bool-cases (x == n)) [
        | inl f ↦ (p, b.header.next, ground arith)
        | inr f ↦ (b.header.prev, b.header.next, ground arith)
      ]
    ]

    pub in_front-Relinked : (m head : Ptr) → Relinked c (in_front m head c) x
    in_front-Relinked m head = elim (Bool-cases (x == m)) [
      | inl e ↦ (null, head, ground arith)
      | inr e ↦ elim (Bool-cases (x == head)) [
        | inl f ↦ (m, b.header.next, ground arith)
        | inr f ↦ (b.header.prev, b.header.next, ground arith)
      ]
    ]

  module _ (c c' : Ptr → Option (Block A)) (x : Ptr) where
    pub IsMember-Relinked : (i : ℕ) → Relinked c c' x → IsMember c i x → IsMember c' i x
    IsMember-Relinked i (p, n, e) h = record {
      block = record h.block { header = record h.block.header { prev = p; next = n } };
      here = ground (arith, h.here);
      tracked = record { magic = h.tracked.magic; room = h.tracked.room };
      alive = h.alive;
      shard = h.shard;
    }

    pub IsMember-same : (i : ℕ) → c' x ≡ c x → IsMember c i x → IsMember c' i x
    IsMember-same i e h = record {
      block = h.block;
      here = ground (arith, h.here);
      tracked = h.tracked;
      alive = h.alive;
      shard = h.shard;
    }

    pub IsRetired-same : c' x ≡ c x → IsRetired c x → IsRetired c' x
    IsRetired-same e h = record {
      block = h.block;
      here = ground (arith, h.here);
      tracked = h.tracked;
      gone = h.gone;
    }

    -- Live blocks and freed ones are different blocks.
    pub IsMember-ne_retired : (i : ℕ) (y : Ptr) → IsMember c i x → IsRetired c y → x ≢ y
    IsMember-ne_retired i y h g e = ground (arith, h.here, g.here, h.alive, g.gone, ap c e)
