-- ===== src/Objects/Written.antt =====
-- What stays when a client writes to user bytes, asks for a block, shares one or gives one up: the
-- registry, the headers, and the structures in the other live blocks.
use owned_c.Base.{
  ℕ, ◌≡◌, ◌∙◌, ap, refl, false, Option, some, List, arith, inl, inr, ◌==◌, Bool-cases,
}
use owned_c.Runtime.State.{Ptr, is_freed, Meta, Body, Block, State}
use owned_c.Runtime.Command.{set_cell}
use owned_c.Runtime.Amend.{IsRegistry-set_cell}
use owned_c.Runtime.Registered.{IsRegistry}
use owned_c.Runtime.Relink.{Relinked}
use owned_c.Objects.{Object}

-- From `s` to `t` nothing but user bytes was written.
pub record IsWritten (s t : State Object) : Type 0 where
  pub self : t.self ≡ s.self
  pub registry : (shards : ℕ → List Ptr) → IsRegistry shards s → IsRegistry shards t
  pub headers :
      (x : Ptr) (b : Block Object)
      → s.cells x ≡ some b
      → (b' : Block Object) × (t.cells x ≡ some b') × (b'.header ≡ b.header)

pub same-IsWritten : (s : State Object) → IsWritten s s
same-IsWritten s = record {
  self = refl;
  registry = λ shards r. r;
  headers = λ x b at_x. (b, at_x, refl);
}

pub set_cell-IsWritten :
    (s : State Object) (m : Ptr) {b : Block Object}
    → s.cells m ≡ some b
    → (o : Body Object) → IsWritten s (set_cell m (some (record b { body = o })) s)
set_cell-IsWritten s m {b} at_m o = record {
  self = refl;
  registry = λ shards r. IsRegistry-set_cell r m at_m (record {
    tracked = λ t. record { magic = t.magic; room = t.room };
    freed = refl;
    prev = refl;
    next = refl;
  });
  headers = λ x c at_x. elim (Bool-cases (x == m)) [
    | inl e ↦
        let same : b ≡ c = ground (arith, at_m, at_x) in
        (record b { body = o }, ground arith, ap (λ (z : Block Object). z.header) same)
    | inr e ↦ (c, ground (arith, at_x), refl)
  ];
}

pub IsWritten-trans : {s t u : State Object} → IsWritten s t → IsWritten t u → IsWritten s u
IsWritten-trans v w = record {
  self = w.self ∙ v.self;
  registry = λ shards r. w.registry shards (v.registry shards r);
  headers = λ x b at_x.
      let (c, at_c, e) = v.headers x b at_x in
      let (d, at_d, f) = w.headers x c at_c in (d, at_d, f ∙ e);
}

abbrev pub Cells : Type 0
Cells = Ptr → Option (Block Object)

-- If a live block is at `x`, it is there still, with the same user bytes.
pub record IsKept (c d : Cells) (x : Ptr) : Type 0 where
  pub kept :
      (b : Block Object)
      → c x ≡ some b
      → is_freed b.header.state ≡ false
      → (b' : Block Object) × (d x ≡ some b')
        × (b'.body ≡ b.body)
        × (b'.room ≡ b.room)
        × (is_freed b'.header.state ≡ false)

pub IsKept-trans : {c d e : Cells} {x : Ptr} → IsKept c d x → IsKept d e x → IsKept c e x
IsKept-trans v w = record {
  kept = λ b at_x alive.
      let (b', at', body, room, alive') = v.kept b at_x alive in
      let (d, at_d, body', room', alive'') = w.kept b' at' alive' in
      (d, at_d, body' ∙ body, room' ∙ room, alive'');
}

pub Relinked-IsKept : (c d : Cells) (x : Ptr) → Relinked c d x → IsKept c d x
Relinked-IsKept c d x (p, n, e) = record {
  kept = λ b at_x alive. (
    record b { header = record b.header { prev = p; next = n } },
    ground (arith, e, at_x),
    refl,
    refl,
    alive,
  );
}

pub same-IsKept : {c d : Cells} {x : Ptr} → d x ≡ c x → IsKept c d x
same-IsKept e = record { kept = λ b at_x alive. (b, e ∙ at_x, refl, refl, alive) }

-- Another header that is not freed, at a block that is there.
pub header-IsKept :
    (s : State Object) (m : Ptr) {b : Block Object} (h : Meta) (x : Ptr)
    → s.cells m ≡ some b
    → is_freed h.state ≡ false
    → IsKept s.cells (set_cell m (some (record b { header = h })) s).cells x
header-IsKept s m {b} h x at_m alive' = record {
  kept = λ c at_x alive. elim (Bool-cases (x == m)) [
    | inl e ↦
        let same : b ≡ c = ground (arith, at_m, at_x) in
        (
          record b { header = h },
          ground arith,
          ap (λ (z : Block Object). z.body) same,
          ap (λ (z : Block Object). z.room) same,
          alive',
        )
    | inr e ↦ (c, ground (arith, at_x), refl, refl, alive)
  ];
}
