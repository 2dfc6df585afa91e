-- ===== src/Runtime/Report/Walk.antt =====
-- The walks of src/runtime.c along the shards visit every registered block once, in the order of the
-- chains, and end.
use mathlib.Core.List.{append_assoc, append-nil}
use owned_c.Base.{
  ℕ, zero, suc, ◌+◌, ◌<◌, ◌≡◌, refl, ap, ◌∙◌, Option, none, some, List, [], ◌∷◌, ◌++◌, arith,
  length, ne→==,
}
use owned_c.Runtime.State.{Ptr, null, Meta, Block, Line, State}
use owned_c.Runtime.Command.{Cmd, ok}
use owned_c.Runtime.Access.{load-ok}
use owned_c.Runtime.Allocator.{blank}
use owned_c.Runtime.Chain.{Chain}
use owned_c.Runtime.Report.{walk, walk_shards}
use owned_c.Runtime.Registered.{block_links, links}

-- The blocks of `n` shards from shard `i` on, in the order of the walk.
abbrev pub blocks : (ℕ → List Ptr) → (n i : ℕ) → List Ptr
blocks shards zero i = []
blocks shards (suc n) i = shards i ++ blocks shards n (i + 1)

module _ {A : Type 0} where
  abbrev header_of : Option (Block A) → Meta
  header_of none = blank
  header_of (some b) = b.header

  -- The header at `m`.
  abbrev pub header_at : (Ptr → Option (Block A)) → Ptr → Meta
  header_at c m = header_of (c m)

  abbrev pub log : List Line → State A → State A
  log ls s = record s { output = s.output ++ ls }

module _ {A : Type 0} where
  cell_of_links :
      (o : Option (Block A)) {a q : Ptr}
      → block_links o ≡ some (a, q)
      → (b : Block A) × (o ≡ some b) × (b.header.next ≡ q)
  cell_of_links none h = cc
  cell_of_links (some b) h = (b, refl, ground arith)

module _ {A B : Type 0} (g : Ptr → Meta → B → B) (out : Ptr → Meta → List Line) where
  -- What a walk over the blocks `xs` computes, and what it prints.
  abbrev pub total : (Ptr → Option (Block A)) → List Ptr → B → B
  total c [] acc = acc
  total c (x ∷ xs) acc = total c xs (g x (header_at c x) acc)

  abbrev pub lines : (Ptr → Option (Block A)) → List Ptr → List Line
  lines c [] = []
  lines c (x ∷ xs) = out x (header_at c x) ++ lines c xs

  total-append :
      (c : Ptr → Option (Block A)) (xs ys : List Ptr) (acc : B)
      → total c (xs ++ ys) acc ≡ total c ys (total c xs acc)
  total-append c [] ys acc = refl
  total-append c (x ∷ xs) ys acc = total-append c xs ys (g x (header_at c x) acc)

  lines-append :
      (c : Ptr → Option (Block A)) (xs ys : List Ptr)
      → lines c (xs ++ ys) ≡ lines c xs ++ lines c ys
  lines-append c [] ys = refl
  lines-append c (x ∷ xs) ys = rw (lines-append c xs ys, append_assoc)

  -- A visit that prints `out` and steps by `g`, and changes nothing else.
  module _ (visit : Ptr → Meta → B → Cmd A B)
      (quiet : (m : Ptr) (h : Meta) (acc : B) (s : State A)
        → visit m h acc s ≡ ok (g m h acc) (log (out m h) s)) where
    log-log : (ls ks : List Line) (s : State A) → log ks (log ls s) ≡ log (ls ++ ks) s
    log-log ls ks s = ap (λ o. record s { output = o }) (append_assoc s.output ls ks)

    pub walk_lem :
        (fuel : ℕ) (before p : Ptr) (xs : List Ptr) (acc : B) (s : State A)
        → Chain (links s.cells) before p xs
        → length xs < fuel
        → walk fuel visit p acc s ≡ ok (total s.cells xs acc) (log (lines s.cells xs) s)
    unfolding walk
    walk_lem zero before p xs acc s c few = absurd (omega arith)
    walk_lem (suc fuel) before p [] acc s c few = rw (c, append-nil)
    walk_lem (suc fuel) before p (x ∷ xs) acc s (e, ne, o, (q, h, c)) few =
        let (b, here, to) = cell_of_links (s.cells x) h in
        rw (e, ne→== x null ne, load-ok x s here, quiet, to, here)
          (walk_lem fuel x q xs (g x b.header acc) (log (out x b.header) s) c (omega arith)
            ∙ ap (ok (total s.cells xs (g x b.header acc)))
                (log-log (out x b.header) (lines s.cells xs) s))

    -- The walks along `n` shards, each shorter than the fuel.
    pub walk_shards_lem :
        (shards : ℕ → List Ptr) (fuel n i : ℕ) (acc : B) (s : State A)
        → ((j : ℕ) → Chain (links s.cells) null (s.heads j) (shards j))
        → ((j : ℕ) → length (shards j) < fuel)
        → walk_shards fuel visit n i acc s
          ≡ ok (total s.cells (blocks shards n i) acc) (log (lines s.cells (blocks shards n i)) s)
    unfolding walk_shards
    walk_shards_lem shards fuel zero i acc s c few = rw append-nil
    walk_shards_lem shards fuel (suc n) i acc s c few =
        rw
          (
            walk_lem fuel null (s.heads i) (shards i) acc s (c i) (few i),
            total-append s.cells (shards i) (blocks shards n (i + 1)) acc,
            lines-append s.cells (shards i) (blocks shards n (i + 1)),
          )
          (walk_shards_lem shards fuel n (i + 1) (total s.cells (shards i) acc)
              (log (lines s.cells (shards i)) s) c few
            ∙ ap (ok (total s.cells (blocks shards n (i + 1)) (total s.cells (shards i) acc)))
                (log-log (lines s.cells (shards i)) (lines s.cells (blocks shards n (i + 1))) s))
