-- ===== src/Counting/Swept.antt =====
-- What the last loop of `owned_rc_collect_cycles` in src/ownedc_rc.c leaves of the list and of the registry.
use owned_c.Base.{
  ℕ, suc, ◌≡◌, refl, ap, List, [], ◌∷◌, ◌++◌, ◌∈◌, ◌∉◌, arith, ◌==◌, if◌then◌else◌, eq→==,
}
use owned_c.Runtime.State.{Ptr, null}
use owned_c.Runtime.Chain.{erase}
use owned_c.Objects.{Counted, block_of}
use owned_c.Counting.Graph.{Contents}
use owned_c.Counting.Phases.{Follows}
use owned_c.Counting.Unlink.{Distinct}
use owned_c.Counting.Unregister.{SameCount}
use owned_c.Counting.Drop.{dropped_shards}

-- Those of the wrappers that have a mark, and how many have none.
abbrev pub marked_of : Contents → List Ptr → List Ptr
marked_of f [] = []
marked_of f (m ∷ ms) = if (f m).gc_marked then m ∷ marked_of f ms else marked_of f ms

abbrev pub unmarked_count : Contents → List Ptr → ℕ
unmarked_count f [] = 0
unmarked_count f (m ∷ ms) =
    if (f m).gc_marked then unmarked_count f ms else suc (unmarked_count f ms)

pub mem-marked_of : (f : Contents) (x : Ptr) (ms : List Ptr) → x ∈ marked_of f ms → x ∈ ms
mem-marked_of f x [] j = j
mem-marked_of f x (m ∷ ms) j = ground (arith, mem-marked_of f x ms)

-- The shards without the wrappers that have no mark, and without what these hold.
abbrev pub swept_shards : (shards : ℕ → List Ptr) → Contents → List Ptr → ℕ → List Ptr
swept_shards shards f [] = shards
swept_shards shards f (m ∷ ms) =
    if (f m).gc_marked
    then swept_shards shards f ms
    else swept_shards (dropped_shards shards (f m) m) f ms

dropped_shards-same :
    (shards : ℕ → List Ptr) (h h' : Counted) (m : Ptr)
    → h'.inner ≡ h.inner
    → dropped_shards shards h' m ≡ dropped_shards shards h m
dropped_shards-same shards h h' m e =
    ap
      (λ z.
        if z == null
        then (λ j. erase m (shards j))
        else (λ j. erase m (erase (block_of z) (shards j))))
      e

-- What depends on the marks and on what is held is the same for contents that agree on these.
module _ (f g : Contents) where
  pub marked_of-same :
      (ms : List Ptr)
      → ((x : Ptr) → x ∈ ms → SameCount (f x) (g x))
      → (marked_of g ms ≡ marked_of f ms) × (unmarked_count g ms ≡ unmarked_count f ms)
  marked_of-same [] same = (refl, refl)
  marked_of-same (m ∷ ms) same =
      let (e, d) = marked_of-same ms (λ x k. same x (ground arith)) in
      let mark = (same m (ground arith)).gc_marked in (rw (mark, e) refl, rw (mark, d) refl)

  pub swept_shards-same :
      (ms : List Ptr) (shards : ℕ → List Ptr)
      → ((x : Ptr) → x ∈ ms → SameCount (f x) (g x))
      → swept_shards shards g ms ≡ swept_shards shards f ms
  swept_shards-same [] shards same = refl
  swept_shards-same (m ∷ ms) shards same =
      let here = same m (ground arith) in
      let rest = λ (sh : ℕ → List Ptr). swept_shards-same ms sh (λ x k. same x (ground arith)) in
      let mark = here.gc_marked in
      rw
        (
          mark,
          rest shards,
          rest (dropped_shards shards (g m) m),
          dropped_shards-same shards (f m) (g m) m here.inner,
        )
        refl

pub Follows-suffix :
    (f : Contents) (p y : Ptr) (front ys : List Ptr)
    → Follows f p (front ++ y ∷ ys)
    → Follows f (f y).gc_next ys
Follows-suffix f p y [] ys (e, list) = list
Follows-suffix f p y (a ∷ front) ys (e, list) = Follows-suffix f (f a).gc_next y front ys list

-- The rest of the list starts where it did.
pub Follows-rest :
    (f g : Contents) (p q : Ptr) (front ys : List Ptr)
    → Follows f q ys
    → Follows g p (front ++ ys)
    → Follows g q ys
Follows-rest f g p q front [] e list = e
Follows-rest f g p q front (y ∷ ys) (e, _) list = (e, Follows-suffix g p y front ys list)

pub erase_middle :
    (m : Ptr) (front ys : List Ptr) → m ∉ front → erase m (front ++ m ∷ ys) ≡ front ++ ys
erase_middle m [] ys out = rw (eq→== m m refl) refl
erase_middle m (a ∷ front) ys out = ground (arith, erase_middle m front ys)

pub in_middle : (m : Ptr) (front ys : List Ptr) → m ∈ front ++ m ∷ ys
in_middle m [] ys = ground arith
in_middle m (a ∷ front) ys = ground (arith, in_middle m front ys)

pub out_of_front : (m : Ptr) (front ys : List Ptr) → Distinct (front ++ m ∷ ys) → m ∉ front
out_of_front m [] ys d = refl
out_of_front m (a ∷ front) ys (out, d) =
    ground (arith, out_of_front m front ys d, in_middle m front ys, out)

pub append_assoc :
    (front : List Ptr) (m : Ptr) (ys : List Ptr) → (front ++ m ∷ []) ++ ys ≡ front ++ m ∷ ys
append_assoc [] m ys = refl
append_assoc (a ∷ front) m ys = ap (λ zs. a ∷ zs) (append_assoc front m ys)
