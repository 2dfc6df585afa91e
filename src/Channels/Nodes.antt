-- ===== src/Channels/Nodes.antt =====
-- The nodes of a channel of src/ownedc_channel.c, as they lie in memory.
use owned_c.Base.{
  ℕ, ◌+◌, ◌≤◌, ◌≡◌, ◌≢◌, refl, sym, ap, subst, ◌∙◌, false, some, List, [], ◌∷◌, ◌++◌, arith, ◌==◌,
  ◌||◌, if◌then◌else◌, has, ◌∈◌, ◌∉◌, ne→==,
}
use owned_c.Runtime.State.{Ptr, null, meta_size, is_freed, Block, holds}
use owned_c.Objects.{Object, node, block_of}
use owned_c.Objects.Written.{Cells}
use owned_c.Channels.{node_size}

-- The node at `q` holds the item `x` and points at `n`.
pub record IsNode (c : Cells) (q x n : Ptr) : Type 0 where
  pub block : Block Object
  pub here : c (block_of q) ≡ some block
  pub alive : is_freed block.header.state ≡ false
  pub room : meta_size + node_size ≤ block.room
  pub fields : block.body ≡ holds (node (record { item = x; next = n }))
  pub nonnull : q ≢ null

-- The blocks of the nodes, each given by its address and its item.
abbrev pub blocks_of : List (Ptr × Ptr) → List Ptr
blocks_of [] = []
blocks_of ((q, x) ∷ ns) = block_of q ∷ blocks_of ns

abbrev pub last_of : Ptr → List (Ptr × Ptr) → Ptr
last_of p [] = p
last_of p ((q, x) ∷ ns) = last_of q ns

-- The nodes from `p` on are these.
abbrev pub Nodes : Cells → Ptr → List (Ptr × Ptr) → Type 0
Nodes c p [] = p ≡ null
Nodes c p ((q, x) ∷ ns) =
    (p ≡ q) × (block_of q ∉ blocks_of ns) × ((n : Ptr) × IsNode c q x n × Nodes c n ns)

pub IsNode-frame :
    {c d : Cells} {q x n : Ptr} → d (block_of q) ≡ c (block_of q) → IsNode c q x n → IsNode d q x n
IsNode-frame same w = record {
  block = w.block;
  here = same ∙ w.here;
  alive = w.alive;
  room = w.room;
  fields = w.fields;
  nonnull = w.nonnull;
}

-- Nodes whose blocks are not touched stay.
pub Nodes-frame :
    {c d : Cells} (p : Ptr) (ns : List (Ptr × Ptr))
    → ((m : Ptr) → m ∈ blocks_of ns → d m ≡ c m)
    → Nodes c p ns
    → Nodes d p ns
Nodes-frame p [] same w = w
Nodes-frame p ((q, x) ∷ ns) same (at_q, out, (n, w, ws)) = (
  at_q,
  out,
  (
    n,
    IsNode-frame (same (block_of q) (ground arith)) w,
    Nodes-frame n ns (λ m i. same m (ground arith)) ws,
  ),
)

-- A block that is not among them is none of them.
pub not_among : (l : List ℕ) (a k : ℕ) → a ∉ l → k ∈ l → k ≢ a
not_among l a k out i e = ground (arith, out, i, ap (λ z. has z l) e)

-- The tail is forgotten exactly when no node is left.
pub new_last :
    (c : Cells) (m : Ptr) (ns : List (Ptr × Ptr)) (tail n : Ptr)
    → Nodes c m ns
    → tail ≡ last_of n ns
    → (if m == null then null else tail) ≡ last_of null ns
new_last c m [] tail n w e = ground (arith, w)
new_last c m ((q, x) ∷ ns) tail n (at_q, out, (k, w, ws)) e =
    rw (ne→== m null (λ d. w.nonnull (sym at_q ∙ d))) e

pub last_of-append :
    (p : Ptr) (ns : List (Ptr × Ptr)) (m y : Ptr) → last_of p (ns ++ (m, y) ∷ []) ≡ m
last_of-append p [] m y = refl
last_of-append p ((q, x) ∷ ns) m y = last_of-append q ns m y

pub blocks_of-append :
    (ns : List (Ptr × Ptr)) (m y k : Ptr)
    → has k (blocks_of (ns ++ (m, y) ∷ [])) ≡ (has k (blocks_of ns) || (k == block_of m))
blocks_of-append [] m y k = ground arith
blocks_of-append ((q, x) ∷ ns) m y k = ground (arith, blocks_of-append ns m y k)

-- The last node has a null pointer behind it.
pub last-IsNode :
    {c : Cells} (p q x : Ptr) (ns : List (Ptr × Ptr))
    → Nodes c p ((q, x) ∷ ns)
    → (y : Ptr) × IsNode c (last_of q ns) y null
      × (block_of (last_of q ns) ∈ blocks_of ((q, x) ∷ ns))
last-IsNode {c} p q x [] (at_q, out, (n, w, e)) = (x, subst (λ m. IsNode c q x m) e w, ground arith)
last-IsNode p q x ((q', x') ∷ ns) (at_q, out, (n, w, ws)) =
    let (y, v, i) = last-IsNode n q' x' ns ws in (y, v, ground arith)

-- With the last node pointed at a new one the nodes have it at their end.
pub Nodes-append :
    {c d : Cells} (p q x : Ptr) (ns : List (Ptr × Ptr)) (m y : Ptr)
    → Nodes c p ((q, x) ∷ ns)
    → ((z : Ptr) → IsNode c (last_of q ns) z null → IsNode d (last_of q ns) z m)
    → ((k : Ptr) → k ≢ block_of (last_of q ns) → d k ≡ c k)
    → IsNode d m y null
    → block_of m ∉ blocks_of ((q, x) ∷ ns)
    → Nodes d p (((q, x) ∷ ns) ++ (m, y) ∷ [])
Nodes-append {c} p q x [] m y (at_q, out, (n, w, e)) new same fresh away = (
  at_q,
  ground arith,
  (m, new x (subst (λ k. IsNode c q x k) e w), (refl, refl, (null, fresh, refl))),
)
Nodes-append p q x ((q', x') ∷ ns) m y (at_q, out, (n, w, ws)) new same fresh away =
    let (y', v, i) = last-IsNode n q' x' ns ws in
    (
      at_q,
      ground (arith, blocks_of-append ((q', x') ∷ ns) m y (block_of q)),
      (
        n,
        IsNode-frame
            (same (block_of q) (λ e.
              not_among (blocks_of ((q', x') ∷ ns)) (block_of q) (block_of (last_of q' ns)) out i
                (sym e)))
            w,
        Nodes-append n q' x' ns m y ws new same fresh (ground arith),
      ),
    )
