-- ===== src/Channels.antt =====
-- src/ownedc_channel.c: the queue between threads. A call is one step, so the mutex of the channel is
-- not part of its state; a receiver of an empty channel waits.
pub mod Nodes
pub mod Queue
pub mod Kept
pub mod Send
pub mod Recv
use owned_c.Base.{ℕ, zero, suc, ◌||◌, Option, none, some, ◌==◌, if◌then◌else◌}
use owned_c.Runtime.State.{Ptr, null}
use owned_c.Runtime.Command.{◌>>=◌, ◌>>◌, pure, undefined, out_of_fuel}
use owned_c.Runtime.Registry.{unless}
use owned_c.Runtime.Alloc.{owner_malloc, owner_free}
use owned_c.Runtime.Ownership.{ownership_share, ownership_claim}
use owned_c.Objects.{Act, Node, Channel, node, channel, read_node, read_channel, assign}

-- `sizeof(ownedc_channel_t)` with a mutex of 40 bytes and a condition of 48, and
-- `sizeof(channel_node_t)`.
abbrev pub channel_size : ℕ
channel_size = 104

abbrev pub node_size : ℕ
node_size = 16

unfoldable pub ownedc_channel_create : Act Ptr
ownedc_channel_create = do
  ch ← owner_malloc channel_size
  if ch == null
      then pure null
      else do assign ch channel_size (channel (record { head = null; tail = null })); pure ch

-- What `ownedc_channel_send` does with the mutex held.
unfoldable pub enqueue : (ch n : Ptr) → Act Unit
enqueue ch n = do
  c ← read_channel ch
  if c.tail == null then assign ch channel_size (channel (record { head = n; tail = n })) else do
    last ← read_node c.tail
    assign c.tail node_size (node (record last { next = n }))
    assign ch channel_size (channel (record c { tail = n }))

-- The new node is written to without a test.
unfoldable pub ownedc_channel_send : (ch p : Ptr) → Act Unit
ownedc_channel_send ch p = if ch == null || p == null then pure tt else do
  ownership_share p
  n ← owner_malloc node_size
  if n == null
      then undefined
      else do assign n node_size (node (record { item = p; next = null })); enqueue ch n

-- What `ownedc_channel_recv` does with the mutex held and a node there.
unfoldable pub dequeue : (ch : Ptr) → Channel → Act Node
dequeue ch c = do
  first ← read_node c.head
  assign ch channel_size
      (channel (record { head = first.next; tail = if first.next == null then null else c.tail }))
  pure first

-- `none` where the call waits; the state is then as it was.
unfoldable pub ownedc_channel_recv : (ch : Ptr) → Act (Option Ptr)
ownedc_channel_recv ch = if ch == null then pure (some null) else do
  c ← read_channel ch
  if c.head == null then pure none else do
    first ← dequeue ch c
    ownership_claim c.head
    owner_free c.head
    unless (first.item == null) (ownership_claim first.item)
    pure (some first.item)

-- `while (curr)`
unfoldable pub free_nodes : (fuel : ℕ) → Ptr → Act Unit
free_nodes zero n = λ _. out_of_fuel
free_nodes (suc k) n =
    if n == null then pure tt else do x ← read_node n; owner_free n; free_nodes k x.next

unfoldable pub ownedc_channel_free : (fuel : ℕ) → (ch : Ptr) → Act Unit
ownedc_channel_free fuel ch =
    if ch == null then pure tt else do c ← read_channel ch; free_nodes fuel c.head; owner_free ch
