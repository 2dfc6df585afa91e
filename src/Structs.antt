-- ===== src/Structs.antt =====
-- What the library's own structures keep in the user bytes of a block.
use owned_c.Base.{ℕ, ℤ, Bool, Option}
use owned_c.Runtime.State.{Ptr}

-- `safe_vector_t` of include/ownedc_collections.h
pub record Vector : Type 0 where
  pub items : Ptr
  pub length : ℕ
  pub capacity : ℕ

-- `owned_array_t` of include/ownedc_array.h
pub record Array : Type 0 where
  pub items : Ptr
  pub capacity : ℕ

-- `safe_string_t` of include/ownedc_string.h
pub record SafeString : Type 0 where
  pub chars : Ptr
  pub length : ℕ
  pub capacity : ℕ

-- `safe_region_t` of include/ownedc_region.h
pub record Region : Type 0 where
  pub current_chunk : Ptr
  pub chunk_size : ℕ

-- `struct safe_region_chunk` of src/region.c, less its data
pub record Chunk : Type 0 where
  pub used : ℕ
  pub capacity : ℕ
  pub next : Ptr

-- `struct ownedc_arena` of src/ownedc_arena.c
pub record Arena : Type 0 where
  pub head : Ptr
  pub current : Ptr
  pub default_block_size : ℕ

-- `arena_block_t` of src/ownedc_arena.c, less its data
pub record ArenaBlock : Type 0 where
  pub next : Ptr
  pub size : ℕ
  pub used : ℕ

-- `channel_node_t` and `struct ownedc_channel` of src/ownedc_channel.c, less the mutex and condition
pub record Node : Type 0 where
  pub item : Ptr
  pub next : Ptr

pub record Channel : Type 0 where
  pub head : Ptr
  pub tail : Ptr

-- `owned_rc_t` of include/ownedc_rc.h
pub record Counted : Type 0 where
  pub inner : Ptr
  pub ref_count : ℕ
  pub children : ℕ → Ptr
  pub child_count : ℕ
  pub gc_ref : ℕ
  pub gc_marked : Bool
  pub gc_next : Ptr

-- `safe_file_t` of include/ownedc_file.h
pub record SafeFile : Type 0 where
  pub handle : Ptr
  pub is_closed : Bool

-- `safe_socket_t` of include/ownedc_socket.h
pub record SafeSocket : Type 0 where
  pub fd : ℤ
  pub is_closed : Bool

-- `safe_mutex_t` of include/ownedc_mutex.h
pub record SafeMutex : Type 0 where
  pub raw_mutex : Ptr
  pub is_locked : Bool

-- `thread_cleanup_policy_t` and `safe_thread_t` of include/ownedc_thread.h
pub data CleanupPolicy : Type 0 where
  cleanup_join cleanup_detach : CleanupPolicy

pub record SafeThread : Type 0 where
  pub handle : ℕ
  pub policy : CleanupPolicy
  pub is_active : Bool

-- `struct owned_future` of src/ownedc_future.c, less the mutex and condition
pub record Future : Type 0 where
  pub task : ℕ
  pub arg : Ptr
  pub result : Ptr
  pub is_ready : Bool
  pub thread : ℕ

-- `struct json_node` of include/owned_json.h: the type, with the member of the union that it selects.
-- A number is the bits of a double.
pub data Json : Type 0 where
  json_null : Json
  json_bool : (bool_val : ℕ) → Json
  json_number : (num_val : ℕ) → Json
  json_string : (str_val : Ptr) → Json
  json_array : (items : Ptr) (count capacity : ℕ) → Json
  json_object : (keys values : Ptr) (count capacity : ℕ) → Json

-- `pointers` and `bytes` are buffers, with what was written to each index.
pub data Object : Type 0 where
  vector : Vector → Object
  array : Array → Object
  safe_string : SafeString → Object
  region : Region → Object
  chunk : Chunk → Object
  arena : Arena → Object
  arena_block : ArenaBlock → Object
  node : Node → Object
  channel : Channel → Object
  counted : Counted → Object
  safe_file : SafeFile → Object
  safe_socket : SafeSocket → Object
  safe_mutex : SafeMutex → Object
  safe_thread : SafeThread → Object
  future : Future → Object
  json : Json → Object
  pointers : (ℕ → Option Ptr) → Object
  bytes : (ℕ → Option ℕ) → Object
