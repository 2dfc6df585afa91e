-- ===== src/Runtime/State.antt =====
-- The data of src/runtime.c and include/ownedc.h: states of an allocation, its header
-- (`alloc_meta_t`), and the globals of the registry with what the process has printed and asked of
-- the underlying allocator.
use owned_c.Base.{ℕ, ℤ, ◌^◌, String, Bool, true, false, Option, List}

abbrev pub Ptr : Type 0
Ptr = ℕ

abbrev pub null : Ptr
null = 0

-- `ownership_state_t`
pub data Ownership : Type 0 where
  invalid owned borrowed shared released freed : Ownership

abbrev pub is_freed : Ownership → Bool
is_freed freed = true
is_freed _ = false

abbrev pub is_shared : Ownership → Bool
is_shared shared = true
is_shared _ = false

abbrev pub is_borrowed : Ownership → Bool
is_borrowed borrowed = true
is_borrowed _ = false

abbrev pub is_owned : Ownership → Bool
is_owned owned = true
is_owned _ = false

abbrev pub num_shards : ℕ
num_shards = 64

abbrev pub magic_word : ℕ
magic_word = 0x05E5CE1005E5CE10

abbrev pub quarantine_size : ℕ
quarantine_size = 1024

-- `sizeof(alloc_meta_t)` where pointers, `size_t` and `pthread_t` have 8 bytes.
abbrev pub meta_size : ℕ
meta_size = 80

abbrev pub size_mod : ℕ
size_mod = 2 ^ 64

abbrev pub int_max : ℕ
int_max = 2147483647

-- `alloc_meta_t`
pub record Meta : Type 0 where
  pub magic : ℕ
  pub size : ℕ
  pub state : Ownership
  pub borrow_count : ℕ
  pub owner_thread : ℕ
  pub alloc_file : String
  pub alloc_line : ℕ
  pub free_file : Option String
  pub free_line : ℕ
  pub prev : Ptr
  pub next : Ptr

-- What the user bytes of a block hold: the first `n` bytes are the byte `v`, or an object that a
-- client of the registry has written.
pub data Body (A : Type 0) : Type 0 where
  filled : (v n : ℕ) → Body A
  holds : A → Body A

-- A block of the underlying allocator: its bytes, the header in front and what follows it.
pub record Block (A : Type 0) : Type 0 where
  pub room : ℕ
  pub header : Meta
  pub body : Body A

-- A line that the library prints: to the standard streams, or to a file that it has opened.
pub data Line : Type 0 where
  text : String → Line
  reason : String → Line
  object : Ptr → Line
  location : String → ℕ → Line
  size_bytes : ℕ → Line
  allocated_at : String → ℕ → Line
  leaks_found : ℕ → Line
  untracked : Ptr → Line
  inspected : Ptr → Meta → Line
  entry : Ptr → Meta → Line
  borrow_entry : Ptr → Meta → Line
  stats : ℕ → ℕ → Line
  violation : String → (index bound : ℕ) → Line
  panic : (error_code : ℤ) → String → ℕ → Line
  file_text : (f : Ptr) → String → Line
  file_entry : (f : Ptr) → Ptr → Meta → Line

-- A call of what the library stands on: the underlying allocator, through the function pointer `fn`,
-- and files, sockets, mutexes and threads.
pub data Call : Type 0 where
  malloc_call : (fn size : ℕ) → Call
  free_call : (fn : ℕ) → Ptr → Call
  realloc_call : (fn : ℕ) → Ptr → (size : ℕ) → Call
  fopen_call : (filename mode : Ptr) → Call
  fclose_call : (handle : Ptr) → Call
  socket_call : (domain type protocol : ℕ) → Call
  close_call : (fd : ℤ) → Call
  lock_call : (mutex : Ptr) → Call
  unlock_call : (mutex : Ptr) → Call
  create_call : (start_routine : ℕ) → (arg : Ptr) → Call
  join_call : (handle : ℕ) → Call
  detach_call : (handle : ℕ) → Call

-- `answers` is what the underlying allocator returns to the next requests, in order; behind its end
-- every request fails. `self` is the running thread. `gc_head` is the global list of src/ownedc_rc.c.
pub record State (A : Type 0) : Type 0 where
  pub cells : Ptr → Option (Block A)
  pub heads : ℕ → Ptr
  pub quarantine : ℕ → Ptr
  pub quarantine_tail : ℕ
  pub atexit_registered : Bool
  pub global_malloc : ℕ
  pub global_free : ℕ
  pub global_realloc : ℕ
  pub answers : List Ptr
  pub calls : List Call
  pub self : ℕ
  pub gc_head : Ptr
  pub output : List Line
