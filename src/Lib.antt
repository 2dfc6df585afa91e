-- ===== src/Lib.antt =====
-- OwnedC, a runtime for C that tracks the ownership of every allocation.
--
-- The parts and how they interact. src/runtime.c keeps a registry of all allocations in front of an
-- underlying allocator: each block carries a header that links it into one of 64 lists and says who
-- owns it, whether it was freed and how many borrows of it are out. A misuse ends the process with a
-- report of src/diagnostics.c. A freed block stays in a ring of 1024, the quarantine, before its
-- memory is given back. The containers (src/collections.c, src/ownedc_array.c, src/region.c,
-- src/ownedc_arena.c, src/ownedc_string.c, src/ownedc_channel.c, src/ownedc_rc.c), the wrappers of
-- files, sockets, mutexes and threads (src/ownedc_file.c and its kin), src/ownedc_future.c and
-- src/owned_json.c keep their own structures in such blocks and call the registry. The linter, tools/ownedc_lint.c, is a program of its
-- own that reads C files and reports what it takes for misuse.
--
-- Which file models what.
--   Base                 tests on numbers, lists and membership that the others share
--   Runtime.State        alloc_meta_t and the globals of src/runtime.c
--   Runtime.Command      how a call ends; the reads and writes of headers; src/diagnostics.c
--   Runtime.Allocator    the calls of malloc, free and realloc through the function pointers
--   Runtime.Registry     get_meta, insert_meta, remove_meta
--   Runtime.Alloc        owner_malloc, owner_calloc, owner_realloc, owner_free and their kin
--   Runtime.Ownership    ownership_claim, ownership_borrow, ownership_release, ownership_share
--   Runtime.Report       check_leaks, ownership_inspect, ownership_dump, ownership_dump_borrows,
--                        ownership_stats, ownership_dump_json
--   Runtime.Chain, Insert, Remove, Relink
--                        doubly linked lists, and what linking a block in and out changes
--   Runtime.Registered, Register, Unregister, Amend, Access, Live
--                        the well-formedness of a registry and how each step keeps it
--   Runtime.Misuse, Window
--                        what a misuse does, and for how long a freed block is recognised
--   Structs, Objects     the structures of the clients, and the memory behind user pointers; what
--                        writing to it, making and giving up a structure changes is in
--                        Objects.Written, Objects.Lifetime and Objects.Mine
--   Collections          src/collections.c; what it does to the list of its items is in its
--                        child modules
--   Arrays, Regions, Arenas, Strings, Channels, Counting
--                        src/ownedc_array.c, src/region.c, src/ownedc_arena.c, src/ownedc_string.c,
--                        src/ownedc_channel.c, src/ownedc_rc.c; the children of Strings take a
--                        string for the list of its bytes, and those of Counting take the wrappers
--                        for a graph and follow the collector through it
--   Files, Sockets, Mutexes, Threads, Futures
--                        src/ownedc_file.c, src/ownedc_socket.c, src/ownedc_mutex.c,
--                        src/ownedc_thread.c, src/ownedc_future.c; the child modules follow a
--                        wrapper from its making to its end
--   Results, Generics, Capabilities
--                        include/ownedc_result.h, include/ownedc_generics.h,
--                        include/ownedc_cheri.h
--   Json                 src/owned_json.c; the parser is in Json.Parse, and what the lookups find in
--                        Json.Lookup, and the strings of a text in Json.Strings
--   Lint                 tools/ownedc_lint.c: Text, Vars, Line and File are the code, and the other
--                        children what is proved of it
--   Runtime.Tests, Lint.Tests, Tests
--                        concrete runs and the instances of the theorems
--
-- How state and operations correspond. A C function of the source is a definition with its name; a
-- helper with a name of its own is a part of one, and a branch of the code is a branch of the
-- definition. A command takes the state to a `Run`: it returns, exits, aborts, or does what C leaves
-- undefined (`fault`), such as a read of memory that is not there, a read of bytes nobody wrote, or
-- one borrow more than an int can count. An allocation is a block at the address of its header, and a
-- user pointer is `meta_size` behind it. What the underlying allocator returns is a list of answers in
-- the state, so a theorem for all states holds for every allocator; that it returns memory that is
-- not in use is a hypothesis of the theorems. Numbers of type size_t wrap around as written.
-- Whether pthread_mutex_lock returns is an argument of safe_mutex_lock; where it does not, the run is
-- taken as undefined.
--
-- Bounds and fuel. Pointers, size_t and pthread_t have 8 bytes, so the header has 80. A walk along a
-- list of blocks takes fuel and says `out_of_fuel` when it ends: fuel beyond the length of the longest
-- shard is enough for the walks of the registry, which check_leaks_lem shows.
-- The parser of JSON takes fuel for its recursion and its loops, and json_free for the depth of a tree.
-- strlen takes fuel for the bytes of a string. The walks along the global list of reference counts, the
-- search of its collector included, take fuel for the length of the list, which is enough.
-- The searches of the linter for names take fuel for the bytes of the line, which is enough.
--
-- What is not modelled. Calls run one after another, and the running thread is part of the state: the
-- mutexes of the shards are left out, and so are races. The wrappers for C++, the plugin, the examples and
-- the tests are not modelled.
pub mod Base
pub mod Runtime
pub mod Structs
pub mod Objects
pub mod Collections
pub mod Arrays
pub mod Regions
pub mod Arenas
pub mod Strings
pub mod Channels
pub mod Counting
pub mod Files
pub mod Sockets
pub mod Mutexes
pub mod Threads
pub mod Futures
pub mod Json
pub mod Results
pub mod Generics
pub mod Capabilities
pub mod Lint
pub mod Tests
