-- ===== src/Runtime.antt =====
-- src/runtime.c and src/diagnostics.c: the ownership registry. The state and the commands come
-- first, then the functions of the source, then what is proved of them.
mod Tests
pub mod State
pub mod Command
pub mod Allocator
pub mod Registry
pub mod Alloc
pub mod Ownership
pub mod Report
pub mod Chain
pub mod Insert
pub mod Remove
pub mod Registered
pub mod Relink
pub mod Unregister
pub mod Register
pub mod Amend
pub mod Access
pub mod Live
pub mod Misuse
pub mod Window
