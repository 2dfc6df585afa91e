-- ===== src/Lint.antt =====
-- tools/ownedc_lint.c: the linter, which reads C files line by line.
pub mod Text
pub mod Vars
pub mod Line
pub mod File
pub mod Words
pub mod Fuel
mod Tests
pub mod Table
pub mod Clean
pub mod Counts
pub mod Status
