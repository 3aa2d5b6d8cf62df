-- ===== src/Base.antt =====
-- The names that the components share: the libraries', passed on, and those of the children:
-- tests on numbers (Tests), lists by native index (Lists), integers for C's signed types (Int), and
-- the outcome of a C function (Effects).
mod Core
pub mod Int
mod Effects
pub use Core.*
pub use Effects.*
