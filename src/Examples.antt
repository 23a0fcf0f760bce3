-- ===== src/Examples.antt =====
-- Tests on concrete inputs, and the theorems applied at inputs that meet their hypotheses.
pub mod Numbers
pub mod Serializing
pub mod Inserting
pub mod Bussing
pub mod Connecting
pub mod Stocking
pub mod Storing
pub mod Casting
pub mod Planning
pub mod Awaiting
pub mod Controlling
pub mod Emptying
pub mod Parsing
pub mod Filling
pub mod Moving
pub mod Chaining
pub mod Registering
