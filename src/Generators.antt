-- ===== src/Generators.antt =====
-- The generators of core/, which draw keys, operations and lengths.
pub mod Hash
pub mod Counter
pub mod Doubles
pub mod Zipfian
pub mod Scrambled
pub mod Discrete
pub mod Uniform
mod Runs
