-- ===== src/Tests.antt =====
-- Runs of the models on concrete inputs, and uses of the theorems there.
pub mod Qualifiers
pub mod Types
pub mod Structs
pub mod Variables
pub mod Effects
pub mod Facts
pub mod Unions
pub mod Enumerator
pub mod Contexts
pub mod Divergence
pub mod Tables
pub mod Dfs
