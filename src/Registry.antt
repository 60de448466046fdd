-- ===== src/Registry.antt =====
-- routerd/include/registry.h and routerd/src/registry.c: the table of registered subprograms.
pub mod Entry
pub mod Parse
pub mod Table
pub mod Clock
pub mod Lookup
pub mod Invariant
pub mod Register
pub mod Owner
pub mod Counted
pub mod Clients
pub mod Refines
mod Examples
