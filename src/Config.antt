-- ===== src/Config.antt =====
-- routerd/include/config_store.h and routerd/src/config_store.c: the configuration, its loading
-- and saving, and the lookups in it.
pub mod Types
pub mod Dump
pub mod Listing
pub mod Lookup
pub mod Parse
pub mod Bounds
pub mod Find
pub mod Print
pub mod Reload
pub mod Fields
pub mod Settings
pub mod RoundTrip
mod Examples
