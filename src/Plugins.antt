-- ===== src/Plugins.antt =====
-- routerd/src/plugin_loader.c and plugins/filter.c: the table of handlers, and the two handlers of
-- the example plugin.
pub mod Table
pub mod Keep
pub mod Load
pub mod Filter
pub mod Forwarded
mod Examples
