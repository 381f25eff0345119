-- ===== src/Abi.antt =====
-- What the five shims of bindings/ share: the interaction of a filesystem core with its backend, the
-- handle pools, and the copying of names and directory lines into the caller's buffers.
pub mod Backend
pub mod Pool
pub mod Name
pub mod Listing
pub mod Fill
pub mod Return
pub mod Blank
pub mod Spread
mod Tests
