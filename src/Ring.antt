-- ===== src/Ring.antt =====
-- gtp_rb.c, the ring buffer that holds the trace frames of one processor.
pub mod Bytes
pub mod Pages
pub mod Write
pub mod Linked
pub mod Surgery
pub mod Inv
pub mod Setup
pub mod Chain
pub mod Built
pub mod Alloc
pub mod Inside
pub mod Exchange
pub mod PutBack
pub mod Unread
pub mod Walk
pub mod Trail
pub mod Append
pub mod Read
pub mod Oldest
pub mod Sample
mod Tests
mod ReadTests
