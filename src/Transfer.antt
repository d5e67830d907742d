-- ===== src/Transfer.antt =====
-- transfer.go: how `readTransfer` finds the body of a message in its headers. What a message is read
-- from, and the goroutines that write bodies, are not here.
pub mod Length
pub mod Read
pub mod Framing
pub mod Reader
pub mod Write
pub mod Result
mod Tests
