-- ===== src/Files.antt =====
-- fs.go: what `ServeContent` decides before it sends: ranges, entity tags and preconditions.
pub mod Range
pub mod InBounds
pub mod Etag
pub mod Conditions
pub mod Content
pub mod Within
pub mod Tags
pub mod Precedence
mod Tests
