-- ===== src/PkId.antt =====
-- util/pkid: the bitmap of packet identifiers in use (bitmap.go) and the limiter that hands them
-- out (pkid_set_limiter.go). A `uint16` is a number below 2^16, and `uint16` arithmetic that may
-- wrap is written out. The mutex makes each method one step; a wait on the condition variable is
-- the outcome `blocked`.
pub mod Bitmap
pub mod Limiter
mod Tests
