-- ===== src/Go.antt =====
-- What the source uses of Go itself and of its standard library.
pub mod Words
pub mod Time
pub mod Float
