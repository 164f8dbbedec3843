-- ===== src/Go.antt =====
-- What the program uses of Go's language and standard library: texts, sorting, maps, time, floats.
pub mod Text
pub mod Sort
pub mod Map
pub mod Time
pub mod Float
pub mod Net
pub mod Order
pub mod Words
