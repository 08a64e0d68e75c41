-- ===== src/Go.antt =====
-- What the source uses of Go's standard library.
pub mod Strings
pub mod Os
pub mod Path
pub mod Time
pub mod Sort
pub mod Duration
pub mod Float
