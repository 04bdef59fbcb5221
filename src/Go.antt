-- ===== src/Go.antt =====
-- What the program uses of Go's standard library, over texts as lists of bytes.
pub mod Strings
pub mod Sort
pub mod Strconv
pub mod Filepath
pub mod Error
pub mod Os
