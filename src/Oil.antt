-- ===== src/Oil.antt =====
-- system/oil, the package manager. Texts are lists of code points here.
pub mod Str
pub mod Package
pub mod Resolver
pub mod FilePath
pub mod Extract
pub mod Streams
pub mod Dest
pub mod Apk
pub mod Download
pub mod State
pub mod Command
pub mod Find
pub mod Index
pub mod Parse
