-- ===== src/Basic.antt =====
-- lib/Basic: the services that every phase of the compiler shares.
pub mod IdentifierTable
pub mod Diagnostics
pub mod SourceManager
pub mod CommandLine
