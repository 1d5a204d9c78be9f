-- ===== src/Tests.antt =====
-- Runs of the model on concrete programs, and the theorems at concrete inputs.
mod Names
mod Checks
mod Options
mod Locations
mod Symbols
mod Printing
mod Interning
mod Allocating
mod Parsing
mod Scopes
mod Lexing
