-- ===== src/Sema.antt =====
-- lib/Sema: the scopes, the symbol table, and the passes over the tree.
pub mod Scope
pub mod SymbolTable
pub mod Pass
pub mod NameResolver
pub mod FormatString
pub mod TypeChecker
pub mod Analyzer
