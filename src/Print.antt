-- ===== src/Print.antt =====
-- lib/AST: the printers of the tree.
pub mod Digits
pub mod Pieces
pub mod TypedPrinter
pub mod AstPrinter
