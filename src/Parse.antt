-- ===== src/Parse.antt =====
-- lib/Parse: the parser.
pub mod Literals
pub mod Cursor
pub mod Grammar
pub mod Expressions
pub mod Types
pub mod Statements
pub mod Knot
pub mod Honesty
pub mod Operands
