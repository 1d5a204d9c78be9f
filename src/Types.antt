-- ===== src/Types.antt =====
-- include/trsc/AST/QualType.h, lib/AST/QualType.cpp and lib/AST/ASTContext.cpp: types, their queries
-- and conversions.
pub mod QualType
pub mod QualTypeEq
pub mod Conversion
pub mod Builtins
pub mod Context
