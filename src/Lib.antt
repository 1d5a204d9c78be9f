-- ===== src/Lib.antt =====
-- The front end of trsc, a compiler for a small language like Rust, written in C++: text becomes
-- tokens (lib/Lex), tokens an AST (lib/Parse), whose names and types the semantic analysis (lib/Sema)
-- looks up in scopes and compares through the AST context (lib/AST). The identifiers are shared by
-- all of them through a table (lib/Basic).
--
-- Which file models what (paths from the repository's root):
-- - Lex/Token: include/trsc/Lex/Token.h and lib/Lex/Token.cpp, `TokenKind`, `Token`, `getTokenName`,
--   `getTokenString`.
-- - Lex/Chars, Lex/Punctuation, Lex/Lexer: lib/Lex/Lexer.cpp, `Lexer` with `CurPtr` as an offset into the buffer, the table
--   of identifiers and the reports as its state, and `Lex` with its helpers; the loop of
--   tools/trsc/main.cpp that collects the tokens is `tokenize`.
-- - Basic/IdentifierTable, Basic/Diagnostics: lib/Basic/IdentifierTable.cpp and Diagnostics.cpp. An
--   `IdentifierInfo *` is the address that the table hands out, with the value behind it.
-- - Basic/SourceManager: lib/Basic/SourceManager.cpp, with offsets for pointers into the buffer.
-- - Basic/CommandLine: lib/Basic/CommandLine.cpp, on the list of the arguments behind the program's name.
-- - Types/QualType, Types/Conversion: include/trsc/AST/QualType.h, lib/AST/QualType.cpp, and `canConvert` and
--   `areTypesCompatible` of lib/AST/ASTContext.cpp. A type is a tree, and the comparison of
--   pointers is `type_eq`. Types/Context: the objects of the types in the context and their addresses; its children
--   Denotation, Uniqueness, Requests and Addresses relate the addresses to the trees.
-- - Sema/Scope, Sema/SymbolTable: lib/Sema/Scope.cpp and SymbolTable.cpp. Scopes and symbols have the
--   number of their making for an address. Sema/Scope/Additions has runs of additions to a scope. Sema/SymbolTable/Frames, Steps and Refinement relate the table to a
--   stack of frames; Spelled has the overloads keyed by a spelling, which is interned by a declaration only.
-- - Types/Builtins: the names of the builtin types, and `getTypeByName`.
-- - Ast: include/trsc/AST/AST.h, the nodes of the tree with their types and symbols, without source ranges.
-- - Ast/Allocator: include/trsc/AST/ASTAllocator.h, on addresses and sizes, with `malloc` as an argument; its
--   children Blocks, Allocations and Runs hold its laws.
-- - Sema/Pass: what the passes over the tree share; a pass that follows a null pointer has no result.
-- - Sema/NameResolver: lib/Sema/NameResolver.cpp and DeclarationCollector.cpp, over the operations of a symbol
--   table (`ScopeTable`), which the table of Sema/SymbolTable and a stack of frames both have. Its children relate
--   the two and hold what the passes leave; Named says which trees they follow no null pointer in, Returns and
--   Answers are about their end with those; Binding and Scoping are lexical scoping as functions of the tree, which Scoped,
--   Resolution and Programs relate the passes to.
-- - Sema/TypeChecker and its children Operators, Visit, Signatures and Statements: lib/Sema/TypeChecker.cpp; a visit gives the node with
--   the types that it has set. Typing and OperatorRules have the typing rules, Fresh the trees without types, Steps, Nodes and Soundness the proof of them.
-- - Sema/FormatString: `countFormatArguments` of lib/Sema/TypeChecker.cpp.
-- - Sema/Analyzer: lib/Sema/Sema.cpp.
-- - Parse/Cursor, Parse/Literals, Parse/Types, Parse/Operands, Parse/Expressions, Parse/Statements, Parse/Knot: lib/Parse/Parser.cpp,
--   a function for each method. `Parser` holds the tokens, `CurrentTokenIdx` and the reports. The methods
--   take the record of methods that they call (Parse/Grammar), and Parse/Knot closes it. Parse/Honesty and
--   its children hold the laws of the methods.
-- - Print/TypedPrinter and its children Labels, Nodes and Visit: lib/AST/TypedASTPrinter.cpp. Drawing, Outline, Rules, Loops and
--   Refinement relate the printer to the drawing of a tree; Completeness, Flags and LastBranches say where the
--   last branches stand. Print/AstPrinter, with Calls and Levels: lib/AST/ASTPrinter.cpp. What they write is a list
--   of Print/Pieces, in which the addresses and the locations of the nodes are left open, for `fill` to put in.
-- - Tests and its children: runs on concrete inputs.
--
-- The behaviours of the standard library are those of the C locale: `isspace`, `isdigit`, `isalnum`, and
-- `from_chars` in base 10, which leaves 0 for a number that does not fit.
--
-- Fuel. `lex_within` has as much as there are bytes left and one more, which is enough since a comment
-- moves the pointer; the loop of the driver has as much as there are bytes and one more, since every
-- token but the last has a byte. `lookup_loop` has as much as there are scopes, which is enough since a
-- parent is older than its child. The parser's fuel counts the calls that nest and is an argument: for
-- an array literal that is not closed, the loop of `parseArray` does not end, and no amount is enough.
--
-- Bounds. The offsets of the lexer are not bounded. Depths of scopes, the parser's cursor and the counts
-- of reports wrap around at 2 ^ 32.
--
-- Not modelled: the reading of files, the printer of the symbol table,
-- and all of lib/MLIR and lib/Runtime, which call libraries.
pub mod Common
pub mod Lex
pub mod Basic
pub mod Types
pub mod Sema
pub mod Ast
pub mod Parse
pub mod Print
pub mod Tests
