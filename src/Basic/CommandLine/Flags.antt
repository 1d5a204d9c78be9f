-- ===== src/Basic/CommandLine/Flags.antt =====
-- The flags on a command line, and the target.
use trsc.Common.{
  if_elim, some-injective, Bytes, codes, bytes_eq, ◌≡◌, refl, sym, ap, ◌∙◌, Bool, true, ◌||◌,
  Option, none, some,
}
use trsc.Basic.CommandLine.{CompilerOptions, set_flag}

-- A result leaves the target as it is.
abbrev Keeps : CompilerOptions → CompilerOptions → Option CompilerOptions → Type 0
Keeps o o' r = r ≡ some o' → o.target ≡ o'.target

kept :
    (x o o' : CompilerOptions) → x.target ≡ o.target → {b : Bool} → b ≡ true → Keeps o o' (some x)
kept x o o' same _ e = sym same ∙ ap (λ y. y.target) (some-injective e)

nothing : (o o' : CompilerOptions) → Keeps o o' none
nothing o o' e = absurd (cc e)

-- A flag leaves the target as it is.
pub set_flag-target :
    (arg : Bytes) (o o' : CompilerOptions) → set_flag arg o ≡ some o' → o.target ≡ o'.target
unfolding set_flag
set_flag-target arg o o' =
    if_elim (Keeps o o') (bytes_eq arg (codes "-h") || bytes_eq arg (codes "--help"))
      (kept (record o { show_help = true }) o o' refl)
      λ _.
        if_elim (Keeps o o') (bytes_eq arg (codes "--version"))
          (kept (record o { show_version = true }) o o' refl)
          λ _.
            if_elim (Keeps o o') (bytes_eq arg (codes "-dump-token"))
              (kept (record o { dump_lexer_tokens = true }) o o' refl)
              λ _.
                if_elim (Keeps o o') (bytes_eq arg (codes "-dump-ast"))
                  (kept (record o { dump_ast = true }) o o' refl)
                  λ _.
                    if_elim (Keeps o o')
                      (bytes_eq arg (codes "-v") || bytes_eq arg (codes "--verbose"))
                      (kept (record o { verbose = true }) o o' refl)
                      λ _.
                        if_elim (Keeps o o') (bytes_eq arg (codes "-dump-symbol"))
                          (kept (record o { dump_symbol = true }) o o' refl)
                          λ _.
                            if_elim (Keeps o o') (bytes_eq arg (codes "-dump-symboltable"))
                              (kept (record o { dump_symbol_table = true }) o o' refl)
                              λ _.
                                if_elim (Keeps o o') (bytes_eq arg (codes "-dump-typedast"))
                                  (kept (record o { dump_typed_ast = true }) o o' refl)
                                  λ _.
                                    if_elim (Keeps o o') (bytes_eq arg (codes "-emit-mlir"))
                                      (kept (record o { emit_mlir = true }) o o' refl)
                                      λ _.
                                        if_elim (Keeps o o') (bytes_eq arg (codes "-emit-llvm"))
                                          (kept (record o { emit_llvm = true }) o o' refl)
                                          λ _.
                                            if_elim (Keeps o o') (bytes_eq arg (codes "-emit-obj"))
                                              (kept (record o { emit_obj = true }) o o' refl)
                                              λ _. nothing o o'
