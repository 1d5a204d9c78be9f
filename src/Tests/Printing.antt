-- ===== src/Tests/Printing.antt =====
-- Tests and examples of the printers of the tree.
use trsc.Common.{codes, ◌+◌, ◌%◌, ◌^◌, ◌<◌, ◌≡◌, refl, true, none, some, [], arith}
use trsc.Print.Pieces.{Place, fill}
use trsc.Ast.{
  is_null_expr, is_null_stmt, Stmts, int_expr, bin_expr, expr_stmt, while_stmt, block_stmt,
  bool_expr, fun_call, var_expr, no_exprs, no_stmts, add_stmt,
}
use trsc.Lex.Token.{op_plus}
use trsc.Print.Digits.{decimal, hexadecimal}
use trsc.Print.TypedPrinter.Drawing.{draw, height, ◌⧺◌}
use trsc.Print.TypedPrinter.Outline.{branches, outline_expr, outline_stmt, outline_program}
use trsc.Print.TypedPrinter.Visit.{print_program}
use trsc.Print.TypedPrinter.Refinement.{print_program-draw}
use trsc.Print.TypedPrinter.Completeness.{IsComplete, StmtIsComplete, StmtsAreComplete}
use trsc.Print.TypedPrinter.LastBranches.{draw_last, print_program-draw_last}
use trsc.Print.AstPrinter
use trsc.Print.AstPrinter.Calls.{stmts_calls}
use trsc.Print.AstPrinter.Levels.{visit_stmts-level}

decimal_test : decimal 1545 ≡ codes "1545"
unfolding decimal
decimal_test = refl

hexadecimal_test : hexadecimal 48879 ≡ codes "beef"
unfolding hexadecimal
hexadecimal_test = refl

-- `while true { 1 + 2; }`
abbrev looping : Stmts
looping =
    add_stmt
      (while_stmt (bool_expr true)
        (block_stmt (add_stmt (expr_stmt (bin_expr op_plus (int_expr 1) (int_expr 2))) no_stmts)))
      no_stmts

height-looping : height (outline_program looping) + 1 < 2 ^ 32
unfolding height outline_program outline_stmt branches ◌⧺◌ outline_expr is_null_expr is_null_stmt
height-looping = omega arith

print_program-draw_example : print_program looping ≡ draw [] (outline_program looping)
print_program-draw_example = print_program-draw looping height-looping

looping-StmtsAreComplete : StmtsAreComplete looping
unfolding StmtIsComplete IsComplete is_null_expr is_null_stmt
looping-StmtsAreComplete = ((refl, tt, ((refl, tt, tt), tt)), tt)

print_program-draw_last_example : print_program looping ≡ draw_last [] (outline_program looping)
print_program-draw_last_example =
    print_program-draw_last looping looping-StmtsAreComplete height-looping

-- The node lies at the address 16, from the first line to the second.
abbrev whole : Place
whole = record {
  at = 16;
  range_start = record { has_file = true; line = 1; column = 1 };
  range_end = record { has_file = true; line = 2; column = 1 };
}

empty_test :
    fill (λ i. whole) (λ d. d) 0 (print_program no_stmts) ≡ some (codes "Program 0x10 <1:1, 2:1>\n")
unfolding fill print_program
empty_test = refl

-- Two calls, each of which leaves the level lower than it was.
abbrev calling : Stmts
calling =
    add_stmt (expr_stmt (fun_call (var_expr none) no_exprs))
      (add_stmt (expr_stmt (fun_call (var_expr none) no_exprs)) no_stmts)

visit_stmts-level_example :
    ((AstPrinter.visit_stmts calling AstPrinter.new_printer).indent_level + 2) % 2 ^ 32 ≡ 0
unfolding stmts_calls
visit_stmts-level_example = visit_stmts-level calling AstPrinter.new_printer
