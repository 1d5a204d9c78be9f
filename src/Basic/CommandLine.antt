-- ===== src/Basic/CommandLine.antt =====
-- lib/Basic/CommandLine.cpp and include/trsc/Basic/TargetOptions.h: the options that a command line sets. What is printed
-- for an error, and by the two options that only print, is left out.
pub mod Targets
pub mod Flags
use trsc.Lex.Chars.{is_space, is_digit}
use trsc.Common.{
  ltb, leb, ◌==◌, if◌then◌else◌, Bytes, codes, bytes_eq, ℕ, ◌+◌, ◌-◌, ◌*◌, ◌^◌, Bool, true, false,
  not, ◌&&◌, ◌||◌, Option, none, some, List, [], ◌∷◌, ◌++◌,
}

pub data DeviceMode : Type 0 where
  device_auto device_cpu device_cuda : DeviceMode

pub data OptimizationStage : Type 0 where
  raw_mlir cleaned_mlir loop_optimized standard_lowering optimized_mlir : OptimizationStage

pub record TargetOptions : Type 0 where
  pub device : DeviceMode
  pub cuda_arch : Bytes
  pub minimum_cuda_capability : ℕ

-- The level is an `int`: whether it is negative, and how far it is from 0.
pub record CompilerOptions : Type 0 where
  pub input_file : Bytes
  pub output_file : Bytes
  pub dump_lexer_tokens : Bool
  pub dump_ast : Bool
  pub verbose : Bool
  pub show_help : Bool
  pub show_version : Bool
  pub dump_symbol : Bool
  pub dump_symbol_table : Bool
  pub dump_typed_ast : Bool
  pub emit_mlir : Bool
  pub emit_llvm : Bool
  pub emit_obj : Bool
  pub mat_mul_opt_level : Bool × ℕ
  pub target : TargetOptions
  pub optim : OptimizationStage

unfoldable pub default_target : TargetOptions
default_target = record {
  device = device_auto;
  cuda_arch = codes "sm_75";
  minimum_cuda_capability = 75;
}

unfoldable pub default_options : CompilerOptions
default_options = record {
  input_file = [];
  output_file = [];
  dump_lexer_tokens = false;
  dump_ast = false;
  verbose = false;
  show_help = false;
  show_version = false;
  dump_symbol = false;
  dump_symbol_table = false;
  dump_typed_ast = false;
  emit_mlir = false;
  emit_llvm = false;
  emit_obj = false;
  mat_mul_opt_level = (false, 6);
  target = default_target;
  optim = optimized_mlir;
}

-- `arg.rfind(prefix, 0) == 0`, with the rest of the argument.
unfoldable pub after_prefix : Bytes → Bytes → Option Bytes
after_prefix [] arg = some arg
after_prefix (p ∷ ps) [] = none
after_prefix (p ∷ ps) (x ∷ xs) = if p == x then after_prefix ps xs else none

-- `sm_NN`, with the two digits as the number that `std::stoi` reads.
unfoldable pub set_cuda_arch : TargetOptions → ℕ → ℕ → Option TargetOptions
set_cuda_arch target d e =
    if is_digit d && is_digit e
    then (if ltb ((d - 48) * 10 + (e - 48)) 75
        then none
        else some (record target {
          cuda_arch = codes "sm_" ++ d ∷ e ∷ [];
          minimum_cuda_capability = (d - 48) * 10 + (e - 48);
        }))
    else none

unfoldable pub cuda_digits : TargetOptions → Option Bytes → Option TargetOptions
unfolding set_cuda_arch
cuda_digits target (some (d ∷ e ∷ [])) = set_cuda_arch target d e
cuda_digits target _ = none

unfoldable pub parse_cuda_arch : Bytes → TargetOptions → Option TargetOptions
unfolding cuda_digits after_prefix
parse_cuda_arch value target = cuda_digits target (after_prefix (codes "sm_") value)

-- `std::stoi` in base 10: white space, a sign, digits as far as they go; none where there is no digit
-- and where the number is no `int`.
unfoldable pub leading_digits : Bytes → ℕ → Bool → Option ℕ
leading_digits [] n seen = if seen then some n else none
leading_digits (x ∷ xs) n seen =
    let rest = leading_digits xs (n * 10 + (x - 48)) true in
    if is_digit x then rest else if seen then some n else none

unfoldable pub signed_int : Bool → Option ℕ → Option (Bool × ℕ)
signed_int negative none = none
signed_int true (some n) = if leb n (2 ^ 31) then some (true, n) else none
signed_int false (some n) = if ltb n (2 ^ 31) then some (false, n) else none

unfoldable pub stoi : Bytes → Option (Bool × ℕ)
unfolding leading_digits signed_int
stoi [] = none
stoi (x ∷ xs) =
    let rest = stoi xs in
    if is_space x
    then rest
    else if x == 45
    then signed_int true (leading_digits xs 0 false)
    else if x == 43
    then signed_int false (leading_digits xs 0 false)
    else signed_int false (leading_digits (x ∷ xs) 0 false)

unfoldable pub optim_stage : Bytes → Option OptimizationStage
optim_stage val =
    if bytes_eq val (codes "raw")
    then some raw_mlir
    else if bytes_eq val (codes "rawcln")
    then some cleaned_mlir
    else if bytes_eq val (codes "loop")
    then some loop_optimized
    else if bytes_eq val (codes "stdlowering")
    then some standard_lowering
    else if bytes_eq val (codes "finopt")
    then some optimized_mlir
    else none

unfoldable pub device_mode : Bytes → Option DeviceMode
device_mode value =
    if bytes_eq value (codes "auto")
    then some device_auto
    else if bytes_eq value (codes "cpu")
    then some device_cpu
    else if bytes_eq value (codes "cuda")
    then some device_cuda
    else none

-- The options that are flags.
unfoldable pub set_flag : Bytes → CompilerOptions → Option CompilerOptions
set_flag arg o =
    if bytes_eq arg (codes "-h") || bytes_eq arg (codes "--help")
    then some (record o { show_help = true })
    else if bytes_eq arg (codes "--version")
    then some (record o { show_version = true })
    else if bytes_eq arg (codes "-dump-token")
    then some (record o { dump_lexer_tokens = true })
    else if bytes_eq arg (codes "-dump-ast")
    then some (record o { dump_ast = true })
    else if bytes_eq arg (codes "-v") || bytes_eq arg (codes "--verbose")
    then some (record o { verbose = true })
    else if bytes_eq arg (codes "-dump-symbol")
    then some (record o { dump_symbol = true })
    else if bytes_eq arg (codes "-dump-symboltable")
    then some (record o { dump_symbol_table = true })
    else if bytes_eq arg (codes "-dump-typedast")
    then some (record o { dump_typed_ast = true })
    else if bytes_eq arg (codes "-emit-mlir")
    then some (record o { emit_mlir = true })
    else if bytes_eq arg (codes "-emit-llvm")
    then some (record o { emit_llvm = true })
    else if bytes_eq arg (codes "-emit-obj")
    then some (record o { emit_obj = true })
    else none

-- The options with a value, by what stands behind each of the prefixes.
unfoldable pub set_optim : CompilerOptions → Option OptimizationStage → Option CompilerOptions
set_optim o (some s) = some (record o { optim = s })
set_optim o none = none

unfoldable pub set_level : CompilerOptions → Option (Bool × ℕ) → Option CompilerOptions
set_level o (some n) = some (record o { mat_mul_opt_level = n })
set_level o none = none

unfoldable pub set_device : CompilerOptions → Option DeviceMode → Option CompilerOptions
set_device o (some d) = some (record o { target = record (o.target) { device = d } })
set_device o none = none

unfoldable pub set_target : CompilerOptions → Option TargetOptions → Option CompilerOptions
set_target o (some t) = some (record o { target = t })
set_target o none = none

-- `!arg.empty() && arg.front() == '-'`
unfoldable pub starts_with_dash : Bytes → Bool
starts_with_dash [] = false
starts_with_dash (x ∷ xs) = x == 45

-- An argument that is no option is the input file, of which there is one.
unfoldable pub set_input : Bytes → CompilerOptions → Option CompilerOptions
set_input arg o =
    if starts_with_dash arg
    then none
    else if bytes_eq o.input_file []
    then some (record o { input_file = arg })
    else none

unfoldable pub with_values :
    Bytes
    → CompilerOptions
    → Option Bytes
    → Option Bytes
    → Option Bytes
    → Option Bytes
    → Option CompilerOptions
unfolding set_optim set_level set_device set_target set_input optim_stage stoi device_mode
    parse_cuda_arch
with_values arg o (some val) _ _ _ = set_optim o (optim_stage val)
with_values arg o none (some val) _ _ = set_level o (stoi val)
with_values arg o none none (some val) _ = set_device o (device_mode val)
with_values arg o none none none (some val) = set_target o (parse_cuda_arch val o.target)
with_values arg o none none none none = set_input arg o

-- One argument but `-o`.
unfoldable pub parse_argument : Bytes → CompilerOptions → Option CompilerOptions
unfolding set_flag with_values
parse_argument arg o = elim (set_flag arg o) [
  | some o' ↦ some o'
  | none ↦
      with_values arg o (after_prefix (codes "-optim=") arg)
        (after_prefix (codes "--matmul-opt-level=") arg) (after_prefix (codes "--device=") arg)
        (after_prefix (codes "--cuda-arch=") arg)
]

-- The loop over the arguments behind the program's name.
unfoldable pub parse_options : List Bytes → CompilerOptions → Option CompilerOptions
unfolding parse_argument
parse_options [] o = some o
parse_options (arg ∷ []) o = if bytes_eq arg (codes "-o") then none else parse_argument arg o
parse_options (arg ∷ next ∷ rest) o =
    if bytes_eq arg (codes "-o")
    then parse_options rest (record o { output_file = next })
    else elim (parse_argument arg o) [ some o' ↦ parse_options (next ∷ rest) o' | none ↦ none ]

unfoldable pub check_input : CompilerOptions → Option CompilerOptions
check_input o =
    if not o.show_help && (not o.show_version && bytes_eq o.input_file []) then none else some o

unfoldable pub parse_command_line : List Bytes → CompilerOptions → Option CompilerOptions
unfolding parse_options check_input
parse_command_line args o = elim (parse_options args o) [ some o' ↦ check_input o' | none ↦ none ]
