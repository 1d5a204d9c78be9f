-- ===== src/Tests/Options.antt =====
-- Tests and examples of the command line.
use trsc.Common.{codes, ◌≡◌, refl, false, none, some, List, [], ◌∷◌, Bytes, bytes_eq}
use trsc.Lex.Chars.{is_digit, is_space}
use trsc.Basic.CommandLine.{
  CompilerOptions, default_target, default_options, after_prefix, set_cuda_arch, cuda_digits,
  parse_cuda_arch, leading_digits, signed_int, stoi, optim_stage, device_mode, set_flag, set_optim,
  set_level, set_device, set_target, starts_with_dash, set_input, with_values, parse_argument,
  parse_options, check_input, parse_command_line,
}
use trsc.Basic.CommandLine.Targets.{IsTarget, parse_command_line-IsTarget}

abbrev arguments : List Bytes
arguments = codes "--cuda-arch=sm_80" ∷ codes "-o" ∷ codes "out" ∷ codes "a.rs" ∷ []

unfoldable chosen : CompilerOptions
unfolding default_options default_target
chosen = record default_options {
  input_file = codes "a.rs";
  output_file = codes "out";
  target = record default_target { cuda_arch = codes "sm_80"; minimum_cuda_capability = 80 };
}

chosen_test : parse_command_line arguments default_options ≡ some chosen
unfolding chosen parse_command_line parse_options parse_argument set_flag with_values set_optim
    set_level set_device set_target set_input optim_stage stoi device_mode parse_cuda_arch
    cuda_digits set_cuda_arch after_prefix check_input default_options default_target
    starts_with_dash leading_digits signed_int is_digit is_space bytes_eq
chosen_test = refl

old_test : parse_cuda_arch (codes "sm_70") default_target ≡ none
unfolding parse_cuda_arch cuda_digits set_cuda_arch after_prefix is_digit
old_test = refl

parse_command_line-IsTarget_example :
    IsTarget chosen.target
    × (chosen.show_help ≡ false
        → chosen.show_version ≡ false
        → bytes_eq chosen.input_file [] ≡ false)
parse_command_line-IsTarget_example = parse_command_line-IsTarget arguments chosen chosen_test
