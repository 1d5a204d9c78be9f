-- ===== src/Basic/CommandLine/Targets.antt =====
-- The target that a command line sets.
use trsc.Common.{
  ltb, Bool-cases, Option-cases, if_elim, and_split, some-injective, Bytes, codes, bytes_eq, ℕ, ◌+◌,
  ◌-◌, ◌*◌, ◌≤◌, ◌≡◌, refl, ◌∙◌, subst, inl, inr, Bool, true, false, not, ◌&&◌, Option, none, some,
  List, [], ◌∷◌, ◌++◌, arith,
}
use trsc.Lex.Chars.{is_digit}
use trsc.Basic.CommandLine.{
  DeviceMode, OptimizationStage, TargetOptions, CompilerOptions, default_target, default_options,
  after_prefix, set_cuda_arch, cuda_digits, parse_cuda_arch, stoi, optim_stage, device_mode,
  set_flag, set_optim, set_level, set_device, set_target, starts_with_dash, set_input, with_values,
  parse_argument, parse_options, check_input, parse_command_line,
}
use trsc.Basic.CommandLine.Flags.{set_flag-target}

-- The architecture is spelt `sm_` and two digits, and they are the capability, which is 75 at least.
pub record IsTarget (t : TargetOptions) : Type 0 where
  pub digit : ℕ
  pub digit' : ℕ
  pub is_first : is_digit digit ≡ true
  pub is_second : is_digit digit' ≡ true
  pub arch : t.cuda_arch ≡ codes "sm_" ++ digit ∷ digit' ∷ []
  pub capability : t.minimum_cuda_capability ≡ (digit - 48) * 10 + (digit' - 48)
  pub enough : 75 ≤ t.minimum_cuda_capability

default_target-IsTarget : IsTarget default_target
unfolding default_target is_digit
default_target-IsTarget = record {
  digit = 55;
  digit' = 53;
  is_first = refl;
  is_second = refl;
  arch = refl;
  capability = refl;
  enough = omega arith;
}

set_cuda_arch-IsTarget :
    (t t' : TargetOptions) (d e : ℕ) → set_cuda_arch t d e ≡ some t' → IsTarget t'
unfolding set_cuda_arch
set_cuda_arch-IsTarget t t' d e h = elim (Bool-cases (is_digit d && is_digit e)) [
  | inr b ↦ absurd (let no : none ≡ some t' = (rw (b, set_cuda_arch) at h) in cc no)
  | inl b ↦ elim (Bool-cases (ltb ((d - 48) * 10 + (e - 48)) 75)) [
    | inl low ↦ absurd (let no : none ≡ some t' = (rw (b, low, set_cuda_arch) at h) in cc no)
    | inr high ↦
        let made : TargetOptions = record t {
          cuda_arch = codes "sm_" ++ d ∷ e ∷ [];
          minimum_cuda_capability = (d - 48) * 10 + (e - 48);
        } in
        let same : some made ≡ some t' = (rw (b, high, set_cuda_arch) at h) in
        let (p, q) = and_split (is_digit d) (is_digit e) b in
        subst IsTarget (some-injective same) (record {
          digit = d;
          digit' = e;
          is_first = p;
          is_second = q;
          arch = refl;
          capability = refl;
          enough = ground (arith, high);
        })
  ]
]

cuda_digits-IsTarget :
    (t t' : TargetOptions) (o : Option Bytes) → cuda_digits t o ≡ some t' → IsTarget t'
unfolding cuda_digits
cuda_digits-IsTarget t t' (some (d ∷ e ∷ [])) h = set_cuda_arch-IsTarget t t' d e h
cuda_digits-IsTarget t t' _ h = cc h

input_kept :
    (arg : Bytes) (o o' : CompilerOptions)
    → IsTarget o.target
    → set_input arg o ≡ some o'
    → IsTarget o'.target
unfolding set_input
input_kept arg o o' t =
    if_elim (λ r. r ≡ some o' → IsTarget o'.target) (starts_with_dash arg)
      (λ _ e. absurd (let no : none ≡ some o' = e in cc no))
      (λ _.
        if_elim (λ r. r ≡ some o' → IsTarget o'.target) (bytes_eq o.input_file [])
          (λ _ e. subst (λ x. IsTarget x.target) (some-injective e) t)
          (λ _ e. absurd (let no : none ≡ some o' = e in cc no)))

with_values-IsTarget :
    (arg : Bytes) (o o' : CompilerOptions) (a b c d : Option Bytes)
    → IsTarget o.target
    → with_values arg o a b c d ≡ some o'
    → IsTarget o'.target
unfolding with_values set_optim set_level set_device set_target parse_cuda_arch
with_values-IsTarget arg o o' (some val) b c d t e = optim_kept (optim_stage val) e
  where
    optim_kept : (s : Option OptimizationStage) → set_optim o s ≡ some o' → IsTarget o'.target
    optim_kept (some s) e = subst (λ x. IsTarget x.target) (some-injective e) t
    optim_kept none e = cc e
with_values-IsTarget arg o o' none (some val) c d t e = level_kept (stoi val) e
  where
    level_kept : (n : Option (Bool × ℕ)) → set_level o n ≡ some o' → IsTarget o'.target
    level_kept (some n) e = subst (λ x. IsTarget x.target) (some-injective e) t
    level_kept none e = cc e
with_values-IsTarget arg o o' none none (some val) d t e = device_kept (device_mode val) e
  where
    device_kept : (m : Option DeviceMode) → set_device o m ≡ some o' → IsTarget o'.target
    device_kept (some m) e =
        subst (λ x. IsTarget x.target) (some-injective e)
          (record {
            digit = t.digit;
            digit' = t.digit';
            is_first = t.is_first;
            is_second = t.is_second;
            arch = t.arch;
            capability = t.capability;
            enough = t.enough;
          })
    device_kept none e = cc e
with_values-IsTarget arg o o' none none none (some val) t e =
    target_kept (parse_cuda_arch val o.target) refl e
  where
    target_kept :
        (u : Option TargetOptions)
        → parse_cuda_arch val o.target ≡ u
        → set_target o u ≡ some o'
        → IsTarget o'.target
    target_kept (some u) made e =
        subst (λ x. IsTarget x.target) (some-injective e) (cuda_digits-IsTarget o.target u _ made)
    target_kept none made e = cc e
with_values-IsTarget arg o o' none none none none t e = input_kept arg o o' t e

parse_argument-IsTarget :
    (arg : Bytes) (o o' : CompilerOptions)
    → IsTarget o.target
    → parse_argument arg o ≡ some o'
    → IsTarget o'.target
unfolding parse_argument
parse_argument-IsTarget arg o o' t e = elim (Option-cases (set_flag arg o)) [
  | inr (o2, y) ↦
      let same : some o2 ≡ some o' = (rw (y, parse_argument) at e) in
      subst IsTarget (set_flag-target arg o o' (y ∙ same)) t
  | inl n ↦
      let rest : with_values arg o (after_prefix (codes "-optim=") arg)
            (after_prefix (codes "--matmul-opt-level=") arg) (after_prefix (codes "--device=") arg)
            (after_prefix (codes "--cuda-arch=") arg)
          ≡ some o' =
        (rw (n, parse_argument) at e) in
      with_values-IsTarget arg o o' (after_prefix (codes "-optim=") arg)
        (after_prefix (codes "--matmul-opt-level=") arg) (after_prefix (codes "--device=") arg)
        (after_prefix (codes "--cuda-arch=") arg) t rest
]

parse_options-IsTarget :
    (args : List Bytes) (o o' : CompilerOptions)
    → IsTarget o.target
    → parse_options args o ≡ some o'
    → IsTarget o'.target
unfolding parse_options
parse_options-IsTarget [] o o' t e = subst (λ x. IsTarget x.target) (some-injective e) t
parse_options-IsTarget (arg ∷ []) o o' t e = elim (Bool-cases (bytes_eq arg (codes "-o"))) [
  | inl b ↦ absurd (let no : none ≡ some o' = (rw (b, parse_options) at e) in cc no)
  | inr b ↦
      let rest : parse_argument arg o ≡ some o' = (rw (b, parse_options) at e) in
      parse_argument-IsTarget arg o o' t rest
]
parse_options-IsTarget (arg ∷ next ∷ rest) o o' t e =
    elim (Bool-cases (bytes_eq arg (codes "-o"))) [
      | inl b ↦
          let go : parse_options rest (record o { output_file = next }) ≡ some o' =
            (rw (b, parse_options) at e) in
          parse_options-IsTarget rest (record o { output_file = next }) o' t go
      | inr b ↦ elim (Option-cases (parse_argument arg o)) [
        | inl n ↦ absurd (let no : none ≡ some o' = (rw (b, n, parse_options) at e) in cc no)
        | inr (o2, y) ↦
            let go : parse_options (next ∷ rest) o2 ≡ some o' = (rw (b, y, parse_options) at e) in
            parse_options-IsTarget (next ∷ rest) o2 o' (parse_argument-IsTarget arg o o2 t y) go
      ]
    ]

-- Where parseCommandLine accepts the arguments, starting from the default options, the CUDA architecture is spelt `sm_` and
-- two digits, which are the capability, and that is at least 75; and there is an input file, unless the help or the version
-- is asked for.
pub parse_command_line-IsTarget :
    (args : List Bytes) (o : CompilerOptions)
    → parse_command_line args default_options ≡ some o
    → IsTarget o.target
      × (o.show_help ≡ false → o.show_version ≡ false → bytes_eq o.input_file [] ≡ false)
unfolding parse_command_line check_input
parse_command_line-IsTarget args o e = elim (Option-cases (parse_options args default_options)) [
  | inl n ↦ absurd (let no : none ≡ some o = (rw (n, parse_command_line) at e) in cc no)
  | inr (o2, y) ↦
      let t =
        parse_options-IsTarget args default_options o2
          (unfold default_options in default_target-IsTarget) y in
      let checked : check_input o2 ≡ some o = (rw (y, parse_command_line) at e) in
      elim (Bool-cases (not o2.show_help && (not o2.show_version && bytes_eq o2.input_file []))) [
        | inl b ↦ absurd (let no : none ≡ some o = (rw (b, check_input) at checked) in cc no)
        | inr b ↦
            let same : some o2 ≡ some o = (rw (b, check_input) at checked) in
            subst
              (λ x.
                IsTarget x.target
                × (x.show_help ≡ false → x.show_version ≡ false → bytes_eq x.input_file [] ≡ false))
              (some-injective same)
              (t, λ h v. (let left : bytes_eq o2.input_file [] ≡ false = (rw (h, v) at b) in left))
      ]
]
