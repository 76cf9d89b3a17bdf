-- ===== src/Ctl/Kernel.antt =====
-- system/alpenglow-ctl/src/kernel.zig, lines 27-64, 105-113, 148-214 and 237-289: the policy of the
-- kernel and its control groups, with `makePathRecursive` and `writeFile` of system/zig-common.zig as
-- single calls. The policy that is read from its file, and whether a call of the system succeeds, are
-- parameters.
pub mod Arguments
pub mod Confined
pub mod Paths
pub mod State
mod Tests
use alpenglow.Prelude.{
  ℕ, zero, suc, ◌+◌, ◌-◌, ◌*◌, ◌^◌, ◌==◌, ltb, leb, Text, Bool, true, false, not, ◌&&◌, ◌||◌,
  Option, none, some, List, [], ◌∷◌, ◌++◌, if◌then◌else◌, length, any, all, map, reverse,
  drop_while, text_eq, units, strip_prefix, decimal,
}
use alpenglow.Oil.Extract.{contains_dots}

pub record CgroupPolicy : Type 0 where
  pub path : Text
  pub cpu_weight : Option ℕ
  pub io_weight : Option ℕ
  pub memory_high : Option Text
  pub memory_max : Option Text
  pub pids_max : Option ℕ

pub data KernelError : Type 0 where
  invalid_cgroup_path path_too_long value_too_long call_failed policy_not_read : KernelError
  -- An index out of range.
  panicked : KernelError

pub data KernelCall : Type 0 where
  made_dir made_path : Text → KernelCall
  -- The path, the data, and whether the file is emptied first.
  wrote_file : Text → Text → Bool → KernelCall

-- The calls that were made, and the error that ended them.
pub record Calls : Type 0 where
  pub calls : List KernelCall
  pub failure : Option KernelError

abbrev pub no_calls : Calls
no_calls = record { calls = []; failure = none }

abbrev pub ends_with_error : KernelError → Calls
ends_with_error e = record { calls = []; failure = some e }

-- A call whose error is ignored.
abbrev pub plain_call : KernelCall → Calls
plain_call c = record { calls = c ∷ []; failure = none }

-- `try`
abbrev pub tried_call : (KernelCall → Bool) → KernelCall → Calls
tried_call works c = record { calls = c ∷ []; failure = if works c then none else some call_failed }

abbrev pub continue_with : Option KernelError → List KernelCall → Calls → Calls
continue_with none calls d = record { calls = calls ++ d.calls; failure = d.failure }
continue_with (some e) calls d = record { calls = calls; failure = some e }

-- One after the other, unless the first fails.
infixr 5 ◌>>◌
abbrev pub ◌>>◌ : Calls → Calls → Calls
d >> e = continue_with d.failure d.calls e

abbrev pub require : Bool → KernelError → Calls
require true e = no_calls
require false e = ends_with_error e

abbrev pub is_group_char : ℕ → Bool
is_group_char c =
    (leb b'a' c && leb c b'z') || (leb b'0' c && leb c b'9') || c == b'.' || c == b'_' || c == b'-'

abbrev pub is_plain_name : Text → Bool
is_plain_name name =
    not (text_eq name []) && not (any (λ c. c == b'/') name) && all is_group_char name

abbrev pub is_plain_rest : Option Text → Bool
is_plain_rest none = false
is_plain_rest (some rest) = is_plain_name rest

unfoldable pub validate_cgroup_policy_path : Text → Calls
unfolding contains_dots
validate_cgroup_policy_path path =
    require (not (contains_dots path) && is_plain_rest (strip_prefix (units "alpenglow/") path))
      invalid_cgroup_path

unfoldable pub validate_cgroup_attach_group : Text → Calls
unfolding contains_dots
validate_cgroup_attach_group group =
    require (not (contains_dots group) && is_plain_name group) invalid_cgroup_path

-- The last byte of the text is `b`.
abbrev pub ends_in : ℕ → Text → Bool
ends_in b [] = false
ends_in b (c ∷ []) = c == b
ends_in b (c ∷ d ∷ t) = ends_in b (d ∷ t)

abbrev pub as_line : Text → Text
as_line value = if ends_in 10 value then value else value ++ 10 ∷ []

unfoldable pub write_kernel_file : Text → Text → Text → Calls
write_kernel_file dir file value =
    if ltb 4096 (length dir + 1 + length file + 1)
    then ends_with_error path_too_long
    else if ltb 4096 (length value + 1)
    then ends_with_error value_too_long
    else plain_call (wrote_file (dir ++ b'/' ∷ file) (as_line value) false)

unfoldable pub w_u64 : Text → Text → Option ℕ → Calls
unfolding write_kernel_file
w_u64 dir file none = no_calls
w_u64 dir file (some n) = write_kernel_file dir file (decimal n ++ 10 ∷ [])

unfoldable pub w_str : Text → Text → Option Text → Calls
unfolding write_kernel_file
w_str dir file none = no_calls
w_str dir file (some value) = write_kernel_file dir file value

-- Lines 241-249.
unfoldable pub apply_group : CgroupPolicy → Calls
unfolding validate_cgroup_policy_path w_u64 w_str
apply_group g =
    let dir = units "/sys/fs/cgroup/" ++ g.path in
    validate_cgroup_policy_path g.path
    >> plain_call (made_dir dir)
    >> w_u64 dir (units "cpu.weight") g.cpu_weight
    >> w_u64 dir (units "io.weight") g.io_weight
    >> w_str dir (units "memory.high") g.memory_high
    >> w_str dir (units "memory.max") g.memory_max
    >> w_u64 dir (units "pids.max") g.pids_max

unfoldable pub apply_groups : List CgroupPolicy → Calls
unfolding apply_group
apply_groups [] = no_calls
apply_groups (g ∷ groups) = apply_group g >> apply_groups groups

unfoldable pub apply_cgroups : List CgroupPolicy → Bool → Calls
unfolding apply_groups
apply_cgroups groups true = no_calls
apply_cgroups groups false =
    plain_call (made_dir (units "/sys/fs/cgroup/alpenglow/")) >> apply_groups groups

-- The path of a kernel parameter.
abbrev pub slash_for_dot : ℕ → ℕ
slash_for_dot c = if c == b'.' then b'/' else c

-- Lines 199-207: the path is built in a buffer of 256 bytes.
unfoldable pub apply_sysctl : Text × Text → Calls
apply_sysctl (key, value) =
    if ltb 256 (length (units "/proc/sys/") + length key)
    then ends_with_error panicked
    else plain_call (wrote_file (units "/proc/sys/" ++ map slash_for_dot key) value false)

unfoldable pub apply_sysctls : List (Text × Text) → Calls
unfolding apply_sysctl
apply_sysctls [] = no_calls
apply_sysctls (s ∷ sysctls) = apply_sysctl s >> apply_sysctls sysctls

abbrev is_separator : ℕ → Bool
is_separator c = c == b'/'

-- What a reversed path has before its last slash, reversed back.
abbrev before_slash : Text → Option Text
before_slash [] = none
before_slash (c ∷ []) = some (c ∷ [])
before_slash (c ∷ d ∷ t) = some (reverse (d ∷ t))

-- `std.fs.path.dirname`
unfoldable pub dirname : Text → Option Text
dirname path =
    before_slash (drop_while (λ c. not (is_separator c)) (drop_while is_separator (reverse path)))

abbrev pub make_parent : (KernelCall → Bool) → Option Text → Calls
make_parent works none = no_calls
make_parent works (some parent) = tried_call works (made_path parent)

unfoldable pub write_env : (KernelCall → Bool) → Text → Text → Text → Calls
unfolding dirname
write_env works path key value =
    make_parent works (dirname path)
    >> tried_call works (wrote_file path (key ++ (b'=' ∷ (value ++ 10 ∷ []))) true)

pub record Policy : Type 0 where
  pub profile : Text
  pub groups : List CgroupPolicy
  pub sysctls : List (Text × Text)

pub data Cmd : Type 0 where
  apply attach : Cmd

pub record Config : Type 0 where
  pub policy : Text
  pub runtime_state : Text
  pub dry : Bool
  pub cmd : Cmd
  pub group : Text
  pub pid : ℕ

-- Lines 155-164.
unfoldable pub run_attach : (KernelCall → Bool) → Config → Calls
unfolding validate_cgroup_attach_group write_kernel_file
run_attach works cfg =
    if text_eq cfg.group [] || cfg.pid == 0
    then no_calls
    else (let cg = units "/sys/fs/cgroup/alpenglow/" ++ cfg.group in
        validate_cgroup_attach_group cfg.group
        >> tried_call works (made_path cg)
        >> write_kernel_file cg (units "cgroup.procs") (decimal cfg.pid ++ 10 ∷ []))

-- Lines 197-212, for the policy that was read.
unfoldable pub run_apply : (KernelCall → Bool) → Config → Policy → Calls
unfolding apply_sysctls apply_cgroups write_env
run_apply works cfg policy =
    (if cfg.dry then no_calls else apply_sysctls policy.sysctls)
    >> apply_cgroups policy.groups cfg.dry
    >> write_env works cfg.runtime_state (units "ALPENGLOW_KERNEL_POLICY_FILE") cfg.policy
    >> write_env works cfg.runtime_state (units "ALPENGLOW_KERNEL_POLICY_PROFILE") policy.profile

abbrev pub apply_read : (KernelCall → Bool) → Config → Option Policy → Calls
apply_read works cfg none = ends_with_error policy_not_read
apply_read works cfg (some policy) = run_apply works cfg policy

-- The switch of `mainInner`, by what reading the policy gives.
unfoldable pub run_command : (KernelCall → Bool) → Config → Option Policy → Calls
unfolding run_attach run_apply
run_command works cfg policy = elim cfg.cmd [
  | attach ↦ run_attach works cfg
  | apply ↦ apply_read works cfg policy
]
