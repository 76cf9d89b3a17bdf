-- ===== src/Ctl/Kernel/Tests.antt =====
-- Runs on small inputs.
use alpenglow.Prelude.{
  Bool, true, false, ◌≡◌, refl, none, some, [], ◌∷◌, ◌++◌, All, units, arith, decimal,
}
use alpenglow.Ctl.Kernel.{
  CgroupPolicy, KernelCall, Config, Policy, attach, invalid_cgroup_path,
  validate_cgroup_policy_path, apply_cgroups, run_attach, write_kernel_file, w_u64, w_str, dirname,
  wrote_file, made_dir,
}
use alpenglow.Ctl.Kernel.Arguments.{parse_args, default_config}
use alpenglow.Ctl.Kernel.Arguments.Written.{attach_arguments, parse_args-attach_arguments}
use alpenglow.Ctl.Kernel.Confined.{IsConfinedCall, groups-are_confined}

abbrev system_group : CgroupPolicy
system_group = record {
  path = units "alpenglow/system";
  cpu_weight = some 800;
  io_weight = none;
  memory_high = some (units "max");
  memory_max = none;
  pids_max = none;
}

abbrev outside_group : CgroupPolicy
outside_group = record system_group { path = units "alpenglow/../init" }

abbrev balanced : Policy
balanced = record {
  profile = units "balanced";
  groups = system_group ∷ [];
  sysctls = (units "vm.swappiness", units "60") ∷ [];
}

abbrev attaching : Config
attaching = record default_config { cmd = attach; group = units "system"; pid = 1234; dry = true }

abbrev works_always : KernelCall → Bool
works_always c = true

outside_refused : (apply_cgroups (outside_group ∷ []) false).failure ≡ some invalid_cgroup_path
unfolding apply_cgroups validate_cgroup_policy_path
outside_refused = refl

system_calls :
    (apply_cgroups (system_group ∷ []) false).calls
    ≡ made_dir (units "/sys/fs/cgroup/alpenglow/")
      ∷ made_dir (units "/sys/fs/cgroup/alpenglow/system")
      ∷ wrote_file
          (units "/sys/fs/cgroup/alpenglow/system/cpu.weight")
          (units "800" ++ 10 ∷ [])
          false
      ∷ wrote_file
          (units "/sys/fs/cgroup/alpenglow/system/memory.high")
          (units "max" ++ 10 ∷ [])
          false
      ∷ []
unfolding apply_cgroups w_u64 w_str write_kernel_file decimal
system_calls = refl

parent_of_state : dirname (units "/run/alpenglow/runtime-state.env") ≡ some (units "/run/alpenglow")
unfolding dirname
parent_of_state = refl

parent_of_entry : dirname (units "/run") ≡ some (units "/")
unfolding dirname
parent_of_entry = refl

value_missing : parse_args (units "kernelctl" ∷ units "--policy" ∷ []) ≡ none
unfolding parse_args
value_missing = refl

-- A rehearsal attaches the process.
dry_attach :
    (run_attach works_always attaching).calls
    ≡ (run_attach works_always (record attaching { dry = false })).calls
unfolding run_attach
dry_attach = refl

groups-are_confined_example :
    All IsConfinedCall (apply_cgroups (system_group ∷ outside_group ∷ []) false).calls
    × All IsConfinedCall (run_attach works_always attaching).calls
groups-are_confined_example =
    groups-are_confined works_always attaching (system_group ∷ outside_group ∷ []) false

parse_args-attach_arguments_example :
    parse_args (units "kernelctl" ∷ attach_arguments attaching) ≡ some attaching
parse_args-attach_arguments_example =
    parse_args-attach_arguments (units "kernelctl") attaching refl (omega arith)
