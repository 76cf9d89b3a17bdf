-- ===== src/Ctl/Kernel/Confined.antt =====
-- Where the control groups are written.
use mathlib.Core.Path.{subst}
use alpenglow.Prelude.{
  ℕ, ◌+◌, ◌==◌, Text, Bool, true, false, not, ◌&&◌, ◌||◌, ◌≡◌, refl, sym, ap, ◌∙◌, Option, none,
  some, List, [], ◌∷◌, ◌++◌, ltb, length, All, All-append, text_eq, units, strip_prefix, decimal,
  if◌then◌else◌, Option-cases, inl, inr, arith,
}
use alpenglow.Oil.FilePath.{component_of, components_of, segments}
use alpenglow.Oil.Extract.{contains_dots}
use alpenglow.Oil.Download.Hosts.{strip_prefix-rest}
use alpenglow.Ctl.Kernel.{
  CgroupPolicy, KernelError, path_too_long, value_too_long, KernelCall, made_dir, made_path,
  wrote_file, Calls, no_calls, ends_with_error, plain_call, tried_call, continue_with, ◌>>◌,
  require, is_plain_name, is_plain_rest, validate_cgroup_policy_path, validate_cgroup_attach_group,
  write_kernel_file, w_u64, w_str, apply_group, apply_groups, apply_cgroups, run_attach, Config,
}
use alpenglow.Ctl.Kernel.Paths.{
  root_of_groups, IsConfined, IsPart, plain-IsPart, dir-IsConfined, file-IsConfined, nil-IsPart,
  procs-IsPart, contains_dots-behind,
}

abbrev pub IsConfinedCall : KernelCall → Type 0
IsConfinedCall (made_dir path) = IsConfined path
IsConfinedCall (made_path path) = IsConfined path
IsConfinedCall (wrote_file path content emptied) = IsConfined path

>>-All :
    (d e : Calls)
    → All IsConfinedCall d.calls
    → (d.failure ≡ none → All IsConfinedCall e.calls)
    → All IsConfinedCall (d >> e).calls
>>-All d e hd he = continued d.failure refl
  where
    continued :
        (failure : Option KernelError)
        → d.failure ≡ failure
        → All IsConfinedCall (continue_with failure d.calls e).calls
    continued none h = All-append IsConfinedCall d.calls e.calls hd (he h)
    continued (some f) h = hd

check-passed : (b : Bool) (e : KernelError) → (require b e).failure ≡ none → b ≡ true
check-passed true e h = refl
check-passed false e h = cc

check-All : (b : Bool) (e : KernelError) → All IsConfinedCall (require b e).calls
check-All true e = tt
check-All false e = tt

choose-All :
    (b : Bool) (d e : Calls)
    → All IsConfinedCall d.calls
    → All IsConfinedCall e.calls
    → All IsConfinedCall (if b then d else e).calls
choose-All true d e hd he = hd
choose-All false d e hd he = he

module _ (name : Text) (is_part : IsPart name) where
  abbrev group_dir : Text
  group_dir = root_of_groups ++ b'/' ∷ name

  write_kernel_file-All :
      (file value : Text)
      → IsPart file
      → All IsConfinedCall (write_kernel_file group_dir file value).calls
  unfolding write_kernel_file
  write_kernel_file-All file value h =
      choose-All (ltb 4096 (length group_dir + 1 + length file + 1)) (ends_with_error path_too_long)
        _ tt
        (choose-All (ltb 4096 (length value + 1)) (ends_with_error value_too_long) _ tt
          (file-IsConfined name file is_part h, tt))

  w_u64-All :
      (file : Text) (n : Option ℕ) → IsPart file → All IsConfinedCall (w_u64 group_dir file n).calls
  unfolding w_u64
  w_u64-All file none h = tt
  w_u64-All file (some n) h = write_kernel_file-All file (decimal n ++ 10 ∷ []) h

  w_str-All :
      (file : Text) (s : Option Text)
      → IsPart file
      → All IsConfinedCall (w_str group_dir file s).calls
  unfolding w_str
  w_str-All file none h = tt
  w_str-All file (some s) h = write_kernel_file-All file s h

  -- What is done for a group after its path was checked, from its end.
  abbrev last_setting : CgroupPolicy → Text → Calls
  last_setting g dir = w_u64 dir (units "pids.max") g.pids_max

  abbrev memory_max_setting : CgroupPolicy → Text → Calls
  memory_max_setting g dir = w_str dir (units "memory.max") g.memory_max >> last_setting g dir

  abbrev memory_high_setting : CgroupPolicy → Text → Calls
  memory_high_setting g dir =
      w_str dir (units "memory.high") g.memory_high >> memory_max_setting g dir

  abbrev io_setting : CgroupPolicy → Text → Calls
  io_setting g dir = w_u64 dir (units "io.weight") g.io_weight >> memory_high_setting g dir

  abbrev cpu_setting : CgroupPolicy → Text → Calls
  cpu_setting g dir = w_u64 dir (units "cpu.weight") g.cpu_weight >> io_setting g dir

  abbrev settings : CgroupPolicy → Text → Calls
  settings g dir = plain_call (made_dir dir) >> cpu_setting g dir

  settings-All : (g : CgroupPolicy) → All IsConfinedCall (settings g group_dir).calls
  unfolding components_of component_of segments
  settings-All g =
      >>-All (plain_call (made_dir group_dir)) (cpu_setting g group_dir)
        (dir-IsConfined name is_part, tt)
        λ _.
          >>-All (w_u64 group_dir (units "cpu.weight") g.cpu_weight) (io_setting g group_dir)
            (w_u64-All (units "cpu.weight") g.cpu_weight refl)
            λ _.
              >>-All (w_u64 group_dir (units "io.weight") g.io_weight)
                (memory_high_setting g group_dir) (w_u64-All (units "io.weight") g.io_weight refl)
                λ _.
                  >>-All (w_str group_dir (units "memory.high") g.memory_high)
                    (memory_max_setting g group_dir)
                    (w_str-All (units "memory.high") g.memory_high refl)
                    λ _.
                      >>-All (w_str group_dir (units "memory.max") g.memory_max)
                        (last_setting g group_dir)
                        (w_str-All (units "memory.max") g.memory_max refl)
                        λ _. w_u64-All (units "pids.max") g.pids_max refl

and-right : (b c : Bool) → (b && c) ≡ true → c ≡ true
and-right true c h = h
and-right false c h = cc

policy-rest :
    (path : Text)
    → (validate_cgroup_policy_path path).failure ≡ none
    → (rest : Text) × (path ≡ units "alpenglow/" ++ rest) × IsPart rest
unfolding validate_cgroup_policy_path
policy-rest path h =
    let passed =
      check-passed
        (not (contains_dots path) && is_plain_rest (strip_prefix (units "alpenglow/") path)) _ h in
    let plain_rest : is_plain_rest (strip_prefix (units "alpenglow/") path) ≡ true =
      and-right (not (contains_dots path)) (is_plain_rest (strip_prefix (units "alpenglow/") path))
        passed in
    elim (Option-cases (strip_prefix (units "alpenglow/") path)) [
      | inl e ↦ cc (sym (ap is_plain_rest e) ∙ plain_rest)
      | inr (rest, e) ↦
          let is_path = strip_prefix-rest (units "alpenglow/") path rest e in
          let dots : contains_dots path ≡ false = ground arith in
          let plain : is_plain_name rest ≡ true = sym (ap is_plain_rest e) ∙ plain_rest in
          (
            rest,
            is_path,
            plain-IsPart rest
                (contains_dots-behind (units "alpenglow/") rest
                  (sym (ap contains_dots is_path) ∙ dots))
                plain,
          )
    ]

apply_group-All : (g : CgroupPolicy) → All IsConfinedCall (apply_group g).calls
unfolding apply_group validate_cgroup_policy_path
apply_group-All g = >>-All (validate_cgroup_policy_path g.path) _ (check-All _ _) λ h.
    let (rest, is_path, is_part) = policy-rest g.path h in
    subst
      (λ path. All IsConfinedCall (settings rest is_part g (units "/sys/fs/cgroup/" ++ path)).calls)
      (sym is_path) (settings-All rest is_part g)

apply_groups-All : (groups : List CgroupPolicy) → All IsConfinedCall (apply_groups groups).calls
unfolding apply_groups
apply_groups-All [] = tt
apply_groups-All (g ∷ groups) =
    >>-All (apply_group g) (apply_groups groups) (apply_group-All g) λ h. apply_groups-All groups

apply_cgroups-All :
    (groups : List CgroupPolicy) (dry : Bool) → All IsConfinedCall (apply_cgroups groups dry).calls
unfolding apply_cgroups segments
apply_cgroups-All groups true = tt
apply_cgroups-All groups false =
    >>-All (plain_call (made_dir (units "/sys/fs/cgroup/alpenglow/"))) (apply_groups groups)
      (dir-IsConfined [] nil-IsPart, tt) λ h. apply_groups-All groups

run_attach-All :
    (works : KernelCall → Bool) (cfg : Config) → All IsConfinedCall (run_attach works cfg).calls
unfolding run_attach validate_cgroup_attach_group
run_attach-All works cfg = choose-All (text_eq cfg.group [] || cfg.pid == 0) no_calls _ tt (
    >>-All (validate_cgroup_attach_group cfg.group) _ (check-All _ _) λ h.
      let passed = check-passed (not (contains_dots cfg.group) && is_plain_name cfg.group) _ h in
      let is_part = plain-IsPart cfg.group (ground arith) (ground arith) in
      >>-All (tried_call works (made_path (root_of_groups ++ b'/' ∷ cfg.group)))
        (write_kernel_file (root_of_groups ++ b'/' ∷ cfg.group) (units "cgroup.procs")
          (decimal cfg.pid ++ 10 ∷ []))
        (dir-IsConfined cfg.group is_part, tt)
        λ h'. write_kernel_file-All cfg.group is_part (units "cgroup.procs") _ procs-IsPart)

-- Whatever the policy and the arguments, the control groups are made and written only in
-- /sys/fs/cgroup/alpenglow, by paths without `..`.
pub groups-are_confined :
    (works : KernelCall → Bool) (cfg : Config) (groups : List CgroupPolicy) (dry : Bool)
    → All IsConfinedCall (apply_cgroups groups dry).calls
      × All IsConfinedCall (run_attach works cfg).calls
groups-are_confined works cfg groups dry = (apply_cgroups-All groups dry, run_attach-All works cfg)
