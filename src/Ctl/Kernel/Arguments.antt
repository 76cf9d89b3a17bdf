-- ===== src/Ctl/Kernel/Arguments.antt =====
-- system/alpenglow-ctl/src/kernel.zig, lines 106-146: the arguments of the command, with the
-- `parseInt` of the standard library for 32 bits.
pub mod Written
use alpenglow.Prelude.{
  ℕ, ◌+◌, ◌-◌, ◌*◌, ◌^◌, ◌==◌, ltb, leb, Text, Bool, true, false, ◌&&◌, Option, none, some, List,
  [], ◌∷◌, if◌then◌else◌, text_eq, units,
}
use alpenglow.Ctl.Kernel.{Config, Cmd, apply, attach, ends_in}

abbrev pub is_decimal_digit : ℕ → Bool
is_decimal_digit c = leb b'0' c && leb c b'9'

-- The digits that are left, and the number so far; underscores are passed over.
unfoldable pub u32_from : ℕ → Text → Option ℕ
u32_from n [] = some n
u32_from n (c ∷ t) =
    let m = if c == b'_' then n else n * 10 + (c - b'0') in
    let rest = u32_from m t in
    if c == b'_' then rest else if is_decimal_digit c && ltb m (2 ^ 32) then rest else none

abbrev pub parse_unsigned : Text → Option ℕ
parse_unsigned [] = none
parse_unsigned (c ∷ t) =
    if c == b'_' then none else if ends_in b'_' (c ∷ t) then none else u32_from 0 (c ∷ t)

abbrev pub number_or_zero : Option ℕ → ℕ
number_or_zero none = 0
number_or_zero (some n) = n

-- `parseInt(u32, text, 10) catch 0`: what follows a minus is zero, or out of range.
unfoldable pub parse_pid : Text → ℕ
unfolding u32_from
parse_pid [] = 0
parse_pid (c ∷ t) =
    if c == b'+'
    then number_or_zero (parse_unsigned t)
    else if c == b'-'
    then 0
    else number_or_zero (parse_unsigned (c ∷ t))

pub data Flag : Type 0 where
  group_flag pid_flag policy_flag runtime_state_flag dry_flag attach_word other : Flag

abbrev pub set_value : Config → Flag → Text → Config
set_value cfg group_flag value = record cfg { group = value }
set_value cfg pid_flag value = record cfg { pid = parse_pid value }
set_value cfg policy_flag value = record cfg { policy = value }
set_value cfg runtime_state_flag value = record cfg { runtime_state = value }
set_value cfg dry_flag value = cfg
set_value cfg attach_word value = cfg
set_value cfg other value = cfg

-- What the inner loop, and then the outer one, compares an argument with.
abbrev pub attach_flag : Text → Flag
attach_flag arg =
    if text_eq arg (units "--group")
    then group_flag
    else if text_eq arg (units "--pid")
    then pid_flag
    else if text_eq arg (units "--dry-run")
    then dry_flag
    else other

abbrev pub apply_flag : Text → Flag
apply_flag arg =
    if text_eq arg (units "attach")
    then attach_word
    else if text_eq arg (units "--policy")
    then policy_flag
    else if text_eq arg (units "--runtime-state")
    then runtime_state_flag
    else if text_eq arg (units "--dry-run")
    then dry_flag
    else other

-- Where the loops are: whether in the inner one, and the flag whose value comes next.
abbrev pub Loop : Type 0
Loop = Bool × Option Flag

abbrev pub next_argument : Config → Bool → Flag → Config × Loop
next_argument cfg inner attach_word = (record cfg { cmd = attach }, (true, none))
next_argument cfg inner dry_flag = (record cfg { dry = true }, (inner, none))
next_argument cfg inner other = (cfg, (inner, none))
next_argument cfg inner group_flag = (cfg, (inner, some group_flag))
next_argument cfg inner pid_flag = (cfg, (inner, some pid_flag))
next_argument cfg inner policy_flag = (cfg, (inner, some policy_flag))
next_argument cfg inner runtime_state_flag = (cfg, (inner, some runtime_state_flag))

abbrev pub take_argument : Config → Loop → Text → Config × Loop
take_argument cfg (inner, some flag) arg = (set_value cfg flag arg, (inner, none))
take_argument cfg (true, none) arg = next_argument cfg true (attach_flag arg)
take_argument cfg (false, none) arg = next_argument cfg false (apply_flag arg)

-- A flag at the end that awaits its value: an index out of range.
abbrev pub end_of_arguments : Config → Loop → Option Config
end_of_arguments cfg (inner, none) = some cfg
end_of_arguments cfg (inner, some flag) = none

unfoldable pub parse_rest : Config → Loop → List Text → Option Config
parse_rest cfg loop [] = end_of_arguments cfg loop
parse_rest cfg loop (arg ∷ args) =
    let next = take_argument cfg loop arg in parse_rest next.0 next.1 args

abbrev pub default_config : Config
default_config = record {
  policy = units "/etc/alpenglow/kernel-policy.json";
  runtime_state = units "/run/alpenglow/runtime-state.env";
  dry = false;
  cmd = apply;
  group = [];
  pid = 0;
}

-- The first argument is the name of the program; `none` is a panic.
unfoldable pub parse_args : List Text → Option Config
unfolding parse_rest
parse_args [] = some default_config
parse_args (program ∷ args) = parse_rest default_config (false, none) args
