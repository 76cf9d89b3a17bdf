-- ===== src/Ctl/Kernel/State.antt =====
-- What the calls leave in a file: the state of the run that is written at the end.
use alpenglow.Prelude.{Text, List, [], ◌∷◌, ◌++◌, if◌then◌else◌, length, drop, text_eq}
use alpenglow.Ctl.Kernel.{KernelCall, made_dir, made_path, wrote_file}

-- What a call leaves in the file at a path, for what it held before: writing begins at its start.
abbrev pub after_call : Text → Text → KernelCall → Text
after_call path held (made_dir dir) = held
after_call path held (made_path dir) = held
after_call path held (wrote_file to content emptied) =
    if text_eq to path
    then (if emptied then content else content ++ drop (length content) held)
    else held

unfoldable pub after_calls : Text → Text → List KernelCall → Text
after_calls path held [] = held
after_calls path held (c ∷ calls) = after_calls path (after_call path held c) calls
