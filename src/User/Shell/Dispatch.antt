-- ===== src/User/Shell/Dispatch.antt =====
-- The choice of a command by the first word of the line.
use pepin_os.Base.{ℕ, List, [], if◌then◌else◌}
use pepin_os.Base.Text.{codes}
use pepin_os.User.Shell.{
  Program, str_eq, str_skip_word, cmd_help, cmd_cat, cmd_echo, cmd_clear, cmd_raise, unknown,
}
use pepin_os.User.Shell.Words.{word, spaced}

-- The commands that stand alone.
pub alone : (w line : List ℕ) → Program
alone w line =
    if str_eq w (codes "help")
    then cmd_help
    else if str_eq w (codes "ls")
    then Program.sys_ls Program.done
    else if str_eq w (codes "clear")
    then cmd_clear
    else if str_eq w []
    then Program.done
    else unknown line

-- The command that the first word names, with the rest of the line behind the spaces.
pub named : List ℕ → Program
named line =
    let w = word line in
    let arg = str_skip_word line in
    if str_eq w (codes "cat")
    then cmd_cat arg
    else if str_eq w (codes "raise")
    then cmd_raise arg
    else if str_eq w (codes "echo")
    then (if spaced line then cmd_echo arg else Program.sys_print (codes "\n") Program.done)
    else if spaced line
    then unknown line
    else alone w line
