-- ===== src/Tests/Native.antt =====
-- internal/daemon/native.go's tests, and instances of the theorems on the shell handler.
use devagent.Base.{
  ℤ, ℕ, ◌≤◌, ◌≡◌, refl, pos, none, List, [], ◌∷◌, ◌++◌, All, codes, length, lookup, text_eq,
  contains_text, has_prefix, trim_left, trim_right, trim_space, before_blank, is_space,
}
use devagent.Model.Capability.{Capability}
use devagent.Daemon.Payload.{Params, text}
use devagent.Daemon.Native.{
  reply, execute, denied, not_allowed, dangerous, RunOutcome, extract_base_command, find_dangerous,
  validate_command_safety, is_allowed, command_param, command_text, decide_on, decide_shell,
  execute_shell,
}
use devagent.Daemon.Native.Guard.{Passed, execute_shell-Passed}

abbrev list_files : Capability
list_files = record {
  name = "run";
  description = "";
  intent_id = 0;
  input_schema = record { type_name = "object"; properties = []; required = [] };
  implementation = record {
    native = "shell";
    proxy = "";
    channel = "";
    baudrate = pos 0;
    protocol = "";
    hmac_secret = "";
    cmd_map = [];
    timeout_ms = pos 0;
    retry = pos 0;
    allowed_commands = "ls" ∷ "cat" ∷ [];
  };
}

abbrev silent : List ℕ → ℤ → RunOutcome
silent cmd limit = record { stdout = []; stderr = []; error = none }

abbrev given : Params
given = ("command", text (codes "ls -l")) ∷ []

ls_runs : (execute_shell silent list_files given).1 ≡ codes "ls -l" ∷ []
unfolding execute_shell decide_shell command_text command_param lookup decide_on is_allowed text_eq
    extract_base_command trim_space before_blank trim_left trim_right is_space
    validate_command_safety find_dangerous contains_text has_prefix
ls_runs = refl

rm_denied : decide_on ("ls" ∷ []) (codes "rm -rf") ≡ reply (denied (not_allowed (codes "rm")))
unfolding decide_on is_allowed text_eq extract_base_command trim_space before_blank trim_left
    trim_right is_space validate_command_safety find_dangerous contains_text has_prefix
rm_denied = refl

pipe_denied : decide_on [] (codes "ls | rm") ≡ reply (denied (dangerous (codes "|")))
unfolding decide_on is_allowed text_eq extract_base_command trim_space before_blank trim_left
    trim_right is_space validate_command_safety find_dangerous contains_text has_prefix
pipe_denied = refl

-- A second line is a second command of `sh -c`, and no check looks at it.
abbrev two_lines : List ℕ
two_lines = codes "ls ." ++ 10 ∷ codes "rm -r x"

two_lines_run : decide_on ("ls" ∷ []) two_lines ≡ execute two_lines
unfolding decide_on is_allowed text_eq extract_base_command trim_space before_blank trim_left
    trim_right is_space validate_command_safety find_dangerous contains_text has_prefix
two_lines_run = refl

execute_shell-Passed_example :
    (length (execute_shell silent list_files given).1 ≤ 1)
    × All (Passed ("ls" ∷ "cat" ∷ [])) (execute_shell silent list_files given).1
execute_shell-Passed_example = execute_shell-Passed silent list_files given
