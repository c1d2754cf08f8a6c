-- ===== src/Daemon/Native.antt =====
-- internal/daemon/native.go: the shell handler. The operating system's shell is a parameter: what a
-- command, run with a time limit, comes back with.
pub mod Guard
use devagent.Base.{
  ℕ, ltb, ◌*◌, ◌-◌, ◌%◌, ◌^◌, ℤ, pos, negsuc, pos_part, String, Bool, true, false, ◌&&◌, not,
  Option, none, some, List, [], ◌∷◌, ltb_ℤ, str_eq, if◌then◌else◌, Assoc, lookup, codes, text_eq,
  contains_text, trim_space, before_blank,
}
use devagent.Model.Capability.{Capability, Implementation, CmdMap}
use devagent.Daemon.Payload.{ParamValue, Params, text, fill_template}

abbrev pub shell_dangerous_chars : List (List ℕ)
shell_dangerous_chars =
    codes ";"
    ∷ codes "|"
    ∷ codes "&"
    ∷ codes "$("
    ∷ codes "`"
    ∷ codes ">"
    ∷ codes "<"
    ∷ codes "&&"
    ∷ codes "||"
    ∷ []

-- What stands on the standard error of a result: the output, or a message of the handler's own.
pub data Stderr : Type 0 where
  missing_command : Stderr
  not_allowed : List ℕ → Stderr
  dangerous : List ℕ → Stderr
  output : List ℕ → Stderr
  exit_message : List ℕ → Stderr

pub record NativeResult : Type 0 where
  pub status : String
  pub stdout : List ℕ
  pub stderr : Stderr
  pub exit_code : ℤ

-- `cmdStr[:idx]` where a blank stands behind at least one character.
unfoldable pub extract_base_command : List ℕ → List ℕ
unfolding trim_space before_blank
extract_base_command cmd_str =
    let trimmed = trim_space cmd_str in
    elim (before_blank trimmed) [ none ↦ trimmed | some [] ↦ trimmed | some (c ∷ word) ↦ c ∷ word ]

-- The first dangerous sequence that the command contains.
unfoldable pub find_dangerous : List (List ℕ) → List ℕ → Option (List ℕ)
unfolding contains_text
find_dangerous [] cmd_str = none
find_dangerous (d ∷ ds) cmd_str =
    if contains_text cmd_str d then some d else find_dangerous ds cmd_str

unfoldable pub validate_command_safety : List ℕ → Option (List ℕ)
unfolding find_dangerous
validate_command_safety = find_dangerous shell_dangerous_chars

unfoldable pub is_allowed : List String → List ℕ → Bool
unfolding text_eq
is_allowed [] base = false
is_allowed (allowed ∷ rest) base =
    if text_eq base (codes allowed) then true else is_allowed rest base

-- `params["command"].(string)`
unfoldable pub command_param : Option ParamValue → Option (List ℕ)
command_param (some (text s)) = some s
command_param _ = none

-- A Go string is its bytes, so that the bytes of the payload are the filled template again.
unfoldable pub command_text : Capability → Params → Option (List ℕ)
unfolding command_param fill_template lookup
command_text cap params = elim (lookup cap.name cap.implementation.cmd_map) [
  | none ↦ command_param (lookup "command" params)
  | some entry ↦
      if str_eq entry.fmt ""
      then command_param (lookup "command" params)
      else some (fill_template entry.fmt params)
]

-- The error of `cmd.Run()`: a process that exited with a code, or one that could not run.
pub data RunError : Type 0 where
  exited : ℤ → List ℕ → RunError
  not_run : List ℕ → RunError

pub record RunOutcome : Type 0 where
  pub stdout : List ℕ
  pub stderr : List ℕ
  pub error : Option RunError

abbrev pub denied : Stderr → NativeResult
denied message = record { status = "denied"; stdout = []; stderr = message; exit_code = negsuc 0 }

-- The checks, in order: what is returned without running anything, or the command that is run.
pub data Decision : Type 0 where
  reply : NativeResult → Decision
  execute : List ℕ → Decision

unfoldable pub decide_on : List String → List ℕ → Decision
decide_on allowed_commands cmd_str =
    let base = extract_base_command cmd_str in
    let safety : Decision = elim (validate_command_safety cmd_str) [
      | none ↦ execute cmd_str
      | some d ↦ reply (denied (dangerous d))
    ] in
    elim allowed_commands [
      | [] ↦ safety
      | x ∷ xs ↦ if is_allowed (x ∷ xs) base then safety else reply (denied (not_allowed base))
    ]

unfoldable pub decide_shell : Capability → Params → Decision
decide_shell cap params = elim (command_text cap params) [
  | none ↦
      reply
        (record { status = "error"; stdout = []; stderr = missing_command; exit_code = negsuc 0 })
  | some cmd_str ↦ decide_on cap.implementation.allowed_commands cmd_str
]

-- A number as an `int64`, which wraps.
unfoldable pub wrap_int64 : ℕ → ℤ
wrap_int64 n = let m = n % 2 ^ 64 in if ltb m (2 ^ 63) then pos m else negsuc (2 ^ 64 - 1 - m)

-- `30 * time.Second`, or the capability's limit, in nanoseconds.
unfoldable pub time_limit : Implementation → ℤ
unfolding wrap_int64
time_limit impl =
    if ltb_ℤ (pos 0) impl.timeout_ms
    then wrap_int64 (pos_part impl.timeout_ms * 1_000_000)
    else pos 30_000_000_000

unfoldable pub result_of : RunOutcome → NativeResult
result_of out = elim out.error [
  | none ↦ record {
    status = "ok";
    stdout = out.stdout;
    stderr = output out.stderr;
    exit_code = pos 0;
  }
  | some (exited code message) ↦ record {
    status = "error";
    stdout = out.stdout;
    stderr = elim out.stderr [ [] ↦ exit_message message | c ∷ cs ↦ output (c ∷ cs) ];
    exit_code = code;
  }
  | some (not_run message) ↦ record {
    status = "error";
    stdout = out.stdout;
    stderr = elim out.stderr [ [] ↦ exit_message message | c ∷ cs ↦ output (c ∷ cs) ];
    exit_code = negsuc 0;
  }
]

-- `Execute`, with the commands that it hands to the shell.
unfoldable pub execute_shell :
    (List ℕ → ℤ → RunOutcome) → Capability → Params → NativeResult × List (List ℕ)
execute_shell shell cap params = elim (decide_shell cap params) [
  | reply result ↦ (result, [])
  | execute cmd_str ↦ (result_of (shell cmd_str (time_limit cap.implementation)), cmd_str ∷ [])
]

-- `ExecuteNative`: the registry holds one handler.
unfoldable pub execute_native :
    (List ℕ → ℤ → RunOutcome) → String → Capability → Params → Option (NativeResult × List (List ℕ))
execute_native shell native_type cap params =
    if str_eq native_type "shell" then some (execute_shell shell cap params) else none
