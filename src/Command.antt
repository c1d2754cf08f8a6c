-- ===== src/Command.antt =====
-- cmd/devagent/cli.go and internal/sidecar/tool_compiler.go: the commands `init`, `validate` and
-- `schema`. The disk is a map from paths to the lines of files; what its calls answer, how paths are
-- joined, and YAML are parameters. What is printed is the value that a command returns.
pub mod Templates
pub mod Validation
pub mod Kept
pub mod Init
pub mod PidFile
pub mod Main
use devagent.Base.{
  ℕ, String, Bool, true, false, ◌&&◌, Option, none, some, List, [], ◌∷◌, ◌++◌, length, str_eq, ◌==◌,
  if◌then◌else◌, Assoc, lookup, insert, Result, ok, err, map, codes,
}
use devagent.Model.Capability.{PropertySchema, Capability, DeviceConfig}
use devagent.Protocol.Dcp.{Mac, intent_id_of}
use devagent.Mcptool.{tool_name}
use devagent.Command.Templates.{global_config_template, device_config_template}

pub data CliError : Type 0 where
  read_config parse_config id_missing no_capabilities name_missing make_directory : CliError
  implementation_missing write_file : String → CliError

abbrev pub Disk : Type 0
Disk = Assoc (List String)

-- `fmt.Printf` of one capability by `cmdSchema`.
pub data Implemented : Type 0 where
  native_by : String → Implemented
  proxy_by : String → String → String → Implemented
  by_nothing : Implemented

pub record SchemaEntry : Type 0 where
  pub tool : String
  pub description : String
  pub intent_id : ℕ
  pub implemented : Implemented
  pub parameters : List (String × String)

-- The loop of `cmdValidate`: the first thing that is wrong.
unfoldable pub check_capabilities : List Capability → Option CliError
check_capabilities [] = none
check_capabilities (capability ∷ rest) =
    if str_eq capability.name ""
    then some name_missing
    else if str_eq capability.implementation.native "" && str_eq capability.implementation.proxy ""
    then some (implementation_missing capability.name)
    else check_capabilities rest

unfoldable pub validate : DeviceConfig → Result CliError (String × ℕ)
unfolding check_capabilities
validate cfg =
    if str_eq cfg.device.id ""
    then err id_missing
    else if length cfg.capabilities == 0
    then err no_capabilities
    else elim (check_capabilities cfg.capabilities) [
      | some wrong ↦ err wrong
      | none ↦ ok (cfg.device.id, length cfg.capabilities)
    ]

unfoldable pub implemented_by : Capability → Implemented
implemented_by capability =
    let impl = capability.implementation in
    if str_eq impl.native ""
    then if str_eq impl.proxy "" then by_nothing else proxy_by impl.proxy impl.protocol impl.channel
    else native_by impl.native

module _ (mac : Mac) where
  unfoldable pub schema_entry : String → Capability → SchemaEntry
  unfolding implemented_by
  schema_entry device_id capability = record {
    tool = tool_name device_id capability.name;
    description = capability.description;
    intent_id =
        if capability.intent_id == 0
        then intent_id_of mac (codes (tool_name device_id capability.name))
        else capability.intent_id;
    implemented = implemented_by capability;
    parameters = map (λ e. (e.0, e.1.type_name)) capability.input_schema.properties;
  }

-- What the operating system answers.
pub record Os (Bytes : Type 0) : Type 0 where
  pub read_file : String → Option Bytes
  pub unmarshal : Bytes → Option DeviceConfig
  pub can_make : String → Bool
  pub can_write : String → Bool
  pub join : String → String → String

module _ {Bytes : Type 0} (os : Os Bytes) where
  unfoldable pub load_device_config : String → Result CliError DeviceConfig
  load_device_config path = elim (os.read_file path) [
    | none ↦ err read_config
    | some bytes ↦ elim (os.unmarshal bytes) [ none ↦ err parse_config | some cfg ↦ ok cfg ]
  ]

  unfoldable pub cmd_validate : String → Result CliError (String × ℕ)
  unfolding load_device_config validate
  cmd_validate path = elim (load_device_config path) [ err e ↦ err e | ok cfg ↦ validate cfg ]

  unfoldable pub cmd_schema : Mac → String → Result CliError ((String × String) × List SchemaEntry)
  unfolding load_device_config schema_entry
  cmd_schema mac path = elim (load_device_config path) [
    | err e ↦ err e
    | ok cfg ↦
        ok ((cfg.device.id, cfg.device.name), map (schema_entry mac cfg.device.id) cfg.capabilities)
  ]

  -- The loop of `cmdInit`: the disk, and the error that ended it, if one did.
  unfoldable pub write_files : String → Assoc (List String) → Disk → Disk × Option CliError
  write_files dir [] disk = (disk, none)
  write_files dir ((name, content) ∷ files) disk =
      let path = os.join dir name in
      elim (lookup path disk) [
        | some old ↦ write_files dir files disk
        | none ↦
            if os.can_write path
            then write_files dir files (insert path content disk)
            else (disk, some (write_file path))
      ]

  -- Go leaves the order of the map's entries open: `swapped` tells which one it is.
  unfoldable pub cmd_init : Bool → String → Disk → Disk × Option CliError
  unfolding write_files
  cmd_init swapped dir disk =
      let first : String × List String = ("devagent.yaml", global_config_template) in
      let second : String × List String = ("device.yaml", device_config_template) in
      if os.can_make dir
      then if swapped
        then write_files dir (second ∷ first ∷ []) disk
        else write_files dir (first ∷ second ∷ []) disk
      else (disk, some make_directory)

-- How `runCLI` ends: it was no command and the program goes on, the command is done, or the process
-- exits with status 1, of an error or for want of an argument.
pub data CliResult : Type 0 where
  not_a_command succeeded bad_usage : CliResult
  failed : CliError → CliResult

unfoldable pub exit_of {ℓ} : {A : Type ℓ} → Result CliError A → CliResult
exit_of (ok a) = succeeded
exit_of (err e) = failed e

module _ {Bytes : Type 0} (os : Os Bytes) (mac : Mac) where
  unfoldable pub run_init : Bool → String → Disk → Disk × CliResult
  run_init swapped dir disk =
      let (disk', failure) = cmd_init os swapped dir disk in
      elim failure [ none ↦ (disk', succeeded) | some e ↦ (disk', failed e) ]

  unfoldable pub run_named : Bool → String → List String → Disk → Disk × CliResult
  unfolding run_init exit_of
  run_named swapped command args disk =
      if str_eq command "init"
      then elim args [ [] ↦ run_init swapped "." disk | dir ∷ rest ↦ run_init swapped dir disk ]
      else if str_eq command "validate"
      then elim args [
        | [] ↦ (disk, bad_usage)
        | path ∷ rest ↦ (disk, exit_of (cmd_validate os path))
      ]
      else if str_eq command "schema"
      then elim args [
        | [] ↦ (disk, bad_usage)
        | path ∷ rest ↦ (disk, exit_of (cmd_schema os mac path))
      ]
      else (disk, not_a_command)

  unfoldable pub run_cli : Bool → List String → Disk → Disk × CliResult
  unfolding run_named
  run_cli swapped [] disk = (disk, not_a_command)
  run_cli swapped (command ∷ args) disk = run_named swapped command args disk
