-- ===== src/Tests/Command.antt =====
-- cmd/devagent's commands, and instances of the theorems on them.
use devagent.Base.{
  read_digits, read_digits-decimal, ℕ, zero, suc, if◌then◌else◌, str_eq, digits_of, ap, ◌≡◌, ◌⊎◌,
  refl, pos, true, false, Option, none, some, String, [], ◌∷◌, ok, err, decimal, trim_space,
  trim_left, trim_right, is_space, leb_ℤ, ◌&&◌,
}
use devagent.Model.Capability.{Capability, DeviceConfig}
use devagent.Command.{
  read_config, parse_config, Os, cmd_validate, validate, load_device_config, check_capabilities,
  implementation_missing,
}
use devagent.Command.Validation.{Verdict, cmd_validate-Verdict}
use devagent.Command.PidFile.{
  Processes, already_running, acquire_pid_file, write_pid, running_pid, remove_file, all_written,
  Takes, acquire_pid_file-acquire,
}
use devagent.Tests.Daemon.{set_led, shelf}

abbrev idle : Capability
idle = record set_led {
  name = "idle";
  implementation = record set_led.implementation { proxy = "" };
}

-- Two files: a good configuration and one whose second capability does nothing.
abbrev content_of : String → Option ℕ
content_of path =
    if str_eq path "shelf.yaml" then some 1 else if str_eq path "bad.yaml" then some 2 else none

abbrev parsed : ℕ → Option DeviceConfig
parsed (suc zero) = some shelf
parsed (suc (suc zero)) = some (record shelf { capabilities = set_led ∷ idle ∷ [] })
parsed _ = none

abbrev joined_path : String → String → String
joined_path dir name = name

abbrev os : Os ℕ
os = record {
  read_file = content_of;
  unmarshal = parsed;
  can_make = λ dir. true;
  can_write = λ path. true;
  join = joined_path;
}

validated :
    (cmd_validate os "shelf.yaml" ≡ ok ("shelf_01", 1))
    × (cmd_validate os "bad.yaml" ≡ err (implementation_missing "idle"))
    × (cmd_validate os "none.yaml" ≡ err read_config)
unfolding cmd_validate load_device_config validate check_capabilities
validated = (refl, refl, refl)

cmd_validate-Verdict_example :
    ((content_of "bad.yaml" ≡ none) × (cmd_validate os "bad.yaml" ≡ err read_config))
    ⊎ ((bytes : ℕ) × (content_of "bad.yaml" ≡ some bytes)
        × (parsed bytes ≡ none)
        × (cmd_validate os "bad.yaml" ≡ err parse_config))
    ⊎ ((bytes : ℕ) × ((cfg : DeviceConfig) × (content_of "bad.yaml" ≡ some bytes)
          × (parsed bytes ≡ some cfg)
          × Verdict cfg (cmd_validate os "bad.yaml")))
cmd_validate-Verdict_example = cmd_validate-Verdict os "bad.yaml"

-- The process 41 runs, and no other.
abbrev processes : Processes
processes = record {
  atoi = λ text. some (pos (read_digits 0 text));
  is_running = λ pid. leb_ℤ (pos 41) pid && leb_ℤ pid (pos 41);
  removes = true;
  write = all_written;
  atoi-decimal = λ n. ap (λ v. some (pos v)) (read_digits-decimal n);
}

acquire_pid_file-acquire_example :
    let held = (acquire_pid_file processes (pos 41) (some (decimal (pos 40)))).0 in
    (held ≡ some (decimal (pos 41)))
    × (((processes.is_running (pos 41) ≡ true)
          × (acquire_pid_file processes (pos 42) held ≡ (held, err (already_running (pos 41)))))
        ⊎ ((processes.is_running (pos 41) ≡ false)
            × Takes processes 42 held (acquire_pid_file processes (pos 42) held)))
unfolding acquire_pid_file write_pid remove_file running_pid trim_space trim_left trim_right
    is_space decimal digits_of
acquire_pid_file-acquire_example =
    acquire_pid_file-acquire processes processes 41 42 (some (decimal (pos 40))) refl
