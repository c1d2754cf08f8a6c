-- ===== src/Command/Validation.antt =====
-- What `validate` accepts, and what it says of the rest.
use devagent.Base.{
  ℕ, ◌≡◌, ◌≢◌, ◌⊎◌, inl, inr, refl, ap, ◌∙◌, String, true, false, none, some, List, [], ◌∷◌, ◌++◌,
  length, str_eq, eq_iff, ◌==◌, arith, All, Result, ok, err, Bool-cases, Option-cases,
}
use devagent.Model.Capability.{Capability, DeviceConfig}
use devagent.Command.{
  CliError, read_config, parse_config, id_missing, no_capabilities, name_missing,
  implementation_missing, check_capabilities, validate, Os, load_device_config, cmd_validate,
}

-- A capability that has a name and an implementation.
abbrev pub IsUsable : Capability → Type 0
IsUsable capability =
    (capability.name ≢ "")
    × ((capability.implementation.native ≢ "") ⊎ (capability.implementation.proxy ≢ ""))

-- The capabilities before the first that is not usable, that one, and what is said of it.
pub record FirstWrong (capabilities : List Capability) (wrong : CliError) : Type 0 where
  pub before : List Capability
  pub capability : Capability
  pub after : List Capability
  pub split : before ++ capability ∷ after ≡ capabilities
  pub usable : All IsUsable before
  pub said :
      ((capability.name ≡ "") × (wrong ≡ name_missing))
      ⊎ ((capability.name ≢ "")
          × (capability.implementation.native ≡ "")
          × (capability.implementation.proxy ≡ "")
          × (wrong ≡ implementation_missing capability.name))

abbrev Nameless : Capability → Type 0
Nameless capability = capability.name ≡ ""

abbrev Unimplemented : Capability → Type 0
Unimplemented capability =
    (capability.name ≢ "")
    × (capability.implementation.native ≡ "")
    × (capability.implementation.proxy ≡ "")

capability_cases :
    (capability : Capability) → Nameless capability ⊎ Unimplemented capability ⊎ IsUsable capability
capability_cases capability =
    let native = capability.implementation.native in
    let proxy = capability.implementation.proxy in
    elim (Bool-cases (str_eq capability.name "")) [
      | inl unnamed ↦ inl ((eq_iff capability.name "").0 unnamed)
      | inr named ↦
          let name_lem : capability.name ≢ "" = ground (arith, eq_iff capability.name "") in
          elim (Bool-cases (str_eq native "")) [
            | inr shell ↦ inr (inr (name_lem, inl (ground (arith, eq_iff native ""))))
            | inl no_native ↦ elim (Bool-cases (str_eq proxy "")) [
              | inr mcu ↦ inr (inr (name_lem, inr (ground (arith, eq_iff proxy ""))))
              | inl no_proxy ↦
                  inr (inl (name_lem, (eq_iff native "").0 no_native, (eq_iff proxy "").0 no_proxy))
            ]
          ]
    ]

later-FirstWrong :
    (capability : Capability) (rest : List Capability) (wrong : CliError)
    → IsUsable capability
    → FirstWrong rest wrong
    → FirstWrong (capability ∷ rest) wrong
later-FirstWrong capability rest wrong usable found = record {
  before = capability ∷ found.before;
  capability = found.capability;
  after = found.after;
  split = ap (◌∷◌ capability) found.split;
  usable = (usable, found.usable);
  said = found.said;
}

here-FirstWrong :
    (capability : Capability) (rest : List Capability) (wrong : CliError)
    → ((capability.name ≡ "") × (wrong ≡ name_missing))
      ⊎ ((capability.name ≢ "")
          × (capability.implementation.native ≡ "")
          × (capability.implementation.proxy ≡ "")
          × (wrong ≡ implementation_missing capability.name))
    → FirstWrong (capability ∷ rest) wrong
here-FirstWrong capability rest wrong said = record {
  before = [];
  capability = capability;
  after = rest;
  split = refl;
  usable = tt;
  said = said;
}

check_capabilities_cases :
    (capabilities : List Capability)
    → ((check_capabilities capabilities ≡ none) × All IsUsable capabilities)
      ⊎ ((wrong : CliError) × (check_capabilities capabilities ≡ some wrong)
          × FirstWrong capabilities wrong)
unfolding check_capabilities
check_capabilities_cases [] = inl (refl, tt)
check_capabilities_cases (capability ∷ rest) =
    let native = capability.implementation.native in
    let proxy = capability.implementation.proxy in
    elim (capability_cases capability) [
      | inl unnamed ↦ inr (
        name_missing,
        rw (check_capabilities, unnamed) refl,
        here-FirstWrong capability rest name_missing (inl (unnamed, refl)),
      )
      | inr (inl (named, no_native, no_proxy)) ↦ inr (
        implementation_missing capability.name,
        ground (arith, eq_iff capability.name "", eq_iff native "", eq_iff proxy ""),
        here-FirstWrong capability rest (implementation_missing capability.name)
            (inr (named, no_native, no_proxy, refl)),
      )
      | inr (inr usable) ↦
          let (named, implemented) = usable in
          let passed : check_capabilities (capability ∷ rest) ≡ check_capabilities rest =
            elim implemented [
              | inl shell ↦ ground (arith, eq_iff capability.name "", eq_iff native "")
              | inr mcu ↦ ground (arith, eq_iff capability.name "", eq_iff proxy "")
            ] in
          elim (check_capabilities_cases rest) [
            | inl (fine, all) ↦ inl (passed ∙ fine, (usable, all))
            | inr (wrong, found, first) ↦
                inr (wrong, passed ∙ found, later-FirstWrong capability rest wrong usable first)
          ]
    ]

-- What a configuration that could be read is worth.
abbrev pub Verdict : DeviceConfig → Result CliError (String × ℕ) → Type 0
Verdict cfg verdict =
    ((cfg.device.id ≡ "") × (verdict ≡ err id_missing))
    ⊎ ((cfg.device.id ≢ "") × (cfg.capabilities ≡ []) × (verdict ≡ err no_capabilities))
    ⊎ ((cfg.device.id ≢ "")
        × ((wrong : CliError) × FirstWrong cfg.capabilities wrong × (verdict ≡ err wrong)))
    ⊎ ((cfg.device.id ≢ "")
        × (cfg.capabilities ≢ [])
        × All IsUsable cfg.capabilities
        × (verdict ≡ ok (cfg.device.id, length cfg.capabilities)))

empty_lem : (xs : List Capability) → (length xs == 0) ≡ true → xs ≡ []
empty_lem [] h = refl
empty_lem (x ∷ xs) h = absurd (ground arith)

nonempty_lem : (xs : List Capability) → (length xs == 0) ≡ false → xs ≢ []
nonempty_lem [] h = absurd (ground arith)
nonempty_lem (x ∷ xs) h = λ e. cc

validate-Verdict : (cfg : DeviceConfig) → Verdict cfg (validate cfg)
unfolding validate
validate-Verdict cfg = elim (Bool-cases (str_eq cfg.device.id "")) [
  | inl unnamed ↦ inl ((eq_iff cfg.device.id "").0 unnamed, rw (validate, unnamed) refl)
  | inr named ↦
      let id_lem : cfg.device.id ≢ "" = ground (arith, eq_iff cfg.device.id "") in
      elim (Bool-cases (length cfg.capabilities == 0)) [
        | inl empty ↦
            inr (inl (id_lem, empty_lem cfg.capabilities empty, rw (validate, named, empty) refl))
        | inr some_there ↦ elim (check_capabilities_cases cfg.capabilities) [
          | inl (fine, all) ↦ inr (
              inr (
                inr (
                  id_lem,
                  nonempty_lem cfg.capabilities some_there,
                  all,
                  rw (validate, named, some_there, fine) refl,
                )))
          | inr (wrong, found, first) ↦
              inr (inr (inl (id_lem, (wrong, first, rw (validate, named, some_there, found) refl))))
        ]
      ]
]

-- `validate` on a file ends in one of these ways. The file cannot be read, or is no configuration, and
-- that is the error. Or it holds a configuration `cfg`, and then: the device has no id; or there is no
-- capability; or some capability has no name or neither implementation, all before it are usable, and
-- the error is about that first one and names it; or none of this is so, and the answer is the
-- device's id and the number of its capabilities.
pub cmd_validate-Verdict :
    {Bytes : Type 0} (os : Os Bytes) (path : String)
    → ((os.read_file path ≡ none) × (cmd_validate os path ≡ err read_config))
      ⊎ ((bytes : Bytes) × (os.read_file path ≡ some bytes)
          × (os.unmarshal bytes ≡ none)
          × (cmd_validate os path ≡ err parse_config))
      ⊎ ((bytes : Bytes) × ((cfg : DeviceConfig) × (os.read_file path ≡ some bytes)
            × (os.unmarshal bytes ≡ some cfg)
            × Verdict cfg (cmd_validate os path)))
unfolding cmd_validate load_device_config
cmd_validate-Verdict os path = elim (Option-cases (os.read_file path)) [
  | inl unread ↦ inl (unread, rw (cmd_validate, load_device_config, unread) refl)
  | inr (bytes, read) ↦ elim (Option-cases (os.unmarshal bytes)) [
    | inl unparsed ↦
        inr
          (inl (bytes, read, unparsed, rw (cmd_validate, load_device_config, read, unparsed) refl))
    | inr (cfg, parsed) ↦
        let same : cmd_validate os path ≡ validate cfg =
          rw (cmd_validate, load_device_config, read, parsed) refl in
        inr (inr (bytes, (cfg, read, parsed, rw same (validate-Verdict cfg))))
  ]
]
