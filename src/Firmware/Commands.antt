-- ===== src/Firmware/Commands.antt =====
-- What a command does to the pins.
use devagent.Base.{
  ℕ, ◌≤◌, ◌<◌, ◌≡◌, ◌≢◌, ◌⊎◌, inl, inr, refl, List, [], ◌∷◌, arith, Bool-cases, ltb, leb, ◌==◌,
  ==_iff, ◌||◌, length, get_or,
}
use devagent.Protocol.Urpc.{UrpcRequest, status_ok, status_invalid_cmd}
use devagent.Firmware.{SetLevel, run_command}

-- The request sets `level` at one of the pins 1 to 3.
pub record Sets (req : UrpcRequest) (call : SetLevel) : Type 0 where
  pub command : req.cmd ≡ 0xA1
  pub at_pin : get_or req.payload 0 0 ≡ call.pin
  pub to_level : get_or req.payload 1 0 ≡ call.level
  pub both_given : 2 ≤ length req.payload
  pub pin_in_range : (1 ≤ call.pin) × (call.pin ≤ 3)
  pub level_in_range : call.level ≤ 1

abbrev pub IsInvalid : UrpcRequest → Type 0
IsInvalid req =
    ((req.cmd ≢ 0xA1) × (req.cmd ≢ 0xB1))
    ⊎ ((req.cmd ≡ 0xA1)
        × (2 ≤ length req.payload)
        × ((get_or req.payload 0 0 < 1)
            ⊎ ((3 < get_or req.payload 0 0) ⊎ (1 < get_or req.payload 1 0))))

-- The temperature is read, or a pin and a level are not both given.
abbrev pub SetsNothing : UrpcRequest → Type 0
SetsNothing req = (req.cmd ≡ 0xB1) ⊎ ((req.cmd ≡ 0xA1) × (length req.payload < 2))

-- The status that a request ends with, and the pin that it sets.
pub data Executes (req : UrpcRequest) (status : ℕ) (levels : List SetLevel) : Type 0 where
  invalid : IsInvalid req → status ≡ status_invalid_cmd → levels ≡ [] → Executes req status levels
  nothing_set : SetsNothing req → status ≡ status_ok → levels ≡ [] → Executes req status levels
  sets :
      (call : SetLevel)
      → Sets req call
      → status ≡ status_ok
      → levels ≡ call ∷ []
      → Executes req status levels

pub run_command-Executes :
    (req : UrpcRequest) → Executes req (run_command req).0 (run_command req).1
unfolding run_command
run_command-Executes req =
    let pin = get_or req.payload 0 0 in
    let level = get_or req.payload 1 0 in
    elim (Bool-cases (req.cmd == 0xA1)) [
      | inr other ↦ elim (Bool-cases (req.cmd == 0xB1)) [
        | inl temp ↦
            rw (other, temp) (nothing_set (inl (ground (arith, ==_iff req.cmd 0xB1))) refl refl)
        | inr unknown ↦
            rw (other, unknown)
              (invalid (inl ((λ e. absurd (ground (arith, e))), (λ e. absurd (ground (arith, e)))))
                refl refl)
      ]
      | inl relay ↦
          let cmd : req.cmd ≡ 0xA1 = (==_iff _ 0xA1).0 relay in
          elim (Bool-cases (leb 2 (length req.payload))) [
            | inr short ↦ rw (relay, short) (nothing_set (inr (cmd, ground arith)) refl refl)
            | inl long ↦
                let both : 2 ≤ length req.payload = ground arith in
                elim (Bool-cases (ltb pin 1 || ltb 3 pin)) [
                  | inl outside ↦
                      rw (relay, long, outside) (invalid (inr (cmd, both, ground arith)) refl refl)
                  | inr inside ↦ elim (Bool-cases (ltb 1 level)) [
                    | inl wrong ↦
                        rw (relay, long, inside, wrong)
                          (invalid (inr (cmd, both, inr (inr (ground arith)))) refl refl)
                    | inr right ↦
                        rw (relay, long, inside, right)
                          (sets (record { pin = pin; level = level })
                            (record {
                              command = cmd;
                              at_pin = refl;
                              to_level = refl;
                              both_given = both;
                              pin_in_range = (ground arith, ground arith);
                              level_in_range = ground arith;
                            })
                            refl refl)
                  ]
                ]
          ]
    ]
