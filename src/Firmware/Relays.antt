-- ===== src/Firmware/Relays.antt =====
-- The command that README.md and configs/example_device.yaml give for the relays of this firmware,
-- `set_relay: { cmd: 161, fmt: "{pin} {state}" }`, from the template of the daemon to the pins.
pub mod Invoked
use devagent.Base.{
  utf8, utf8_char, IsNumeric, decimal-IsNumeric, length-decimal, ℕ, zero, suc, ◌+◌, ◌-◌, ◌%◌, ◌/◌,
  ℤ, pos, negsuc, ◌≤◌, ◌<◌, ◌≡◌, ◌⊎◌, inl, inr, refl, ap, sym, ◌∙◌, List, [], ◌∷◌, ◌++◌, append-nil,
  append_assoc, arith, Bool-cases, ltb, leb, length-append, true, false, All, length, ok, String,
  codes, decimal, digits_of, replace_all, replace_from, has_prefix, ◌==◌, ==_iff,
}
use devagent.Protocol.Urpc.{UrpcRequest, encode_request, encode_ack, decode_ack, status_invalid_cmd}
use devagent.Protocol.Urpc.Ack.{decode_ack-encode_ack}
use devagent.Daemon.Payload.{
  ParamValue, whole, Params, replacement, replace_placeholder, replace_each, fill_template,
  format_urpc_payload,
}
use devagent.Firmware.{Agent, ack_bytes, run_command, process_frame}
use devagent.Firmware.Answers.{
  IsRepeat, IsRepeat-cases, answer_request-repeat, answer_request-new, process_frame-read,
  read_request-encoded,
}

-- A number has no placeholder.
replace_from-numeric :
    (old new number text : List ℕ)
    → All IsNumeric number
    → replace_from (b'{' ∷ old) new 0 (number ++ text)
      ≡ number ++ replace_from (b'{' ∷ old) new 0 text
unfolding replace_from has_prefix
replace_from-numeric old new [] text numeric = refl
replace_from-numeric old new (c ∷ number) text (numeric, others) =
    let kept : (c == b'{') ≡ false = ground arith in
    rw (kept) (ap (◌∷◌ c) (replace_from-numeric old new number text others))

abbrev pub template : String
template = "{pin} {state}"

-- The two parameters, in either of the orders in which the map may yield them.
pub data InOrder (pin : ℤ) (state : ParamValue) : Params → Type 0 where
  pin_first : InOrder pin state (("pin", whole pin) ∷ ("state", state) ∷ [])
  state_first : InOrder pin state (("state", state) ∷ ("pin", whole pin) ∷ [])

template_starts :
    (pin : ℤ) (state : ParamValue) (params : Params)
    → InOrder pin state params
    → (text : List ℕ) × (fill_template template params ≡ decimal pin ++ 32 ∷ text)
unfolding fill_template replace_each replace_placeholder replacement replace_all replace_from
    has_prefix
template_starts pin state params pin_first = (
  replacement state ++ [],
  replace_from-numeric (codes "state}") (replacement state) (decimal pin) (codes " {state}")
      (decimal-IsNumeric pin),
)
template_starts pin state params state_first = (_, refl)

utf8-numeric :
    (number text : List ℕ)
    → All IsNumeric number
    → utf8 (number ++ 32 ∷ text) ≡ number ++ 32 ∷ utf8 text
unfolding utf8 utf8_char
utf8-numeric [] text numeric = refl
utf8-numeric (c ∷ number) text (numeric, others) =
    let ascii : ltb c 0x80 ≡ true = ground arith in
    rw (utf8_char, ascii) (ap (◌∷◌ c) (utf8-numeric number text others))

-- The payload is the pin in decimal, a space and more.
payload_starts :
    (pin : ℤ) (state : ParamValue) (params : Params)
    → InOrder pin state params
    → (bytes : List ℕ) × (format_urpc_payload template params ≡ decimal pin ++ 32 ∷ bytes)
unfolding format_urpc_payload
payload_starts pin state params order =
    let (text, filled) = template_starts pin state params order in
    (utf8 text, ap utf8 filled ∙ utf8-numeric (decimal pin) text (decimal-IsNumeric pin))

-- A digit or a minus sign is the number of no pin.
run_command-numeric :
    (req : UrpcRequest) (number text : List ℕ)
    → All IsNumeric number
    → 1 ≤ length number
    → req.cmd ≡ 0xA1
    → req.payload ≡ number ++ 32 ∷ text
    → run_command req ≡ (status_invalid_cmd, [])
unfolding run_command
run_command-numeric req [] text numeric long cmd payload = absurd (omega arith)
run_command-numeric req (c ∷ number) text numeric long cmd payload =
    let both : leb 2 (length (c ∷ (number ++ 32 ∷ text))) ≡ true =
      let size = length-append number (32 ∷ text) in ground arith in
    let far : ltb 3 c ≡ true = ground arith in
    let near : ltb c 1 ≡ false = ground arith in
    rw (run_command, cmd, payload, both, near, far) refl

-- What the frame of a request does whose payload the template made.
pub record Ignored (req : UrpcRequest) (queue_depth : ℕ) (frame : List ℕ) (agent : Agent)
    : Type 0 where
  pub no_level : (process_frame queue_depth frame agent).1 ≡ []
  pub answer :
      IsRepeat req agent
      ⊎ (decode_ack (process_frame queue_depth frame agent).2
          ≡ ok (record {
            seq = req.seq;
            status = status_invalid_cmd;
            queue_depth = queue_depth % 256;
          }))

pub process_frame-Ignored :
    (pin : ℤ) (state : ParamValue) (params : Params)
    → InOrder pin state params
    → (req : UrpcRequest) (queue_depth : ℕ) (frame : List ℕ) (agent : Agent) → req.cmd ≡ 0xA1
    → req.payload ≡ format_urpc_payload template params
    → encode_request req ≡ ok frame
    → Ignored req queue_depth frame agent
process_frame-Ignored pin state params order req queue_depth frame agent cmd made encoded =
    let (text, payload) = payload_starts pin state params order in
    let run : run_command req ≡ (status_invalid_cmd, []) =
      run_command-numeric req (decimal pin) text (decimal-IsNumeric pin) (length-decimal pin) cmd
        (made ∙ payload) in
    let read =
      process_frame-read queue_depth frame req agent (read_request-encoded req frame encoded) in
    elim (IsRepeat-cases req agent) [
      | inl repeat ↦ record {
        no_level = rw (read, answer_request-repeat queue_depth req agent repeat) refl;
        answer = inl repeat;
      }
      | inr new ↦ record {
        no_level = rw (read, answer_request-new queue_depth req agent new, run) refl;
        answer = inr (
            rw (read, answer_request-new queue_depth req agent new, run)
              (unfold ack_bytes encode_ack in decode_ack-encode_ack _));
      }
    ]
