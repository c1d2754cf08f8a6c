-- ===== src/Tests/Firmware.antt =====
-- The firmware of internal/lite: runs, and instances of the theorems.
use devagent.Base.{
  utf8, utf8_char, ◌⊎◌, ℕ, pos, ◌≡◌, refl, true, false, inl, inr, some, List, [], ◌∷◌, ok, lookup,
  In, All, replace_all, decimal,
}
use devagent.Tests.Daemon.{set_led}
use devagent.Tests.Invoke.{platform, hal}
use devagent.Protocol.Urpc.{UrpcRequest, crc8, encode_request, read_request}
use devagent.Daemon.Payload.{
  Params, whole, format_urpc_payload, fill_template, replace_each, replace_placeholder, replacement,
}
use devagent.Daemon.Invoke.{sent_urpc, invoke_core, invoke_hal, invoke_urpc, next_seq, to_byte}
use devagent.Daemon.Serial.{Port, attempts, failed, send_urpc, read_urpc_ack, read_loop}
use devagent.Firmware.{
  Read, initial, run_command, send_ack, ack_bytes, answer_request, process_frame, on_read,
  urpc_rx_task,
}
use devagent.Firmware.Answers.{Answered, process_frame-Answered}
use devagent.Firmware.Retries.{Once, IsRefused, send_urpc-Once}
use devagent.Firmware.Relays.{Ignored, pin_first}
use devagent.Firmware.Relays.Invoked.{IsDocumented, invoke_core-Ignored}

-- Relay 2 on, as bytes.
abbrev relay_on : UrpcRequest
relay_on = record { seq = 1; cmd = 0xA1; payload = 2 ∷ 1 ∷ [] }

abbrev relay_frame : List ℕ
unfolding crc8
relay_frame = 0xAA ∷ 1 ∷ 0xA1 ∷ 2 ∷ 2 ∷ 1 ∷ crc8 (1 ∷ 0xA1 ∷ 2 ∷ 2 ∷ 1 ∷ []) ∷ []

relay_encoded : encode_request relay_on ≡ ok relay_frame
unfolding encode_request relay_frame crc8
relay_encoded = refl

-- Noise, the frame, nothing, and the frame again: the relay is set once, and acknowledged twice.
abbrev reads : List Read
reads =
    record { bytes = 1 ∷ 2 ∷ []; queue_depth = 0 }
    ∷ record { bytes = relay_frame; queue_depth = 0 }
    ∷ record { bytes = []; queue_depth = 0 }
    ∷ record { bytes = relay_frame; queue_depth = 3 }
    ∷ []

set_once : (urpc_rx_task reads initial).1 ≡ record { pin = 2; level = 1 } ∷ []
unfolding urpc_rx_task on_read process_frame answer_request send_ack ack_bytes run_command
    read_request relay_frame crc8
set_once = refl

process_frame-Answered_example :
    Answered relay_on
      (urpc_rx_task reads initial).0
      (process_frame 0 relay_frame (urpc_rx_task reads initial).0)
process_frame-Answered_example = process_frame-Answered reads 0 relay_on relay_frame relay_encoded

-- The first answer is lost, and so is the second: `SendURPC` writes two frames and gives up.
abbrev port : Port
port = failed ∷ failed ∷ []

arrivals :
    All
      (λ read.
        In read.bytes (send_urpc (λ left. false) (λ left. true) 2 relay_on port).1 ⊎ IsRefused read)
      reads
unfolding send_urpc attempts read_urpc_ack read_loop encode_request read_request relay_frame crc8
arrivals =
    let refusal : IsRefused (record { bytes = []; queue_depth = 0 }) = record {
      refusal = record { seq = 0; status = 0xFF; queue_depth = 0 };
      refused = refl;
    } in
    (
      inr (record { refusal = refusal.refusal; refused = refl }),
      (inl (inl refl), (inr refusal, (inl (inr (inl refl)), tt))),
    )

send_urpc-Once_example : Once relay_on initial reads (urpc_rx_task reads initial)
send_urpc-Once_example =
    send_urpc-Once (λ left. false) (λ left. true) 2 relay_on port initial reads arrivals

-- Relay 2 on, as the daemon sends it.
abbrev params : Params
params = ("pin", whole (pos 2)) ∷ ("state", whole (pos 1)) ∷ []

abbrev text_request : UrpcRequest
text_request = record { seq = 1; cmd = 0xA1; payload = b'2' ∷ b' ' ∷ b'1' ∷ [] }

abbrev text_frame : List ℕ
unfolding crc8
text_frame =
    0xAA ∷ 1 ∷ 0xA1 ∷ 3 ∷ b'2' ∷ b' ' ∷ b'1' ∷ crc8 (1 ∷ 0xA1 ∷ 3 ∷ b'2' ∷ b' ' ∷ b'1' ∷ []) ∷ []

text_sent :
    In
      (sent_urpc text_request)
      (invoke_core platform (some hal) 0 "shelf_01" set_led params).effects
unfolding invoke_core next_seq invoke_hal invoke_urpc to_byte lookup format_urpc_payload
    fill_template utf8 utf8_char replace_each replace_placeholder replacement replace_all decimal
text_sent = inl refl

text_encoded : encode_request text_request ≡ ok text_frame
unfolding encode_request text_frame crc8
text_encoded = refl

documented : IsDocumented set_led
unfolding lookup
documented = record { not_native = refl; entry = refl }

invoke_core-Ignored_example : Ignored text_request 0 text_frame initial
invoke_core-Ignored_example =
    invoke_core-Ignored platform (some hal) 0 "shelf_01" set_led documented (pos 2) (whole (pos 1))
      params pin_first text_request text_sent 0 text_frame initial text_encoded
