-- ===== src/Firmware.antt =====
-- internal/lite/main/urpc_agent.c: the firmware's side of the serial line, from what one read of the
-- UART brings to the levels that are set and the bytes that are written back.
pub mod Commands
pub mod Answers
pub mod Retries
pub mod Relays
use devagent.Base.{
  ℕ, zero, suc, ◌%◌, Bool, true, false, ◌||◌, ◌&&◌, List, [], ◌∷◌, ◌++◌, ltb, leb, ◌==◌,
  if◌then◌else◌, length, get_or, Result, ok, err,
}
use devagent.Protocol.Urpc.{UrpcRequest, crc8, read_request}

-- `last_seq`, `last_ack` and `has_last_ack`, which are static variables.
pub record Agent : Type 0 where
  pub last_seq : ℕ
  pub last_ack : List ℕ
  pub has_last_ack : Bool

abbrev pub initial : Agent
initial = record { last_seq = 0; last_ack = []; has_last_ack = false }

-- A call of `gpio_set_level(pin, level)`.
pub record SetLevel : Type 0 where
  pub pin : ℕ
  pub level : ℕ

-- What a frame does: the agent afterwards, the calls of `gpio_set_level`, and the bytes for the UART.
abbrev pub Reaction : Type 0
Reaction = Agent × List SetLevel × List ℕ

-- The array `ack`.
unfoldable pub ack_bytes : ℕ → ℕ → ℕ → List ℕ
ack_bytes seq status queue_depth =
    0xBB ∷ seq ∷ status ∷ queue_depth ∷ crc8 (seq ∷ status ∷ queue_depth ∷ []) ∷ []

unfoldable pub send_ack : ℕ → ℕ → ℕ → Bool → Agent → Agent × List ℕ
send_ack seq status queue_depth cache agent =
    let ack = ack_bytes seq status queue_depth in
    if cache
    then (record { last_seq = seq; last_ack = ack; has_last_ack = true }, ack)
    else (agent, ack)

-- The `switch` on the command: the status that its branch sends, and the level that it sets.
unfoldable pub run_command : UrpcRequest → ℕ × List SetLevel
run_command req =
    let pin = get_or req.payload 0 0 in
    let level = get_or req.payload 1 0 in
    if req.cmd == 0xA1
    then (if leb 2 (length req.payload)
        then (if ltb pin 1 || ltb 3 pin
            then (0x02, [])
            else if ltb 1 level
            then (0x02, [])
            else (0x00, record { pin = pin; level = level } ∷ []))
        else (0x00, []))
    else if req.cmd == 0xB1
    then (0x00, [])
    else (0x02, [])

-- From the test for a repeated frame on. `queue_depth` is what `uxQueueMessagesWaiting` returns, of
-- which `send_ack` takes a byte.
unfoldable pub answer_request : ℕ → UrpcRequest → Agent → Reaction
unfolding send_ack run_command
answer_request queue_depth req agent =
    let (status, levels) = run_command req in
    let (agent', ack) = send_ack req.seq status (queue_depth % 256) true agent in
    if agent.has_last_ack && (req.seq == agent.last_seq)
    then (agent, [], agent.last_ack)
    else (agent', levels, ack)

unfoldable pub process_frame : ℕ → List ℕ → Agent → Reaction
unfolding send_ack answer_request
process_frame queue_depth frame agent = elim (read_request frame) [
  | err ack ↦
      let (agent', bytes) = send_ack ack.seq ack.status ack.queue_depth false agent in
      (agent', [], bytes)
  | ok req ↦ answer_request queue_depth req agent
]

-- One read of the UART and the depth of the queue at that time.
pub record Read : Type 0 where
  pub bytes : List ℕ
  pub queue_depth : ℕ

-- A read that brings nothing is passed over.
unfoldable pub on_read : Read → Agent → Reaction
unfolding process_frame
on_read read agent =
    if ltb 0 (length read.bytes)
    then process_frame read.queue_depth read.bytes agent
    else (agent, [], [])

-- The loop of the task over its reads.
unfoldable pub urpc_rx_task : List Read → Agent → Reaction
unfolding on_read
urpc_rx_task [] agent = (agent, [], [])
urpc_rx_task (read ∷ reads) agent =
    let (agent1, levels1, bytes1) = on_read read agent in
    let (agent2, levels2, bytes2) = urpc_rx_task reads agent1 in
    (agent2, levels1 ++ levels2, bytes1 ++ bytes2)
