-- ===== src/Daemon/Serial.antt =====
-- internal/daemon/urpc_bridge.go: `SendURPC` and `readURPCAck` over a serial port. The port is the list
-- of what its next reads come back with; a read of `k` bytes takes at most `k` of them and leaves the
-- rest. Where the list ends, the read has not come back yet.
pub mod Reading
pub mod Sending
use devagent.Base.{
  ℕ, zero, suc, ◌+◌, ◌-◌, ℤ, pos, Bool, true, false, Option, none, some, List, [], ◌∷◌, ◌++◌, leb,
  ltb, ◌==◌, leb_ℤ, pos_part, if◌then◌else◌, length, take, drop, replicate, Result, ok, err,
}
use devagent.Protocol.Dcp.{DecodeError}
use devagent.Protocol.Urpc.{UrpcRequest, UrpcAck, AckError, header_ack, encode_request, decode_ack}

-- `bytes []` is `0, nil`, which the library returns when the port's read timeout is over.
pub data ReadResult : Type 0 where
  bytes : List ℕ → ReadResult
  failed : ReadResult

abbrev pub Port : Type 0
Port = List ReadResult

pub data ReadError : Type 0 where
  read_serial header_not_found read_remainder : ReadError
  decode_error : AckError → ReadError
  decode_dcp_error : DecodeError → ReadError

-- How a read ends: with a value, with an error, with a run-time panic, or not yet.
pub data Outcome {ℓ} (A : Type ℓ) : Type ℓ where
  done : A → Outcome A
  error : ReadError → Outcome A
  panicked : Outcome A
  waiting : Outcome A

-- `for remaining > 0 { … }`, with what has been read so far.
unfoldable pub read_loop : ℕ → List ℕ → Port → Outcome (List ℕ) × Port
read_loop zero buf port = (done buf, port)
read_loop (suc r) buf [] = (waiting, [])
read_loop (suc r) buf (failed ∷ port) = (error read_serial, port)
read_loop (suc r) buf (bytes bs ∷ port) =
    let rest = read_loop (suc r - length bs) (buf ++ bs) port in
    if leb (length bs) (suc r)
    then rest
    else (done (buf ++ take (suc r) bs), bytes (drop (suc r) bs) ∷ port)

-- `buf[headerIdx:]`, and `headerIdx`.
unfoldable pub from_header : List ℕ → Option (ℕ × List ℕ)
from_header [] = none
from_header (b ∷ bs) =
    let rest = from_header bs in
    if b == header_ack
    then some (0, b ∷ bs)
    else elim rest [ none ↦ none | some (skipped, found) ↦ some (suc skipped, found) ]

-- One read of at most `k` bytes.
unfoldable pub read_once : ℕ → Port → Outcome (List ℕ) × Port
read_once k [] = (waiting, [])
read_once k (failed ∷ port) = (error read_remainder, port)
read_once k (bytes bs ∷ port) =
    if leb (length bs) k then (done bs, port) else (done (take k bs), bytes (drop k bs) ∷ port)

-- `buf[:5]`: a slice may go past the length as far as the capacity, where the array holds zeros. The
-- buffer was allocated with room for eight bytes, and `skipped` of them are before its start.
unfoldable pub first_five : ℕ → List ℕ → Outcome (List ℕ)
first_five skipped buf =
    if leb 5 (length buf)
    then done (take 5 buf)
    else if leb (5 + skipped) 8
    then done (buf ++ replicate (5 - length buf) 0)
    else panicked

unfoldable pub decode_outcome : Outcome (List ℕ) → Outcome UrpcAck
decode_outcome (done frame) = elim (decode_ack frame) [
  | ok ack ↦ done ack
  | err e ↦ error (decode_error e)
]
decode_outcome (error e) = error e
decode_outcome panicked = panicked
decode_outcome waiting = waiting

-- From the search for the header on.
unfoldable pub complete_ack : List ℕ → Port → Outcome UrpcAck × Port
unfolding from_header read_once first_five decode_outcome
complete_ack buf port = elim (from_header buf) [
  | none ↦ (error header_not_found, port)
  | some (skipped, found) ↦
      if ltb (length found) 5
      then (let (outcome, port') = read_once (5 - length found) port in
          (
            elim outcome [
              | done more ↦ decode_outcome (first_five skipped (found ++ more))
              | error e ↦ error e
              | panicked ↦ panicked
              | waiting ↦ waiting
            ],
            port',
          ))
      else (decode_outcome (first_five skipped found), port)
]

unfoldable pub read_urpc_ack : Port → Outcome UrpcAck × Port
unfolding read_loop complete_ack
read_urpc_ack port =
    let (outcome, port') = read_loop 5 [] port in
    elim outcome [
      | done buf ↦ complete_ack buf port'
      | error e ↦ (error e, port')
      | panicked ↦ (panicked, port')
      | waiting ↦ (waiting, port')
    ]

abbrev pub max_urpc_retries : ℕ
max_urpc_retries = 3

-- `SetRetry`
unfoldable pub set_retry : ℤ → ℕ
set_retry n = if leb_ℤ n (pos 0) then max_urpc_retries else pos_part n

pub data SendResult : Type 0 where
  acknowledged : UrpcAck → SendResult
  encode_failed : ℕ → SendResult
  context_cancelled write_failed device_timeout send_panicked send_waiting : SendResult

-- The loop over the attempts: the result, the frames that were written, and the port. `cancelled` and
-- `writes` tell of each attempt, by the number of attempts left, whether the context is over and
-- whether the write succeeds.
unfoldable pub attempts :
    (ℕ → Bool) → (ℕ → Bool) → List ℕ → ℕ → Port → SendResult × List (List ℕ) × Port
attempts cancelled writes frame zero port = (device_timeout, [], port)
attempts cancelled writes frame (suc left) port =
    let (outcome, port') = read_urpc_ack port in
    let (result, frames, port'') = attempts cancelled writes frame left port' in
    if cancelled left
    then (context_cancelled, [], port)
    else if writes left
    then elim outcome [
      | done ack ↦ (acknowledged ack, frame ∷ [], port')
      | error e ↦ (result, frame ∷ frames, port'')
      | panicked ↦ (send_panicked, frame ∷ [], port')
      | waiting ↦ (send_waiting, frame ∷ [], port')
    ]
    else (write_failed, [], port)

unfoldable pub send_urpc :
    (ℕ → Bool) → (ℕ → Bool) → ℕ → UrpcRequest → Port → SendResult × List (List ℕ) × Port
unfolding attempts
send_urpc cancelled writes retry req port = elim (encode_request req) [
  | err size ↦ (encode_failed size, [], port)
  | ok frame ↦ attempts cancelled writes frame retry port
]
