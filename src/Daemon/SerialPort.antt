-- ===== src/Daemon/SerialPort.antt =====
-- internal/daemon/serial_port.go: the port that both bridges hold, as a state machine. What the
-- operating system answers to an attempt to open the device is an argument.
pub mod Reconnection
use devagent.Base.{ℤ, pos, String, Bool, true, false, List, [], ◌∷◌, str_eq, if◌then◌else◌}

-- `has_port` tells whether `port` is not nil.
pub record SerialPort : Type 0 where
  pub has_port : Bool
  pub channel : String
  pub baudrate : ℤ
  pub connected : Bool

abbrev pub new_serial_port : SerialPort
new_serial_port = record { has_port = false; channel = ""; baudrate = pos 0; connected = false }

-- `goserial.Open` and then `SetReadTimeout`.
pub data OpenResult : Type 0 where
  opened open_failed timeout_failed : OpenResult

-- The second component tells whether there was no error.
unfoldable pub open_port : String → ℤ → OpenResult → SerialPort → SerialPort × Bool
open_port channel baudrate opened sp =
    (record { has_port = true; channel = channel; baudrate = baudrate; connected = true }, true)
open_port channel baudrate open_failed sp = (sp, false)
open_port channel baudrate timeout_failed sp = (sp, false)

unfoldable pub close : SerialPort → SerialPort
close sp = record sp { connected = false }

unfoldable pub is_connected : SerialPort → Bool
is_connected sp = sp.connected

unfoldable pub reopen : OpenResult → SerialPort → SerialPort × Bool
reopen opened sp = (record sp { has_port = true; connected = true }, true)
reopen open_failed sp = (record sp { connected = false }, false)
reopen timeout_failed sp = (record sp { connected = false }, false)

unfoldable pub reconnect : OpenResult → SerialPort → SerialPort × Bool
unfolding reopen
reconnect result sp =
    if str_eq sp.channel "" then (record sp { connected = false }, false) else reopen result sp

-- The ticks of `startSerialReconnect`, with the answers that the system would give: a port that is
-- connected is left alone.
unfoldable pub tick : OpenResult → SerialPort → SerialPort
unfolding reconnect is_connected
tick result sp = if is_connected sp then sp else (reconnect result sp).0

unfoldable pub ticks : List OpenResult → SerialPort → SerialPort
unfolding tick
ticks [] sp = sp
ticks (result ∷ results) sp = ticks results (tick result sp)
