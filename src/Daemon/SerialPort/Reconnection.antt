-- ===== src/Daemon/SerialPort/Reconnection.antt =====
-- What the reconnection in the background can do.
use devagent.Daemon.SerialPort.{SerialPort}
