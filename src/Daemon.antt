-- ===== src/Daemon.antt =====
-- internal/daemon: the gateway process that owns the devices.
pub mod Payload
pub mod Native
pub mod RateLimiter
pub mod Registry
pub mod Hal
pub mod Invoke
pub mod Serial
pub mod DcpBridge
pub mod SerialPort
pub mod Startup
pub mod Shutdown
