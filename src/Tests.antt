-- ===== src/Tests.antt =====
-- Runs of the models at concrete inputs, and instances of the theorems.
mod Libraries
mod Mcptool
mod Tools
mod Command
mod Startup
mod Captured
mod Shutdown
mod Locking
mod RateLimiter
mod RouteTable
mod Protocol
mod Sidecar
mod Forward
mod Auth
mod Native
mod Daemon
mod Invoke
mod Serial
mod Firmware
mod Config
