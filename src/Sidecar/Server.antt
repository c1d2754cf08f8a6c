-- ===== src/Sidecar/Server.antt =====
-- internal/sidecar/server.go: the handler of a device's tool, and the job's status. The key is what
-- `MakeKey` makes of the call; `instant` is the clock of the window, `nanos` the readings of `UnixNano`
-- in the two identifiers, which are formatted by the library, and `created` the job's own.
pub mod Dispatch
pub mod Tools
pub mod Diagnose
use devagent.Base.{
  ℕ, String, Bool, true, false, Option, none, some, List, [], ◌∷◌, str_eq, if◌then◌else◌, Assoc,
  lookup, Result, ok, err,
}
use devagent.Model.Capability.{DeviceConfig, sanitized}
use devagent.Model.RouteTable.{
  RouteTable, DeviceRow, all_devices, gateway_online, gateway_maintenance,
}
use devagent.Sidecar.Dedup.{DedupWindow, allow as allow_key}
use devagent.Sidecar.Progress.{Job, ProgressTracker, register_job, get_job, complete, fail}

module _ (A : Type 0) where
  pub record SidecarServer : Type 0 where
    pub route_table : RouteTable
    pub dedup : DedupWindow
    pub progress : ProgressTracker A
    pub configs : Assoc DeviceConfig

  -- The answer to a tool call.
  pub data ToolResult : Type 0 where
    under_maintenance : String → ToolResult
    duplicate_request : ToolResult
    dispatched : String → ToolResult

  unfoldable pub status_of : String → List DeviceRow → String
  status_of device_id [] = gateway_online
  status_of device_id (row ∷ rows) =
      if str_eq row.device_id device_id then row.status else status_of device_id rows

  unfoldable pub get_gateway_status : String → SidecarServer → String
  unfolding status_of
  get_gateway_status device_id s = status_of device_id (all_devices s.route_table)

  -- The handler up to its answer; the goroutine that forwards the call is `settle`.
  unfoldable pub handle_device_invoke :
      String → String → ℕ → String → String → ℕ → SidecarServer → SidecarServer × ToolResult
  handle_device_invoke device_id key instant job_id request_id created s =
      let (window, allowed) = allow_key s.dedup key instant in
      if str_eq (get_gateway_status device_id s) gateway_maintenance
      then (s, under_maintenance device_id)
      else if allowed
      then (
        record s {
          dedup = window;
          progress = register_job A job_id request_id device_id created s.progress;
        },
        dispatched job_id,
      )
      else (record s { dedup = window }, duplicate_request)

  -- What the goroutine does when `ForwardInvoke` has returned.
  unfoldable pub settle : String → Result String A → SidecarServer → SidecarServer
  settle job_id (ok reply) s = record s { progress = complete A job_id reply s.progress }
  settle job_id (err message) s = record s { progress = fail A job_id message s.progress }

  unfoldable pub handle_get_job_status : String → SidecarServer → Option (Job A)
  handle_get_job_status job_id s = get_job A job_id s.progress

  unfoldable pub handle_get_schema : String → SidecarServer → Option DeviceConfig
  handle_get_schema device_id s = elim (lookup device_id s.configs) [
    | none ↦ none
    | some cfg ↦ some (sanitized cfg)
  ]
