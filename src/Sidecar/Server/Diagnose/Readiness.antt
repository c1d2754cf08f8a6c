-- ===== src/Sidecar/Server/Diagnose/Readiness.antt =====
-- What a sidecar makes of a daemon's `/readyz`.
use devagent.Base.{
  ℕ, pos, ◌≡◌, ◌↔◌, refl, Bool, true, false, ◌&&◌, none, some, arith, length, ltb, eq_iff,
  Option-cases, inl, inr,
}
use devagent.Daemon.Hal.{Platform, Hal}
use devagent.Daemon.Registry.{list_devices}
use devagent.Daemon.Invoke.Http.{Server}
use devagent.Daemon.Invoke.Http.Queries.{Readiness, handle_readyz}
use devagent.Sidecar.Server.Diagnose.{Ready, answered, link_state}

module _ (platform : Platform) where
  -- The body of the daemon's answer.
  abbrev pub body_of : Readiness platform → Ready
  body_of answer = record {
    serial_connected = answer.serial_connected;
    device_count = pos answer.device_count;
  }

  ready_cases :
      (up : Bool) (n : ℕ)
      → (link_state (answered (record { serial_connected = up; device_count = pos n })) ≡ "ok")
        ↔ ((ltb 0 n && up) ≡ true)
  unfolding link_state
  ready_cases true n = (λ e. ground (arith, eq_iff "not_ready" "ok"), λ r. ground arith)
  ready_cases false n =
      (λ e. absurd (ground (arith, eq_iff "not_ready" "ok")), λ r. absurd (ground arith))

  readyz_with :
      (server : Server platform) (hal : Hal platform)
      → server.hal ≡ some hal
      → handle_readyz platform server ≡ record {
        ready = ltb 0 (length (list_devices server.registry)) && hal.is_connected;
        serial_connected = hal.is_connected;
        device_count = length (list_devices server.registry);
      }
  unfolding handle_readyz
  readyz_with server hal with = rw (handle_readyz, with) (rw with refl)

  readyz_without :
      (server : Server platform)
      → server.hal ≡ none
      → handle_readyz platform server ≡ record {
        ready = ltb 0 (length (list_devices server.registry)) && true;
        serial_connected = false;
        device_count = length (list_devices server.registry);
      }
  unfolding handle_readyz
  readyz_without server without = rw (handle_readyz, without) refl

  -- The sidecar diagnoses the link from a daemon to its devices as "ok" exactly when the daemon calls
  -- itself ready and drives a serial line. A daemon whose devices are all native has no line: it
  -- calls itself ready, and the sidecar finds that it is not.
  pub link_state-handle_readyz :
      (server : Server platform)
      → (link_state (answered (body_of (handle_readyz platform server))) ≡ "ok") ↔ (
          ((handle_readyz platform server).ready ≡ true)
          × ((hal : Hal platform) × (server.hal ≡ some hal)))
  link_state-handle_readyz server = elim (Option-cases server.hal) [
    | inl without ↦
        let n = length (list_devices server.registry) in
        rw (readyz_without server without, without)
          (λ e. absurd (ground (arith, (ready_cases false n).0 e)), λ r. absurd (cc (r.1.1)))
    | inr (hal, with) ↦
        let n = length (list_devices server.registry) in
        rw (readyz_with server hal with, with)
          (
            λ e. ((ready_cases hal.is_connected n).0 e, (hal, refl)),
            λ r. (ready_cases hal.is_connected n).1 r.0,
          )
  ]
