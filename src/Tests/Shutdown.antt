-- ===== src/Tests/Shutdown.antt =====
-- internal/daemon's shutdown: a run, and an instance of the theorem.
use devagent.Base.{◌≢◌, refl, true, false}
use devagent.Daemon.Shutdown.{
  Serving, Process, Steps, listening, exited, hal_closed, mdns_closed, shutting_down, started,
  cancel, accept, close_hal, close_mdns, call_shutdown, none_more, more,
}
use devagent.Daemon.Shutdown.Exit.{Abandons, call_shutdown-Abandons}

abbrev busy : Process
busy = record started { in_flight = 2 }

abbrev over : Process
over = record busy { cancelled = true }

abbrev stopping : Process
stopping = record over { closing = shutting_down; accepts = false }

alive : ◌≢◌ {A = Serving} listening exited
alive e = absurd cc

busy_reached : Steps started busy
busy_reached =
    more (record started { in_flight = 1 }) busy
      (more started (record started { in_flight = 1 }) none_more (accept alive refl))
      (accept alive refl)

-- Two requests are in flight when the signal comes.
stopping_reached : Steps started stopping
stopping_reached =
    more (record over { closing = mdns_closed }) stopping
      (more (record over { closing = hal_closed }) (record over { closing = mdns_closed })
        (more over (record over { closing = hal_closed })
          (more busy over busy_reached (cancel alive)) (close_hal alive refl refl refl))
        (close_mdns alive refl))
      (call_shutdown alive refl)

call_shutdown-Abandons_example : Abandons stopping
call_shutdown-Abandons_example = call_shutdown-Abandons stopping stopping_reached refl refl
