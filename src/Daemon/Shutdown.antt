-- ===== src/Daemon/Shutdown.antt =====
-- internal/daemon/server.go: how `Start` ends once its context is over, as the steps of its goroutines:
-- the one that serves, the one that shuts down, the last round of `startStateSnapshot`, and the handlers
-- of the requests in flight. Where the HTTP library is called, the steps are those of its
-- documentation: `Shutdown` stops the listener, makes `ListenAndServe` return at once, and itself
-- returns when no request is in flight or its own context is over. A request in flight may hold the
-- mutex of the serial port, which `Close` of the HAL waits for.
pub mod Exit
use devagent.Base.{ℕ, zero, suc, ◌≡◌, ◌≢◌, ◌⊎◌, Bool, true, false}

-- The goroutine that runs `Start`, and after it `main`.
pub data Serving : Type 0 where
  listening returned exited : Serving

-- The goroutine that waits for the context: after which of its calls it is.
pub data Closing : Type 0 where
  waiting hal_closed mdns_closed shutting_down closed : Closing

pub record Process : Type 0 where
  pub cancelled : Bool
  pub serving : Serving
  pub closing : Closing
  pub accepts : Bool
  pub in_flight : ℕ
  pub port_held : Bool  -- by a request in flight, from `SendURPC` or `SendDCP` on to their end
  pub snapshot_taken : Bool

abbrev pub started : Process
started = record {
  cancelled = false;
  serving = listening;
  closing = waiting;
  accepts = true;
  in_flight = 0;
  port_held = false;
  snapshot_taken = false;
}

-- No step is one of a process that has exited.
pub data Step (p : Process) : Process → Type 0 where
  cancel : p.serving ≢ exited → Step p (record p { cancelled = true })
  accept : p.serving ≢ exited → p.accepts ≡ true → Step p (record p { in_flight = suc p.in_flight })
  hold_port :
      p.serving ≢ exited
      → p.in_flight ≢ 0
      → p.port_held ≡ false
      → Step p (record p { port_held = true })
  release_port : p.serving ≢ exited → p.port_held ≡ true → Step p (record p { port_held = false })
  answer :
      (n : ℕ)
      → p.serving ≢ exited
      → p.in_flight ≡ suc n
      → (p.port_held ≡ false) ⊎ (n ≢ 0)
      → Step p (record p { in_flight = n })
  close_hal :
      p.serving ≢ exited
      → p.cancelled ≡ true
      → p.closing ≡ waiting
      → p.port_held ≡ false
      → Step p (record p { closing = hal_closed })
  close_mdns :
      p.serving ≢ exited → p.closing ≡ hal_closed → Step p (record p { closing = mdns_closed })
  call_shutdown :
      p.serving ≢ exited
      → p.closing ≡ mdns_closed
      → Step p (record p { closing = shutting_down; accepts = false })
  drained :
      p.serving ≢ exited
      → p.closing ≡ shutting_down
      → p.in_flight ≡ 0
      → Step p (record p { closing = closed })
  timed_out :
      p.serving ≢ exited → p.closing ≡ shutting_down → Step p (record p { closing = closed })
  take_snapshot :
      p.serving ≢ exited → p.cancelled ≡ true → Step p (record p { snapshot_taken = true })
  serve_returns :
      p.serving ≡ listening → p.accepts ≡ false → Step p (record p { serving = returned })
  main_returns : p.serving ≡ returned → Step p (record p { serving = exited })

pub data Steps (p : Process) : Process → Type 0 where
  none_more : Steps p p
  more : (q r : Process) → Steps p q → Step q r → Steps p r
