-- ===== src/Daemon/Shutdown/Exit.antt =====
-- What has been done when the daemon exits, and what need not have been.
use devagent.Base.{◌≡◌, ◌≢◌, ◌⊎◌, inl, inr, refl, true, false, arith}
use devagent.Daemon.Shutdown.{
  Process, Step, Steps, listening, returned, exited, waiting, shutting_down, closed, started,
  cancel, accept, answer, hold_port, release_port, close_hal, close_mdns, call_shutdown, drained,
  timed_out, take_snapshot, serve_returns, main_returns, none_more, more,
}

-- The server accepts until `Shutdown` is called, and serves as long as it accepts.
pub record IsOrderly (p : Process) : Type 0 where
  pub shut : (p.accepts ≡ true) ⊎ ((p.closing ≡ shutting_down) ⊎ (p.closing ≡ closed))
  pub serves : (p.serving ≡ listening) ⊎ (p.accepts ≡ false)
  pub stopped : (p.accepts ≡ false) ⊎ ((p.closing ≢ shutting_down) × (p.closing ≢ closed))
  pub asked : (p.closing ≡ waiting) ⊎ (p.cancelled ≡ true)

Step-IsOrderly : {p q : Process} → IsOrderly p → Step p q → IsOrderly q
Step-IsOrderly {p} orderly (cancel alive) = record {
  shut = orderly.shut;
  serves = orderly.serves;
  stopped = orderly.stopped;
  asked = inr refl;
}
Step-IsOrderly {p} orderly (accept alive accepts) = record {
  shut = orderly.shut;
  serves = orderly.serves;
  stopped = orderly.stopped;
  asked = orderly.asked;
}
Step-IsOrderly {p} orderly (hold_port alive running free) = record {
  shut = orderly.shut;
  serves = orderly.serves;
  stopped = orderly.stopped;
  asked = orderly.asked;
}
Step-IsOrderly {p} orderly (release_port alive held) = record {
  shut = orderly.shut;
  serves = orderly.serves;
  stopped = orderly.stopped;
  asked = orderly.asked;
}
Step-IsOrderly {p} orderly (answer n alive running others) = record {
  shut = orderly.shut;
  serves = orderly.serves;
  stopped = orderly.stopped;
  asked = orderly.asked;
}
Step-IsOrderly {p} orderly (close_hal alive over at free) = record {
  shut = ground (arith, orderly.shut, at);
  serves = orderly.serves;
  stopped = elim orderly.stopped [
    | inl refuses ↦ inl refuses
    | inr early ↦ inr ((λ e. absurd cc), (λ e. absurd cc))
  ];
  asked = inr over;
}
Step-IsOrderly {p} orderly (close_mdns alive at) = record {
  shut = ground (arith, orderly.shut, at);
  serves = orderly.serves;
  stopped = elim orderly.stopped [
    | inl refuses ↦ inl refuses
    | inr early ↦ inr ((λ e. absurd cc), (λ e. absurd cc))
  ];
  asked = ground (arith, orderly.asked, at);
}
Step-IsOrderly {p} orderly (call_shutdown alive at) = record {
  shut = inr (inl refl);
  serves = inr refl;
  stopped = inl refl;
  asked = ground (arith, orderly.asked, at);
}
Step-IsOrderly {p} orderly (drained alive at none_left) = record {
  shut = inr (inr refl);
  serves = orderly.serves;
  stopped = inl (ground (arith, orderly.stopped, at));
  asked = ground (arith, orderly.asked, at);
}
Step-IsOrderly {p} orderly (timed_out alive at) = record {
  shut = inr (inr refl);
  serves = orderly.serves;
  stopped = inl (ground (arith, orderly.stopped, at));
  asked = ground (arith, orderly.asked, at);
}
Step-IsOrderly {p} orderly (take_snapshot alive over) = record {
  shut = orderly.shut;
  serves = orderly.serves;
  stopped = orderly.stopped;
  asked = orderly.asked;
}
Step-IsOrderly {p} orderly (serve_returns at refused) = record {
  shut = orderly.shut;
  serves = inr refused;
  stopped = orderly.stopped;
  asked = orderly.asked;
}
Step-IsOrderly {p} orderly (main_returns at) = record {
  shut = orderly.shut;
  serves = ground (arith, orderly.serves, at);
  stopped = orderly.stopped;
  asked = orderly.asked;
}

pub Steps-IsOrderly : {p q : Process} → IsOrderly p → Steps p q → IsOrderly q
Steps-IsOrderly orderly none_more = orderly
Steps-IsOrderly orderly (more q r steps step) = Step-IsOrderly (Steps-IsOrderly orderly steps) step

-- What holds of a process whose `main` has returned.
pub record IsClosed (p : Process) : Type 0 where
  pub was_cancelled : p.cancelled ≡ true
  pub refuses : p.accepts ≡ false
  pub after_hal_and_mdns : (p.closing ≡ shutting_down) ⊎ (p.closing ≡ closed)

exited-IsClosed : (p : Process) → IsOrderly p → p.serving ≡ exited → IsClosed p
exited-IsClosed p orderly gone =
    let refuses : p.accepts ≡ false = ground (arith, orderly.serves, gone) in
    let after : (p.closing ≡ shutting_down) ⊎ (p.closing ≡ closed) =
      ground (arith, orderly.shut, refuses) in
    record {
      was_cancelled = ground (arith, orderly.asked, after);
      refuses = refuses;
      after_hal_and_mdns = after;
    }

started-IsOrderly : IsOrderly started
started-IsOrderly = record {
  shut = inl refl;
  serves = inl refl;
  stopped = inr ((λ e. absurd cc), (λ e. absurd cc));
  asked = inl refl;
}

-- Whenever the daemon has exited, its context was over, the serial port and the mDNS server had been
-- closed, and its server accepted nothing more.
pub Steps-IsClosed : (p : Process) → Steps started p → p.serving ≡ exited → IsClosed p
Steps-IsClosed p steps gone = exited-IsClosed p (Steps-IsOrderly started-IsOrderly steps) gone

-- A way to exit with what was under way left as it was.
pub record Abandons (p : Process) : Type 0 where
  pub gone : Process
  pub steps : Steps p gone
  pub exit : gone.serving ≡ exited
  pub is_closed : IsClosed gone
  pub same_requests : gone.in_flight ≡ p.in_flight
  pub same_snapshot : gone.snapshot_taken ≡ p.snapshot_taken

-- As soon as `Shutdown` has been called, in whatever order the goroutines ran until then, the daemon can
-- exit without waiting for anything: the requests that are in flight get no answer, however many they
-- are, and the last snapshot of the registry is not taken, if it was not yet. The serial port and the
-- mDNS server are closed at that point.
pub call_shutdown-Abandons :
    (p : Process) → Steps started p → p.closing ≡ shutting_down → p.serving ≡ listening → Abandons p
call_shutdown-Abandons p steps shutting serving =
    let orderly = Steps-IsOrderly started-IsOrderly steps in
    let refuses : p.accepts ≡ false = ground (arith, orderly.stopped, shutting) in
    record {
      gone = record p { serving = exited };
      steps =
          more (record p { serving = returned }) (record p { serving = exited })
            (more p (record p { serving = returned }) none_more (serve_returns serving refuses))
            (main_returns refl);
      exit = refl;
      is_closed = record {
        was_cancelled = ground (arith, orderly.asked, shutting);
        refuses = refuses;
        after_hal_and_mdns = inl shutting;
      };
      same_requests = refl;
      same_snapshot = refl;
    }
