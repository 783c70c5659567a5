-- ===== src/Server/Tests.antt =====
-- A server whose port is taken, and one whose shutdown takes too long.
use hegel.Base.{◌⊎◌, ◌≡◌, ◌≤◌, refl, false, none, some, bytes}
use hegel.Errors.{GoError, text, sentinel, wrapped, errors_is, deadline_exceeded}
use hegel.Server.{
  finished, waiting, returned, State, initial, to_send, shutdown_error, listen_ends, take_error,
  Step, Run, here, next,
}
use hegel.Server.Returns.{Outcome, Run-Outcome}
use hegel.Server.Ends.{HasReturned, length, Run-ends}

abbrev in_use : GoError
in_use = text (bytes "listen tcp :50061: bind: address already in use")

abbrev failed : State
failed = record {
  cancelled = false;
  listener = finished;
  err_chan = some in_use;
  closed = false;
  phase = waiting;
}

abbrev gave_up : State
gave_up = record {
  cancelled = false;
  listener = finished;
  err_chan = none;
  closed = false;
  phase = returned (some in_use);
}

port_taken : Run initial gave_up
unfolding initial to_send errors_is
port_taken =
    next _ failed _
      (next initial initial failed (here initial) (listen_ends false false waiting (some in_use)))
      (take_error false finished in_use false)

Run-Outcome_example : Outcome gave_up (some in_use)
Run-Outcome_example = Run-Outcome gave_up (some in_use) port_taken refl

too_slow :
    shutdown_error (wrapped (bytes "shutdown: ") (sentinel deadline_exceeded))
    ≡ text (bytes "timed out waiting for graceful shutdown")
unfolding shutdown_error errors_is
too_slow = refl

Run-ends_example :
    (length port_taken ≤ 4) × (HasReturned gave_up.phase ⊎ ((u : State) × Step gave_up u))
Run-ends_example = Run-ends gave_up port_taken
