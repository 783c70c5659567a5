-- ===== src/Server.antt =====
-- internal/http/serve.go: the life of the HTTP server, as steps of Serve and of the goroutine that
-- listens. The server itself, the context and the timer are outside: how a call of ListenAndServe or
-- Shutdown ends, and when the context is cancelled, is free.
pub mod Returns
pub mod Ends
mod Tests
use hegel.Base.{Bool, true, false, Option, none, some, bytes, Text, if◌then◌else◌}
use hegel.Errors.{GoError, text, errors_is, err_server_closed, deadline_exceeded}

-- The goroutine: still in ListenAndServe, or done with it.
pub data Listener : Type 0 where
  listening finished : Listener

-- Serve: in the select, in Shutdown, or back with its error, if any. `closed` says whether it has
-- called Close.
pub data Phase : Type 0 where
  waiting shutting_down : Phase
  returned : Option GoError → Phase

pub record State : Type 0 where
  pub cancelled : Bool
  pub listener : Listener
  pub err_chan : Option GoError
  pub closed : Bool
  pub phase : Phase

unfoldable pub initial : State
initial = record {
  cancelled = false;
  listener = listening;
  err_chan = none;
  closed = false;
  phase = waiting;
}

-- What the goroutine sends for the error that ListenAndServe returned; nil is `none`.
unfoldable pub to_send : Option GoError → Option GoError
to_send none = none
to_send (some e) = if errors_is e err_server_closed then none else some e

-- What Serve returns for an error of Shutdown.
unfoldable pub shutdown_error : GoError → GoError
shutdown_error e =
    if errors_is e deadline_exceeded
    then text (bytes "timed out waiting for graceful shutdown")
    else e

pub data Step : State → State → Type 0 where
  -- the context ends, at any time
  cancel :
      (l : Listener) (c : Option GoError) (k : Bool) (p : Phase)
      → Step
          (record { cancelled = false; listener = l; err_chan = c; closed = k; phase = p })
          (record { cancelled = true; listener = l; err_chan = c; closed = k; phase = p })
  -- ListenAndServe returns; the channel has room for the one error
  listen_ends :
      (d : Bool) (k : Bool) (p : Phase) (e : Option GoError)
      → Step
          (record { cancelled = d; listener = listening; err_chan = none; closed = k; phase = p })
          (record {
            cancelled = d;
            listener = finished;
            err_chan = to_send e;
            closed = k;
            phase = p;
          })
  -- the two cases of the select
  take_done :
      (l : Listener) (c : Option GoError) (k : Bool)
      → Step
          (record { cancelled = true; listener = l; err_chan = c; closed = k; phase = waiting })
          (record {
            cancelled = true;
            listener = l;
            err_chan = c;
            closed = k;
            phase = shutting_down;
          })
  take_error :
      (d : Bool) (l : Listener) (e : GoError) (k : Bool)
      → Step
          (record { cancelled = d; listener = l; err_chan = some e; closed = k; phase = waiting })
          (record {
            cancelled = d;
            listener = l;
            err_chan = none;
            closed = k;
            phase = returned (some e);
          })
  -- Shutdown returns
  shutdown_ok :
      (d : Bool) (l : Listener) (c : Option GoError) (k : Bool)
      → Step
          (record { cancelled = d; listener = l; err_chan = c; closed = k; phase = shutting_down })
          (record { cancelled = d; listener = l; err_chan = c; closed = k; phase = returned none })
  shutdown_fails :
      (d : Bool) (l : Listener) (c : Option GoError) (k : Bool) (e : GoError)
      → Step
          (record { cancelled = d; listener = l; err_chan = c; closed = k; phase = shutting_down })
          (record {
            cancelled = d;
            listener = l;
            err_chan = c;
            closed = true;
            phase = returned (some (shutdown_error e));
          })

-- Any number of steps.
pub data Run : State → State → Type 0 where
  here : (s : State) → Run s s
  next : (s t u : State) → Run s t → Step t u → Run s u
