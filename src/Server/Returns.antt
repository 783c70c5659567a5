-- ===== src/Server/Returns.antt =====
-- What Serve returns, and when.
use hegel.Base.{◌≡◌, ◌⊎◌, inl, inr, refl, subst, Bool, true, false, Option, none, some, Bool-cases}
use hegel.Errors.{GoError, errors_is, err_server_closed}
use hegel.Server.{
  Phase, waiting, shutting_down, returned, State, initial, to_send, shutdown_error, Step, cancel,
  listen_ends, take_done, take_error, shutdown_ok, shutdown_fails, Run, here, next,
}

-- What is in the channel is a failure to listen.
abbrev IsFailure : Option GoError → Type 0
IsFailure none = Unit
IsFailure (some e) = errors_is e err_server_closed ≡ false

-- What holds of the phase: once the select has seen the context end, it is cancelled; nothing is
-- closed before Serve returns; and it returns no error only on a cancelled context with no call of
-- Close, a failure to listen with no call of Close, or an error of Shutdown after one.
abbrev PhaseHolds : Bool → Bool → Phase → Type 0
PhaseHolds cancelled closed waiting = closed ≡ false
PhaseHolds cancelled closed shutting_down = (cancelled ≡ true) × (closed ≡ false)
PhaseHolds cancelled closed (returned none) = (cancelled ≡ true) × (closed ≡ false)
PhaseHolds cancelled closed (returned (some e)) =
    ((closed ≡ false) × (errors_is e err_server_closed ≡ false))
    ⊎ ((cancelled ≡ true) × (closed ≡ true) × ((x : GoError) × (e ≡ shutdown_error x)))

abbrev Holds : State → Type 0
Holds s = IsFailure s.err_chan × PhaseHolds s.cancelled s.closed s.phase

PhaseHolds-cancelled : (k : Bool) (p : Phase) → PhaseHolds false k p → PhaseHolds true k p
PhaseHolds-cancelled k waiting h = h
PhaseHolds-cancelled k shutting_down h = (refl, h.1)
PhaseHolds-cancelled k (returned none) h = (refl, h.1)
PhaseHolds-cancelled k (returned (some e)) (inl h) = inl h
PhaseHolds-cancelled k (returned (some e)) (inr (c, h, x)) = inr (refl, h, x)

IsFailure-to_send : (e : Option GoError) → IsFailure (to_send e)
unfolding to_send
IsFailure-to_send none = tt
IsFailure-to_send (some e) = elim (Bool-cases (errors_is e err_server_closed)) [
  | inl t ↦ rw t tt
  | inr f ↦ rw f f
]

Step-Holds : (s t : State) → Step s t → Holds s → Holds t
Step-Holds s t (cancel l c k p) h = (h.0, PhaseHolds-cancelled k p h.1)
Step-Holds s t (listen_ends d k p e) h = (IsFailure-to_send e, h.1)
Step-Holds s t (take_done l c k) h = (h.0, (refl, h.1))
Step-Holds s t (take_error d l e k) h = (tt, inl (h.1, h.0))
Step-Holds s t (shutdown_ok d l c k) h = h
Step-Holds s t (shutdown_fails d l c k e) h = (h.0, inr (h.1.0, refl, (e, refl)))

Run-Holds : (s t : State) → Run s t → Holds s → Holds t
Run-Holds s t (here q) h = h
Run-Holds p q (next s t u r st) h = Step-Holds t u st (Run-Holds s t r h)

initial-Holds : Holds initial
unfolding initial
initial-Holds = (tt, refl)

-- What is known when Serve has returned: without an error, the context is cancelled and the shutdown
-- was graceful; with one, either listening failed with it, and nothing was closed, or the context is
-- cancelled, the shutdown failed, and the server was closed.
abbrev pub Outcome : State → Option GoError → Type 0
Outcome s none = (s.cancelled ≡ true) × (s.closed ≡ false)
Outcome s (some e) =
    ((s.closed ≡ false) × (errors_is e err_server_closed ≡ false))
    ⊎ ((s.cancelled ≡ true) × (s.closed ≡ true) × ((x : GoError) × (e ≡ shutdown_error x)))

returned_injective : (q r : Option GoError) → returned q ≡ returned r → q ≡ r
returned_injective q r e = cc

outcome :
    (s : State) (p : Phase) (r : Option GoError)
    → PhaseHolds s.cancelled s.closed p
    → p ≡ returned r
    → Outcome s r
outcome s waiting r h e = cc
outcome s shutting_down r h e = cc
outcome s (returned none) r h e = subst (Outcome s) (returned_injective none r e) h
outcome s (returned (some x)) r h e = subst (Outcome s) (returned_injective (some x) r e) h

-- Whatever the order of the events from the start, when Serve has returned without an error the context is
-- cancelled and the shutdown was graceful; and when it has returned an error, this is either a failure
-- to listen other than ErrServerClosed, with the server not closed, or that of a shutdown that failed
-- on a cancelled context, with the server closed.
pub Run-Outcome :
    (s : State) (r : Option GoError) → Run initial s → s.phase ≡ returned r → Outcome s r
Run-Outcome s r run e = outcome s s.phase r (Run-Holds initial s run initial-Holds).1 e

-- When Serve has returned, no step changes what it has returned.
pub Step-returned :
    (s t : State) (r : Option GoError) → Step s t → s.phase ≡ returned r → t.phase ≡ returned r
Step-returned s t r (cancel l c k p) e = e
Step-returned s t r (listen_ends d k p x) e = e
Step-returned s t r (take_done l c k) e = cc
Step-returned s t r (take_error d l x k) e = cc
Step-returned s t r (shutdown_ok d l c k) e = cc
Step-returned s t r (shutdown_fails d l c k x) e = cc
