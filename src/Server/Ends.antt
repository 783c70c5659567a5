-- ===== src/Server/Ends.antt =====
-- Serve makes few steps, and is back when it can make no more.
use hegel.Base.{
  ℕ, suc, ◌+◌, ◌≤◌, ◌<◌, ◌≡◌, ◌⊎◌, inl, inr, refl, Bool, true, false, Option, arith, if◌then◌else◌,
}
use hegel.Errors.{GoError}
use hegel.Server.{
  Listener, listening, finished, Phase, waiting, shutting_down, returned, State, initial, Step,
  cancel, listen_ends, take_done, take_error, shutdown_ok, shutdown_fails, Run, here, next,
}

abbrev listener_left : Listener → ℕ
listener_left listening = 1
listener_left finished = 0

abbrev phase_left : Phase → ℕ
phase_left waiting = 2
phase_left shutting_down = 1
phase_left (returned r) = 0

-- How many steps are left at most: the context ends once, ListenAndServe returns once, and Serve
-- goes through its phases.
abbrev left : State → ℕ
left s = (if s.cancelled then 0 else 1) + listener_left s.listener + phase_left s.phase

Step-lt : (s t : State) → Step s t → left t < left s
Step-lt s t (cancel l c k p) = omega arith
Step-lt s t (listen_ends d k p e) = omega arith
Step-lt s t (take_done l c k) = omega arith
Step-lt s t (take_error d l e k) = omega arith
Step-lt s t (shutdown_ok d l c k) = omega arith
Step-lt s t (shutdown_fails d l c k e) = omega arith

-- The number of steps of a run.
abbrev pub length : {s t : State} → Run s t → ℕ
length (here s) = 0
length (next s t u r st) = suc (length r)

length-le : (s t : State) (r : Run s t) → length r + left t ≤ left s
length-le s t (here q) = omega arith
length-le p q (next s t u r st) = omega (arith, Step-lt t u st, length-le s t r)

-- Serve has returned with an error or none.
abbrev pub HasReturned : Phase → Type 0
HasReturned p = (e : Option GoError) × (p ≡ returned e)

Step-progress : (s : State) → HasReturned s.phase ⊎ ((t : State) × Step s t)
Step-progress s = go s.cancelled s.listener s.err_chan s.closed s.phase
  where
    go :
        (d : Bool) (l : Listener) (c : Option GoError) (k : Bool) (p : Phase)
        → HasReturned p
          ⊎ ((t : State) × Step
                (record { cancelled = d; listener = l; err_chan = c; closed = k; phase = p })
                t)
    go d l c k (returned e) = inl (e, refl)
    go d l c k shutting_down = inr (_, shutdown_ok d l c k)
    go true l c k waiting = inr (_, take_done l c k)
    go false l c k waiting = inr (_, cancel l c k waiting)

-- Serve ends: from the start there are at most four steps in any order, its goroutine's and the end
-- of its context counted, and in every state on the way Serve has returned or a step is possible.
pub Run-ends :
    (t : State) (r : Run initial t)
    → (length r ≤ 4) × (HasReturned t.phase ⊎ ((u : State) × Step t u))
unfolding initial
Run-ends t r = (omega (arith, length-le initial t r), Step-progress t)
