-- ===== src/Kubernetes/Setup/Running.antt =====
-- The backend while the process runs: the goroutine that NewBackend starts, which keeps the cache
-- until its context ends, and the answers of IsHealthy.
use hegel.Base.{
  ◌≡◌, refl, sym, ap₂, Bool, true, false, not, ◌||◌, Option, none, some, List, [], ◌∷◌, All, subst,
}
use hegel.Errors.{GoError, ok}
use hegel.Kubernetes.{ListerClient, Backend, is_healthy}
use hegel.Kubernetes.Setup.{Kube, Config, new_backend}
use hegel.Kubernetes.Setup.Closed.{new_backend-closed}

-- The goroutine: in Start, or done. A panic of it ends the process.
pub data Goroutine : Type 0 where
  syncing stopped : Goroutine
  panicked : GoError → Goroutine

-- `if err := clstr.Start(ctx); err != nil { panic(err) }`
unfoldable pub after_start : Option GoError → Goroutine
after_start none = stopped
after_start (some e) = panicked e

-- `answers` holds what IsHealthy has returned, the latest first.
pub record Lifetime : Type 0 where
  pub backend : Backend
  pub goroutine : Goroutine
  pub answers : List Bool

-- What NewBackend leaves.
abbrev pub launched : Backend → Lifetime
launched b = record { backend = b; goroutine = syncing; answers = [] }

abbrev pub IsUp : Goroutine → Type 0
IsUp (panicked e) = ⊥
IsUp _ = Unit

pub data Event : Lifetime → Lifetime → Type 0 where
  -- the context ends, which closes the channel
  cancel :
      (s : Lifetime)
      → IsUp s.goroutine
      → Event s (record s { backend = record s.backend { closed = true } })
  -- the cache changes, and with it what the client lists
  sync :
      (s : Lifetime) (client : ListerClient)
      → s.goroutine ≡ syncing
      → Event s (record s { backend = record s.backend { client = client } })
  -- Start returns
  start_ends :
      (s : Lifetime) (e : Option GoError)
      → s.goroutine ≡ syncing
      → Event s (record s { goroutine = after_start e })
  -- someone calls IsHealthy
  ask :
      (s : Lifetime)
      → IsUp s.goroutine
      → Event s (record s { answers = is_healthy s.backend ∷ s.answers })

pub data History : Lifetime → Lifetime → Type 0 where
  here : (s : Lifetime) → History s s
  next : (s t u : Lifetime) → History s t → Event t u → History s u

-- Of two answers, the later one is true only where the earlier one is.
abbrev pub NeverRecovers : List Bool → Type 0
NeverRecovers [] = Unit
NeverRecovers (a ∷ rest) = All (λ earlier. (not a || earlier) ≡ true) rest × NeverRecovers rest

-- Whether the context has ended in a history.
abbrev pub ended : {s t : Lifetime} → History s t → Bool
ended (here s) = false
ended (next s t u r (cancel p up)) = true
ended (next s t u r (sync p client on)) = ended r
ended (next s t u r (start_ends p e on)) = ended r
ended (next s t u r (ask p up)) = ended r

-- For each call of IsHealthy in a history, the latest first, whether the context had not ended when
-- it was made.
abbrev pub open_at_calls : {s t : Lifetime} → History s t → List Bool
open_at_calls (here s) = []
open_at_calls (next s t u r (cancel p up)) = open_at_calls r
open_at_calls (next s t u r (sync p client on)) = open_at_calls r
open_at_calls (next s t u r (start_ends p e on)) = open_at_calls r
open_at_calls (next s t u r (ask p up)) = not (ended r) ∷ open_at_calls r

History-closed :
    (s t : Lifetime) (r : History s t) → s.backend.closed ≡ false → t.backend.closed ≡ ended r
History-closed s t (here q) h = h
History-closed s t (next p q u r (cancel v up)) h = refl
History-closed s t (next p q u r (sync v client on)) h = History-closed s q r h
History-closed s t (next p q u r (start_ends v e on)) h = History-closed s q r h
History-closed s t (next p q u r (ask v up)) h = History-closed s q r h

History-answers :
    (s t : Lifetime) (r : History s t)
    → s.backend.closed ≡ false
    → s.answers ≡ []
    → t.answers ≡ open_at_calls r
unfolding is_healthy
History-answers s t (here q) h e = e
History-answers s t (next p q u r (cancel v up)) h e = History-answers s q r h e
History-answers s t (next p q u r (sync v client on)) h e = History-answers s q r h e
History-answers s t (next p q u r (start_ends v x on)) h e = History-answers s q r h e
History-answers s t (next p q u r (ask v up)) h e =
    ap₂ (λ (c : Bool) (l : List Bool). not c ∷ l) (History-closed s q r h)
      (History-answers s q r h e)

-- As long as the context has not ended, every call was made before its end.
open-before :
    {s t : Lifetime} (r : History s t) → All (λ a. (ended r || a) ≡ true) (open_at_calls r)
open-before (here s) = tt
open-before (next s t u r (cancel p up)) = all (open_at_calls r)
  where
    all : (answers : List Bool) → All (λ a. (true || a) ≡ true) answers
    all [] = tt
    all (a ∷ answers) = (refl, all answers)
open-before (next s t u r (sync p client on)) = open-before r
open-before (next s t u r (start_ends p e on)) = open-before r
open-before (next s t u r (ask p up)) = go (ended r) (open-before r)
  where
    go :
        (c : Bool)
        → All (λ a. (c || a) ≡ true) (open_at_calls r)
        → ((c || not c) ≡ true) × All (λ a. (c || a) ≡ true) (open_at_calls r)
    go true h = (refl, h)
    go false h = (refl, h)

open-NeverRecovers : {s t : Lifetime} (r : History s t) → NeverRecovers (open_at_calls r)
open-NeverRecovers (here s) = tt
open-NeverRecovers (next s t u r (cancel p up)) = open-NeverRecovers r
open-NeverRecovers (next s t u r (sync p client on)) = open-NeverRecovers r
open-NeverRecovers (next s t u r (start_ends p e on)) = open-NeverRecovers r
open-NeverRecovers (next s t u r (ask p up)) = (go (ended r) (open-before r), open-NeverRecovers r)
  where
    go :
        (c : Bool)
        → All (λ a. (c || a) ≡ true) (open_at_calls r)
        → All (λ a. (not (not c) || a) ≡ true) (open_at_calls r)
    go true h = h
    go false h = h

-- Of a backend that NewBackend makes while its context is open: however the end of the context, the
-- changes of the cache, the end of Start and the calls of IsHealthy interleave, each call answers true
-- exactly where the context has not ended before it; so a backend that was unhealthy once stays so.
pub History-NeverRecovers :
    (k : Kube) (cfg : Config k.RestConfig) (b : Backend) (t : Lifetime)
    → new_backend k false cfg ≡ ok b
    → (r : History (launched b) t) → (t.answers ≡ open_at_calls r) × NeverRecovers t.answers
History-NeverRecovers k cfg b t made r =
    let answers = History-answers (launched b) t r (new_backend-closed k false cfg b made) refl in
    (answers, subst NeverRecovers (sym answers) (open-NeverRecovers r))
