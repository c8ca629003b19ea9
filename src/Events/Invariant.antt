-- ===== src/Events/Invariant.antt =====
-- internal/events_dispatch.go: what a handler's statements do to the invariant of the shared state.
use sandwich_daemon.Base.{Option, none, some}
use sandwich_daemon.CsMap.{CsMap}
use sandwich_daemon.Outcome.{Outcome, done, panicked, Action, state_after, ◌>>=◌}
use sandwich_daemon.Outcome.Keeps.{Keeps, >>=-Keeps}
use sandwich_daemon.State.{SandwichState}
use sandwich_daemon.State.WellFormed.{IsWellFormed}
use sandwich_daemon.Events.{Handled, Daemon, in_state, on_state, edits, decoding}

module _ ⦃lib : CsMap⦄ where
  -- A handler, or a statement of it, after which the shared state is well-formed if it was before,
  -- whether it returns or panics.
  abbrev pub Safe : {A : Type 0} → Action Daemon A → Type 0
  Safe m = Keeps {S = Daemon} (λ d. IsWellFormed d.state) m

  pub in_state-IsWellFormed :
      {A : Type 0} (d : Daemon) (o : Outcome SandwichState A)
      → IsWellFormed (state_after o)
      → IsWellFormed (state_after (in_state d o)).state
  in_state-IsWellFormed d (done a ss) p = p
  in_state-IsWellFormed d (panicked ss) p = p

  pub on_state-Safe :
      {A : Type 0} (m : Action SandwichState A) → Keeps IsWellFormed m → Safe (on_state m)
  on_state-Safe m k d p = in_state-IsWellFormed d (m d.state) (k d.state p)

  pub edits-Safe :
      (f : SandwichState → SandwichState)
      → ((ss : SandwichState) → IsWellFormed ss → IsWellFormed (f ss))
      → Safe (edits f)
  edits-Safe f k d p = k d.state p

  pub decoding-Safe :
      {P : Type 0} (o : Option P) (f : P → Action Daemon Handled)
      → ((p : P) → Safe (f p))
      → Safe (decoding o f)
  decoding-Safe none f k d p = p
  decoding-Safe (some x) f k d p = k x d p

  pub then-Safe :
      {A B : Type 0} (m : Action Daemon A) (f : A → Action Daemon B)
      → Safe m
      → ((a : A) → Safe (f a))
      → Safe (m >>= f)
  then-Safe m f h k = >>=-Keeps {S = Daemon} (λ d. IsWellFormed d.state) m f h k
