-- ===== src/Outcome.antt =====
-- Go functions that change a state and may panic: the state at the panic is kept, since OnDispatch
-- recovers and the daemon goes on with it.
pub mod Keeps
use sandwich_daemon.Base.{List, [], ◌∷◌}

pub data Outcome (S A : Type 0) : Type 0 where
  done : A → S → Outcome S A
  panicked : S → Outcome S A

abbrev pub Action : Type 0 → Type 0 → Type 0
Action S A = S → Outcome S A

abbrev pub pure : {S A : Type 0} → A → Action S A
pure a s = done a s

abbrev pub panic : {S A : Type 0} → Action S A
panic s = panicked s

abbrev pub after : {S A B : Type 0} → Outcome S A → (A → Action S B) → Outcome S B
after (done a s) f = f a s
after (panicked s) f = panicked s

infixl 5 ◌>>=◌ ◌>>◌
abbrev pub ◌>>=◌ : {S A B : Type 0} → Action S A → (A → Action S B) → Action S B
◌>>=◌ m f s = after (m s) f

abbrev pub ◌>>◌ : {S B : Type 0} → Action S (Unit {0}) → Action S B → Action S B
m >> k = m >>= λ _. k

-- A read, and a change that cannot panic.
abbrev pub reads : {S A : Type 0} → (S → A) → Action S A
reads f s = done (f s) s

abbrev pub changes : {S : Type 0} → (S → S) → Action S (Unit {0})
changes f s = done tt (f s)

-- `for _, x := range xs { body }`
unfoldable pub each : {S A : Type 0} → List A → (A → Action S (Unit {0})) → Action S (Unit {0})
each [] body s = done tt s
each (x ∷ xs) body s = after (body x s) (λ _. each xs body)

-- The state that is left, after a return or a panic.
abbrev pub state_after : {S A : Type 0} → Outcome S A → S
state_after (done _ s) = s
state_after (panicked s) = s
