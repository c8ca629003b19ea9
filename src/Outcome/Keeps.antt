-- ===== src/Outcome/Keeps.antt =====
-- Predicates on the state that an action keeps, whether it returns or panics.
use sandwich_daemon.Base.{List, [], ◌∷◌}
use sandwich_daemon.Outcome.{Outcome, done, panicked, Action, after, ◌>>=◌, ◌>>◌, each, state_after}

module _ {S : Type 0} (P : S → Type 0) where
  abbrev pub Keeps : {A : Type 0} → Action S A → Type 0
  Keeps m = (s : S) → P s → P (state_after (m s))

  pub after-Keeps :
      {A B : Type 0} (o : Outcome S A) (f : A → Action S B)
      → P (state_after o)
      → ((a : A) → Keeps (f a))
      → P (state_after (after o f))
  after-Keeps (done a s) f h k = k a s h
  after-Keeps (panicked s) f h k = h

  pub >>=-Keeps :
      {A B : Type 0} (m : Action S A) (f : A → Action S B)
      → Keeps m
      → ((a : A) → Keeps (f a))
      → Keeps (m >>= f)
  >>=-Keeps m f h k s p = after-Keeps (m s) f (h s p) k

  pub >>-Keeps : (m k : Action S (Unit {0})) → Keeps m → Keeps k → Keeps (m >> k)
  >>-Keeps m k h i = >>=-Keeps m (λ _. k) h (λ _. i)

  pub each-Keeps :
      {A : Type 0} (xs : List A) (body : A → Action S (Unit {0}))
      → ((x : A) → Keeps (body x))
      → Keeps (each xs body)
  unfolding each
  each-Keeps [] body h s p = p
  each-Keeps (x ∷ xs) body h s p =
      after-Keeps (body x s) (λ _. each xs body) (h x s p) (λ _. each-Keeps xs body h)
