-- ===== src/Exec/Keeps.antt =====
-- Rules for a property of the storage that a call keeps, whether it returns, fails or panics.
use clamor.Base.{◌∙◌, ap, ◌≡◌, refl}
use clamor.Exec.Monad.{Outcome, ok, err, panic, Exec, ◌>>=◌}

module _ {S E A B : Type 0} (P : S → Type 0) where
  after-keeps :
      (o : Outcome E A) (t : S) (k : A → Exec S E B)
      → P t
      → ((a : A) (u : S) → P u → P (k a u).1)
      → P (((λ s. (o, t)) >>= k) t).1
  after-keeps (ok a) t k p q = q a t p
  after-keeps (err e) t k p q = p
  after-keeps panic t k p q = p

  pub bind-keeps :
      (m : Exec S E A) (k : A → Exec S E B) (s : S)
      → P (m s).1
      → ((a : A) (u : S) → P u → P (k a u).1)
      → P ((m >>= k) s).1
  bind-keeps m k s p q = after-keeps (m s).0 (m s).1 k p q

module _ {S E A B : Type 0} (P : S → Type 0) where
  after-holds :
      (o : Outcome E A) (t : S) (k : A → Exec S E B)
      → P t
      → ((a : A) → o ≡ ok a → P (k a t).1)
      → P (((λ s. (o, t)) >>= k) t).1
  after-holds (ok a) t k p q = q a refl
  after-holds (err e) t k p q = p
  after-holds panic t k p q = p

  -- `bind-keeps`, where the rest of the chain may use what the first call returned
  pub bind-holds :
      (m : Exec S E A) (k : A → Exec S E B) (s : S)
      → P (m s).1
      → ((a : A) → (m s).0 ≡ ok a → P (k a (m s).1).1)
      → P ((m >>= k) s).1
  bind-holds m k s p q = after-holds (m s).0 (m s).1 k p q

module _ {S E A B : Type 0} where
  after-ok :
      (o : Outcome E A) (t : S) (k : A → Exec S E B) (a : A)
      → o ≡ ok a
      → (((λ s. (o, t)) >>= k) t) ≡ k a t
  after-ok (ok b) t k a e = cc
  after-ok (err x) t k a e = cc
  after-ok panic t k a e = cc

  -- after a call that returns, a chain goes on from the storage that it leaves
  pub bind-ok :
      (m : Exec S E A) (k : A → Exec S E B) (s : S) (a : A)
      → (m s).0 ≡ ok a
      → (m >>= k) s ≡ k a (m s).1
  bind-ok m k s a e = after-ok (m s).0 (m s).1 k a e

  -- `bind-ok`, from the whole result of the first call
  pub bind-returns :
      (m : Exec S E A) (k : A → Exec S E B) (s t : S) (a : A)
      → m s ≡ (ok a, t)
      → (m >>= k) s ≡ k a t
  bind-returns m k s t a e = bind-ok m k s a (ap (λ r. r.0) e) ∙ ap (λ r. k a r.1) e
