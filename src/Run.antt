-- ===== src/Run.antt =====
-- The result of code that may do what C++ leaves undefined, or fail with an exception that nobody
-- catches: writes outside an object, a null pointer, a negative array length, an empty queue.
use ftserver.Base.{◌≡◌, refl, Option, none, some}

pub data Fault : Type 0 where
  out_of_bounds null_pointer bad_length empty_queue uncaught uninitialised : Fault

pub data Run {ℓ} (A : Type ℓ) : Type ℓ where
  ok : A → Run A
  fault : Fault → Run A

infixl 5 ◌>>=◌
abbrev pub ◌>>=◌ {ℓ κ} : {A : Type ℓ} {B : Type κ} → Run A → (A → Run B) → Run B
ok a >>= f = f a
fault e >>= f = fault e

-- A value that must be there.
abbrev pub or_fault {ℓ} : {A : Type ℓ} → Option A → Fault → Run A
or_fault none e = fault e
or_fault (some a) e = ok a

-- Whatever the code returns satisfies P; a fault satisfies everything.
abbrev pub Ensures {ℓ κ} : {A : Type ℓ} → (A → Type κ) → Run A → Type κ
Ensures P (ok a) = P a
Ensures P (fault e) = Unit

module _ {ℓ κ μ ν} {A : Type ℓ} {B : Type κ} (P : A → Type μ) (Q : B → Type ν) where
  pub Ensures->>= :
      (m : Run A) (f : A → Run B)
      → Ensures P m
      → ((a : A) → P a → Ensures Q (f a))
      → Ensures Q (m >>= f)
  Ensures->>= (ok a) f h k = k a h
  Ensures->>= (fault e) f h k = tt

pub any-Ensures {ℓ} : {A : Type ℓ} (m : Run A) → Ensures (λ _. Unit {0}) m
any-Ensures (ok a) = tt
any-Ensures (fault e) = tt

-- What a result is known to come from.
pub comes_from {ℓ} : {A : Type ℓ} (m : Run A) → Ensures (λ a. m ≡ ok a) m
comes_from (ok a) = refl
comes_from (fault e) = tt

pub or_fault-Ensures {ℓ} :
    {A : Type ℓ} (o : Option A) (e : Fault) → Ensures (λ a. o ≡ some a) (or_fault o e)
or_fault-Ensures none e = tt
or_fault-Ensures (some a) e = refl

pub Ensures-mono {ℓ κ μ} :
    {A : Type ℓ} (P : A → Type κ) (Q : A → Type μ) (m : Run A)
    → ((a : A) → P a → Q a)
    → Ensures P m
    → Ensures Q m
Ensures-mono P Q (ok a) h p = h a p
Ensures-mono P Q (fault e) h p = tt

pub bind_assoc {ℓ κ μ} :
    {A : Type ℓ} {B : Type κ} {C : Type μ} (m : Run A) (f : A → Run B) (g : B → Run C)
    → (m >>= λ a. f a >>= g) ≡ (m >>= f >>= g)
bind_assoc (ok a) f g = refl
bind_assoc (fault e) f g = refl
