-- ===== src/Common/Outcome.antt =====
-- What a call of the emulator ends in: a value, or a stop of the whole process.
use Prim.Native.Nat.{ℕ}
use mathlib.Core.Path.{◌≡◌, refl}
use mathlib.Core.Bool.{Bool, true, false}
use switch_v.Common.Tests.{if◌then◌else◌}

-- `exits n` is `exit(n)`; `aborts` a failed `assert`; `undefined` an access outside of the memory that
-- the object or the mapping has, or a division by zero, which the program does not test: C says
-- nothing of what follows (a signal, or other memory of the process), and the model follows it no
-- further; `hangs` a wait that nothing ends.
pub data Stop : Type 0 where
  exits : ℕ → Stop
  aborts undefined hangs : Stop

pub data Outcome {ℓ} (A : Type ℓ) : Type ℓ where
  ok : A → Outcome A
  stop : Stop → Outcome A

infixl 5 ◌>>=◌
abbrev pub ◌>>=◌ {ℓ κ} : {A : Type ℓ} {B : Type κ} → Outcome A → (A → Outcome B) → Outcome B
ok a >>= f = f a
stop e >>= f = stop e

-- A predicate of the value, if there is one.
abbrev pub Holds {ℓ κ} : {A : Type ℓ} → (A → Type κ) → Outcome A → Type κ
Holds P (ok a) = P a
Holds P (stop e) = Unit

pub Holds-intro {ℓ κ} :
    {A : Type ℓ} (P : A → Type κ) (r : Outcome A) → ((a : A) → r ≡ ok a → P a) → Holds P r
Holds-intro P (ok a) h = h a refl
Holds-intro P (stop e) h = tt

pub Holds_elim {ℓ κ} :
    {A : Type ℓ} (P : A → Type κ) (r : Outcome A) (a : A) → Holds P r → r ≡ ok a → P a
Holds_elim P r a h e = rw e at h

pub Holds-mono {ℓ κ μ} :
    {A : Type ℓ} (P : A → Type κ) (Q : A → Type μ) (r : Outcome A)
    → ((a : A) → P a → Q a)
    → Holds P r
    → Holds Q r
Holds-mono P Q (ok a) h p = h a p
Holds-mono P Q (stop e) h p = tt

pub Holds->>= {ℓ κ μ ν} :
    {A : Type ℓ} {B : Type κ} (P : A → Type μ) (Q : B → Type ν) (r : Outcome A) (f : A → Outcome B)
    → Holds P r
    → ((a : A) → P a → Holds Q (f a))
    → Holds Q (r >>= f)
Holds->>= P Q (ok a) f h k = k a h
Holds->>= P Q (stop e) f h k = tt

-- What follows a value that says nothing of the rest.
pub Holds-after {ℓ κ μ} :
    {A : Type ℓ} {B : Type κ} (Q : B → Type μ) (r : Outcome A) (f : A → Outcome B)
    → ((a : A) → Holds Q (f a))
    → Holds Q (r >>= f)
Holds-after Q (ok a) f k = k a
Holds-after Q (stop e) f k = tt

pub Holds-if {ℓ κ} :
    {A : Type ℓ} (P : A → Type κ) (b : Bool) (r s : Outcome A)
    → Holds P r
    → Holds P s
    → Holds P (if b then r else s)
Holds-if P true r s h k = h
Holds-if P false r s h k = k
