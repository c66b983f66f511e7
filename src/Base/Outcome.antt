-- ===== src/Base/Outcome.antt =====
-- What running a method comes to: it returns, it panics (an index out of range, a nil pointer), or
-- it blocks: on a mutex that nothing will release, or on a goroutine that does not end.
use mathlib.Core.Path.{◌≡◌, refl}
use mathlib.Core.Option.{Option, none, some}

pub data Exec {ℓ} (A : Type ℓ) : Type ℓ where
  done : A → Exec A
  panic : Exec A
  blocks : Exec A

infixl 5 ◌>>=◌ ◌>>◌
abbrev pub ◌>>=◌ {ℓ κ} : {A : Type ℓ} {B : Type κ} → Exec A → (A → Exec B) → Exec B
done a >>= f = f a
panic >>= f = panic
blocks >>= f = blocks

abbrev pub ◌>>◌ {ℓ} : {B : Type ℓ} → Exec (Unit {0}) → Exec B → Exec B
m >> k = m >>= λ _. k

-- `xs[i]`, of what is there.
abbrev pub or_panic {ℓ} : {A : Type ℓ} → Option A → Exec A
or_panic none = panic
or_panic (some a) = done a

-- The value satisfies `P`, when there is one.
abbrev pub Ensures {ℓ κ} : {A : Type ℓ} → (A → Type κ) → Exec A → Type κ
Ensures P (done a) = P a
Ensures P panic = Unit
Ensures P blocks = Unit

-- The method returns, and the value satisfies `P`.
abbrev pub Returns {ℓ} : {A : Type ℓ} → (A → Type 0) → Exec A → Type 0
Returns P (done a) = P a
Returns P panic = ⊥
Returns P blocks = ⊥

pub Ensures->>= {ℓ κ μ} :
    {A : Type ℓ} {B : Type κ} (P : B → Type μ) (m : Exec A) (f : A → Exec B)
    → ((a : A) → m ≡ done a → Ensures P (f a))
    → Ensures P (m >>= f)
Ensures->>= P (done a) f h = h a refl
Ensures->>= P panic f h = tt
Ensures->>= P blocks f h = tt

-- A run that returns, followed by one that does for every value there may be.
pub Returns->>= {ℓ κ} :
    {A : Type ℓ} {B : Type κ} (P : A → Type 0) (Q : B → Type 0) (m : Exec A) (f : A → Exec B)
    → Returns P m
    → ((a : A) → P a → Returns Q (f a))
    → Returns Q (m >>= f)
Returns->>= P Q (done a) f h k = k a h
Returns->>= P Q panic f h k = elim h [ ]
Returns->>= P Q blocks f h k = elim h [ ]

pub Returns-mono {ℓ} :
    {A : Type ℓ} (P Q : A → Type 0) (m : Exec A) → ((a : A) → P a → Q a) → Returns P m → Returns Q m
Returns-mono P Q (done a) f h = f a h
Returns-mono P Q panic f h = h
Returns-mono P Q blocks f h = h

-- What a run ensures holds of what it returns.
pub of_done {ℓ κ} :
    {A : Type ℓ} (P : A → Type κ) {m : Exec A} {a : A} → m ≡ done a → Ensures P m → P a
of_done P e h = rw e at h
