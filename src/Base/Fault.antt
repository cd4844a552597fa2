-- ===== src/Base/Fault.antt =====
-- C code that may run into undefined behaviour: `none` is a read or write outside an object, a
-- null pointer that is followed, or a string with no terminator.
use mathlib.Core.Path.{◌≡◌, refl}
use mathlib.Core.Bool.{Bool, true, false}
use mathlib.Core.Option.{Option, none, some}
use tnsparser.Base.Tests.{if◌then◌else◌}

infixl 5 ◌>>=◌ ◌>>◌
abbrev pub ◌>>=◌ {ℓ κ} : {A : Type ℓ} {B : Type κ} → Option A → (A → Option B) → Option B
none >>= f = none
some a >>= f = f a

abbrev pub ◌>>◌ {ℓ κ} : {A : Type ℓ} {B : Type κ} → Option A → Option B → Option B
m >> k = m >>= λ _. k

pub >>=-some {ℓ κ} :
    {A : Type ℓ} {B : Type κ} (m : Option A) (f : A → B) (b : B)
    → (m >>= λ a. some (f a)) ≡ some b
    → (a : A) × (m ≡ some a) × (f a ≡ b)
>>=-some none f b e = absurd (cc e)
>>=-some (some a) f b e = (a, refl, cc)

-- The property holds of the result, if there is one.
abbrev pub Ensures {ℓ κ} : {A : Type ℓ} → (A → Type κ) → Option A → Type κ
Ensures P none = Unit
Ensures P (some a) = P a

pub Ensures->>= {ℓ κ μ} :
    {A : Type ℓ} {B : Type κ} (P : B → Type μ) (m : Option A) (f : A → Option B)
    → ((a : A) → Ensures P (f a))
    → Ensures P (m >>= f)
Ensures->>= P none f h = tt
Ensures->>= P (some a) f h = h a

pub Ensures-if {ℓ κ} :
    {A : Type ℓ} (P : A → Type κ) (b : Bool) (x y : Option A)
    → Ensures P x
    → Ensures P y
    → Ensures P (if b then x else y)
Ensures-if P true x y hx hy = hx
Ensures-if P false x y hx hy = hy

pub Ensures->> {ℓ κ μ} :
    {A : Type ℓ} {B : Type κ} (P : B → Type μ) (m : Option A) (k : Option B)
    → Ensures P k
    → Ensures P (m >> k)
Ensures->> P none k h = tt
Ensures->> P (some a) k h = h

pub Ensures-mono {ℓ κ μ} :
    {A : Type ℓ} (P : A → Type κ) (Q : A → Type μ) (m : Option A)
    → ((a : A) → P a → Q a)
    → Ensures P m
    → Ensures Q m
Ensures-mono P Q none h e = tt
Ensures-mono P Q (some a) h e = h a e

-- The same with the equation that the step gives.
pub Ensures->>=_eq {ℓ κ μ} :
    {A : Type ℓ} {B : Type κ} (P : B → Type μ) (m : Option A) (f : A → Option B)
    → ((a : A) → m ≡ some a → Ensures P (f a))
    → Ensures P (m >>= f)
Ensures->>=_eq P none f h = tt
Ensures->>=_eq P (some a) f h = h a refl

pub Ensures-if_eq {ℓ κ} :
    {A : Type ℓ} (P : A → Type κ) (b : Bool) (x y : Option A)
    → (b ≡ true → Ensures P x)
    → (b ≡ false → Ensures P y)
    → Ensures P (if b then x else y)
Ensures-if_eq P true x y hx hy = hx refl
Ensures-if_eq P false x y hx hy = hy refl

-- Two steps, with what the first one ensures.
pub Ensures-seq {ℓ κ μ ν} :
    {A : Type ℓ} {B : Type κ} (P : A → Type μ) (Q : B → Type ν) (m : Option A) (f : A → Option B)
    → Ensures P m
    → ((a : A) → m ≡ some a → P a → Ensures Q (f a))
    → Ensures Q (m >>= f)
Ensures-seq P Q none f h k = tt
Ensures-seq P Q (some a) f h k = k a refl h

-- The step has a result.
abbrev pub Returns {ℓ} : {A : Type ℓ} → Option A → Type ℓ
Returns {A = A} m = (a : A) × (m ≡ some a)

pub Returns->>= {ℓ κ} :
    {A : Type ℓ} {B : Type κ} (m : Option A) (f : A → Option B)
    → Returns m
    → ((a : A) → m ≡ some a → Returns (f a))
    → Returns (m >>= f)
Returns->>= none f (a, e) k = absurd (cc e)
Returns->>= (some a) f r k = k a refl

pub Returns-if {ℓ} :
    {A : Type ℓ} (b : Bool) (x y : Option A) → Returns x → Returns y → Returns (if b then x else y)
Returns-if true x y hx hy = hx
Returns-if false x y hx hy = hy

pub Ensures-Returns {ℓ κ} :
    {A : Type ℓ} (P : A → Type κ) (m : Option A)
    → Ensures P m
    → Returns m
    → (a : A) × (m ≡ some a) × P a
Ensures-Returns P none h (a, e) = absurd (cc e)
Ensures-Returns P (some a) h r = (a, refl, h)
