-- ===== src/Base/Options.antt =====
-- Chains of steps that may fail, and the laws of such chains.
use mathlib.Core.Path.{◌≡◌, refl}
use mathlib.Core.Option
use mathlib.Core.Option.{Option, none, some}

-- Chains of steps that may fail.
infixl 5 ◌>>=◌
abbrev pub ◌>>=◌ {ℓ κ} : {A : Type ℓ} {B : Type κ} → Option A → (A → Option B) → Option B
none >>= f = none
some a >>= f = f a

pub >>=-eq-some {ℓ κ} :
    {A : Type ℓ} {B : Type κ} (m : Option A) (f : A → Option B) {b : B}
    → (m >>= f) ≡ some b
    → (a : A) × (m ≡ some a) × (f a ≡ some b)
>>=-eq-some none f h = cc
>>=-eq-some (some a) f h = (a, refl, h)

pub map-eq-some {ℓ κ} :
    {A : Type ℓ} {B : Type κ} (f : A → B) (o : Option A) {b : B}
    → Option.map f o ≡ some b
    → (a : A) × (o ≡ some a) × (b ≡ f a)
map-eq-some f none h = cc
map-eq-some f (some a) h = (a, refl, cc)

pub >>=-map {ℓ κ μ} :
    {A : Type ℓ} {B : Type κ} {C : Type μ} (f : A → B) (o : Option A) (g : B → Option C)
    → (Option.map f o >>= g) ≡ (o >>= λ a. g (f a))
>>=-map f none g = refl
>>=-map f (some a) g = refl

pub map->>= {ℓ κ μ} :
    {A : Type ℓ} {B : Type κ} {C : Type μ} (f : B → C) (o : Option A) (g : A → Option B)
    → Option.map f (o >>= g) ≡ (o >>= λ a. Option.map f (g a))
map->>= f none g = refl
map->>= f (some a) g = refl

pub >>=-cong {ℓ κ} :
    {A : Type ℓ} {B : Type κ} (o : Option A) {f g : A → Option B}
    → ((a : A) → f a ≡ g a)
    → (o >>= f) ≡ (o >>= g)
>>=-cong o h = λ i. o >>= λ a. h a i

pub map-cong {ℓ κ} :
    {A : Type ℓ} {B : Type κ} (o : Option A) {f g : A → B}
    → ((a : A) → f a ≡ g a)
    → Option.map f o ≡ Option.map g o
map-cong o h = λ i. Option.map (λ a. h a i) o

pub some-inj {ℓ} : {A : Type ℓ} {a b : A} → some a ≡ some b → a ≡ b
some-inj h = cc
