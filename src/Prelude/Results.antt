-- ===== src/Prelude/Results.antt =====
-- A computation that may throw.
use mathlib.Core.Path.{◌≡◌, refl, ap}
use mathlib.Core.Logic.{◌≢◌, ◌⊎◌, inl, inr}
use mathlib.Core.Option.{Option, none, some}

pub data Result {ℓ κ} (E : Type ℓ) (A : Type κ) : Type (ℓ ⊔ κ) where
  ok : A → Result E A
  throw : E → Result E A

-- The value of a first computation is the argument of a second.
infixl 5 ◌>>=◌ ◌>>◌
abbrev pub ◌>>=◌ {ℓ κ μ} :
    {E : Type ℓ} {A : Type κ} {B : Type μ} → Result E A → (A → Result E B) → Result E B
throw error >>= next = throw error
ok value >>= next = next value

-- A check that stands in front of the rest.
abbrev pub ◌>>◌ {ℓ κ μ} :
    {E : Type ℓ} {A : Type κ} {B : Type μ} → Result E A → Result E B → Result E B
throw error >> rest = throw error
ok value >> rest = rest

-- A library call that throws, with the error that its caller reports.
abbrev pub or_throw {ℓ κ} : {E : Type ℓ} {A : Type κ} → E → Option A → Result E A
or_throw e none = throw e
or_throw e (some a) = ok a

-- A chain that ends well: its two halves did.
pub >>=-eq-ok {ℓ κ μ} :
    {E : Type ℓ} {A : Type κ} {B : Type μ} (first : Result E A) (next : A → Result E B) {final : B}
    → (first >>= next) ≡ ok final
    → (value : A) × (first ≡ ok value) × (next value ≡ ok final)
>>=-eq-ok (throw error) next ended = cc
>>=-eq-ok (ok value) next ended = (value, refl, ended)

pub or_throw-eq-ok {ℓ κ} :
    {E : Type ℓ} {A : Type κ} (e : E) (o : Option A) {a : A} → or_throw e o ≡ ok a → o ≡ some a
or_throw-eq-ok e none h = cc
or_throw-eq-ok e (some x) h = cc

throw-injective {ℓ κ} :
    {E : Type ℓ} (A : Type κ) {d e : E} → ◌≡◌ {A = Result E A} (throw d) (throw e) → d ≡ e
throw-injective A h = cc

-- A chain throws `e` only if one of its parts does.
pub >>=-ne-throw {ℓ κ μ} :
    {E : Type ℓ} {A : Type κ} {B : Type μ} (m : Result E A) (f : A → Result E B) {e : E}
    → m ≢ throw e
    → ((a : A) → f a ≢ throw e)
    → (m >>= f) ≢ throw e
>>=-ne-throw (ok a) f h k = k a
>>=-ne-throw {B} (throw d) f h k = λ same. h (ap throw (throw-injective B same))

pub Result-cases {ℓ κ} :
    {E : Type ℓ} {A : Type κ} (r : Result E A) → ((a : A) × (r ≡ ok a)) ⊎ ((e : E) × (r ≡ throw e))
Result-cases (ok a) = inl (a, refl)
Result-cases (throw e) = inr (e, refl)

pub >>-eq-ok {ℓ κ μ} :
    {E : Type ℓ} {A : Type κ} {B : Type μ} (check : Result E A) (rest : Result E B) {final : B}
    → (check >> rest) ≡ ok final
    → (value : A) × (check ≡ ok value) × (rest ≡ ok final)
>>-eq-ok (throw error) rest ended = cc
>>-eq-ok (ok value) rest ended = (value, refl, ended)
