-- ===== src/Base.antt =====
-- The names that every other module shares: the libraries', passed on, and those of the children:
-- Boolean tests, lists, Go's `int` and `string`, and a result type for Go's `(value, error)`.
mod Tests
mod Lists
mod Int
mod Text
unfoldable pub use Tests.*
unfoldable pub use Lists.*
unfoldable pub use Int.*
unfoldable pub use Text.*
pub use Prim.Native.Nat.{ℕ, zero, suc, ◌+◌, ◌-◌, ◌*◌, ◌/◌, ◌%◌, ◌≤◌, ◌<◌}
pub use Prim.Native.String.{String}
pub use mathlib.Core.Path.{◌≡◌, refl, sym, ap, ◌∙◌, subst}
pub use mathlib.Core.Logic.{◌≢◌, ◌↔◌, ◌⊎◌, inl, inr}
pub use mathlib.Core.Bool.{Bool, true, false, not, ◌&&◌, ◌||◌}
pub use mathlib.Core.Option.{Option, none, some}
pub use mathlib.Core.List.{List, [], ◌∷◌, ◌++◌, map}
pub use native.Mathlib.Omega.{arith}

-- Go's `(value, error)`: a value with a nil error, or an error.
pub data Result {ℓ κ} (E : Type κ) (A : Type ℓ) : Type (ℓ ⊔ κ) where
  ok : A → Result E A
  err : E → Result E A

-- What follows a call runs on its value; an error ends the chain.
infixl 5 ◌>>=◌
abbrev pub ◌>>=◌ {ℓ κ μ} :
    {E : Type μ} {A : Type ℓ} {B : Type κ} → Result E A → (A → Result E B) → Result E B
ok a >>= f = f a
err e >>= f = err e

-- The same where the call gives no value.
infixl 5 ◌>>◌
abbrev pub ◌>>◌ {κ μ} : {E : Type μ} {B : Type κ} → Result E (Unit {0}) → Result E B → Result E B
m >> k = m >>= λ _. k

-- `if bad { return e }`.
abbrev pub refuse_if {μ} : {E : Type μ} → Bool → E → Result E (Unit {0})
refuse_if true e = err e
refuse_if false e = ok tt

-- A claim about the value of a call that succeeds, and its rules for a chain.
abbrev pub IfOk {ℓ κ μ} : {E : Type μ} {A : Type ℓ} → (A → Type κ) → Result E A → Type κ
IfOk P (ok a) = P a
IfOk P (err e) = Unit

pub IfOk-bind {ℓ κ μ ν} :
    {E : Type μ} {A : Type ℓ} {B : Type ℓ} (P : A → Type κ) (Q : B → Type ν) (m : Result E A)
    (f : A → Result E B)
    → IfOk P m
    → ((a : A) → P a → IfOk Q (f a))
    → IfOk Q (m >>= f)
IfOk-bind P Q (ok a) f p step = step a p
IfOk-bind P Q (err e) f p step = tt

-- A guard leaves the claim to what follows, which may use that the test failed.
pub IfOk-refuse_if {ℓ κ μ} :
    {E : Type μ} {A : Type ℓ} (Q : A → Type κ) (bad : Bool) (e : E) (m : Result E A)
    → (bad ≡ false → IfOk Q m)
    → IfOk Q (refuse_if bad e >> m)
IfOk-refuse_if Q true e m step = tt
IfOk-refuse_if Q false e m step = step refl

pub IfOk-weaken {ℓ κ μ ν} :
    {E : Type μ} {A : Type ℓ} (P : A → Type κ) (Q : A → Type ν) (m : Result E A)
    → IfOk P m
    → ((a : A) → P a → Q a)
    → IfOk Q m
IfOk-weaken P Q (ok a) p step = step a p
IfOk-weaken P Q (err e) p step = tt

-- The same behind what stands before the guard.
pub IfOk-refuse_next {ℓ κ μ} :
    {E : Type μ} {A : Type ℓ} (Q : A → Type κ) (before : Result E (Unit {0})) (bad : Bool) (e : E)
    (m : Result E A)
    → (bad ≡ false → IfOk Q m)
    → IfOk Q (before >> refuse_if bad e >> m)
IfOk-refuse_next Q (ok _) true e m step = tt
IfOk-refuse_next Q (ok _) false e m step = step refl
IfOk-refuse_next Q (err x) bad e m step = tt

-- A call whose value is not looked at.
pub IfOk-any {ℓ κ μ ν} :
    {E : Type μ} {A : Type ℓ} {B : Type κ} (Q : B → Type ν) (m : Result E A) (f : A → Result E B)
    → ((a : A) → m ≡ ok a → IfOk Q (f a))
    → IfOk Q (m >>= f)
IfOk-any Q (ok a) f step = step a refl
IfOk-any Q (err e) f step = tt

pub IfOk-of_eq {ℓ κ μ} :
    {E : Type μ} {A : Type ℓ} (Q : A → Type κ) (m : Result E A) {a : A} → IfOk Q m → m ≡ ok a → Q a
IfOk-of_eq Q m {a} q e = rw e at q

-- A search that is an error when it finds nothing.
pub IfOk-found {ℓ κ μ ν} :
    {E : Type μ} {A : Type ℓ} {B : Type κ} (Q : B → Type ν) (o : Option A) (e : E)
    (k : A → Result E B)
    → ((a : A) → o ≡ some a → IfOk Q (k a))
    → IfOk Q (elim o [ none ↦ err e | some a ↦ k a ])
IfOk-found Q none e k step = tt
IfOk-found Q (some a) e k step = step a refl
