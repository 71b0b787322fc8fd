-- ===== src/Prelude/Errors.antt =====
-- Exceptions as values: what a call that may throw returns, with a monad.
use mathlib.Core.Path.{◌≡◌, refl, ap, subst}
use mathlib.Core.Bool.{Bool, true, false}
use native.Mathlib.Omega.{arith}
use mathlib.Core.Option.{Option, none, some}
use odin_analytics.Prelude.Tests.{if◌then◌else◌}

-- A constructor for each `throw` that is modelled; the first two stand for behaviour that C++ does
-- not define (such as `back()` of an empty vector) and for a loop whose fuel ran out.
pub data Error : Type 0 where
  undefined stuck : Error
  missing_year year_width no_month year_delimiter : Error
  missing_month month_width no_day month_delimiter : Error
  missing_day day_width extra_characters : Error
  invalid_day month_range : Error
  invalid_tenor invalid_enum non_digit : Error
  file_not_found file_not_open invalid_weekend : Error
  invalid_argument out_of_range runtime_error bad_variant_access : Error

pub data Result {ℓ} (A : Type ℓ) : Type ℓ where
  ok : A → Result A
  err : Error → Result A

-- What a `throw` skips: the rest of the body.
infixl 5 ◌>>=◌
abbrev pub ◌>>=◌ {ℓ κ} : {A : Type ℓ} {B : Type κ} → Result A → (A → Result B) → Result B
r >>= rest = elim r [ ok value ↦ rest value | err thrown ↦ err thrown ]

pub ok-injective {ℓ} : {A : Type ℓ} {a b : A} → ok a ≡ ok b → a ≡ b
ok-injective h = ground (arith, h)

-- A chain of calls that succeeds is made of calls that do.
pub chain_ok {ℓ κ} :
    {A : Type ℓ} {B : Type κ} (r : Result A) (rest : A → Result B) (b : B)
    → (r >>= rest) ≡ ok b
    → (a : A) × (r ≡ ok a) × (rest a ≡ ok b)
chain_ok (ok a) rest b h = (a, refl, h)
chain_ok (err e) rest b h = absurd (ground arith)

pub guard_ok {ℓ} :
    {A : Type ℓ} (b : Bool) (e : Error) (r : Result A) (a : A)
    → (if b then err e else r) ≡ ok a
    → (b ≡ false) × (r ≡ ok a)
guard_ok true e r a h = absurd (ground arith)
guard_ok false e r a h = (refl, h)

-- What is looked up, or an exception.
abbrev pub or_throw {ℓ} : {A : Type ℓ} → Error → Option A → Result A
or_throw e none = err e
or_throw e (some value) = ok value

pub chain_assoc {ℓ κ μ} :
    {A : Type ℓ} {B : Type κ} {C : Type μ} (r : Result A) (f : A → Result B) (g : B → Result C)
    → (r >>= λ a. f a >>= g) ≡ ((r >>= f) >>= g)
chain_assoc (ok a) f g = refl
chain_assoc (err e) f g = refl

pub chain_step {ℓ κ} :
    {A : Type ℓ} {B : Type κ} (r : Result A) (f : A → Result B) (a : A) → r ≡ ok a → (r >>= f) ≡ f a
chain_step r f a h = ap (λ s. s >>= f) h

-- The exceptions of the program: not behaviour that C++ leaves undefined, nor the end of the fuel.
abbrev pub IsThrown : Error → Type 0
IsThrown undefined = ⊥
IsThrown stuck = ⊥
IsThrown _ = Unit

-- A value or an exception of the program.
pub data IsEnded {ℓ} {A : Type ℓ} : Result A → Type ℓ where
  ended_ok : (a : A) → IsEnded (ok a)
  ended_err : (e : Error) → IsThrown e → IsEnded (err e)

pub if-IsEnded {ℓ} :
    {A : Type ℓ} (b : Bool) (x y : Result A) → IsEnded x → IsEnded y → IsEnded (if b then x else y)
if-IsEnded true x y h k = h
if-IsEnded false x y h k = k

pub chain-IsEnded {ℓ κ} :
    {A : Type ℓ} {B : Type κ} (r : Result A) (f : A → Result B)
    → IsEnded r
    → ((a : A) → IsEnded (f a))
    → IsEnded (r >>= f)
chain-IsEnded r f (ended_ok a) k = k a
chain-IsEnded r f (ended_err e h) k = ended_err e h

pub ruleset ends = (if-IsEnded, chain-IsEnded, ended_ok, ended_err, tt)

-- What holds of the value, if the call returns one.
pub data OnValue {ℓ} {A : Type ℓ} (P : A → Type 0) : Result A → Type ℓ where
  on_ok : (a : A) → P a → OnValue P (ok a)
  on_err : (e : Error) → OnValue P (err e)

pub chain-OnValue {ℓ κ} :
    {A : Type ℓ} {B : Type κ} {P : B → Type 0} (r : Result A) (f : A → Result B)
    → ((a : A) → r ≡ ok a → OnValue P (f a))
    → OnValue P (r >>= f)
chain-OnValue (ok a) f k = k a refl
chain-OnValue (err e) f k = on_err e

pub pass_value {ℓ κ} :
    {A : Type ℓ} {B : Type κ} {Q : A → Type 0} {P : B → Type 0} (r : Result A) (f : A → Result B)
    → OnValue Q r
    → ((a : A) → Q a → OnValue P (f a))
    → OnValue P (r >>= f)
pass_value (ok a) f (on_ok _ q) k = k a q
pass_value (err e) f q k = on_err e

pub if-OnValue {ℓ} :
    {A : Type ℓ} {P : A → Type 0} (b : Bool) (x y : Result A)
    → OnValue P x
    → OnValue P y
    → OnValue P (if b then x else y)
if-OnValue true x y h k = h
if-OnValue false x y h k = k

pub value_has {ℓ} :
    {A : Type ℓ} {P : A → Type 0} (r : Result A) (a : A) → OnValue P r → r ≡ ok a → P a
value_has {P = P} (ok b) a (on_ok _ p) h = subst P (ok-injective h) p
value_has (err e) a v h = absurd (ground arith)
