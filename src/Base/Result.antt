-- ===== src/Base/Result.antt =====
-- `anyhow::Result`: a value, or an error with the literal part of its message.
use Prim.Native.String.{String}
use pcsuite_rs.Base.{◌≡◌, refl, ◌⊎◌, inl, inr, Option, none, some}

pub data Result {ℓ} (A : Type ℓ) : Type ℓ where
  done : A → Result A
  bail : String → Result A

infixl 5 ◌>>=◌
abbrev pub ◌>>=◌ {ℓ κ} : {A : Type ℓ} {B : Type κ} → Result A → (A → Result B) → Result B
done a >>= f = f a
bail e >>= f = bail e

-- `.context(msg)` on an `Option`
abbrev pub context {ℓ} : {A : Type ℓ} → Option A → String → Result A
context (some a) msg = done a
context none msg = bail msg

pub Result-cases {ℓ} :
    {A : Type ℓ} (r : Result A) → ((a : A) × (r ≡ done a)) ⊎ ((e : String) × (r ≡ bail e))
Result-cases (done a) = inl (a, refl)
Result-cases (bail e) = inr (e, refl)

-- What holds of the value, if there is one.
abbrev pub Holds {ℓ} : {A : Type ℓ} → (A → Type 0) → Result A → Type 0
Holds P (done a) = P a
Holds P (bail e) = Unit

pub bind_Holds {ℓ κ} :
    {A : Type ℓ} {B : Type κ} (P : A → Type 0) (Q : B → Type 0) (r : Result A) (f : A → Result B)
    → Holds P r
    → ((a : A) → P a → Holds Q (f a))
    → Holds Q (r >>= f)
bind_Holds P Q (done a) f h k = k a h
bind_Holds P Q (bail e) f h k = tt

pub any_Holds {ℓ} : {A : Type ℓ} (r : Result A) → Holds (λ a. Unit) r
any_Holds (done a) = tt
any_Holds (bail e) = tt
