-- ===== src/Prelude/Results.antt =====
-- Rust's `Result` as a monad, and `ok_or`.
use mathlib.Core.Path.{◌≡◌, refl}
use mathlib.Core.Logic.{◌⊎◌, inl, inr}
use mathlib.Core.Bool.{Bool, true, false}
use mathlib.Core.Option.{Option, none, some}

pub data Result {ℓ} (E : Type ℓ) (A : Type ℓ) : Type ℓ where
  err : E → Result E A
  ok : A → Result E A

module _ {ℓ} {E B : Type ℓ} where
  -- `?` on a value, and on one whose value is not read.
  infixl 5 ◌>>=◌
  abbrev pub ◌>>=◌ : {A : Type ℓ} → Result E A → (A → Result E B) → Result E B
  err e >>= next = err e
  ok a >>= next = next a

  infixl 5 ◌>>◌
  abbrev pub ◌>>◌ : {A : Type ℓ} → Result E A → Result E B → Result E B
  err e >> next = err e
  ok a >> next = next

module _ {ℓ} {E A : Type ℓ} where
  -- `Option::ok_or`
  abbrev pub ok_or : Option A → E → Result E A
  ok_or none e = err e
  ok_or (some a) e = ok a

  -- `Result::is_ok`
  abbrev pub is_ok : Result E A → Bool
  is_ok (ok a) = true
  is_ok (err e) = false

module _ {ℓ} {E F A : Type ℓ} where
  -- `Result::map_err`
  abbrev pub map_err : (E → F) → Result E A → Result F A
  map_err f (ok a) = ok a
  map_err f (err e) = err (f e)

pub Result-cases {ℓ} :
    {E A : Type ℓ} (r : Result E A) → ((a : A) × (r ≡ ok a)) ⊎ ((e : E) × (r ≡ err e))
Result-cases (ok a) = inl (a, refl)
Result-cases (err e) = inr (e, refl)

pub ok_inj {ℓ} : {E A : Type ℓ} {x : Result E A} {a b : A} → x ≡ ok a → x ≡ ok b → a ≡ b
ok_inj h k = cc

-- Where a `?` succeeds, so does the value it is applied to.
pub >>=-eq-ok {ℓ} :
    {E A B : Type ℓ} (r : Result E A) (next : A → Result E B) {c : B}
    → r >>= next ≡ ok c
    → (x : A) × (r ≡ ok x) × (next x ≡ ok c)
>>=-eq-ok (err e) next same = absurd (cc)
>>=-eq-ok (ok x) next same = (x, refl, same)
