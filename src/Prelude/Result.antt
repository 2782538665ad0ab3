-- ===== src/Prelude/Result.antt =====
-- Python exceptions as values. The text is the fixed part of the message, or the field it names.
use Prim.Native.String.{String}
use mathlib.Core.Path.{◌≡◌, refl, ap, ◌∙◌}
use mathlib.Core.Logic.{◌⊎◌, inl, inr}
use mathlib.Core.Bool.{Bool, true, false}
use native.Mathlib.Omega.{arith}
use mathlib.Core.List.{List, [], ◌∷◌}
use metrka_core.Prelude.Text.{is_blank}

pub data Error : Type 0 where
  value_error runtime_error key_error : String → Error
  -- psycopg's `IntegrityError`: a constraint of the schema refuses a row.
  integrity_error : String → Error

pub data Result {ℓ} (A : Type ℓ) : Type ℓ where
  ok : A → Result A
  raise : Error → Result A

infixl 5 ◌>>=◌ ◌>>◌
abbrev pub ◌>>=◌ {ℓ κ} : {A : Type ℓ} {B : Type κ} → Result A → (A → Result B) → Result B
ok a >>= f = f a
raise e >>= f = raise e

abbrev pub ◌>>◌ {ℓ} : {B : Type ℓ} → Result (Unit {0}) → Result B → Result B
m >> k = m >>= λ _. k

-- `if test: raise error`
abbrev pub raise_if : Bool → Error → Result (Unit {0})
raise_if true e = raise e
raise_if false e = ok tt

abbrev pub is_ok {ℓ} : {A : Type ℓ} → Result A → Bool
is_ok (ok a) = true
is_ok (raise e) = false

-- `for field_name, value in required_strings.items(): if not value.strip(): raise ValueError`
unfoldable pub require_non_blank : List (String × String) → Result (Unit {0})
require_non_blank [] = ok tt
require_non_blank ((field_name, value) ∷ rest) =
    let others = require_non_blank rest in
    elim (is_blank value) [ true ↦ raise (value_error field_name) | false ↦ others ]

pub Result-cases {ℓ} :
    {A : Type ℓ} (r : Result A) → ((a : A) × (r ≡ ok a)) ⊎ ((e : Error) × (r ≡ raise e))
Result-cases (ok a) = inl (a, refl)
Result-cases (raise e) = inr (e, refl)

-- What a sequence that returns has returned on the way.
pub bind_ok {ℓ κ μ} :
    {A : Type ℓ} {B : Type κ} {C : Type μ} (m : Result A) (f : A → Result B) (b : B)
    → (m >>= f) ≡ ok b
    → ((a : A) → m ≡ ok a → f a ≡ ok b → C)
    → C
bind_ok (ok a) f b h k = k a refl h
bind_ok (raise e) f b h k = ground (arith, h)

-- A sequence whose parts return returns.
pub bind_to {ℓ κ} :
    {A : Type ℓ} {B : Type κ} (m : Result A) (f : A → Result B) (a : A) (b : B)
    → m ≡ ok a
    → f a ≡ ok b
    → (m >>= f) ≡ ok b
bind_to m f a b e h = ap (λ x. x >>= f) e ∙ h

pub ok-injective {ℓ} : {A : Type ℓ} (a b : A) → ok a ≡ ok b → a ≡ b
ok-injective a b h = ground (arith, h)
