-- ===== src/Base/Result.antt =====
-- Python's exceptions as values: a function that may raise returns a `Result`.
use mathlib.Core.Path.{◌≡◌, refl}
use mathlib.Core.Logic.{◌⊎◌, inl, inr}
use mathlib.Core.List.{List, [], ◌∷◌}

-- The classes of exception that the modelled code raises or tells apart. `unfinished` is none of them:
-- it is the answer of a loop that has no rounds left while the source's loop would go on.
pub data Error : Type 0 where
  value_error type_error key_error index_error struct_error : Error
  attribute_error connection_error http_error system_exit unfinished : Error

pub data Result {ℓ} (A : Type ℓ) : Type ℓ where
  ok : A → Result A
  raise : Error → Result A

infixl 5 ◌>>=◌
abbrev pub ◌>>=◌ {ℓ κ} : {A : Type ℓ} {B : Type κ} → Result A → (A → Result B) → Result B
ok a >>= f = f a
raise e >>= f = raise e

-- A comprehension over calls that may raise: the first exception ends it.
abbrev pub traverse {ℓ κ} : {A : Type ℓ} {B : Type κ} → (A → Result B) → List A → Result (List B)
traverse f [] = ok []
traverse f (x ∷ xs) = do y ← f x; ys ← traverse f xs; ok (y ∷ ys)

pub ok-injective {ℓ} : {A : Type ℓ} {a b : A} → ok a ≡ ok b → a ≡ b
ok-injective h = cc

pub raise-injective {ℓ} :
    {A : Type ℓ} (r : Result A) {d e : Error} → r ≡ raise d → r ≡ raise e → d ≡ e
raise-injective r h k = cc

pub Result-cases {ℓ} :
    {A : Type ℓ} (r : Result A) → ((a : A) × (r ≡ ok a)) ⊎ ((e : Error) × (r ≡ raise e))
Result-cases (ok a) = inl (a, refl)
Result-cases (raise e) = inr (e, refl)

-- The outcome of a computation that does not raise.
abbrev pub Returns {ℓ} : {A : Type ℓ} → Result A → Type ℓ
Returns {A} r = (a : A) × (r ≡ ok a)
