-- ===== src/Timestamps.antt =====
-- The datetimes of the program, as leo_telemetry/common/models.py holds them: an instant, with or without
-- an offset. Python refuses to order an aware datetime and a naive one.
use leo_telemetry.Base.{
  ℕ, ◌≤◌, ◌<◌, ◌≡◌, ◌≢◌, refl, sym, ◌⊎◌, inl, inr, Bool, true, false, ltb, arith, Bool-cases,
}
use leo_telemetry.Base.Result.{Result, ok, raise, type_error}

pub record Timestamp : Type 0 where
  pub is_aware : Bool
  pub instant : ℕ

-- An aware datetime at an instant.
abbrev pub utc : ℕ → Timestamp
utc n = record { is_aware = true; instant = n }

-- a < b
abbrev pub less : Bool → Bool → ℕ → ℕ → Result Bool
less true true m n = ok (ltb m n)
less false false m n = ok (ltb m n)
less _ _ m n = raise type_error

unfoldable pub precedes : Timestamp → Timestamp → Result Bool
precedes a b = less a.is_aware b.is_aware a.instant b.instant

-- Both are aware or both are naive, and `b` is not before `a`.
pub record NotBefore (a b : Timestamp) : Type 0 where
  pub alike : a.is_aware ≡ b.is_aware
  pub later : a.instant ≤ b.instant

-- Both are aware or both are naive, and `a` is before `b`.
pub record IsBefore (a b : Timestamp) : Type 0 where
  pub alike : a.is_aware ≡ b.is_aware
  pub earlier : a.instant < b.instant

pub NotBefore-refl : (a : Timestamp) → NotBefore a a
NotBefore-refl a = record { alike = refl; later = omega arith }

pub NotBefore-trans : (a b c : Timestamp) → NotBefore a b → NotBefore b c → NotBefore a c
NotBefore-trans a b c h k =
    let l = h.later in
    let m = k.later in record { alike = cc (h.alike, k.alike); later = omega arith }

-- The outcomes of a comparison.
less-cases :
    (p q : Bool) (m n : ℕ)
    → ((less p q m n ≡ ok true) × (p ≡ q) × (m < n))
      ⊎ ((less p q m n ≡ ok false) × (p ≡ q) × (n ≤ m))
      ⊎ ((less p q m n ≡ raise type_error) × (p ≢ q))
less-cases true true m n = elim (Bool-cases (ltb m n)) [
  | inl before ↦ inl (rw before, refl, ground arith)
  | inr after ↦ inr (inl (rw after, refl, ground arith))
]
less-cases false false m n = elim (Bool-cases (ltb m n)) [
  | inl before ↦ inl (rw before, refl, ground arith)
  | inr after ↦ inr (inl (rw after, refl, ground arith))
]
less-cases true false m n = inr (inr (refl, λ e. cc e))
less-cases false true m n = inr (inr (refl, λ e. cc e))

pub precedes-cases :
    (a b : Timestamp)
    → ((precedes a b ≡ ok true) × IsBefore a b)
      ⊎ ((precedes a b ≡ ok false) × NotBefore b a)
      ⊎ ((precedes a b ≡ raise type_error) × (a.is_aware ≢ b.is_aware))
unfolding precedes
precedes-cases a b = elim (less-cases a.is_aware b.is_aware a.instant b.instant) [
  | inl (e, same, before) ↦ inl (e, record { alike = same; earlier = before })
  | inr (inl (e, same, after)) ↦ inr (inl (e, record { alike = sym same; later = after }))
  | inr (inr mixed) ↦ inr (inr mixed)
]
