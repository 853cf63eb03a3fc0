-- ===== src/Base/Lists.antt =====
-- Sequences (Python's `bytes`, `str` and `list`) measured and indexed by native numbers, under the
-- library's names. A slice `xs[a:b]` with `0 ≤ a`, `0 ≤ b` is `slice xs a b`.
use Prim.Native.Nat.{ℕ, zero, suc, ◌+◌, ◌-◌, ◌≤◌, ◌<◌, min}
use mathlib.Core.Path.{◌≡◌, refl, sym, ap, ◌∙◌}
use mathlib.Core.Bool.{Bool, true, false, ◌&&◌, ◌||◌}
use mathlib.Core.List.{List, [], ◌∷◌, ◌++◌, map, Memᴰ}
use mathlib.Core.Option.{Option, none, some}
use native.Mathlib.Omega.{arith}
use leo_telemetry.Base.Tests.{◌==◌, ltb, ==_refl}

-- A predicate by recursion computes to tuples, which the tactics read and build.
abbrev pub All {ℓ κ} : {A : Type ℓ} → (A → Type κ) → List A → Type κ
All P [] = Unit
All P (x ∷ xs) = P x × All P xs

pub All-always {ℓ κ} : {A : Type ℓ} {P : A → Type κ} → ((a : A) → P a) → (xs : List A) → All P xs
All-always every [] = tt
All-always every (x ∷ xs) = (every x, All-always every xs)

-- What holds of the members holds of all.
pub All-members {ℓ κ} :
    {A : Type ℓ} {P : A → Type κ} (xs : List A) → ((a : A) → Memᴰ a xs → P a) → All P xs
All-members [] each = tt
All-members (x ∷ xs) each = (each x (Memᴰ.head refl), All-members xs (λ a m. each a (Memᴰ.tail m)))

-- A stronger claim about each.
pub All-map {ℓ κ κ'} :
    {A : Type ℓ} {P : A → Type κ} {Q : A → Type κ'}
    → ((a : A) → P a → Q a)
    → (xs : List A) → All P xs
    → All Q xs
All-map f [] h = tt
All-map f (x ∷ xs) h = (f x h.0, All-map f xs h.1)

pub All-append {ℓ κ} :
    {A : Type ℓ} (P : A → Type κ) (xs ys : List A) → All P xs → All P ys → All P (xs ++ ys)
All-append P [] ys hx hy = hy
All-append P (x ∷ xs) ys hx hy = (hx.0, All-append P xs ys hx.1 hy)

abbrev pub IsByte : ℕ → Type 0
IsByte b = b < 256

module _ {ℓ} {A : Type ℓ} where
  abbrev pub length : List A → ℕ
  length [] = 0
  length (x ∷ xs) = suc (length xs)

  abbrev pub get_elem? : List A → ℕ → Option A
  get_elem? [] i = none
  get_elem? (x ∷ xs) zero = some x
  get_elem? (x ∷ xs) (suc i) = get_elem? xs i

  abbrev pub get_or : List A → ℕ → A → A
  get_or [] i d = d
  get_or (x ∷ xs) zero d = x
  get_or (x ∷ xs) (suc i) d = get_or xs i d

  abbrev pub take : ℕ → List A → List A
  take zero xs = []
  take (suc n) [] = []
  take (suc n) (x ∷ xs) = x ∷ take n xs

  abbrev pub drop : ℕ → List A → List A
  drop zero xs = xs
  drop (suc n) [] = []
  drop (suc n) (x ∷ xs) = drop n xs

  abbrev pub slice : List A → ℕ → ℕ → List A
  slice xs a b = drop a (take b xs)

  abbrev pub all : (A → Bool) → List A → Bool
  all p [] = true
  all p (x ∷ xs) = p x && all p xs

  abbrev pub any : (A → Bool) → List A → Bool
  any p [] = false
  any p (x ∷ xs) = p x || any p xs

  pub length-append : (xs ys : List A) → length (xs ++ ys) ≡ length xs + length ys
  length-append [] ys = omega arith
  length-append (x ∷ xs) ys = omega (arith, length-append xs ys)

  pub length-take : (n : ℕ) (xs : List A) → length (take n xs) ≡ min n (length xs)
  length-take zero xs = omega arith
  length-take (suc n) [] = omega arith
  length-take (suc n) (x ∷ xs) = omega (arith, length-take n xs)

  pub length-drop : (n : ℕ) (xs : List A) → length (drop n xs) ≡ length xs - n
  length-drop zero xs = omega arith
  length-drop (suc n) [] = omega arith
  length-drop (suc n) (x ∷ xs) = omega (arith, length-drop n xs)

  pub take-append-drop : (n : ℕ) (xs : List A) → take n xs ++ drop n xs ≡ xs
  take-append-drop zero xs = refl
  take-append-drop (suc n) [] = refl
  take-append-drop (suc n) (x ∷ xs) = ap (λ t. x ∷ t) (take-append-drop n xs)

  pub drop_of_length-le : (n : ℕ) (xs : List A) → length xs ≤ n → drop n xs ≡ []
  drop_of_length-le zero [] h = refl
  drop_of_length-le zero (x ∷ xs) h = absurd (omega arith)
  drop_of_length-le (suc n) [] h = refl
  drop_of_length-le (suc n) (x ∷ xs) h = drop_of_length-le n xs (omega arith)

  pub drop-length : (xs ys : List A) → drop (length xs) (xs ++ ys) ≡ ys
  drop-length [] ys = refl
  drop-length (x ∷ xs) ys = drop-length xs ys

  pub get_or-length : (xs ys : List A) (y d : A) → get_or (xs ++ y ∷ ys) (length xs) d ≡ y
  get_or-length [] ys y d = refl
  get_or-length (x ∷ xs) ys y d = get_or-length xs ys y d

  pub take-length : (xs ys : List A) → take (length xs) (xs ++ ys) ≡ xs
  take-length [] ys = refl
  take-length (x ∷ xs) ys = ap (λ t. x ∷ t) (take-length xs ys)

  pub drop-nil : (n : ℕ) → drop n [] ≡ []
  drop-nil zero = refl
  drop-nil (suc n) = refl

  pub drop-drop : (m n : ℕ) (xs : List A) → drop m (drop n xs) ≡ drop (n + m) xs
  drop-drop m zero xs = let e : m ≡ 0 + m = omega arith in ap (λ k. drop k xs) e
  drop-drop zero (suc n) [] = sym (drop-nil (suc n + zero))
  drop-drop (suc m) (suc n) [] = sym (drop-nil (suc n + suc m))
  drop-drop m (suc n) (x ∷ xs) =
      let e : suc n + m ≡ suc (n + m) = omega arith in
      drop-drop m n xs ∙ ap (λ k. drop k (x ∷ xs)) (sym e)

  -- The slice that starts where `w` starts and is as long as `w` is `w`.
  pub slice_of_drop :
      (xs : List A) (a : ℕ) (w r : List A) → drop a xs ≡ w ++ r → slice xs a (a + length w) ≡ w
  slice_of_drop xs zero w r e =
      let z : 0 + length w ≡ length w = omega arith in
      ap (λ k. take k xs) z ∙ ap (take (length w)) e ∙ take-length w r
  slice_of_drop [] (suc a) [] r e =
      let s : suc a + 0 ≡ suc a = omega arith in
      let empty : List A = [] in ap (λ k. drop (suc a) (take k empty)) s
  slice_of_drop [] (suc a) (y ∷ w) r e = cc
  slice_of_drop (x ∷ xs) (suc a) w r e =
      let s : suc a + length w ≡ suc (a + length w) = omega arith in
      ap (λ k. drop (suc a) (take k (x ∷ xs))) s ∙ slice_of_drop xs a w r e

-- Equality of texts and byte strings.
infix 50 ◌=l=◌
abbrev pub ◌=l=◌ : List ℕ → List ℕ → Bool
[] =l= [] = true
[] =l= (y ∷ ys) = false
(x ∷ xs) =l= [] = false
(x ∷ xs) =l= (y ∷ ys) = x == y && xs =l= ys

pub =l=_eq : (xs ys : List ℕ) → (xs =l= ys) ≡ true → xs ≡ ys
=l=_eq [] [] h = refl
=l=_eq [] (y ∷ ys) h = absurd (cc h)
=l=_eq (x ∷ xs) [] h = absurd (cc h)
=l=_eq (x ∷ xs) (y ∷ ys) h = ground (arith, =l=_eq xs ys)

pub =l=_refl : (xs : List ℕ) → (xs =l= xs) ≡ true
=l=_refl [] = refl
=l=_refl (x ∷ xs) = ground (arith, ==_refl x, =l=_refl xs)

pub All-drop {ℓ κ} :
    {A : Type ℓ} (P : A → Type κ) (n : ℕ) (xs : List A) → All P xs → All P (drop n xs)
All-drop P zero xs h = h
All-drop P (suc n) [] h = tt
All-drop P (suc n) (x ∷ xs) h = All-drop P n xs h.1

pub All-take {ℓ κ} :
    {A : Type ℓ} (P : A → Type κ) (n : ℕ) (xs : List A) → All P xs → All P (take n xs)
All-take P zero xs h = tt
All-take P (suc n) [] h = tt
All-take P (suc n) (x ∷ xs) h = (h.0, All-take P n xs h.1)

-- A computed test for lists of bytes.
pub all_bytes : (xs : List ℕ) → all (λ b. ltb b 256) xs ≡ true → All IsByte xs
all_bytes [] h = tt
all_bytes (x ∷ xs) h = (ground arith, all_bytes xs (ground arith))

pub length-map {ℓ κ} :
    {A : Type ℓ} {B : Type κ} (f : A → B) (xs : List A) → length (map f xs) ≡ length xs
length-map f [] = refl
length-map f (x ∷ xs) = ap suc (length-map f xs)

pub map-append {ℓ κ} :
    {A : Type ℓ} {B : Type κ} (f : A → B) (xs ys : List A) → map f (xs ++ ys) ≡ map f xs ++ map f ys
map-append f [] ys = refl
map-append f (x ∷ xs) ys = ap (◌∷◌ (f x)) (map-append f xs ys)
