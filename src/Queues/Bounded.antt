-- ===== src/Queues/Bounded.antt =====
-- What `rpush` and `ltrim` of a push leave in the server.
use text.Mathlib.Text.{◌==◌ as str_eq}
use text.Mathlib.TextPositions.{eq_refl}
use leo_telemetry.Base.{
  ℕ, zero, suc, ◌+◌, ◌-◌, ◌≤◌, ◌<◌, ◌≡◌, refl, List, [], ◌∷◌, ◌++◌, false, String, arith, length,
  drop, length-append, length-drop, drop-drop,
}
use leo_telemetry.Base.Int.{pos, neg}
use leo_telemetry.Redis.{Redis}
use leo_telemetry.Redis.View.{Blob, from_start, rpush, ltrim}
use leo_telemetry.Queues.{push_bounded}

-- The newest `n` elements of a queue.
abbrev pub last_n {ℓ} : {A : Type ℓ} → ℕ → List A → List A
last_n n xs = drop (length xs - n) xs

pub from_start-neg {ℓ} :
    {A : Type ℓ} (n : ℕ) (xs : List A) → 0 < n → from_start (neg (pos n)) xs ≡ last_n n xs
from_start-neg zero xs h = absurd (omega arith)
from_start-neg (suc n) xs h = refl

pub length-last_n {ℓ} : {A : Type ℓ} (n : ℕ) (xs : List A) → length (last_n n xs) ≤ n
length-last_n n xs = omega (arith, length-drop (length xs - n) xs)

pub last_n_all {ℓ} : {A : Type ℓ} (n : ℕ) (xs : List A) → length xs ≤ n → last_n n xs ≡ xs
last_n_all n xs h = let z : length xs - n ≡ 0 = omega arith in rw z

drop-++ {ℓ} :
    {A : Type ℓ} (k : ℕ) (xs ys : List A) → k ≤ length xs → drop k (xs ++ ys) ≡ drop k xs ++ ys
drop-++ zero xs ys h = refl
drop-++ (suc k) [] ys h = absurd (omega arith)
drop-++ (suc k) (x ∷ xs) ys h = drop-++ k xs ys (omega arith)

-- Trimming before an append as well changes nothing.
pub last_n-append {ℓ} :
    {A : Type ℓ} (n : ℕ) (xs ys : List A) → last_n n (last_n n xs ++ ys) ≡ last_n n (xs ++ ys)
last_n-append n xs ys =
    let front = drop-++ (length xs - n) xs ys (omega arith) in
    let whole : length (drop (length xs - n) xs ++ ys) - n
        ≡ length (xs ++ ys) - n - (length xs - n) =
      omega (
        arith,
        length-append xs ys,
        length-append (drop (length xs - n) xs) ys,
        length-drop (length xs - n) xs,
      ) in
    let total : length xs - n + (length (xs ++ ys) - n - (length xs - n)) ≡ length (xs ++ ys) - n =
      omega (arith, length-append xs ys) in
    rw whole (rw (← front, drop-drop, total))

module _ {F : Type 0} (redis : Redis F) where
  open redis use {Db, contents, rpush_law, ltrim_law}

  contents-push_bounded :
      (key : String) (n : ℕ) (db : Db) (b : Blob F)
      → contents (push_bounded redis key n db b)
        ≡ ltrim (rpush (contents db) key b) key (neg (pos n))
  unfolding push_bounded
  contents-push_bounded key n db b = rw (ltrim_law, rpush_law)

  -- The list at the key after a push, and the lists at the other keys.
  pub lists-push_bounded :
      (key : String) (n : ℕ) (db : Db) (b : Blob F)
      → 0 < n
      → ((contents (push_bounded redis key n db b)).lists key
          ≡ last_n n ((contents db).lists key ++ b ∷ []))
        × ((j : String)
            → str_eq key j ≡ false
            → (contents (push_bounded redis key n db b)).lists j ≡ (contents db).lists j)
  lists-push_bounded key n db b h = (
    rw (contents-push_bounded, eq_refl) (from_start-neg n ((contents db).lists key ++ b ∷ []) h),
    (λ j other. rw (contents-push_bounded, other)),
  )

  pub sets-push_bounded :
      (key : String) (n : ℕ) (db : Db) (b : Blob F)
      → (contents (push_bounded redis key n db b)).sets ≡ (contents db).sets
  sets-push_bounded key n db b = rw contents-push_bounded

  pub hashes-push_bounded :
      (key : String) (n : ℕ) (db : Db) (b : Blob F)
      → (contents (push_bounded redis key n db b)).hashes ≡ (contents db).hashes
  hashes-push_bounded key n db b = rw contents-push_bounded

  pub ttls-push_bounded :
      (key : String) (n : ℕ) (db : Db) (b : Blob F)
      → (contents (push_bounded redis key n db b)).ttls ≡ (contents db).ttls
  ttls-push_bounded key n db b = rw contents-push_bounded

  -- A push to a queue with a positive bound leaves the newest elements up to the bound, the pushed one
  -- last, so the queue never exceeds its bound; it changes no other list, no set and no time to live.
  pub push_bounded-lem :
      (key : String) (n : ℕ) (db : Db) (b : Blob F)
      → 0 < n
      → ((contents (push_bounded redis key n db b)).lists key
          ≡ last_n n ((contents db).lists key ++ b ∷ []))
        × (length ((contents (push_bounded redis key n db b)).lists key) ≤ n)
        × ((j : String)
            → str_eq key j ≡ false
            → (contents (push_bounded redis key n db b)).lists j ≡ (contents db).lists j)
        × ((contents (push_bounded redis key n db b)).sets ≡ (contents db).sets)
        × ((contents (push_bounded redis key n db b)).ttls ≡ (contents db).ttls)
  push_bounded-lem key n db b h =
      let (here, elsewhere) = lists-push_bounded key n db b h in
      (
        here,
        rw here (length-last_n n ((contents db).lists key ++ b ∷ [])),
        elsewhere,
        sets-push_bounded key n db b,
        ttls-push_bounded key n db b,
      )

  -- With a bound of zero nothing is trimmed: `ltrim(key, -0, -1)` keeps the whole list, so the queue
  -- grows by every push.
  pub push_bounded-zero :
      (key : String) (db : Db) (b : Blob F)
      → (contents (push_bounded redis key 0 db b)).lists key ≡ (contents db).lists key ++ b ∷ []
  push_bounded-zero key db b = rw (contents-push_bounded, eq_refl)
