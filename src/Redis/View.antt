-- ===== src/Redis/View.antt =====
-- What a Redis server holds, as far as the program uses it, and what each command does to it.
use text.Mathlib.Text.{◌==◌ as str_eq}
use leo_telemetry.Base.{
  ℕ, suc, ◌-◌, List, [], ◌∷◌, ◌++◌, map, Option, none, some, Bool, true, false, ◌==◌, ◌=l=◌, ◌&&◌,
  if◌then◌else◌, String, length, drop, any,
}
use leo_telemetry.Base.Int.{ℤ, pos, negsuc}
use leo_telemetry.Models.{
  RawFrame, DecodedFrame, TelemetryReading, AudioObservation, FailedDemuxFrame,
}

-- What the program writes to Redis: the pickles of its records, and the JSON of a failure. `no_reading`
-- is the pickle of None.
pub data Blob (F : Type 0) : Type 0 where
  raw_frame : RawFrame → Blob F
  observation : AudioObservation → Blob F
  decoded_frame : DecodedFrame → Blob F
  reading : TelemetryReading F → Blob F
  no_reading : Blob F
  failed_frame : FailedDemuxFrame → Blob F

pub record Contents (F : Type 0) : Type 0 where
  pub lists : String → List (Blob F)
  pub sets : String → List (List ℕ)
  pub ttls : String → Option ℕ
  pub hashes : String → List (ℕ × Blob F)

abbrev pub update {ℓ} : {A : Type ℓ} → (String → A) → String → A → String → A
update f k v j = if str_eq k j then v else f j

-- The elements from `start` on, where a negative `start` counts from the end.
abbrev pub from_start {ℓ} : {A : Type ℓ} → ℤ → List A → List A
from_start (pos n) xs = drop n xs
from_start (negsuc n) xs = drop (length xs - suc n) xs

abbrev pub set_field {ℓ} : {A : Type ℓ} → ℕ → A → List (ℕ × A) → List (ℕ × A)
set_field f v [] = (f, v) ∷ []
set_field f v ((g, w) ∷ h) = if g == f then (f, v) ∷ h else (g, w) ∷ set_field f v h

abbrev pub get_field {ℓ} : {A : Type ℓ} → ℕ → List (ℕ × A) → Option A
get_field f [] = none
get_field f ((g, w) ∷ h) = if g == f then some w else get_field f h

abbrev pub head_tail {ℓ} : {A : Type ℓ} → List A → Option A × List A
head_tail [] = (none, [])
head_tail (x ∷ xs) = (some x, xs)

abbrev pub is_member : List ℕ → List (List ℕ) → Bool
is_member m = any (λ n. n =l= m)

abbrev is_none {ℓ} : {A : Type ℓ} → Option A → Bool
is_none none = true
is_none (some a) = false

module _ {F : Type 0} where
  abbrev pub rpush : Contents F → String → Blob F → Contents F
  rpush c k b = record c { lists = update c.lists k (c.lists k ++ b ∷ []) }

  abbrev pub ltrim : Contents F → String → ℤ → Contents F
  ltrim c k start = record c { lists = update c.lists k (from_start start (c.lists k)) }

  abbrev pub lpop : Contents F → String → Option (Blob F) × Contents F
  lpop c k =
      ((head_tail (c.lists k)).0, record c { lists = update c.lists k (head_tail (c.lists k)).1 })

  abbrev pub length_of : Contents F → String → ℕ
  length_of c k = length (c.lists k)

  abbrev pub lrange : Contents F → String → ℤ → List (Blob F)
  lrange c k start = from_start start (c.lists k)

  abbrev pub sadd : Contents F → String → List ℕ → Bool × Contents F
  sadd c k m =
      if is_member m (c.sets k)
      then (false, c)
      else (true, record c { sets = update c.sets k (m ∷ c.sets k) })

  -- A time of 0 deletes the key at once. The key of a time to live is a set's in this program.
  abbrev pub expire_nx : Contents F → String → ℕ → Contents F
  expire_nx c k n = record c {
    sets = if n == 0 && is_none (c.ttls k) then update c.sets k [] else c.sets;
    ttls =
        if n == 0
        then c.ttls
        else elim (c.ttls k) [ none ↦ update c.ttls k (some n) | some t ↦ c.ttls ];
  }

  -- What the server does to a key whose time to live is over.
  abbrev pub lapse : Contents F → String → Contents F
  lapse c k = record c { sets = update c.sets k []; ttls = update c.ttls k none }

  abbrev pub hget : Contents F → String → ℕ → Option (Blob F)
  hget c k f = get_field f (c.hashes k)

  abbrev pub hset : Contents F → String → ℕ → Blob F → Contents F
  hset c k f b = record c { hashes = update c.hashes k (set_field f b (c.hashes k)) }

  abbrev pub hgetall : Contents F → String → List (Blob F)
  hgetall c k = map (λ e. e.1) (c.hashes k)
