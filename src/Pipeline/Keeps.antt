-- ===== src/Pipeline/Keeps.antt =====
-- Each command of the workers keeps what the queues may hold.
use text.Mathlib.Text.{◌==◌ as str_eq}
use text.Mathlib.TextPositions.{eq_refl}
use leo_telemetry.Base.{
  ℕ, ◌-◌, ◌≤◌, ◌<◌, ◌≡◌, refl, ◌⊎◌, inl, inr, List, [], ◌∷◌, ◌++◌, true, false, none, some, String,
  arith, All, All-append, All-drop, length, Bool-cases, ◌==◌, some_injective,
}
use leo_telemetry.Redis.{Redis}
use leo_telemetry.Redis.View.{Blob, Contents, head_tail, is_member, lpop, set_field, get_field}
use leo_telemetry.Queues.{push_bounded, push_once}
use leo_telemetry.Queues.Bounded.{length-last_n, lists-push_bounded, hashes-push_bounded}
use leo_telemetry.Workers.Latest.{hash_key}
use leo_telemetry.Pipeline.{Stage, telemetry, key_of, Stage-cases, Holds}

module _ {F : Type 0} (P : Stage → Blob F → Type 0) (limit : Stage → ℕ) where
  -- Only the lists and the hashes count.
  Holds-same :
      (c c' : Contents F)
      → Holds P limit c
      → c'.lists ≡ c.lists
      → c'.hashes ≡ c.hashes
      → Holds P limit c'
  Holds-same c c' h lists hashes = record {
    typed = λ s. rw lists (h.typed s);
    bounded = λ s. rw lists (h.bounded s);
    latest = rw hashes h.latest;
  }

  -- A change at one queue.
  Holds-at :
      (s : Stage) (c c' : Contents F)
      → Holds P limit c
      → All (P s) (c'.lists (key_of s))
      → length (c'.lists (key_of s)) ≤ limit s
      → ((j : String) → str_eq (key_of s) j ≡ false → c'.lists j ≡ c.lists j)
      → c'.hashes ≡ c.hashes
      → Holds P limit c'
  Holds-at s c c' h typed bounded others hashes = record {
    typed = λ t. elim (Stage-cases s t) [
      | inl same ↦ rw (← same) typed
      | inr other ↦ rw (others (key_of t) other) (h.typed t)
    ];
    bounded = λ t. elim (Stage-cases s t) [
      | inl same ↦ rw (← same) bounded
      | inr other ↦ rw (others (key_of t) other) (h.bounded t)
    ];
    latest = rw hashes h.latest;
  }

-- What the head and the tail of a list keep.
All-head_tail {ℓ κ} :
    {A : Type ℓ} (P : A → Type κ) (xs : List A)
    → All P xs
    → All P (head_tail xs).1
      × (length (head_tail xs).1 ≤ length xs)
      × (((head_tail xs).0 ≡ none) ⊎ ((a : A) × ((head_tail xs).0 ≡ some a) × P a))
All-head_tail P [] h = (tt, omega arith, inl refl)
All-head_tail P (x ∷ xs) h = (h.1, omega arith, inr (x, refl, h.0))

All-set_field {ℓ κ} :
    {A : Type ℓ} (P : A → Type κ) (f : ℕ) (v : A) (h : List (ℕ × A))
    → P v
    → All (λ (e : ℕ × A). P e.1) h
    → All (λ (e : ℕ × A). P e.1) (set_field f v h)
All-set_field P f v [] pv ph = (pv, tt)
All-set_field P f v ((g, w) ∷ h) pv ph = elim (Bool-cases (g == f)) [
  | inl same ↦ rw same (pv, ph.1)
  | inr other ↦ rw other (ph.0, All-set_field P f v h pv ph.1)
]

pub All-get_field {ℓ κ} :
    {A : Type ℓ} (P : A → Type κ) (f : ℕ) (v : A) (h : List (ℕ × A))
    → All (λ (e : ℕ × A). P e.1) h
    → get_field f h ≡ some v
    → P v
All-get_field P f v [] ph found = absurd (cc found)
All-get_field P f v ((g, w) ∷ h) ph found = elim (Bool-cases (g == f)) [
  | inl same ↦ rw (← some_injective (rw same at found)) ph.0
  | inr other ↦ All-get_field P f v h ph.1 (rw other at found)
]

module _ {F : Type 0} (redis : Redis F) (P : Stage → Blob F → Type 0) (limit : Stage → ℕ)
    (positive : (s : Stage) → 0 < limit s) where
  open redis use {
    Db, contents, lpop_cmd, sadd_cmd, expire_nx_cmd, hset_cmd, lpop_result, lpop_law, sadd_result,
    sadd_law, expire_nx_law, hset_law,
  }

  pub push_bounded-Holds :
      (s : Stage) (db : Db) (b : Blob F)
      → Holds P limit (contents db)
      → P s b
      → Holds P limit (contents (push_bounded redis (key_of s) (limit s) db b))
  push_bounded-Holds s db b h is =
      let (here, others) = lists-push_bounded redis (key_of s) (limit s) db b (positive s) in
      let all = (contents db).lists (key_of s) ++ b ∷ [] in
      Holds-at P limit s (contents db) (contents (push_bounded redis (key_of s) (limit s) db b)) h
        (rw here (
          All-drop (P s) (length all - limit s) all
            (All-append (P s) ((contents db).lists (key_of s)) (b ∷ []) (h.typed s) (is, tt))))
        (rw here (length-last_n (limit s) all)) others
        (hashes-push_bounded redis (key_of s) (limit s) db b)

  -- A pop: nothing, or an object that the queue may hold.
  pub lpop-Holds :
      (s : Stage) (db : Db)
      → Holds P limit (contents db)
      → Holds P limit (contents (lpop_cmd db (key_of s)).1)
        × (((lpop_cmd db (key_of s)).0 ≡ none)
            ⊎ ((b : Blob F) × ((lpop_cmd db (key_of s)).0 ≡ some b) × P s b))
  lpop-Holds s db h =
      let (typed, shorter, head) =
        All-head_tail (P s) ((contents db).lists (key_of s)) (h.typed s) in
      let bounded = h.bounded s in
      (
        rw lpop_law (
            Holds-at P limit s (contents db) (lpop (contents db) (key_of s)).1 h (rw eq_refl typed)
              (rw eq_refl (omega (arith, shorter, bounded))) (λ j other. rw other) refl),
        rw lpop_result head,
      )

  -- Marking as seen, and setting a time to live, touch no queue.
  pub push_once-Holds :
      (s : Stage) (seen_key : String) (ttl : ℕ) (db : Db) (member : List ℕ) (b : Blob F)
      → Holds P limit (contents db)
      → P s b
      → Holds P limit (contents (push_once redis seen_key (key_of s) ttl (limit s) db member b).1)
  unfolding push_once
  push_once-Holds s seen_key ttl db member b h is =
      elim (Bool-cases (is_member member ((contents db).sets seen_key))) [
        | inl seen ↦
            let r : (sadd_cmd db seen_key member).0 ≡ false = rw (sadd_result, seen) in
            rw r (rw (sadd_law, seen) h)
        | inr new ↦
            let r : (sadd_cmd db seen_key member).0 ≡ true = rw (sadd_result, new) in
            rw r (
              push_bounded-Holds s (expire_nx_cmd (sadd_cmd db seen_key member).1 seen_key ttl) b
                (Holds-same P limit (contents db)
                  (contents (expire_nx_cmd (sadd_cmd db seen_key member).1 seen_key ttl)) h
                  (rw (expire_nx_law, sadd_law, new)) (rw (expire_nx_law, sadd_law, new)))
                is)
      ]

  pub hset-Holds :
      (db : Db) (field : ℕ) (b : Blob F)
      → Holds P limit (contents db)
      → P telemetry b
      → Holds P limit (contents (hset_cmd db hash_key field b))
  hset-Holds db field b h is = rw hset_law (record {
    typed = h.typed;
    bounded = h.bounded;
    latest = All-set_field (P telemetry) field b ((contents db).hashes hash_key) is h.latest;
  })
