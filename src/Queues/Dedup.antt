-- ===== src/Queues/Dedup.antt =====
-- The deduplicating queues: a member is queued once for as long as its seen-set lives.
use text.Mathlib.TextPositions.{eq_refl}
use text.Mathlib.Text.{◌==◌ as str_eq}
use leo_telemetry.Base.{
  Option, not, if◌then◌else◌, Bool-cases, Option-cases, inl, inr, ◌∙◌, ℕ, ◌<◌, ◌≡◌, ◌==◌, arith,
  refl, List, [], ◌∷◌, ◌++◌, Bool, true, false, none, some, String, =l=_refl,
}
use leo_telemetry.Redis.{Redis}
use leo_telemetry.Redis.View.{Blob, is_member}
use leo_telemetry.Queues.{push_once}
use leo_telemetry.Queues.Bounded.{last_n, lists-push_bounded, sets-push_bounded, ttls-push_bounded}

-- A time to live that is set only where there is none.
abbrev pub set_if_none : ℕ → Option ℕ → Option ℕ
set_if_none ttl none = some ttl
set_if_none ttl (some t) = some t

module _ {F : Type 0} (redis : Redis F) where
  open redis use {Db, contents, sadd_cmd, expire_nx_cmd, sadd_result, sadd_law, expire_nx_law}

  module _ (seen_key queue_key : String) (ttl n : ℕ) (db : Db) (member : List ℕ) (b : Blob F) where
    abbrev pushed : Bool × Db
    pushed = push_once redis seen_key queue_key ttl n db member b

    -- A member that was seen is refused, and nothing changes.
    pub push_once-seen :
        is_member member ((contents db).sets seen_key) ≡ true
        → (pushed.0 ≡ false) × (contents pushed.1 ≡ contents db)
    unfolding push_once
    push_once-seen seen =
        let r : (sadd_cmd db seen_key member).0 ≡ false = rw (sadd_result, seen) in
        rw r (refl, rw (sadd_law, seen))

    -- A new member is queued at the end, within the bound, and is seen from then on. The time to live
    -- of the seen-set, which is positive, is set where it has none, and never renewed.
    pub push_once-new :
        0 < n
        → 0 < ttl
        → is_member member ((contents db).sets seen_key) ≡ false
        → (pushed.0 ≡ true)
          × ((contents pushed.1).lists queue_key
              ≡ last_n n ((contents db).lists queue_key ++ b ∷ []))
          × (is_member member ((contents pushed.1).sets seen_key) ≡ true)
          × ((t : ℕ)
              → (contents db).ttls seen_key ≡ some t
              → (contents pushed.1).ttls seen_key ≡ some t)
          × ((contents db).ttls seen_key ≡ none → (contents pushed.1).ttls seen_key ≡ some ttl)
    unfolding push_once
    push_once-new bound lives new =
        let lasting : (ttl == 0) ≡ false = ground arith in
        let r : (sadd_cmd db seen_key member).0 ≡ true = rw (sadd_result, new) in
        let (here, elsewhere) =
          lists-push_bounded redis queue_key n
            (expire_nx_cmd (sadd_cmd db seen_key member).1 seen_key ttl) b bound in
        rw r (
          refl,
          rw (here, expire_nx_law, sadd_law, new),
          rw (sets-push_bounded, expire_nx_law, sadd_law, new, lasting, eq_refl, =l=_refl),
          (λ t old.
              rw (ttls-push_bounded, expire_nx_law, sadd_law, new, lasting, old, sadd_law, new)
                old),
          (λ old. rw (ttls-push_bounded, expire_nx_law, sadd_law, new, lasting, old, eq_refl)),
        )

    -- A push of a member tells whether it is new. A new one goes to the end of the queue, of which the
    -- bound keeps the newest elements, and a seen one leaves the queue alone; no other queue changes.
    -- Either way the member is seen from then on. Only a new member gives the seen-set a time to live,
    -- and only where it has none, so that none is ever renewed. The bound and the time to live are
    -- positive.
    pub push_once-lem :
        0 < n
        → 0 < ttl
        → let seen = is_member member ((contents db).sets seen_key) in
          let queued = (contents db).lists queue_key in
          let old_ttl = (contents db).ttls seen_key in
          (pushed.0 ≡ not seen)
          × ((contents pushed.1).lists queue_key
              ≡ (if seen then queued else last_n n (queued ++ b ∷ [])))
          × ((j : String)
              → str_eq queue_key j ≡ false
              → (contents pushed.1).lists j ≡ (contents db).lists j)
          × (is_member member ((contents pushed.1).sets seen_key) ≡ true)
          × ((contents pushed.1).ttls seen_key
              ≡ (if seen then old_ttl else set_if_none ttl old_ttl))
    unfolding push_once
    push_once-lem bound lives = elim (Bool-cases (is_member member ((contents db).sets seen_key))) [
      | inl seen ↦
          let (refused, same) = push_once-seen seen in
          rw (same, seen) (refused, refl, (λ j other. refl), refl, refl)
      | inr new ↦
          let (accepted, here, member_seen, kept, set) = push_once-new bound lives new in
          let r : (sadd_cmd db seen_key member).0 ≡ true = rw (sadd_result, new) in
          let (queued, elsewhere) =
            lists-push_bounded redis queue_key n
              (expire_nx_cmd (sadd_cmd db seen_key member).1 seen_key ttl) b bound in
          rw new (
            accepted,
            here,
            rw r (λ j other. elsewhere j other ∙ rw (expire_nx_law, sadd_law, new)),
            member_seen,
            elim (Option-cases ((contents db).ttls seen_key)) [
              | inl none_yet ↦ set none_yet ∙ rw none_yet
              | inr (t, old) ↦ kept t old ∙ rw old
            ],
          )
    ]
