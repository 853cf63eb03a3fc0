-- ===== src/Tracking/Elements.antt =====
-- The tracker's dictionary of elements, and what a refresh leaves in it.
use leo_telemetry.Base.{
  ℕ, ◌≡◌, refl, arith, ap, ◌∙◌, inl, inr, List, [], ◌∷◌, false, ◌==◌, ==_iff, Option, none, some,
  Bool-cases, Option-cases, if◌then◌else◌,
}
use leo_telemetry.Base.Result.{Error, ok, raise, http_error, Result-cases}
use leo_telemetry.Propagation.{Tle}
use leo_telemetry.Tracking.{Sky, assign, fetch_tle, refresh}

-- tles.get(norad_id)
abbrev pub tle_of : ℕ → List (ℕ × Tle) → Option Tle
tle_of norad_id [] = none
tle_of norad_id ((other, tle) ∷ tles) = if other == norad_id then some tle else tle_of norad_id tles

-- No id has two entries.
abbrev pub Distinct : List (ℕ × Tle) → Type 0
Distinct [] = Unit
Distinct ((norad_id, tle) ∷ tles) = (tle_of norad_id tles ≡ none) × Distinct tles

tle_of-assign :
    (norad_id k : ℕ) (tle : Tle) (tles : List (ℕ × Tle))
    → tle_of k (assign norad_id tle tles) ≡ (if norad_id == k then some tle else tle_of k tles)
unfolding assign
tle_of-assign norad_id k tle [] = refl
tle_of-assign norad_id k tle ((other, old) ∷ tles) = elim (Bool-cases (other == norad_id)) [
  | inl same ↦
      let e : other ≡ norad_id = (==_iff other norad_id).0 same in
      rw same (
        rw e (elim (Bool-cases (norad_id == k)) [ inl here ↦ rw here | inr there ↦ rw there refl ]))
  | inr differs ↦ rw differs (elim (Bool-cases (other == k)) [
    | inl here ↦ let apart : (norad_id == k) ≡ false = ground arith in rw (here, apart) refl
    | inr there ↦ rw there (tle_of-assign norad_id k tle tles)
  ])
]

Distinct-assign :
    (norad_id : ℕ) (tle : Tle) (tles : List (ℕ × Tle))
    → Distinct tles
    → Distinct (assign norad_id tle tles)
unfolding assign
Distinct-assign norad_id tle [] h = (refl, tt)
Distinct-assign norad_id tle ((other, old) ∷ tles) h = elim (Bool-cases (other == norad_id)) [
  | inl same ↦
      let e : other ≡ norad_id = (==_iff other norad_id).0 same in rw same (rw (← e) h.0, h.1)
  | inr differs ↦
      let apart : (norad_id == other) ≡ false = ground arith in
      rw differs (
        rw (tle_of-assign norad_id other tle tles, apart) h.0,
        Distinct-assign norad_id tle tles h.1,
      )
]

-- The elements known before are known after.
abbrev pub Keeps : List (ℕ × Tle) → List (ℕ × Tle) → Type 0
Keeps old new =
    (k : ℕ) (tle : Tle) → tle_of k old ≡ some tle → (tle' : Tle) × (tle_of k new ≡ some tle')

Keeps-assign :
    (norad_id : ℕ) (tle : Tle) (tles : List (ℕ × Tle)) → Keeps tles (assign norad_id tle tles)
Keeps-assign norad_id tle tles k old known = elim (Bool-cases (norad_id == k)) [
  | inl here ↦ (tle, tle_of-assign norad_id k tle tles ∙ rw here)
  | inr there ↦ (old, tle_of-assign norad_id k tle tles ∙ rw there known)
]

module _ {F : Type 0} (sky : Sky F)
    (only_http : (w : sky.World) (norad_id : ℕ) (e : Error)
      → (sky.get w norad_id).0 ≡ raise e
      → e ≡ http_error) where
  -- A fetch answers.
  fetch_tle-Returns :
      (w : sky.World) (norad_id : ℕ)
      → (found : Option Tle) × ((fetch_tle sky w norad_id).0 ≡ ok found)
  unfolding fetch_tle
  fetch_tle-Returns w norad_id = elim (Result-cases (sky.get w norad_id).0) [
    | inl (text, answered) ↦ rw (answered, fetch_tle) (_, refl)
    | inr (e, raised) ↦
        let failed = raised ∙ ap (λ x. raise x) (only_http w norad_id e raised) in
        rw (failed, fetch_tle) (none, refl)
  ]

  -- A refresh answers, and loses no elements.
  pub refresh-Keeps :
      (ids : List ℕ) (tles : List (ℕ × Tle)) (w : sky.World)
      → Distinct tles
      → (tles' : List (ℕ × Tle)) × ((refresh sky ids tles w).0 ≡ ok tles')
        × Distinct tles'
        × Keeps tles tles'
  unfolding refresh
  refresh-Keeps [] tles w h = (tles, refl, h, (λ k tle known. (tle, known)))
  refresh-Keeps (norad_id ∷ ids) tles w h =
      let (found, answered) = fetch_tle-Returns w norad_id in
      elim (Option-cases found) [
        | inl nothing ↦
            rw (answered ∙ ap (λ x. ok x) nothing, refresh)
              (refresh-Keeps ids tles (fetch_tle sky w norad_id).1 h)
        | inr (tle, made) ↦
            let (tles', refreshed, distinct, keeps) =
              refresh-Keeps ids (assign norad_id tle tles) (fetch_tle sky w norad_id).1
                (Distinct-assign norad_id tle tles h) in
            rw (answered ∙ ap (λ x. ok x) made, refresh)
              (
                tles',
                refreshed,
                distinct,
                (λ k old known.
                    let (next, assigned) = Keeps-assign norad_id tle tles k old known in
                    keeps k next assigned),
              )
      ]
