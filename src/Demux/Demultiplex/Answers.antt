-- ===== src/Demux/Demultiplex/Answers.antt =====
-- Which frames `demultiplex` drops, and what a reading is of its frame.
use leo_telemetry.Base.{
  ℕ, ◌≡◌, ◌≢◌, ◌⊎◌, inl, inr, refl, List, [], ◌∷◌, true, false, none, some, arith, Bool-cases,
  Option-cases, some_injective, ◌↔◌, ap, sym, ◌∙◌,
}
use leo_telemetry.Base.Result.{ok, ok-injective, Result-cases}
use leo_telemetry.Float.{FloatOps}
use leo_telemetry.Models.{DecodedFrame, TelemetryReading}
use leo_telemetry.Demux.Specs.Registry.{SpecFunc, get_spec}
use leo_telemetry.Demux.Demultiplex.{is_empty, demultiplex}

is_empty-true : (bytes : List ℕ) → is_empty bytes ≡ true → bytes ≡ []
is_empty-true [] h = refl
is_empty-true (b ∷ bytes) h = cc

is_empty-false : (bytes : List ℕ) → is_empty bytes ≡ false → bytes ≢ []
is_empty-false [] h = cc
is_empty-false (b ∷ bytes) h = λ e. cc

is_empty-full : (bytes : List ℕ) → bytes ≢ [] → is_empty bytes ≡ false
is_empty-full [] ne = absurd (ne refl)
is_empty-full (b ∷ bytes) ne = refl

module _ (fl : FloatOps) where
  -- `demultiplex` drops a frame silently exactly for one of three reasons: its payload is empty, its
  -- checksum is marked invalid, or its satellite has no spec.
  pub demultiplex-none_iff :
      (frame : DecodedFrame)
      → (demultiplex fl frame ≡ ok none)
        ↔ ((frame.payload ≡ []) ⊎ (frame.crc_valid ≡ false) ⊎ (get_spec fl frame.norad_id ≡ none))
  unfolding demultiplex
  demultiplex-none_iff frame = (forth, back)
    where
      forth :
          demultiplex fl frame ≡ ok none
          → (frame.payload ≡ []) ⊎ (frame.crc_valid ≡ false) ⊎ (get_spec fl frame.norad_id ≡ none)
      forth h = elim (Bool-cases (is_empty frame.payload)) [
        | inl empty ↦ inl (is_empty-true frame.payload empty)
        | inr full ↦ elim (Bool-cases frame.crc_valid) [
          | inr bad ↦ inr (inl bad)
          | inl valid ↦ elim (Option-cases (get_spec fl frame.norad_id)) [
            | inl unknown ↦ inr (inr unknown)
            | inr (spec, known) ↦ elim (Result-cases (spec frame.payload)) [
              | inl (metrics, read) ↦ absurd (cc (rw (full, valid, known, demultiplex, read) at h))
              | inr (e, raised) ↦ absurd (cc (rw (full, valid, known, demultiplex, raised) at h))
            ]
          ]
        ]
      ]

      back :
          (frame.payload ≡ []) ⊎ (frame.crc_valid ≡ false) ⊎ (get_spec fl frame.norad_id ≡ none)
          → demultiplex fl frame ≡ ok none
      back (inl empty) = let e : is_empty frame.payload ≡ true = ap is_empty empty in rw e
      back (inr (inl bad)) = ground arith
      back (inr (inr unknown)) = rw (unknown, demultiplex) (ground arith)

  -- A reading keeps the satellite and the time of its frame, the frame had a payload and a valid
  -- checksum, and the metrics are what the spec registered for the satellite makes of the payload.
  pub demultiplex-some :
      (frame : DecodedFrame) (reading : TelemetryReading fl.F)
      → demultiplex fl frame ≡ ok (some reading)
      → (reading.norad_id ≡ frame.norad_id)
        × (reading.received_at ≡ frame.received_at)
        × (frame.payload ≢ [])
        × (frame.crc_valid ≡ true)
        × ((spec : SpecFunc fl) × (get_spec fl frame.norad_id ≡ some spec)
            × (spec frame.payload ≡ ok reading.metrics))
  unfolding demultiplex
  demultiplex-some frame reading h = elim (Bool-cases (is_empty frame.payload)) [
    | inl empty ↦ absurd (cc (rw empty at h))
    | inr full ↦ elim (Bool-cases frame.crc_valid) [
      | inr bad ↦ absurd (cc (rw (full, bad) at h))
      | inl valid ↦ elim (Option-cases (get_spec fl frame.norad_id)) [
        | inl unknown ↦ absurd (cc (rw (full, valid, unknown, demultiplex) at h))
        | inr (spec, known) ↦ elim (Result-cases (spec frame.payload)) [
          | inr (e, raised) ↦ absurd (cc (rw (full, valid, known, demultiplex, raised) at h))
          | inl (metrics, read) ↦
              let made =
                some_injective (ok-injective (rw (full, valid, known, demultiplex, read) at h)) in
              (
                ap (λ (r : TelemetryReading fl.F). r.norad_id) (sym made),
                ap (λ (r : TelemetryReading fl.F). r.received_at) (sym made),
                is_empty-false frame.payload full,
                valid,
                (spec, known, read ∙ ap (λ (r : TelemetryReading fl.F). ok r.metrics) made),
              )
        ]
      ]
    ]
  ]

  -- What a reading of a frame is.
  abbrev pub IsReadingOf : DecodedFrame → TelemetryReading fl.F → Type 0
  IsReadingOf frame reading =
      (reading.norad_id ≡ frame.norad_id)
      × (reading.received_at ≡ frame.received_at)
      × (frame.payload ≢ [])
      × (frame.crc_valid ≡ true)
      × ((spec : SpecFunc fl) × (get_spec fl frame.norad_id ≡ some spec)
          × (spec frame.payload ≡ ok reading.metrics))

  IsReadingOf-demultiplex :
      (frame : DecodedFrame) (reading : TelemetryReading fl.F)
      → IsReadingOf frame reading
      → demultiplex fl frame ≡ ok (some reading)
  unfolding demultiplex
  IsReadingOf-demultiplex frame reading (sat, time, full, valid, (spec, known, read)) =
      let filled : is_empty frame.payload ≡ false = is_empty-full frame.payload full in
      rw (filled, valid, known, demultiplex, read, ← sat, ← time) refl

  -- demultiplex drops a frame exactly if its payload is empty, its checksum is invalid, or no spec is
  -- registered for its satellite. It makes a reading of a frame exactly if the frame has a payload, a
  -- valid checksum and a spec, and the spec reads the payload; the reading keeps the frame's satellite
  -- and time, and its metrics are the spec's.
  pub demultiplex-outcomes :
      (frame : DecodedFrame)
      → ((demultiplex fl frame ≡ ok none) ↔ (
          (frame.payload ≡ []) ⊎ (frame.crc_valid ≡ false) ⊎ (get_spec fl frame.norad_id ≡ none)))
        × ((reading : TelemetryReading fl.F)
            → (demultiplex fl frame ≡ ok (some reading)) ↔ IsReadingOf frame reading)
  demultiplex-outcomes frame = (
    demultiplex-none_iff frame,
    (λ reading. (demultiplex-some frame reading, IsReadingOf-demultiplex frame reading)),
  )
