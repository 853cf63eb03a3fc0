-- ===== src/Satnogs/Skipping.antt =====
-- Which entries of a page are lost.
use leo_telemetry.Base.{
  ℕ, ◌≡◌, refl, ap, ◌⊎◌, inl, inr, List, [], ◌∷◌, Bool, true, false, if◌then◌else◌, Option, none,
  some, Option-cases, Bool-cases, any,
}
use leo_telemetry.Base.Result.{Error, Result, ok, raise, key_error, attribute_error}
use leo_telemetry.Float.{FloatOps}
use leo_telemetry.Models.{RawFrame}
use leo_telemetry.Demux.Common.{hex_value}
use leo_telemetry.Demux.Errors.{
  OnlyValueError, OnlyValueError-ok, OnlyValueError-raise, OnlyValueError-bind,
}
use leo_telemetry.Satnogs.{
  Field, missing, null, value, Entry, Web, is_hex_space, is_caught, parse_instant, get_or_text,
  fromhex_from, fromhex, to_raw_frame, frames_of, replace_z,
}

abbrev pub is_null {ℓ} : {A : Type ℓ} → Field A → Bool
is_null null = true
is_null _ = false

-- The entries that are frames, in order.
abbrev pub well_formed : {A : Type 0} → (A → Result RawFrame) → List A → List RawFrame
well_formed parse [] = []
well_formed parse (e ∷ es) = elim (parse e) [
  | ok frame ↦ frame ∷ well_formed parse es
  | raise x ↦ well_formed parse es
]

module _ (parse : Entry → Result RawFrame) (e : Entry) (es : List Entry) where
  well_formed-ok :
      (frame : RawFrame)
      → parse e ≡ ok frame
      → ok (frame ∷ well_formed parse es) ≡ ok (well_formed parse (e ∷ es))
  well_formed-ok frame h = rw (well_formed, h)

  well_formed-raise :
      (x : Error) → parse e ≡ raise x → ok (well_formed parse es) ≡ ok (well_formed parse (e ∷ es))
  well_formed-raise x h = rw (well_formed, h)

fromhex_from_errors :
    (pending : Option ℕ) (text : List ℕ) → OnlyValueError (fromhex_from pending text)
unfolding fromhex_from
fromhex_from_errors none [] = OnlyValueError-ok _
fromhex_from_errors (some high) [] = OnlyValueError-raise _ refl
fromhex_from_errors none (c ∷ cs) = elim (Bool-cases (is_hex_space c)) [
  | inl space ↦ rw space (fromhex_from_errors none cs)
  | inr digits ↦ elim (Option-cases (hex_value c)) [
    | inl other ↦ rw (digits, other, fromhex_from) (OnlyValueError-raise _ refl)
    | inr (d, digit) ↦ rw (digits, digit, fromhex_from) (fromhex_from_errors (some d) cs)
  ]
]
fromhex_from_errors (some high) (c ∷ cs) = elim (Option-cases (hex_value c)) [
  | inl other ↦ rw (other, fromhex_from) (OnlyValueError-raise _ refl)
  | inr (d, digit) ↦
      rw (digit, fromhex_from)
        (OnlyValueError-bind _ _ (fromhex_from_errors none cs) λ bytes. OnlyValueError-ok _)
]

module _ (fl : FloatOps) (web : Web fl.F) where
  parse_instant_errors : (text : List ℕ) → OnlyValueError (parse_instant fl web text)
  parse_instant_errors text = elim (Option-cases (web.fromisoformat text)) [
    | inl bad ↦ rw (bad, parse_instant) (OnlyValueError-raise _ refl)
    | inr (t, good) ↦ rw (good, parse_instant) (OnlyValueError-ok _)
  ]

  -- What becomes of an entry: a frame, or an exception that the client catches.
  abbrev Skips : Result RawFrame → Type 0
  Skips r =
      ((frame : RawFrame) × (r ≡ ok frame)) ⊎ ((e : Error) × (r ≡ raise e) × (is_caught e ≡ true))

  Skips-OnlyValueError : (r : Result RawFrame) → OnlyValueError r → Skips r
  Skips-OnlyValueError (ok frame) h = inl (frame, refl)
  Skips-OnlyValueError (raise e) h = inr (e, refl, ap is_caught (h.only e refl))

  to_raw_frame-Skips :
      (norad_id : ℕ) (entry : Entry)
      → is_null entry.timestamp ≡ false
      → Skips (to_raw_frame fl web norad_id entry)
  unfolding to_raw_frame fromhex
  to_raw_frame-Skips norad_id entry h = go entry.timestamp refl h
    where
      go :
          (t : Field (List ℕ))
          → entry.timestamp ≡ t
          → is_null t ≡ false
          → Skips (to_raw_frame fl web norad_id entry)
      go missing e h = rw (e, to_raw_frame) (inr (key_error, refl, refl))
      go null e h = absurd (cc h)
      go (value t) e h =
          rw (e, to_raw_frame)
            (Skips-OnlyValueError _ (
              OnlyValueError-bind _ _ (parse_instant_errors (replace_z t)) λ at.
                OnlyValueError-bind _ _ (fromhex_from_errors none (get_or_text entry.frame))
                  λ bytes. OnlyValueError-ok _))

  to_raw_frame-null :
      (norad_id : ℕ) (entry : Entry)
      → is_null entry.timestamp ≡ true
      → to_raw_frame fl web norad_id entry ≡ raise attribute_error
  unfolding to_raw_frame
  to_raw_frame-null norad_id entry h = go entry.timestamp refl h
    where
      go :
          (t : Field (List ℕ))
          → entry.timestamp ≡ t
          → is_null t ≡ true
          → to_raw_frame fl web norad_id entry ≡ raise attribute_error
      go missing e h = absurd (cc h)
      go null e h = rw (e, to_raw_frame)
      go (value t) e h = absurd (cc h)

  -- A page of entries is read as the frames of its well-formed entries, in order: an entry with a bad
  -- frame, or with a missing or bad timestamp, costs only itself. One entry whose timestamp is null costs
  -- the whole page: the exception is AttributeError, which the client does not catch.
  pub frames_of-well_formed :
      (norad_id : ℕ) (entries : List Entry)
      → frames_of fl web norad_id entries ≡ (
          if any (λ e. is_null e.timestamp) entries
          then raise attribute_error
          else ok (well_formed (to_raw_frame fl web norad_id) entries))
  unfolding frames_of
  frames_of-well_formed norad_id [] = refl
  frames_of-well_formed norad_id (entry ∷ entries) =
      let rest = frames_of-well_formed norad_id entries in
      elim (Bool-cases (is_null entry.timestamp)) [
        | inl lost ↦ rw (lost, to_raw_frame-null norad_id entry lost, frames_of)
        | inr kept ↦ elim (to_raw_frame-Skips norad_id entry kept) [
          | inl (frame, parsed) ↦
              elim (Bool-cases (any (λ (e : Entry). is_null e.timestamp) entries)) [
                | inl lost ↦ rw (parsed, frames_of, rest, kept, lost)
                | inr fine ↦
                    rw (parsed, frames_of, rest, kept, fine)
                      (well_formed-ok (to_raw_frame fl web norad_id) entry entries frame parsed)
              ]
          | inr (e, raised, caught) ↦
              elim (Bool-cases (any (λ (e : Entry). is_null e.timestamp) entries)) [
                | inl lost ↦ rw (raised, frames_of, caught, rest, kept, lost)
                | inr fine ↦
                    rw (raised, frames_of, caught, rest, kept, fine)
                      (well_formed-raise (to_raw_frame fl web norad_id) entry entries e raised)
              ]
        ]
      ]
