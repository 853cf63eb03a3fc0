-- ===== src/Demux/Specs/Aprs.antt =====
-- leo_telemetry/demux/specs/aprs_25544.py. The text is Latin-1, so its code points are the bytes; the
-- two regular expressions are matchers by hand, and a search tries each position from the left.
use leo_telemetry.Base.{
  ℕ, zero, suc, ◌+◌, ◌-◌, ◌*◌, List, [], ◌∷◌, ◌++◌, Bool, true, false, not, ◌&&◌, ◌||◌, Option,
  none, some, String, leb, ◌==◌, if◌then◌else◌, length, get_or, take, drop, slice, all,
}
use leo_telemetry.Base.Int.{pos}
use leo_telemetry.Base.Result.{Result, ok, raise, value_error}
use leo_telemetry.Float.{FloatOps}
use leo_telemetry.Demux.Common.{metric, raw_metric, Metrics}

-- _TYPE_CODES.get(c), the numeric code
unfoldable pub type_code : ℕ → Option ℕ
type_code c =
    if c == b'!' || c == b'=' || c == b'/' || c == b'@'
    then some 1
    else if c == 39 || c == b'`'
    then some 2
    else if c == b'>'
    then some 3
    else if c == b':'
    then some 4
    else if c == b'T'
    then some 5
    else if c == b';'
    then some 6
    else if c == b'_'
    then some 7
    else none

abbrev pub is_digit : ℕ → Bool
is_digit c = leb b'0' c && leb c b'9'

-- \d{n}\.\d{2} at the front of a text that is long enough
abbrev pub is_coordinate : ℕ → List ℕ → Bool
is_coordinate n cs =
    all is_digit (take n cs) && get_or cs n 0 == b'.' && all is_digit (slice cs (n + 1) (n + 3))

pub record Position : Type 0 where
  pub lat : List ℕ
  pub ns : ℕ
  pub lon : List ℕ
  pub ew : ℕ

-- _POSITION_RE at the front of the text: eighteen characters.
unfoldable pub match_position : List ℕ → Option Position
match_position cs =
    if leb 18 (length cs)
      && is_coordinate 4 cs
      && (get_or cs 7 0 == b'N' || get_or cs 7 0 == b'S')
      && not (get_or cs 8 0 == 10)
      && is_coordinate 5 (drop 9 cs)
      && (get_or cs 17 0 == b'E' || get_or cs 17 0 == b'W')
    then some
        (record { lat = take 7 cs; ns = get_or cs 7 0; lon = slice cs 9 17; ew = get_or cs 17 0 })
    else none

-- Up to `n` digits, as a number, and the rest.
unfoldable pub read_up_to : ℕ → ℕ → List ℕ → ℕ × List ℕ
read_up_to zero acc cs = (acc, cs)
read_up_to (suc n) acc [] = (acc, [])
read_up_to (suc n) acc (c ∷ cs) =
    let more = read_up_to n (acc * 10 + (c - b'0')) cs in if is_digit c then more else (acc, c ∷ cs)

-- (\d{1,3})
unfoldable pub read_count : List ℕ → Option (ℕ × List ℕ)
unfolding read_up_to
read_count [] = none
read_count (c ∷ cs) = if is_digit c then some (read_up_to 3 0 (c ∷ cs)) else none

-- `rounds` further groups, each behind a comma. A group takes all the digits it may: the character
-- behind it must be a comma, so giving digits back never helps.
unfoldable pub read_groups : ℕ → List ℕ → Option (List ℕ)
unfolding read_count
read_groups zero cs = some []
read_groups (suc rounds) [] = none
read_groups (suc rounds) (c ∷ cs) =
    if c == b','
    then elim (read_count cs) [
      | none ↦ none
      | some (v, rest) ↦ elim (read_groups rounds rest) [ none ↦ none | some vs ↦ some (v ∷ vs) ]
    ]
    else none

-- _TELEMETRY_RE at the front of the text.
unfoldable pub match_telemetry : List ℕ → Option (List ℕ)
unfolding read_groups
match_telemetry (t ∷ h ∷ cs) =
    if t == b'T' && h == b'#'
    then elim (read_count cs) [ none ↦ none | some (v, rest) ↦ read_groups 5 rest ]
    else none
match_telemetry cs = none

-- pattern.search(text): the first position from the left where the pattern matches.
unfoldable pub search_text {ℓ} : {A : Type ℓ} → (List ℕ → Option A) → List ℕ → Option A
search_text pattern_at [] = pattern_at []
search_text pattern_at (c ∷ cs) =
    let later = search_text pattern_at cs in
    elim (pattern_at (c ∷ cs)) [ none ↦ later | some m ↦ some m ]

-- int(text) of a text of digits
unfoldable pub decimal_of : List ℕ → ℕ
unfolding read_up_to
decimal_of cs = (read_up_to (length cs) 0 cs).0

module _ (fl : FloatOps) where
  -- _aprs_degrees; the minutes are the text "mm.mm".
  unfoldable pub aprs_degrees : List ℕ → ℕ → Bool → fl.F
  unfolding decimal_of
  aprs_degrees value hemisphere lon =
      let split : ℕ = if lon then 3 else 2 in
      let minutes =
        fl.decimal (pos (decimal_of (slice value split (split + 2) ++ drop (split + 3) value))) 2 in
      let degrees =
        fl.add (fl.of_ℤ (pos (decimal_of (take split value))))
          (fl.div minutes (fl.decimal (pos 60) 0)) in
      if hemisphere == b'S' || hemisphere == b'W' then fl.neg degrees else degrees

  unfoldable pub position_metrics : Option Position → Metrics fl
  unfolding aprs_degrees
  position_metrics none = []
  position_metrics (some m) =
      metric fl "aprs_station_latitude" (aprs_degrees m.lat m.ns false) "deg"
      ∷ metric fl "aprs_station_longitude" (aprs_degrees m.lon m.ew true) "deg"
      ∷ []

  abbrev analog_names : List String
  analog_names =
      "aprs_analog_1" ∷ "aprs_analog_2" ∷ "aprs_analog_3" ∷ "aprs_analog_4" ∷ "aprs_analog_5" ∷ []

  abbrev analogs : List String → List ℕ → Metrics fl
  analogs (name ∷ names) (v ∷ vs) = raw_metric fl name v "count" ∷ analogs names vs
  analogs _ _ = []

  unfoldable pub telemetry_metrics : Option (List ℕ) → Metrics fl
  telemetry_metrics none = []
  telemetry_metrics (some groups) = analogs analog_names groups

  unfoldable pub carried : ℕ → List ℕ → Metrics fl
  unfolding position_metrics telemetry_metrics search_text match_position match_telemetry
  carried code text =
      (if code == 1 then position_metrics (search_text match_position text) else [])
      ++ (if code == 5 then telemetry_metrics (search_text match_telemetry text) else [])

  unfoldable pub demultiplex_payload : List ℕ → Result (Metrics fl)
  demultiplex_payload [] = raise value_error
  demultiplex_payload (c ∷ cs) = elim (type_code c) [
    | none ↦ raise value_error
    | some code ↦ ok (
        metric fl "aprs_packet_type" (fl.decimal (pos code) 0) "type"
        ∷ raw_metric fl "aprs_info_length" (length (c ∷ cs)) "bytes"
        ∷ carried code (c ∷ cs))
  ]
