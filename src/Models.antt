-- ===== src/Models.antt =====
-- leo_telemetry/common/models.py and leo_telemetry/common/satellites.py: the records that the stages
-- hand to one another;
-- NORAD ids, observation ids and station ids are integers that the code only copies and compares,
-- and the one negative value, the -1 for a missing observation id, is written as an integer.
use leo_telemetry.Base.{
  zero, suc, ◌+◌, ◌/◌, ◌%◌, ltb, ℕ, List, [], ◌∷◌, ◌++◌, Bool, String, map, if◌then◌else◌,
}
use leo_telemetry.Base.Int.{ℤ, pos, negsuc}
use leo_telemetry.Timestamps.{Timestamp}

pub record RawFrame : Type 0 where
  pub norad_id : ℕ
  pub observation_id : ℤ
  pub observer_station_id : ℤ
  pub received_at : Timestamp
  pub raw_bytes : List ℕ

pub record DecodedFrame : Type 0 where
  pub norad_id : ℕ
  pub received_at : Timestamp
  pub src_callsign : List ℕ
  pub dest_callsign : List ℕ
  pub payload : List ℕ
  pub crc_valid : Bool

-- `F` is the type of the floating-point values.
pub record TelemetryMetric (F : Type 0) : Type 0 where
  pub name : String
  pub value : F
  pub unit : String

pub record TelemetryReading (F : Type 0) : Type 0 where
  pub norad_id : ℕ
  pub received_at : Timestamp
  pub metrics : List (TelemetryMetric F)

pub record SatelliteConfig : Type 0 where
  pub name : String
  pub norad_id : ℕ
  pub maintainer : String
  pub protocol : String

abbrev pub target_satellites : List SatelliteConfig
target_satellites =
    record {
      name = "ORESAT0.5";
      norad_id = 60525;
      maintainer = "Portland State Aerospace Society";
      protocol = "9600bps FSK AX.25";
    }
    ∷ record {
      name = "SAL-E/CP16";
      norad_id = 68458;
      maintainer = "California Polytechnic State University";
      protocol = "9600bps FSK AX.25";
    }
    ∷ record {
      name = "CAPE-1";
      norad_id = 31130;
      maintainer = "University of Louisiana";
      protocol = "CW beacon";
    }
    ∷ record {
      name = "SONATE-2";
      norad_id = 59112;
      maintainer = "University of Wuerzburg";
      protocol = "9600bps GMSK AX.25 (CCSDS)";
    }
    ∷ []

abbrev pub norad_ids : List ℕ
norad_ids = map (λ s. s.norad_id) target_satellites

abbrev pub audio_satellites : List SatelliteConfig
audio_satellites =
    record {
      name = "ISS";
      norad_id = 25544;
      maintainer = "NASA / Roscosmos";
      protocol = "AFSK1200 APRS digipeater";
    }
    ∷ []

abbrev pub audio_norad_ids : List ℕ
audio_norad_ids = map (λ s. s.norad_id) audio_satellites

-- leo_telemetry/ingest/audio_client.py
pub record AudioObservation : Type 0 where
  pub norad_id : ℕ
  pub observation_id : ℕ
  pub station_id : ℕ
  pub observed_at : Timestamp
  pub payload_url : String

-- leo_telemetry/demux/dlq.py; the traceback's text and the clock are what the handler finds.
pub record FailedDemuxFrame : Type 0 where
  pub norad_id : ℕ
  pub received_at : Timestamp
  pub payload_hex : List ℕ
  pub error_message : String
  pub traceback : String
  pub failed_at : ℕ

-- The decimal text of a number, most significant digit first.
unfoldable pub digits_of : ℕ → ℕ → List ℕ
digits_of zero n = []
digits_of (suc fuel) n =
    let front = digits_of fuel (n / 10) in (if ltb n 10 then [] else front) ++ (b'0' + n % 10) ∷ []

-- str(n); a number has fewer digits than its successor.
unfoldable pub show_ℕ : ℕ → List ℕ
unfolding digits_of
show_ℕ n = digits_of (suc n) n

unfoldable pub show_ℤ : ℤ → List ℕ
unfolding show_ℕ
show_ℤ (pos n) = show_ℕ n
show_ℤ (negsuc n) = b'-' ∷ show_ℕ (suc n)

-- RawFrame.dedup_key; `sha256_hex` is hashlib's digest as text.
unfoldable pub dedup_key : (List ℕ → List ℕ) → RawFrame → List ℕ
dedup_key sha256_hex frame =
    show_ℕ frame.norad_id
    ++ (b':' ∷ (show_ℤ frame.observation_id ++ (b':' ∷ sha256_hex frame.raw_bytes)))

-- AudioObservation.dedup_key
unfoldable pub audio_dedup_key : AudioObservation → List ℕ
audio_dedup_key o = show_ℕ o.norad_id ++ (b':' ∷ show_ℕ o.observation_id)
