-- ===== src/Pipeline/Safety.antt =====
-- What holds of the services together, in any order of their passes.
use leo_telemetry.Base.{refl, All-always, ℕ, ◌<◌, ◌≡◌, List, Bool}
use leo_telemetry.Base.Result.{Result, ok}
use leo_telemetry.Float.{FloatOps}
use leo_telemetry.Redis.{Redis}
use leo_telemetry.Pipeline.{Stage, IsOf, WellFormed}
use leo_telemetry.Pipeline.System.{System, Reach, here, next}
use leo_telemetry.Pipeline.History.{polled_in, heard_in, fetched_in, Step-Holds}
use leo_telemetry.Pipeline.Closed.{Closed}
use leo_telemetry.Workers.Demux.{from_exception}

-- Some answer.
abbrev pub Answers : Result Bool → Type 0
Answers r = (b : Bool) × (r ≡ ok b)

module _ (fl : FloatOps) (redis : Redis fl.F) (limit : Stage → ℕ) (sha256_hex : List ℕ → List ℕ)
    (calc : List ℕ → ℕ) (ttl : ℕ) (positive : (s : Stage) → 0 < limit s) where
  open redis use {contents}

  abbrev Sys : Type 0
  Sys = System fl redis limit sha256_hex calc ttl

  -- The classes of the objects suit the decoders.
  IsOf-Closed : Closed fl calc IsOf (λ fetch_bits. Unit)
  IsOf-Closed = record {
    classed = λ s b is. is;
    decodes = λ f d is made. (d, refl);
    hears = λ fetch_bits o frames bytes d any is found m made. (d, refl);
    demuxes = λ d r is made. (r, refl);
    fails = λ d exc is failed. (from_exception d exc, refl);
  }

  -- In every state that the services reach together from well-formed queues, in any order of their
  -- passes and with any answers from outside, each queue holds only objects of its class, within its
  -- bound, which is positive; and the hash of the latest readings holds only readings.
  pub Reach-WellFormed :
      {s t : Sys}
      → Reach fl redis limit sha256_hex calc ttl s t
      → WellFormed limit (contents s.db)
      → WellFormed limit (contents t.db)
  Reach-WellFormed here h = h
  Reach-WellFormed (next r step) h =
      Step-Holds fl redis IsOf (λ fetch_bits. Unit) limit sha256_hex calc ttl positive step
        IsOf-Closed (All-always (λ f. (f, refl)) (polled_in step))
        (All-always (λ o. (o, refl)) (heard_in step))
        (All-always (λ fetch_bits. tt) (fetched_in step)) (Reach-WellFormed r h)
