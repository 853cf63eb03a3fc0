-- ===== src/Satnogs/Pacing.antt =====
-- The interval between the requests of a poll.
use leo_telemetry.Base.{
  ℕ, ◌+◌, ◌-◌, ◌*◌, ◌≤◌, ◌≡◌, refl, List, [], ◌∷◌, ltb, ◌==◌, Option, some, Bool-cases, inl, inr,
  arith, length,
}
use leo_telemetry.Base.Result.{ok, Result-cases}
use leo_telemetry.Float.{FloatOps}
use leo_telemetry.Models.{RawFrame}
use leo_telemetry.Satnogs.{Web, parse_retry_after, wait, request, poll_one, poll}

-- The event loop's clock does not go back.
pub record Monotonic {F : Type 0} (web : Web F) : Type 0 where
  pub over_get : (w : web.World) (n : ℕ) → web.clock w ≤ web.clock (web.get w n).1
  pub over_sleep : (w : web.World) (x : F) → web.clock w ≤ web.clock (web.sleep_seconds x w)

module _ (fl : FloatOps) (web : Web fl.F) (monotonic : Monotonic web) where
  open web use {World, clock}

  -- The limiter's last request is at `t`, and no later than now.
  abbrev LastAt : ℕ → Option ℕ → World → Type 0
  LastAt t last w = (last ≡ some t) × (t ≤ clock w)

  wait-LastAt :
      (min_interval last : ℕ) (w : World)
      → last ≤ clock w
      → (t : ℕ) × LastAt t
          (wait fl web min_interval (some last) w).0
          (wait fl web min_interval (some last) w).1
        × (last + min_interval ≤ t)
  unfolding wait
  wait-LastAt min_interval last w past = elim (Bool-cases (ltb (clock w - last) min_interval)) [
    | inl early ↦
        let slept = web.sleep (min_interval - (clock w - last)) w in
        let law = web.sleep_law (min_interval - (clock w - last)) w in
        rw (wait, early) (clock slept, (refl, omega arith), ground arith)
    | inr due ↦ rw (wait, due) (clock w, (refl, omega arith), ground arith)
  ]

  request_clock : (norad_id : ℕ) (w : World) → clock w ≤ clock (request fl web norad_id w).1
  unfolding request
  request_clock norad_id w =
      let once = monotonic.over_get w norad_id in
      let w' = (web.get w norad_id).1 in
      elim (Result-cases (web.get w norad_id).0) [
        | inr (e, raised) ↦ rw (request, raised) once
        | inl (response, answered) ↦ elim (Bool-cases (response.status_code == 429)) [
          | inr fine ↦ rw (request, answered, fine) once
          | inl limited ↦
              let slept = web.sleep_seconds (parse_retry_after fl web response.retry_after) w' in
              let pause = monotonic.over_sleep w' (parse_retry_after fl web response.retry_after) in
              let again = monotonic.over_get slept norad_id in
              rw (request, answered, limited) (omega arith)
        ]
      ]

  poll_one-LastAt :
      (min_interval norad_id last : ℕ) (w : World)
      → last ≤ clock w
      → let after = poll_one fl web min_interval norad_id (some last) w in
        (t : ℕ) × LastAt t after.1 after.2 × (last + min_interval ≤ t)
  unfolding poll_one
  poll_one-LastAt min_interval norad_id last w past =
      let w' = (wait fl web min_interval (some last) w).1 in
      let (t, (at, before), late) = wait-LastAt min_interval last w past in
      let later = request_clock norad_id w' in (t, (at, omega arith), late)

  -- A poll of several satellites that raises nothing paces its requests: after it, the last request that
  -- went through the limiter is at least one interval for each satellite after the last request before
  -- the poll, on a clock that does not go back. The retry after a 429 is not counted.
  pub poll-LastAt :
      (min_interval : ℕ) (norad_ids : List ℕ) (last : ℕ) (w : World) (frames : List RawFrame)
      → last ≤ clock w
      → (poll fl web min_interval norad_ids (some last) w).0 ≡ ok frames
      → let after = poll fl web min_interval norad_ids (some last) w in
        (t : ℕ) × LastAt t after.1 after.2 × (last + length norad_ids * min_interval ≤ t)
  unfolding poll
  poll-LastAt min_interval [] last w frames past done = (last, (refl, past), omega arith)
  poll-LastAt min_interval (norad_id ∷ norad_ids) last w frames past done =
      let first = poll_one fl web min_interval norad_id (some last) w in
      let (t, (at, before), late) = poll_one-LastAt min_interval norad_id last w past in
      elim (Result-cases first.0) [
        | inr (e, raised) ↦ absurd (cc (rw (poll, raised) at done))
        | inl (page, read) ↦
            elim (Result-cases (poll fl web min_interval norad_ids (some t) first.2).0) [
              | inr (e, raised) ↦ absurd (cc (rw (poll, read, at, raised) at done))
              | inl (more, rest) ↦
                  let (u, held, spaced) =
                    poll-LastAt min_interval norad_ids t first.2 more before rest in
                  rw (poll, read, at) (u, held, omega arith)
            ]
      ]
