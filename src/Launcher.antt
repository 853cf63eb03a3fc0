-- ===== src/Launcher.antt =====
-- scripts/run_live_pipeline.py: the processes of a pipeline on one machine. What opening a log file and
-- starting a process come to is a parameter.
use text.Mathlib.Text.{◌==◌ as str_eq}
use leo_telemetry.Base.{
  ℕ, ◌≡◌, ◌≢◌, ◌⊎◌, refl, ap, map, ◌++◌, List, [], ◌∷◌, Option, none, some, String, codes,
  if◌then◌else◌, inl, inr, All,
}
use leo_telemetry.Base.Result.{Error, Result, ok, raise, ◌>>=◌, Result-cases}
use leo_telemetry.Config.{Env}

pub record Command : Type 0 where
  pub argv : List String
  pub log_path : String

-- A child of the launcher: its environment, and its number.
pub record Process : Type 0 where
  pub command : Command
  pub env : Env
  pub pid : ℕ

-- env.setdefault(name, value)
abbrev pub setdefault : String → String → Env → Env
setdefault name value env other =
    if str_eq name other
    then elim (env name) [ none ↦ some (codes value) | some old ↦ some old ]
    else env other

-- The environment that `main` prepares.
abbrev pub with_defaults : Env → Env
with_defaults environ = setdefault "LOG_LEVEL" "INFO" (
    setdefault "EXPORTER_PORT" "8000" (
      setdefault "EXPORTER_POLL_INTERVAL_SECONDS" "1" (
        setdefault "DEMUX_POLL_INTERVAL_SECONDS" "2" (
          setdefault "DECODE_POLL_INTERVAL_SECONDS" "2" (
            setdefault "MIN_REQUEST_INTERVAL_SECONDS" "5" (
              setdefault "POLL_INTERVAL_SECONDS" "30"
                (setdefault "REDIS_URL" "redis://localhost:6379/0" environ)))))))

-- The commands, by sys.executable.
abbrev pub commands : String → List Command
commands executable =
    record {
      argv = executable ∷ "-m" ∷ "leo_telemetry.ingest.run" ∷ [];
      log_path = "/tmp/leo-ingest.log";
    }
    ∷ record {
      argv = executable ∷ "-m" ∷ "leo_telemetry.decode.run" ∷ [];
      log_path = "/tmp/leo-decode.log";
    }
    ∷ record {
      argv = executable ∷ "-m" ∷ "leo_telemetry.decode.audio_run" ∷ [];
      log_path = "/tmp/leo-audio-decode.log";
    }
    ∷ record {
      argv = executable ∷ "-m" ∷ "leo_telemetry.demux.run" ∷ [];
      log_path = "/tmp/leo-demux.log";
    }
    ∷ record {
      argv = executable ∷ "scripts/live_dashboard.py" ∷ [];
      log_path = "/tmp/leo-exporter.log";
    }
    ∷ []

-- The operating system: the log file with its first line, and Popen with an environment.
pub record Os : Type 1 where
  pub World : Type 0
  pub open_log : World → Command → Result World
  pub popen : World → Command → Env → Result (ℕ × World)

module _ (os : Os) (environ : Env) where
  open os use {World, open_log, popen}

  unfoldable pub start_process : World → Command → Result (Process × World)
  start_process w command = do
    w' ← open_log w command
    started ← popen w' command environ
    ok (record { command = command; env = environ; pid = started.0 }, started.1)

  -- The loop over the commands; an exception ends it, and leaves what has been started.
  unfoldable pub start_all : World → List Command → List Process × Option Error
  unfolding start_process
  start_all w [] = ([], none)
  start_all w (command ∷ rest) = elim (start_process w command) [
    | raise e ↦ ([], some e)
    | ok (process, w') ↦ let (started, error) = start_all w' rest in (process ∷ started, error)
  ]

  -- main: `env` is prepared, and nothing uses it.
  unfoldable pub main : String → World → List Process × Option Error
  unfolding start_all
  main executable w = let env = with_defaults environ in start_all w (commands executable)

  -- What has been started of some commands: the first of them, in order, each with the launcher's own
  -- environment; all of them, or those before one that could not be started.
  abbrev pub Starts : List Command → List Process × Option Error → Type 0
  Starts all (started, error) =
      (left : List Command) × (map (λ p. p.command) started ++ left ≡ all)
      × All (λ p. p.env ≡ environ) started
      × (((error ≡ none) × (left ≡ [])) ⊎ ((e : Error) × (error ≡ some e) × (left ≢ [])))

  start_all-Starts : (w : World) (all : List Command) → Starts all (start_all w all)
  unfolding start_all
  start_all-Starts w [] = ([], refl, tt, inl (refl, refl))
  start_all-Starts w (command ∷ rest) = elim (Result-cases (open_log w command)) [
    | inr (e, raised) ↦
        rw (raised, start_all, start_process) (command ∷ rest, refl, tt, inr (e, refl, (λ q. cc)))
    | inl (w', opened) ↦ elim (Result-cases (popen w' command environ)) [
      | inr (e, raised) ↦
          rw (opened, raised, start_all, start_process)
            (command ∷ rest, refl, tt, inr (e, refl, (λ q. cc)))
      | inl ((pid, w''), popped) ↦
          let (left, order, same, end) = start_all-Starts w'' rest in
          rw (opened, popped, start_all, start_process)
            (left, ap (λ cs. command ∷ cs) order, (refl, same), end)
    ]
  ]

  -- The launcher starts the five services in order, or those before the first that cannot be started.
  -- Each has the environment of the launcher itself: of the defaults that main prepares, none arrives.
  pub main-Starts :
      (executable : String) (w : World) → Starts (commands executable) (main executable w)
  unfolding main
  main-Starts executable w = start_all-Starts w (commands executable)
