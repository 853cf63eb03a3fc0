-- ===== src/Workers/Polling/Archived.antt =====
-- The archive keeps up with the queue.
use leo_telemetry.Base.{List}
use leo_telemetry.Base.Result.{Result}
use leo_telemetry.Redis.{Redis}
use leo_telemetry.Workers.Polling.{Ingest}
