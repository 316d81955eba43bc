-- ===== src/Sftp/Handler/Opening.antt =====
-- `announceReady` of worker/src/webssh/backend/sftp-handler.ts, which the session queues like the
-- other methods; `initialize` it does not.
use cf_workers_vpsmonitor.Common.{none, if◌then◌else◌}
use cf_workers_vpsmonitor.Common.State.{◌>>=◌, pure, get}
use cf_workers_vpsmonitor.Sftp.Handler.State.{Method, send_json, sftp_ready}

module _ {W : Type 0} where
  -- `announceReady`
  unfoldable pub announce_ready : Method W (Unit {0})
  announce_ready = do
    ready ← get λ h. h.ready
    if ready then send_json (sftp_ready none) else pure tt
