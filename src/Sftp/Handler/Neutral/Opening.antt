-- ===== src/Sftp/Handler/Neutral/Opening.antt =====
-- `announceReady` of worker/src/webssh/backend/sftp-handler.ts opens nothing.
use cf_workers_vpsmonitor.Sftp.Handler.Opening.{announce_ready}
use cf_workers_vpsmonitor.Sftp.Handler.Handles.{IsNeutral, neutral}

pub announce_ready-IsNeutral : {W : Type 0} → IsNeutral {W = W} announce_ready
unfolding announce_ready
announce_ready-IsNeutral = search neutral
