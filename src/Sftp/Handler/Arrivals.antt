-- ===== src/Sftp/Handler/Arrivals.antt =====
-- What the arrivals of worker/src/webssh/backend/sftp-handler.ts do to the handler: they send
-- messages, set its flags and cancel the download, and do nothing else.
use cf_workers_vpsmonitor.Common.{
  Bool, true, false, List, [], ◌∷◌, none, some, ◌==◌, ok, throw, Bool-cases, inl, inr, ◌&&◌,
}
use cf_workers_vpsmonitor.Sftp.Dispatch.{sftp_version}
use cf_workers_vpsmonitor.Sftp.Handler.Entries.{Text}
use cf_workers_vpsmonitor.Sftp.Handler.State.{
  Message, sent_json, sftp_closed, sftp_ready, sftp_error, init, protocol, send_failed, rejected,
  unsupported_version, Arrival, cancel_arrived, close_arrived, dispose_arrived, version_arrived,
  directory_arrived, flush_failed, Handler, note, dispose, on_closed, cancel_download,
  receive_version, working_directory, receive_directory, receive, arrive,
}

module _ {W : Type 0} (P : Handler W → Type 0)
    (said : (message : Message) (h : Handler W) → P h → P (note (sent_json message) h))
    (flagged : (r d : Bool) (h : Handler W) → P h → P (record h { ready = r; disposed = d }))
    (cancelled : (id : Text) (h : Handler W) → P h → P (cancel_download id h)) where
  receive-keeps : (arrival : Arrival) (h : Handler W) → P h → P (receive arrival h)
  unfolding receive on_closed dispose receive_version receive_directory
  receive-keeps (cancel_arrived id) h p = cancelled id h p
  receive-keeps close_arrived h p =
      flagged false true _ (said sftp_closed _ (flagged false h.disposed h p))
  receive-keeps dispose_arrived h p = flagged (h.ready && h.disposed) true h p
  receive-keeps (version_arrived (ok version)) h p = elim (Bool-cases (version == sftp_version)) [
    | inl good ↦ rw good (flagged true h.disposed h p)
    | inr bad ↦ rw bad (said (sftp_error none init unsupported_version) h p)
  ]
  receive-keeps (version_arrived (throw e)) h p = said (sftp_error none init (rejected e)) h p
  receive-keeps (directory_arrived r) h p = said (sftp_ready (some (working_directory r))) h p
  receive-keeps flush_failed h p = said (sftp_error none protocol send_failed) h p

  pub arrive-keeps : (news : List Arrival) (h : Handler W) → P h → P (arrive news h)
  unfolding arrive
  arrive-keeps [] h p = p
  arrive-keeps (arrival ∷ news) h p =
      arrive-keeps news (receive arrival h) (receive-keeps arrival h p)
