-- ===== src/Sftp/Handler/State.antt =====
-- The state of `SFTPHandler` in worker/src/webssh/backend/sftp-handler.ts, its short methods, and
-- what arrives while it awaits an answer.
use cf_workers_vpsmonitor.Common.{
  ℕ, ◌*◌, Bool, true, false, not, ◌||◌, ◌&&◌, List, [], ◌∷◌, ◌++◌, Option, none, some, length, ltb,
  ◌==◌, Result, ok, throw, if◌then◌else◌, codes,
}
use cf_workers_vpsmonitor.Common.State.{M, ◌>>=◌, get, modify, refuse}
use cf_workers_vpsmonitor.Ssh.Wire.{Bytes}
use cf_workers_vpsmonitor.Sftp.Frames.{SftpError}
use cf_workers_vpsmonitor.Sftp.Dispatch.{sftp_version}
pub use cf_workers_vpsmonitor.Sftp.Handler.Protocol.{
  Call, Answer, HandlerError, Task, Message, Event, realpath, open_dir, read_dir, stat, open_file,
  read_file, write_file, close_handle, remove_file, remove_dir, make_dir, rename_file, not_ready,
  invalid_path, unsupported_version, invalid_filename, another_download, file_too_large,
  remote_size_unsafe, download_stopped, another_upload, invalid_upload_size, no_upload,
  invalid_chunk, no_matching_upload, upload_incomplete, send_failed, rejected, init, protocol, list,
  download, upload, remove_directory, delete, make_directory, renaming, sftp_ready, sftp_closed,
  sftp_list_result, sftp_download_start, sftp_download_progress, sftp_download_done,
  sftp_download_cancelled, sftp_upload_ready, sftp_upload_progress, sftp_upload_complete,
  sftp_upload_cancelled, sftp_removed, sftp_mkdir_result, sftp_rename_result, sftp_error, answered,
  sent_json, sent_binary,
}
use cf_workers_vpsmonitor.Sftp.Handler.Entries.{Text}

abbrev pub max_path_bytes : ℕ
max_path_bytes = 4096

abbrev pub max_file_size : ℕ
max_file_size = 64 * 1024 * 1024

abbrev pub transfer_chunk_size : ℕ
transfer_chunk_size = 64 * 1024

-- `UploadState`
pub record UploadState : Type 0 where
  pub request_id : Text
  pub destination_path : Text
  pub upload_path : Text
  pub size : ℕ
  pub received : ℕ
  pub handle : Bytes
  pub handle_closed : Bool
  pub temporary : Bool

-- `DownloadState`; the number stands for the object's identity.
pub record DownloadState : Type 0 where
  pub number : ℕ
  pub request_id : Text
  pub cancelled : Bool

-- What may run while a method awaits an answer: `cancelDownload`, `onClosed`, `dispose`, the two
-- parts of `initialize`, which the session does not queue behind the other methods, and the error of
-- a `flush`.
pub data Arrival : Type 0 where
  cancel_arrived : Text → Arrival
  close_arrived dispose_arrived : Arrival
  version_arrived : Result SftpError ℕ → Arrival
  directory_arrived : Result SftpError Text → Arrival
  flush_failed : Arrival

-- The fields of `SFTPHandler`, the number of the next `DownloadState`, and a world outside it.
pub record Handler (W : Type 0) : Type 0 where
  pub ready : Bool
  pub disposed : Bool
  pub active_download : Option DownloadState
  pub upload_state : Option UploadState
  pub next_number : ℕ
  pub events : List Event
  pub world : W

abbrev pub Method : Type 0 → Type 0 → Type 0
Method W A = M HandlerError (Handler W) A

-- The client and the far side: the answer to a call, and what arrived until then.
abbrev pub Server : Type 0 → Type 0
Server W = (c : Call) → W → (Result SftpError (Answer c) × List Arrival) × W

abbrev pub is_present : {A : Type 0} → Option A → Bool
is_present none = false
is_present (some a) = true

-- Equal strings, and equal handles
unfoldable pub same_codes : List ℕ → List ℕ → Bool
same_codes [] [] = true
same_codes [] (d ∷ ds) = false
same_codes (c ∷ cs) [] = false
same_codes (c ∷ cs) (d ∷ ds) = (c == d) && same_codes cs ds

unfoldable pub has_nul : Text → Bool
has_nul [] = false
has_nul (c ∷ cs) = (c == 0) || has_nul cs

unfoldable pub cancel_if : Text → Option DownloadState → Option DownloadState
unfolding same_codes
cancel_if id none = none
cancel_if id (some d) = some (record d { cancelled = same_codes d.request_id id || d.cancelled })

abbrev pub lift : {A : Type 0} → Result SftpError A → Result HandlerError A
lift (ok a) = ok a
lift (throw e) = throw (rejected e)

unfoldable pub is_invalid_path : (Text → Bytes) → Text → Bool
unfolding has_nul
is_invalid_path utf8 path =
    ltb (length (utf8 path)) 1 || ltb max_path_bytes (length (utf8 path)) || has_nul path

-- The working directory, or `.` where the far side does not tell.
abbrev pub working_directory : Result SftpError Text → Text
working_directory (ok cwd) = cwd
working_directory (throw e) = codes "."

module _ {W : Type 0} where
  abbrev pub note : Event → Handler W → Handler W
  note e h = record h { events = h.events ++ (e ∷ []) }

  abbrev pub send_json : Message → Method W (Unit {0})
  send_json message = modify (note (sent_json message))

  abbrev pub send_binary : Bytes → Method W (Unit {0})
  send_binary bytes = modify (note (sent_binary bytes))

  -- `dispose`; the queue of the bytes to send is not part of the model.
  unfoldable pub dispose : Handler W → Handler W
  dispose h = record h { ready = h.ready && h.disposed; disposed = true }

  -- `onClosed`
  unfoldable pub on_closed : Handler W → Handler W
  unfolding dispose
  on_closed h = dispose (note (sent_json sftp_closed) (record h { ready = false }))

  -- `cancelDownload`
  unfoldable pub cancel_download : Text → Handler W → Handler W
  unfolding cancel_if
  cancel_download id h = record h { active_download = cancel_if id h.active_download }

  -- `initialize` from the answer of `client.initialize` to the call of `realpath`.
  unfoldable pub receive_version : Result SftpError ℕ → Handler W → Handler W
  receive_version (ok version) h =
      if version == sftp_version
      then record h { ready = true }
      else note (sent_json (sftp_error none init unsupported_version)) h
  receive_version (throw e) h = note (sent_json (sftp_error none init (rejected e))) h

  -- `initialize` from the answer of `realpath` on.
  unfoldable pub receive_directory : Result SftpError Text → Handler W → Handler W
  receive_directory r h = note (sent_json (sftp_ready (some (working_directory r)))) h

  unfoldable pub receive : Arrival → Handler W → Handler W
  unfolding cancel_download on_closed receive_version receive_directory
  receive (cancel_arrived id) h = cancel_download id h
  receive close_arrived h = on_closed h
  receive dispose_arrived h = dispose h
  receive (version_arrived r) h = receive_version r h
  receive (directory_arrived r) h = receive_directory r h
  receive flush_failed h = note (sent_json (sftp_error none protocol send_failed)) h

  unfoldable pub arrive : List Arrival → Handler W → Handler W
  unfolding receive
  arrive [] h = h
  arrive (arrival ∷ more) h = arrive more (receive arrival h)

  -- `await this.client.…(…)`
  unfoldable pub call : Server W → (c : Call) → Method W (Answer c)
  unfolding arrive
  call serve c h =
      let ((answer, arrivals), world) = serve c h.world in
      (lift answer, arrive arrivals (note (answered c answer) (record h { world = world })))

  -- `try { … } catch (error) { … }`
  abbrev pub caught :
      {A : Type 0}
      → Result HandlerError A × Handler W
      → (HandlerError → Method W A)
      → Result HandlerError A × Handler W
  caught (ok a, h) f = (ok a, h)
  caught (throw e, h) f = f e h

  abbrev pub catching : {A : Type 0} → Method W A → (HandlerError → Method W A) → Method W A
  catching m f h = caught (m h) f

  -- `try { … } finally { … }`, where the last part throws nothing.
  abbrev pub finally : {A : Type 0} → Method W A → Method W (Unit {0}) → Method W A
  finally m last h = ((m h).0, (last (m h).1).1)

  -- `.catch(() => undefined)`
  abbrev pub ignoring : {A : Type 0} → Method W A → Method W (Unit {0})
  ignoring m h = (ok tt, (m h).1)

  -- `reportError`
  unfoldable pub report_error : Task → Text → HandlerError → Method W (Unit {0})
  report_error task id e = send_json (sftp_error (some id) task e)

  -- `assertReady`
  unfoldable pub assert_ready : Method W (Unit {0})
  assert_ready = do bad ← get λ h. not h.ready || h.disposed; refuse bad not_ready

  -- `validatePath`
  unfoldable pub validate_path : (Text → Bytes) → Text → Method W (Unit {0})
  unfolding is_invalid_path
  validate_path utf8 path = refuse (is_invalid_path utf8 path) invalid_path
