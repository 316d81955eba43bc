-- ===== src/Sftp/Handler/Protocol.antt =====
-- What `SFTPHandler` of worker/src/webssh/backend/sftp-handler.ts asks of the SFTP client, and what
-- it sends to the browser.
use cf_workers_vpsmonitor.Common.{ℕ, Bool, List, Option, Result}
use cf_workers_vpsmonitor.Ssh.Wire.{Bytes}
use cf_workers_vpsmonitor.Sftp.Frames.{SftpError}
use cf_workers_vpsmonitor.Sftp.Parsing.{SftpAttrs, DirEntry}
use cf_workers_vpsmonitor.Sftp.Handler.Entries.{Text, FormattedEntry}

-- A call of the client, of which the handler awaits the answer.
pub data Call : Type 0 where
  realpath : Text → Call
  open_dir : Text → Call
  read_dir : Bytes → Call
  stat : Text → Call
  open_file : Text → ℕ → Call
  read_file : Bytes → ℕ → ℕ → Call
  write_file : Bytes → ℕ → Bytes → Call
  close_handle : Bytes → Call
  remove_file : Text → Call
  remove_dir : Text → Call
  make_dir : Text → ℕ → Call
  rename_file : Text → Text → Call

-- What the promise of a call resolves with.
abbrev pub Answer : Call → Type 0
Answer (realpath path) = Text
Answer (open_dir path) = Bytes
Answer (read_dir handle) = Option (List (DirEntry Text))
Answer (stat path) = SftpAttrs Text
Answer (open_file path flags) = Bytes
Answer (read_file handle offset size) = Option Bytes
Answer (write_file handle offset data_bytes) = Unit
Answer (close_handle handle) = Unit
Answer (remove_file path) = Unit
Answer (remove_dir path) = Unit
Answer (make_dir path permissions) = Unit
Answer (rename_file source target) = Unit

-- The errors that the handler throws; `rejected` is that of a promise of the client, `send_failed`
-- one of the channel in `flush`.
pub data HandlerError : Type 0 where
  not_ready invalid_path unsupported_version : HandlerError
  invalid_filename : HandlerError
  another_download file_too_large remote_size_unsafe download_stopped : HandlerError
  another_upload invalid_upload_size no_upload invalid_chunk no_matching_upload upload_incomplete :
      HandlerError
  send_failed : HandlerError
  rejected : SftpError → HandlerError

-- The operation that a reported error names.
pub data Task : Type 0 where
  init protocol list download upload remove_directory delete make_directory renaming : Task

-- The messages of `sendJSON`. The code and the text of an error follow from the error.
pub data Message : Type 0 where
  sftp_ready : Option Text → Message
  sftp_closed : Message
  sftp_list_result : Text → Text → Bool → List FormattedEntry → Message
  sftp_download_start : Text → Text → Option ℕ → Message
  sftp_download_progress : Text → ℕ → Option ℕ → Message
  sftp_download_done : Text → Text → ℕ → Message
  sftp_download_cancelled : Text → Message
  sftp_upload_ready : Text → Text → ℕ → Message
  sftp_upload_progress : Text → ℕ → ℕ → Message
  sftp_upload_complete : Text → Text → ℕ → Message
  sftp_upload_cancelled : Text → Message
  sftp_removed : Task → Text → Text → Message
  sftp_mkdir_result : Text → Text → Message
  sftp_rename_result : Text → Text → Text → Message
  sftp_error : Option Text → Task → HandlerError → Message

-- What the handler did, in order.
pub data Event : Type 0 where
  answered : (c : Call) → Result SftpError (Answer c) → Event
  sent_json : Message → Event
  sent_binary : Bytes → Event
