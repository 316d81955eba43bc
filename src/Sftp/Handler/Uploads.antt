-- ===== src/Sftp/Handler/Uploads.antt =====
-- The upload methods of worker/src/webssh/backend/sftp-handler.ts.
pub mod Aborts
pub mod Begin
pub mod Rest
pub mod Writes
use cf_workers_vpsmonitor.Common.{
  ℕ, ◌+◌, Bool, true, false, not, ◌||◌, List, [], ◌∷◌, ◌++◌, Option, none, some, length, ltb, ◌==◌,
  if◌then◌else◌, codes,
}
use cf_workers_vpsmonitor.Common.State.{◌>>=◌, ◌>>◌, pure, fail, get, modify, refuse}
use cf_workers_vpsmonitor.Ssh.Wire.{Bytes}
use cf_workers_vpsmonitor.Sftp.Handler.Entries.{Text}
use cf_workers_vpsmonitor.Sftp.Handler.State.{
  Server, Handler, Method, UploadState, max_file_size, transfer_chunk_size, open_file, write_file,
  close_handle, remove_file, rename_file, another_upload, invalid_upload_size, no_upload,
  invalid_chunk, no_matching_upload, upload_incomplete, upload, sftp_upload_ready,
  sftp_upload_progress, sftp_upload_complete, sftp_upload_cancelled, same_codes, call, send_json,
  catching, ignoring, report_error, HandlerError, is_present, assert_ready, validate_path,
}

-- `path.slice(0, path.lastIndexOf('/') + 1)`, or the empty string: the parts that are complete,
-- and the part that may be.
unfoldable pub parent_from : Text → Text → Text → Text
parent_from parent part [] = parent
parent_from parent part (c ∷ cs) =
    parent_from (if c == b'/' then parent ++ (part ++ (c ∷ [])) else parent)
      (if c == b'/' then [] else part ++ (c ∷ [])) cs

-- `replaceAll('-', '')`
unfoldable pub without_dashes : Text → Text
without_dashes [] = []
without_dashes (c ∷ cs) = if c == b'-' then without_dashes cs else c ∷ without_dashes cs

-- `WRITE | CREATE | TRUNCATE | EXCLUSIVE`
abbrev pub upload_flags : ℕ
upload_flags = 0x2 + 0x8 + 0x10 + 0x20

abbrev pub empty_upload : Text → Text → Text → ℕ → Bytes → Bool → UploadState
empty_upload id path upload_path size handle overwrite = record {
  request_id = id;
  destination_path = path;
  upload_path = upload_path;
  size = size;
  received = 0;
  handle = handle;
  handle_closed = false;
  temporary = overwrite;
}

-- The upload in progress, if it has that request's number.
unfoldable pub matching : Text → Option UploadState → Option UploadState
unfolding same_codes
matching id none = none
matching id (some u) = if same_codes u.request_id id then some u else none

-- The test of `uploadChunk`
unfoldable pub is_bad_chunk : UploadState → Bytes → Bool
is_bad_chunk u bytes =
    (length bytes == 0)
    || ltb transfer_chunk_size (length bytes)
    || ltb u.size (u.received + length bytes)

module _ {W : Type 0} (serve : Server W) (utf8 : Text → Bytes) where
  -- `temporaryUploadPath`, with the string of `crypto.randomUUID()`
  unfoldable pub temporary_upload_path : Text → Text → Method W Text
  unfolding parent_from without_dashes
  temporary_upload_path uuid path = do
    let temporary = parent_from [] [] path ++ (codes ".cf-webssh-upload-" ++ without_dashes uuid)
    validate_path utf8 temporary
    pure temporary

  -- The last two tests of `startUpload`.
  unfoldable pub check_room : ℕ → Method W (Unit {0})
  check_room size = do
    busy ← get λ h. is_present h.upload_state
    refuse busy another_upload
    refuse (ltb max_file_size size) invalid_upload_size

  -- The tests of `startUpload`, in the order of the source.
  unfoldable pub check_upload : Text → ℕ → Method W (Unit {0})
  unfolding check_room
  check_upload path size = do assert_ready; validate_path utf8 path; check_room size

  unfoldable pub choose_path : Text → Text → Bool → Method W Text
  unfolding temporary_upload_path
  choose_path uuid path overwrite = if overwrite then temporary_upload_path uuid path else pure path

  unfoldable pub set_upload : Option UploadState → Method W (Unit {0})
  set_upload u = modify λ h. record h { upload_state = u }

  -- The `try` block of `startUpload`
  unfoldable pub begin_upload : Text → Text → Text → ℕ → Bool → Method W (Unit {0})
  unfolding check_upload choose_path set_upload
  begin_upload uuid id path size overwrite = do
    check_upload path size
    upload_path ← choose_path uuid path overwrite
    handle ← call serve (open_file upload_path upload_flags)
    set_upload (some (empty_upload id path upload_path size handle overwrite))
    send_json (sftp_upload_ready id path size)

  -- `startUpload`
  unfoldable pub start_upload : Text → Text → Text → ℕ → Bool → Method W (Unit {0})
  unfolding begin_upload
  start_upload uuid id path size overwrite =
      catching (begin_upload uuid id path size overwrite) (report_error upload id)

  -- `abortUpload` of the upload in progress, whose partial file is removed. `handleClosed` is a
  -- field of an object that nothing refers to any more.
  unfoldable pub abort_upload : UploadState → Method W (Unit {0})
  unfolding set_upload
  abort_upload u = do
    set_upload none
    if u.handle_closed then pure tt else ignoring (call serve (close_handle u.handle))
    ignoring (call serve (remove_file u.upload_path))

  -- The `try` block of `uploadChunk`
  unfoldable pub write_chunk : UploadState → Bytes → Method W (Unit {0})
  unfolding set_upload
  write_chunk u bytes = do
    call serve (write_file u.handle u.received bytes)
    set_upload (some (record u { received = u.received + length bytes }))
    send_json (sftp_upload_progress u.request_id (u.received + length bytes) u.size)

  unfoldable pub accept_chunk : Option UploadState → Bytes → Method W (Unit {0})
  unfolding is_bad_chunk abort_upload write_chunk
  accept_chunk none bytes = fail no_upload
  accept_chunk (some u) bytes =
      if is_bad_chunk u bytes
      then (abort_upload u >> report_error upload u.request_id invalid_chunk)
      else catching (write_chunk u bytes)
          (λ e. abort_upload u >> report_error upload u.request_id e)

  -- `uploadChunk`
  unfoldable pub upload_chunk : Bytes → Method W (Unit {0})
  unfolding accept_chunk
  upload_chunk bytes = do u ← get λ h. h.upload_state; accept_chunk u bytes

  -- The `try` block of `finishUpload`, for the upload with that number.
  unfoldable pub complete_upload : UploadState → Method W (Unit {0})
  unfolding set_upload
  complete_upload u = do
    refuse (not (u.received == u.size)) upload_incomplete
    call serve (close_handle u.handle)
    set_upload (some (record u { handle_closed = true }))
    if u.temporary then call serve (rename_file u.upload_path u.destination_path) else pure tt
    set_upload none
    send_json (sftp_upload_complete u.request_id u.destination_path u.received)

  unfoldable pub finish_matching : Option UploadState → Method W (Unit {0})
  unfolding complete_upload
  finish_matching none = fail no_matching_upload
  finish_matching (some u) = complete_upload u

  unfoldable pub abort_present : Option UploadState → Method W (Unit {0})
  unfolding abort_upload
  abort_present none = pure tt
  abort_present (some u) = abort_upload u

  -- The `catch` block of `finishUpload`, which aborts an upload of another number too. The source
  -- aborts the object that it took at the start, which is the one that the state has here: only
  -- `complete_upload` changes the field, where nothing is thrown any more.
  unfoldable pub finish_failed : Text → HandlerError → Method W (Unit {0})
  unfolding abort_present
  finish_failed id e = do u ← get λ h. h.upload_state; abort_present u; report_error upload id e

  -- `finishUpload`
  unfoldable pub finish_upload : Text → Method W (Unit {0})
  unfolding matching finish_matching finish_failed
  finish_upload id = do
    u ← get λ h. h.upload_state
    catching (finish_matching (matching id u)) (finish_failed id)

  unfoldable pub cancel_matching : Text → Option UploadState → Method W (Unit {0})
  unfolding abort_upload
  cancel_matching id none = pure tt
  cancel_matching id (some u) = abort_upload u >> send_json (sftp_upload_cancelled id)

  -- `cancelUpload`
  unfoldable pub cancel_upload : Text → Method W (Unit {0})
  unfolding matching cancel_matching
  cancel_upload id = do u ← get λ h. h.upload_state; cancel_matching id (matching id u)
