-- ===== src/Sftp/Handler/Downloads.antt =====
-- `download` of worker/src/webssh/backend/sftp-handler.ts.
pub mod Loop
pub mod Total
pub mod Released
use cf_workers_vpsmonitor.Common.{
  ℕ, zero, suc, ◌+◌, ◌-◌, Bool, true, false, not, ◌||◌, ◌&&◌, List, [], ◌∷◌, ◌++◌, Option, none,
  some, length, ltb, ◌==◌, min, if◌then◌else◌, codes, Result, ok, throw,
}
use cf_workers_vpsmonitor.Common.State.{◌>>=◌, ◌>>◌, pure, fail, get, modify, refuse}
use cf_workers_vpsmonitor.Ssh.Wire.{Bytes}
use cf_workers_vpsmonitor.Sftp.Attrs.{SftpSize, exact, digits}
use cf_workers_vpsmonitor.Sftp.Handler.Entries.{Text}
use cf_workers_vpsmonitor.Sftp.Handler.State.{
  Server, Handler, Method, is_present, DownloadState, max_file_size, transfer_chunk_size, stat,
  open_file, read_file, close_handle, another_download, file_too_large, remote_size_unsafe,
  download_stopped, HandlerError, download, Message, sftp_download_start, sftp_download_progress,
  sftp_download_done, sftp_download_cancelled, call, send_json, send_binary, catching, finally,
  ignoring, report_error, assert_ready, validate_path,
}

-- A finished part of a path, if it is not empty, in place of the one before.
unfoldable pub later_part : Text → Text → Text
later_part last [] = last
later_part last (c ∷ part) = c ∷ part

-- `path.split('/').filter(Boolean).pop()`, empty for `undefined`.
unfoldable pub last_part : Text → Text → Text → Text
unfolding later_part
last_part last part [] = later_part last part
last_part last part (c ∷ cs) =
    last_part (if c == b'/' then later_part last part else last)
      (if c == b'/' then [] else part ++ (c ∷ [])) cs

unfoldable pub filename_of : Text → Text
unfolding last_part later_part
filename_of path = later_part (codes "download") (last_part [] [] path)

-- `this.activeDownload === download`
unfoldable pub is_active : ℕ → Option DownloadState → Bool
is_active number none = false
is_active number (some d) = d.number == number

-- `download.cancelled`, of a download that can be active.
unfoldable pub is_cancelled : ℕ → Option DownloadState → Bool
is_cancelled number none = false
is_cancelled number (some d) = (d.number == number) && d.cancelled

-- The length of the next read: whole chunks where the size is not known.
unfoldable pub read_length : Option ℕ → ℕ → ℕ
read_length none offset = transfer_chunk_size
read_length (some size) offset = min transfer_chunk_size (size - offset)

-- `size === null || offset < size`
unfoldable pub wants_more : Option ℕ → ℕ → Bool
wants_more none offset = true
wants_more (some size) offset = ltb offset size

-- `size !== null && size > MAX_FILE_SIZE`
unfoldable pub is_too_large : Option ℕ → Bool
is_too_large none = false
is_too_large (some size) = ltb max_file_size size

-- The bytes of a chunk; an end of file and an empty chunk end the loop alike.
abbrev pub chunk_of : Option Bytes → Bytes
chunk_of none = []
chunk_of (some chunk) = chunk

module _ {W : Type 0} (serve : Server W) (utf8 : Text → Bytes) where
  -- `assertDownloadActive`
  unfoldable pub assert_download_active : ℕ → Method W (Unit {0})
  unfolding is_active is_cancelled
  assert_download_active number = do
    bad ← get λ h. not (is_active number h.active_download) || is_cancelled number h.active_download
    refuse bad download_stopped

  -- `safeSize`: a number that the client gives is a safe integer.
  unfoldable pub safe_size : Option SftpSize → Method W (Option ℕ)
  safe_size none = pure none
  safe_size (some (exact size)) = pure (some size)
  safe_size (some (digits size)) = fail remote_size_unsafe

  -- What the loop does with a chunk that is not empty.
  unfoldable pub pass_chunk : (ℕ → Method W ℕ) → Text → Option ℕ → ℕ → Bytes → Method W ℕ
  pass_chunk next id size offset [] = pure offset
  pass_chunk next id size offset (b ∷ bytes) = do
    refuse (ltb max_file_size (offset + length (b ∷ bytes))) file_too_large
    send_binary (b ∷ bytes)
    send_json (sftp_download_progress id (offset + length (b ∷ bytes)) size)
    next (offset + length (b ∷ bytes))

  -- A pass of the loop, with the rest of the loop. A length of 0 cannot be, where more is wanted.
  unfoldable pub download_step : (ℕ → Method W ℕ) → ℕ → Text → Option ℕ → Bytes → ℕ → Method W ℕ
  unfolding wants_more read_length assert_download_active pass_chunk
  download_step next number id size handle offset =
      if wants_more size offset
      then (assert_download_active number
          >> call serve (read_file handle offset (read_length size offset))
          >>= λ chunk.
              assert_download_active number >> pass_chunk next id size offset (chunk_of chunk))
      else pure offset

  -- The loop; the fuel bounds its passes.
  unfoldable pub download_loop : ℕ → ℕ → Text → Option ℕ → Bytes → ℕ → Method W ℕ
  unfolding download_step
  download_loop zero number id size handle offset = pure offset
  download_loop (suc fuel) number id size handle offset =
      download_step (λ o. download_loop fuel number id size handle o) number id size handle offset

  -- From the opened file to the end of the `try` block.
  unfoldable pub transfer : ℕ → Text → Text → Option ℕ → Bytes → Method W (Unit {0})
  unfolding assert_download_active filename_of
  transfer number id path size handle = do
    assert_download_active number
    send_json (sftp_download_start id (filename_of path) size)
    loaded ← download_loop (suc max_file_size) number id size handle 0
    assert_download_active number
    send_json (sftp_download_done id (filename_of path) loaded)

  -- The `catch` block
  unfoldable pub download_failed : ℕ → Text → HandlerError → Method W (Unit {0})
  unfolding is_cancelled
  download_failed number id e = do
    stopped ← get λ h. is_cancelled number h.active_download
    if stopped then send_json (sftp_download_cancelled id) else report_error download id e

  -- The part of the `try` block that has a handle, with its `catch`, and the handle closed.
  unfoldable pub with_file : ℕ → Text → Text → Option ℕ → Bytes → Method W (Unit {0})
  with_file number id path size handle =
      finally (catching (transfer number id path size handle) (download_failed number id))
        (ignoring (call serve (close_handle handle)))

  -- `this.activeDownload = download`
  unfoldable pub install : ℕ → Text → Method W (Unit {0})
  install number id = modify λ h. record h {
    active_download = some (record { number = number; request_id = id; cancelled = false });
  }

  -- The part before, up to the call that opens the file.
  unfoldable pub prepare : ℕ → Text → Text → Method W (Option ℕ)
  unfolding install assert_download_active safe_size is_too_large
  prepare number id path = do
    assert_ready
    validate_path utf8 path
    busy ← get λ h. is_present h.active_download
    refuse busy another_download
    install number id
    attrs ← call serve (stat path)
    assert_download_active number
    size ← safe_size attrs.size
    refuse (is_too_large size) file_too_large
    pure size

  unfoldable pub open_download : ℕ → Text → Text → Method W (Option ℕ × Bytes)
  unfolding prepare
  open_download number id path = do
    size ← prepare number id path
    handle ← call serve (open_file path 1)
    pure (size, handle)

  unfoldable pub after_open :
      ℕ
      → Text
      → Text
      → Result HandlerError (Option ℕ × Bytes) × Handler W
      → Result HandlerError (Unit {0}) × Handler W
  unfolding with_file download_failed
  after_open number id path (ok (size, handle), h) = with_file number id path size handle h
  after_open number id path (throw e, h) = download_failed number id e h

  -- `if (this.activeDownload === download) this.activeDownload = null`
  unfoldable pub clear_active : ℕ → Method W (Unit {0})
  unfolding is_active
  clear_active number = modify λ h. record h {
    active_download = if is_active number h.active_download then none else h.active_download;
  }

  -- `new DownloadState`
  unfoldable pub take_number : Method W ℕ
  take_number h = (ok h.next_number, record h { next_number = h.next_number + 1 })

  unfoldable pub run_download : ℕ → Text → Text → Method W (Unit {0})
  unfolding open_download after_open clear_active
  run_download number id path =
      finally (λ h. after_open number id path (open_download number id path h))
        (clear_active number)

  -- `download`
  unfoldable pub start_download : Text → Text → Method W (Unit {0})
  unfolding take_number run_download
  start_download id path = do number ← take_number; run_download number id path
