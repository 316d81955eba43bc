-- ===== src/Sftp/Handler/Tests.antt =====
-- Tests and witnesses for worker/src/webssh/backend/sftp-handler.ts.
use cf_workers_vpsmonitor.Common.{
  ℕ, zero, suc, ◌+◌, true, false, List, [], ◌∷◌, ◌++◌, none, some, ◌≡◌, refl, subst, ok, inr, arith,
  codes,
}
use cf_workers_vpsmonitor.Ssh.Wire.{Bytes}
use cf_workers_vpsmonitor.Sftp.Attrs.{exact}
use cf_workers_vpsmonitor.Sftp.Parsing.{SftpAttrs, DirEntry}
use cf_workers_vpsmonitor.Sftp.Handler.Entries.{
  Text, format_sftp_permissions, parse_longname_identity,
}
use cf_workers_vpsmonitor.Sftp.Handler.State
use cf_workers_vpsmonitor.Sftp.Handler.State.{
  UploadState, Server, Handler, Call, Answer, call, arrive, max_file_size, cancel_arrived,
  version_arrived, directory_arrived, same_codes,
}
use cf_workers_vpsmonitor.Sftp.Handler.Downloads.{download_loop, transfer, filename_of}
use cf_workers_vpsmonitor.Sftp.Handler.Downloads.Loop.{download_loop-enough}
use cf_workers_vpsmonitor.Sftp.Handler.Downloads.Total.{IsTransferred, transfer-total}
use cf_workers_vpsmonitor.Sftp.Handler.Listing.{
  DirectoryListing, list_loop, list_step, pass_batch, add_batch, add_entry, read_listing, is_dot,
  has_named,
}
use cf_workers_vpsmonitor.Sftp.Handler.Listing.Bounds.{AreInBounds, read_listing-bounds}
use cf_workers_vpsmonitor.Sftp.Handler.Listing.Ends.{IsProgressing, HasEnded, list_loop-HasEnded}
use cf_workers_vpsmonitor.Sftp.Handler.Uploads.{
  upload_chunk, accept_chunk, is_bad_chunk, write_chunk, set_upload,
}
use cf_workers_vpsmonitor.Sftp.Handler.Uploads.Aborts.{IsAtRest}
use cf_workers_vpsmonitor.Sftp.Handler.Uploads.Writes.{writes, upload_all, upload_all-writes}
use cf_workers_vpsmonitor.Sftp.Handler.Runs.{
  Action, to_arrive, to_start_upload, to_upload_chunk, to_download, to_finish_upload, act_all,
  new_handler, act_all-IsAtRest,
}

abbrev attrs : SftpAttrs Text
attrs = record {
  flags = 5;
  size = some (exact 2);
  uid = none;
  gid = none;
  permissions = some 0o100644;
  atime = none;
  mtime = none;
  extended = none;
}

abbrev named : Text → DirEntry Text
named name = record { filename = name; longname = []; attrs = attrs }

-- A far side with files of two bytes and a directory of one entry; during a `stat` the user cancels
-- a download.
abbrev far_side : Server ℕ
far_side (State.realpath path) w = ((ok path, []), w)
far_side (State.open_dir path) w = ((ok (1 ∷ []), []), w)
far_side (State.read_dir handle) zero = ((ok (some (named (codes "a") ∷ [])), []), 1)
far_side (State.read_dir handle) (suc w) = ((ok none, []), suc w)
far_side (State.stat path) w = ((ok attrs, cancel_arrived (codes "x") ∷ []), w)
far_side (State.open_file path flags) w = ((ok (2 ∷ []), []), w)
far_side (State.read_file handle offset size) w = ((ok (some (7 ∷ 8 ∷ [])), []), w)
far_side (State.write_file handle offset bytes) w = ((ok tt, []), w)
far_side (State.close_handle handle) w = ((ok tt, []), w)
far_side (State.remove_file path) w = ((ok tt, []), w)
far_side (State.remove_dir path) w = ((ok tt, []), w)
far_side (State.make_dir path permissions) w = ((ok tt, []), w)
far_side (State.rename_file source target) w = ((ok tt, []), w)

abbrev utf8 : Text → Bytes
utf8 text = text

abbrev handler : Handler ℕ
handler = record (new_handler 0) { ready = true }

-- An upload of three bytes, of which one arrives, and a download between.
abbrev actions : List Action
actions =
    to_arrive (version_arrived (ok 3))
    ∷ to_start_upload (codes "u-1") (codes "r") (codes "/a") 3 true
    ∷ to_arrive (directory_arrived (ok (codes "/")))
    ∷ to_upload_chunk (9 ∷ [])
    ∷ to_download (codes "d") (codes "/b")
    ∷ to_finish_upload (codes "r")
    ∷ []

act_all-IsAtRest_example : IsAtRest (act_all far_side utf8 actions (new_handler 0))
act_all-IsAtRest_example = act_all-IsAtRest far_side utf8 actions (new_handler 0) refl

download_loop-enough_example :
    download_loop far_side utf8 (5 + suc max_file_size) 0 (codes "d") (some 2) (2 ∷ []) 0 handler
    ≡ download_loop far_side utf8 (suc max_file_size) 0 (codes "d") (some 2) (2 ∷ []) 0 handler
download_loop-enough_example =
    download_loop-enough far_side utf8 5 0 (codes "d") (some 2) (2 ∷ []) handler

transfer-total_example :
    IsTransferred
      (codes "d")
      (codes "/b")
      handler
      (transfer far_side utf8 0 (codes "d") (codes "/b") (some 2) (2 ∷ []) handler)
transfer-total_example =
    transfer-total far_side utf8 0 (codes "d") (codes "/b") (some 2) (2 ∷ []) handler

read_listing-bounds_example : AreInBounds utf8 (read_listing far_side utf8 3 (1 ∷ []) handler)
read_listing-bounds_example = read_listing-bounds far_side utf8 3 (1 ∷ []) handler

abbrev chunks : List Bytes
chunks = (9 ∷ []) ∷ (8 ∷ 7 ∷ []) ∷ []

abbrev begun : UploadState
begun = record {
  request_id = codes "r";
  destination_path = codes "/a";
  upload_path = codes "/a";
  size = 3;
  received = 0;
  handle = 2 ∷ [];
  handle_closed = false;
  temporary = false;
}

abbrev finished : UploadState
finished = record begun { received = 3 }

abbrev uploading : Handler ℕ
uploading = record handler { upload_state = some begun }

abbrev uploaded : Handler ℕ
uploaded = upload_all far_side utf8 chunks uploading

upload_all-writes_example :
    (finished.received ≡ 3)
    × (writes uploaded.events
        ≡ writes uploading.events ++ ((2 ∷ [], 0, 9 ∷ []) ∷ (2 ∷ [], 1, 8 ∷ 7 ∷ []) ∷ []))
unfolding upload_chunk accept_chunk is_bad_chunk write_chunk set_upload call arrive
upload_all-writes_example =
    upload_all-writes far_side utf8 chunks begun finished uploading refl refl

abbrev no_entries : DirectoryListing
no_entries = record { entries = []; response_bytes = 0; is_truncated = false }

far_side-IsProgressing : IsProgressing far_side
unfolding has_named is_dot same_codes
far_side-IsProgressing handle zero batch e =
    let same : (named (codes "a") ∷ []) ≡ batch = cc in
    inr (subst (λ b. has_named b ≡ true) same refl)
far_side-IsProgressing handle (suc w) batch e = absurd cc

list_loop-HasEnded_example : HasEnded (list_loop far_side utf8 2001 (1 ∷ []) no_entries handler)
list_loop-HasEnded_example =
    list_loop-HasEnded far_side utf8 2001 (1 ∷ []) handler far_side-IsProgressing (omega arith)

-- A far side that goes on to answer with the entry `.` alone: the loop never ends.
abbrev dots : Server ℕ
dots (State.read_dir handle) w = ((ok (some (named (codes ".") ∷ [])), []), w)
dots c w = far_side c w

dots_never_end :
    (fuel : ℕ) (h : Handler ℕ) → (list_loop dots utf8 fuel (1 ∷ []) no_entries h).0 ≡ ok none
unfolding list_loop list_step pass_batch add_batch add_entry is_dot same_codes call arrive
dots_never_end zero h = refl
dots_never_end (suc fuel) h = dots_never_end fuel _

permissions_shown : format_sftp_permissions (some 0o104755) ≡ codes "-rwsr-xr-x"
unfolding format_sftp_permissions
permissions_shown = refl

identity_found :
    parse_longname_identity (codes "-rw-r--r--  1 root wheel  5 Jan  1 a")
    ≡ some (codes "root", codes "wheel")
unfolding parse_longname_identity
identity_found = refl

name_found : filename_of (codes "/var//log/") ≡ codes "log"
unfolding filename_of
name_found = refl
