-- ===== src/Sftp/Handler/Listing.antt =====
-- `initialize`, `list`, `remove`, `mkdir` and `rename` of worker/src/webssh/backend/sftp-handler.ts.
pub mod Bounds
pub mod Ends
use cf_workers_vpsmonitor.Common.{
  ℕ, zero, suc, ◌+◌, ◌*◌, Bool, true, false, not, ◌||◌, List, [], ◌∷◌, ◌++◌, Option, none, some,
  length, ltb, ◌==◌, if◌then◌else◌, codes, Result, ok, throw,
}
use cf_workers_vpsmonitor.Common.State.{◌>>=◌, ◌>>◌, pure, fail, get, modify, refuse}
use cf_workers_vpsmonitor.Ssh.Wire.{Bytes}
use cf_workers_vpsmonitor.Sftp.Parsing.{DirEntry}
use cf_workers_vpsmonitor.Sftp.Handler.Entries.{Text, FormattedEntry, format_entry}
use cf_workers_vpsmonitor.Sftp.Handler.State.{
  Server, Handler, Method, Task, list, remove_directory, delete, make_directory, renaming,
  HandlerError, invalid_filename, realpath, open_dir, read_dir, close_handle, remove_file,
  remove_dir, make_dir, rename_file, sftp_list_result, sftp_removed, sftp_mkdir_result,
  sftp_rename_result, same_codes, has_nul, call, send_json, catching, finally, ignoring,
  report_error, assert_ready, validate_path,
}

abbrev pub max_directory_entries : ℕ
max_directory_entries = 2000

abbrev pub max_directory_response_bytes : ℕ
max_directory_response_bytes = 2 * 1024 * 1024

abbrev pub max_filename_bytes : ℕ
max_filename_bytes = 1024

-- `entry.filename === '.' || entry.filename === '..'`
unfoldable pub is_dot : DirEntry Text → Bool
unfolding same_codes
is_dot entry = same_codes entry.filename (codes ".") || same_codes entry.filename (codes "..")

-- The entries that are kept, their estimated bytes, and whether some were left out.
pub record DirectoryListing : Type 0 where
  pub entries : List FormattedEntry
  pub response_bytes : ℕ
  pub is_truncated : Bool

abbrev text_length : Option Text → ℕ
text_length none = 0
text_length (some text) = length text

module _ (utf8 : Text → Bytes) where
  unfoldable pub is_invalid_filename : Text → Bool
  unfolding has_nul
  is_invalid_filename name =
      ltb (length (utf8 name)) 1 || ltb max_filename_bytes (length (utf8 name)) || has_nul name

  unfoldable pub estimated_bytes : DirEntry Text → ℕ
  unfolding format_entry
  estimated_bytes entry =
      length (utf8 entry.filename)
      + text_length (format_entry entry).owner
      + text_length (format_entry entry).group
      + 256

  unfoldable pub keep_entry : DirEntry Text → DirectoryListing → DirectoryListing
  unfolding format_entry estimated_bytes
  keep_entry entry l = record l {
    entries = l.entries ++ (format_entry entry ∷ []);
    response_bytes = l.response_bytes + estimated_bytes entry;
  }

  -- A pass of the loop over a batch: what becomes of the listing.
  unfoldable pub add_entry : DirEntry Text → DirectoryListing → Result HandlerError DirectoryListing
  unfolding is_dot is_invalid_filename estimated_bytes keep_entry
  add_entry entry l =
      if is_dot entry
      then ok l
      else (if length l.entries == max_directory_entries
          then ok (record l { is_truncated = true })
          else (if is_invalid_filename entry.filename
              then throw invalid_filename
              else (if ltb max_directory_response_bytes (l.response_bytes + estimated_bytes entry)
                  then ok (record l { is_truncated = true })
                  else ok (keep_entry entry l))))

  -- The loop over a batch, which a truncated listing ends.
  unfoldable pub add_batch :
      List (DirEntry Text)
      → Result HandlerError DirectoryListing
      → Result HandlerError DirectoryListing
  unfolding add_entry
  add_batch entries (throw e) = throw e
  add_batch [] (ok l) = ok l
  add_batch (entry ∷ entries) (ok l) =
      add_batch entries (if l.is_truncated then ok l else add_entry entry l)

-- `batch.some(…)`
unfoldable pub has_named : List (DirEntry Text) → Bool
unfolding is_dot
has_named [] = false
has_named (entry ∷ entries) = not (is_dot entry) || has_named entries

abbrev pub batch_of : Option (List (DirEntry Text)) → List (DirEntry Text)
batch_of none = []
batch_of (some batch) = batch

abbrev pub from_result : {W A : Type 0} → Result HandlerError A → Method W A
from_result r h = (r, h)

module _ {W : Type 0} (serve : Server W) (utf8 : Text → Bytes) where
  -- What follows a batch: an end of the directory or an empty one ends the loop.
  unfoldable pub pass_batch :
      (DirectoryListing → Method W (Option DirectoryListing))
      → DirectoryListing
      → List (DirEntry Text)
      → Method W (Option DirectoryListing)
  unfolding add_batch
  pass_batch next l [] = pure (some l)
  pass_batch next l (entry ∷ entries) = do
    l' ← from_result (add_batch utf8 (entry ∷ entries) (ok l))
    if l'.is_truncated then pure (some l') else next l'

  unfoldable pub list_step :
      (DirectoryListing → Method W (Option DirectoryListing))
      → Bytes
      → DirectoryListing
      → Method W (Option DirectoryListing)
  unfolding pass_batch
  list_step next handle l =
      if ltb (length l.entries) max_directory_entries
      then (call serve (read_dir handle) >>= λ batch. pass_batch next l (batch_of batch))
      else pure (some l)

  -- The loop over batches, whose passes the fuel bounds: without fuel there is no listing.
  unfoldable pub list_loop : ℕ → Bytes → DirectoryListing → Method W (Option DirectoryListing)
  unfolding list_step
  list_loop zero handle l = pure none
  list_loop (suc fuel) handle l = list_step (λ l'. list_loop fuel handle l') handle l

  -- The further batch that a full listing asks for.
  unfoldable pub probe : Bytes → DirectoryListing → Method W DirectoryListing
  unfolding has_named
  probe handle l =
      if length l.entries == max_directory_entries
      then (call serve (read_dir handle) >>= λ batch.
          pure (record l { is_truncated = l.is_truncated || has_named (batch_of batch) }))
      else pure l

  unfoldable pub probe_found : Bytes → Option DirectoryListing → Method W (Option DirectoryListing)
  unfolding probe
  probe_found handle none = pure none
  probe_found handle (some l) = probe handle l >>= λ l'. pure (some l')

  -- The `try` block with its `finally`, for an open directory.
  unfoldable pub read_listing : ℕ → Bytes → Method W (Option DirectoryListing)
  unfolding list_loop probe_found
  read_listing fuel handle =
      finally
        (list_loop fuel handle (record { entries = []; response_bytes = 0; is_truncated = false })
          >>= λ found. probe_found handle found)
        (ignoring (call serve (close_handle handle)))

  unfoldable pub send_listing : Text → Text → Option DirectoryListing → Method W (Unit {0})
  send_listing id path none = pure tt
  send_listing id path (some l) = send_json (sftp_list_result id path l.is_truncated l.entries)

  -- The `try` block of `list`. A valid path is not empty.
  unfoldable pub list_entries : ℕ → Text → Text → Method W (Unit {0})
  unfolding read_listing send_listing
  list_entries fuel id path = do
    assert_ready
    validate_path utf8 path
    resolved_path ← call serve (realpath path)
    handle ← call serve (open_dir resolved_path)
    found ← read_listing fuel handle
    send_listing id resolved_path found

  -- `list`
  unfoldable pub list_directory : ℕ → Text → Text → Method W (Unit {0})
  unfolding list_entries
  list_directory fuel id path = catching (list_entries fuel id path) (report_error list id)

  -- The name of the operation of `remove`
  abbrev removal : Bool → Task
  removal directory = if directory then remove_directory else delete

  -- `remove`
  unfoldable pub remove : Text → Text → Bool → Method W (Unit {0})
  remove id path directory =
      catching
        (assert_ready
          >> validate_path utf8 path
          >> (if directory then call serve (remove_dir path) else call serve (remove_file path))
          >> send_json (sftp_removed (removal directory) id path))
        (report_error (removal directory) id)

  -- `mkdir`
  unfoldable pub mkdir : Text → Text → Method W (Unit {0})
  mkdir id path =
      catching
        (assert_ready
          >> validate_path utf8 path
          >> call serve (make_dir path 0o755)
          >> send_json (sftp_mkdir_result id path))
        (report_error make_directory id)

  -- `rename`
  unfoldable pub rename : Text → Text → Text → Method W (Unit {0})
  rename id old_path new_path =
      catching
        (assert_ready
          >> validate_path utf8 old_path
          >> validate_path utf8 new_path
          >> call serve (rename_file old_path new_path)
          >> send_json (sftp_rename_result id old_path new_path))
        (report_error renaming id)
