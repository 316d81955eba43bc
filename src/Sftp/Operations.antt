-- ===== src/Sftp/Operations.antt =====
-- The operations of `SFTPClient` in worker/src/webssh/ssh/sftp.ts: `realpath` to `rename`, and the
-- parsers of their responses. `maxNameEntries` and `maxExtendedAttributes`, which the constructor
-- sets once, are arguments.
pub mod Replies
mod Tests
use cf_workers_vpsmonitor.Common.{
  ℕ, not, List, [], ◌∷◌, Option, none, some, length, ltb, ◌==◌, if◌then◌else◌, Result, ok, throw,
}
use cf_workers_vpsmonitor.Common.State.{M, ◌>>=◌, ◌>>◌, pure, fail, refuse}
use cf_workers_vpsmonitor.Ssh.Wire.{Bytes}
use cf_workers_vpsmonitor.Sftp.Frames.{SftpError, malformed, unexpected_type, status_error}
use cf_workers_vpsmonitor.Sftp.Reader.{Reading, read_string_bytes}
use cf_workers_vpsmonitor.Sftp.Attrs.{
  Uint64Input, AttrsInput, encode_number, encode_uint64, encode_bytes, encode_attrs,
}
use cf_workers_vpsmonitor.Sftp.Parsing.{SftpAttrs, DirEntry, parse_attrs, parse_status, parse_name}
use cf_workers_vpsmonitor.Sftp.Client.{ClientMethod}
use cf_workers_vpsmonitor.Sftp.Dispatch.{request}

-- What the promises of the operations resolve to; `ended` is the `null` of an end of file.
pub data Reply (Text : Type 0) : Type 0 where
  path : Text → Reply Text
  handle : Bytes → Reply Text
  entries : List (DirEntry Text) → Reply Text
  ended : Reply Text
  attrs : SftpAttrs Text → Reply Text
  contents : Bytes → Reply Text
  done : Reply Text

-- `SFTP_PACKET_TYPES`, as far as they are used here
abbrev pub open_type : ℕ
open_type = 3

abbrev pub close_type : ℕ
close_type = 4

abbrev pub read_type : ℕ
read_type = 5

abbrev pub write_type : ℕ
write_type = 6

abbrev pub opendir_type : ℕ
opendir_type = 11

abbrev pub readdir_type : ℕ
readdir_type = 12

abbrev pub remove_type : ℕ
remove_type = 13

abbrev pub mkdir_type : ℕ
mkdir_type = 14

abbrev pub rmdir_type : ℕ
rmdir_type = 15

abbrev pub realpath_type : ℕ
realpath_type = 16

abbrev pub stat_type : ℕ
stat_type = 17

abbrev pub rename_type : ℕ
rename_type = 18

abbrev pub status_type : ℕ
status_type = 101

abbrev pub handle_type : ℕ
handle_type = 102

abbrev pub data_type : ℕ
data_type = 103

abbrev pub name_type : ℕ
name_type = 104

abbrev pub attrs_type : ℕ
attrs_type = 105

-- `SFTP_STATUS.OK` and `SFTP_STATUS.EOF`
abbrev pub status_ok : ℕ
status_ok = 0

abbrev pub status_eof : ℕ
status_eof = 1

module _ {Text : Type 0} (decode : Bytes → Option Text) where
  -- `throwStatusOrUnexpected`
  unfoldable pub expect_type : ℕ → ℕ → ℕ → Reading (Unit {0})
  expect_type expected id type =
      if type == expected
      then pure tt
      else (refuse (not (type == status_type)) (unexpected_type type)
          >> parse_status decode
          >>= λ code. fail (status_error code id))

  -- `parseEofStatus`
  unfoldable pub parse_eof_status : ℕ → Reading (Reply Text)
  parse_eof_status id = do
    code ← parse_status decode
    if code == status_eof then pure ended else fail (status_error code id)

  -- The one name of a REALPATH response.
  unfoldable pub only_name : List (DirEntry Text) → Reading (Reply Text)
  only_name [] = fail malformed
  only_name (e ∷ []) = pure (path e.filename)
  only_name (e ∷ f ∷ rest) = fail malformed

  -- The parser of `realpath`
  unfoldable pub parse_path : ℕ → ℕ → ℕ → ℕ → Reading (Reply Text)
  unfolding expect_type only_name
  parse_path max_entries max_extended id type = do
    expect_type name_type id type
    names ← parse_name decode max_entries max_extended
    only_name names

  -- The parser of `openDir` and `openFile`
  unfoldable pub parse_handle : ℕ → ℕ → Reading (Reply Text)
  unfolding expect_type
  parse_handle id type = do
    expect_type handle_type id type
    bytes ← read_string_bytes
    refuse (length bytes == 0) malformed
    pure (handle bytes)

  -- The parser of `readDir`
  unfoldable pub parse_dir : ℕ → ℕ → ℕ → ℕ → Reading (Reply Text)
  unfolding parse_eof_status
  parse_dir max_entries max_extended id type =
      if type == status_type
      then parse_eof_status id
      else (refuse (not (type == name_type)) (unexpected_type type)
          >> parse_name decode max_entries max_extended
          >>= λ names. pure (entries names))

  -- The parser of `stat`
  unfoldable pub parse_stat : ℕ → ℕ → ℕ → Reading (Reply Text)
  unfolding expect_type
  parse_stat max_extended id type = do
    expect_type attrs_type id type
    value ← parse_attrs decode max_extended
    pure (attrs value)

  -- The parser of `readFile`
  unfoldable pub parse_contents : ℕ → ℕ → ℕ → Reading (Reply Text)
  unfolding parse_eof_status
  parse_contents size id type =
      if type == status_type
      then parse_eof_status id
      else (refuse (not (type == data_type)) (unexpected_type type)
          >> read_string_bytes
          >>= λ bytes. refuse (ltb size (length bytes)) malformed >> pure (contents bytes))

  -- The parser of `statusRequest`
  unfoldable pub parse_done : ℕ → ℕ → Reading (Reply Text)
  parse_done id type = do
    refuse (not (type == status_type)) (unexpected_type type)
    code ← parse_status decode
    refuse (not (code == status_ok)) (status_error code id)
    pure done

module _ {Text : Type 0} (encode : Text → Bytes) (decode : Bytes → Option Text)
    (max_entries max_extended : ℕ) where
  -- An operation returns the number of its request; its arguments are encoded first.
  abbrev pub Operation : Type 0
  Operation = ClientMethod (Reply Text) Text ℕ

  abbrev given : {A : Type 0} → Result SftpError A → ClientMethod (Reply Text) Text A
  given r c = (r, c)

  -- `realpath`
  unfoldable pub realpath : Text → Operation
  realpath target = do
    field ← given (encode_bytes (encode target))
    request realpath_type (field ∷ []) (parse_path decode max_entries max_extended)

  -- `openDir`
  unfoldable pub open_dir : Text → Operation
  open_dir target = do
    field ← given (encode_bytes (encode target))
    request opendir_type (field ∷ []) (parse_handle decode)

  -- `readDir`
  unfoldable pub read_dir : Bytes → Operation
  read_dir file = do
    field ← given (encode_bytes file)
    request readdir_type (field ∷ []) (parse_dir decode max_entries max_extended)

  -- `closeHandle`
  unfoldable pub close_handle : Bytes → Operation
  close_handle file = do
    field ← given (encode_bytes file)
    request close_type (field ∷ []) (parse_done decode)

  -- `stat`
  unfoldable pub stat : Text → Operation
  stat target = do
    field ← given (encode_bytes (encode target))
    request stat_type (field ∷ []) (parse_stat decode max_extended)

  -- `openFile`
  unfoldable pub open_file : Text → ℕ → Option (AttrsInput Text) → Operation
  open_file target flags input = do
    name ← given (encode_bytes (encode target))
    mode ← given (encode_number flags)
    fields ← given (encode_attrs encode max_extended input)
    request open_type (name ∷ mode ∷ fields ∷ []) (parse_handle decode)

  -- `readFile`
  unfoldable pub read_file : Bytes → Uint64Input → ℕ → Operation
  read_file file offset size = do
    name ← given (encode_bytes file)
    start ← given (encode_uint64 offset)
    count ← given (encode_number size)
    request read_type (name ∷ start ∷ count ∷ []) (parse_contents decode size)

  -- `writeFile`
  unfoldable pub write_file : Bytes → Uint64Input → Bytes → Operation
  write_file file offset bytes = do
    name ← given (encode_bytes file)
    start ← given (encode_uint64 offset)
    field ← given (encode_bytes bytes)
    request write_type (name ∷ start ∷ field ∷ []) (parse_done decode)

  -- `removeFile`
  unfoldable pub remove_file : Text → Operation
  remove_file target = do
    field ← given (encode_bytes (encode target))
    request remove_type (field ∷ []) (parse_done decode)

  -- `mkdir`
  unfoldable pub mkdir : Text → Option (AttrsInput Text) → Operation
  mkdir target input = do
    field ← given (encode_bytes (encode target))
    fields ← given (encode_attrs encode max_extended input)
    request mkdir_type (field ∷ fields ∷ []) (parse_done decode)

  -- `rmdir`
  unfoldable pub rmdir : Text → Operation
  rmdir target = do
    field ← given (encode_bytes (encode target))
    request rmdir_type (field ∷ []) (parse_done decode)

  -- `rename`
  unfoldable pub rename : Text → Text → Operation
  rename source target = do
    old ← given (encode_bytes (encode source))
    new ← given (encode_bytes (encode target))
    request rename_type (old ∷ new ∷ []) (parse_done decode)
