-- ===== src/Sftp/Parsing.antt =====
-- The parsers of worker/src/webssh/ssh/sftp.ts on a `Reader`: `parseAttrs`, `parseStatus` and
-- `parseName`, the loops over what the packet counts included.
pub mod Reads
pub mod Parts
pub mod Extended
pub mod RoundTrip
use cf_workers_vpsmonitor.Common.{
  ℕ, zero, suc, ◌+◌, ◌-◌, ◌/◌, ◌%◌, ◌^◌, Bool, true, false, not, ◌||◌, List, [], ◌∷◌, Option, none,
  some, ltb, ◌==◌, if◌then◌else◌,
}
use cf_workers_vpsmonitor.Common.State.{M, ◌>>=◌, ◌>>◌, pure, fail, get, refuse}
use cf_workers_vpsmonitor.Ssh.Wire.{Bytes}
use cf_workers_vpsmonitor.Sftp.Frames.{SftpError, malformed}
use cf_workers_vpsmonitor.Sftp.Reader.{
  Reader, Reading, remaining, read_number, read_uint64, read_string_bytes, read_text, assert_end,
}
use cf_workers_vpsmonitor.Sftp.Attrs.{SftpSize, display_uint64, ExtendedAttribute}

-- `SFTPAttrs`
pub record SftpAttrs (Text : Type 0) : Type 0 where
  pub flags : ℕ
  pub size : Option SftpSize
  pub uid : Option ℕ
  pub gid : Option ℕ
  pub permissions : Option ℕ
  pub atime : Option ℕ
  pub mtime : Option ℕ
  pub extended : Option (List (ExtendedAttribute Text))

-- `SFTPDirEntry`
pub record DirEntry (Text : Type 0) : Type 0 where
  pub filename : Text
  pub longname : Text
  pub attrs : SftpAttrs Text

-- `(flags & ~KNOWN_ATTR_FLAGS) !== 0`: a bit from 4 to 30.
unfoldable pub has_unknown_flag : ℕ → Bool
has_unknown_flag flags = not (flags / 2 ^ 4 % 2 ^ 27 == 0)

-- `flags & 2 ** bit`
unfoldable pub has_flag : ℕ → ℕ → Bool
has_flag flags bit = flags / 2 ^ bit % 2 == 1

-- A field that is read if its flag is set.
unfoldable pub read_if : {A : Type 0} → Bool → Reading A → Reading (Option A)
read_if false m = pure none
read_if true m = do a ← m; pure (some a)

unfoldable pub read_size : Reading SftpSize
read_size = do value ← read_uint64; pure (display_uint64 value)

unfoldable pub read_pair : Reading (ℕ × ℕ)
read_pair = do a ← read_number; b ← read_number; pure (a, b)

-- The parts of a pair that may have been read.
abbrev pub first_of : Option (ℕ × ℕ) → Option ℕ
first_of none = none
first_of (some (a, b)) = some a

abbrev pub second_of : Option (ℕ × ℕ) → Option ℕ
second_of none = none
second_of (some (a, b)) = some b

module _ {Text : Type 0} (decode : Bytes → Option Text) where
  unfoldable pub read_extension : Reading (ExtendedAttribute Text)
  read_extension = do
    type_name ← read_text decode
    contents ← read_string_bytes
    pure (record { type_name = type_name; data_bytes = contents })

  -- The loop over the extended attributes.
  unfoldable pub read_extended : ℕ → Reading (List (ExtendedAttribute Text))
  read_extended zero = pure []
  read_extended (suc count) = do e ← read_extension; rest ← read_extended count; pure (e ∷ rest)

  -- The branch of the extended attributes.
  unfoldable pub read_extensions_counted : ℕ → Reading (List (ExtendedAttribute Text))
  unfolding read_extension read_extended
  read_extensions_counted max_extended = do
    count ← read_number
    left ← get remaining
    refuse (ltb max_extended count || ltb (left / 8) count) malformed
    read_extended count

  -- The fields behind the flags, each from where it is read to the end of `parseAttrs`.
  module _ (max_extended flags : ℕ) where
    unfoldable pub from_extended :
        Option SftpSize → Option (ℕ × ℕ) → Option ℕ → Option (ℕ × ℕ) → Reading (SftpAttrs Text)
    from_extended size owner permissions times = do
      extended ← read_if (has_flag flags 31) (read_extensions_counted max_extended)
      pure (record {
        flags = flags;
        size = size;
        uid = first_of owner;
        gid = second_of owner;
        permissions = permissions;
        atime = first_of times;
        mtime = second_of times;
        extended = extended;
      })

    unfoldable pub from_times :
        Option SftpSize → Option (ℕ × ℕ) → Option ℕ → Reading (SftpAttrs Text)
    from_times size owner permissions = do
      times ← read_if (has_flag flags 3) read_pair
      from_extended size owner permissions times

    unfoldable pub from_permissions : Option SftpSize → Option (ℕ × ℕ) → Reading (SftpAttrs Text)
    from_permissions size owner = do
      permissions ← read_if (has_flag flags 2) read_number
      from_times size owner permissions

    unfoldable pub from_owner : Option SftpSize → Reading (SftpAttrs Text)
    from_owner size = do owner ← read_if (has_flag flags 1) read_pair; from_permissions size owner

    unfoldable pub from_size : Reading (SftpAttrs Text)
    from_size = do size ← read_if (has_flag flags 0) read_size; from_owner size

  -- `parseAttrs`
  unfoldable pub parse_attrs : ℕ → Reading (SftpAttrs Text)
  parse_attrs max_extended = do
    flags ← read_number
    refuse (has_unknown_flag flags) malformed
    from_size max_extended flags

  -- `parseStatus`: the code; the two texts are read and kept in the error's message alone.
  unfoldable pub parse_status : Reading ℕ
  parse_status = do
    code ← read_number
    description ← read_text decode
    language ← read_text decode
    assert_end
    pure code

  unfoldable pub read_entry : ℕ → Reading (DirEntry Text)
  read_entry max_extended = do
    filename ← read_text decode
    longname ← read_text decode
    attrs ← parse_attrs max_extended
    pure (record { filename = filename; longname = longname; attrs = attrs })

  -- The loop of `parseName`.
  unfoldable pub read_entries : ℕ → ℕ → Reading (List (DirEntry Text))
  read_entries max_extended zero = pure []
  read_entries max_extended (suc count) = do
    e ← read_entry max_extended
    rest ← read_entries max_extended count
    pure (e ∷ rest)

  -- `parseName`
  unfoldable pub parse_name : ℕ → ℕ → Reading (List (DirEntry Text))
  parse_name max_entries max_extended = do
    count ← read_number
    left ← get remaining
    refuse (ltb max_entries count || ltb (left / 12) count) malformed
    read_entries max_extended count
