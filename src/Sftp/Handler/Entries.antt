-- ===== src/Sftp/Handler/Entries.antt =====
-- How a directory entry is shown: getSFTPFileKind and formatSFTPPermissions of
-- worker/src/webssh/ssh/sftp-types.ts, and formatEntry and parseLongnameIdentity of
-- worker/src/webssh/backend/sftp-handler.ts. A string is the list of its code units.
use cf_workers_vpsmonitor.Common.{
  ℕ, ◌/◌, ◌%◌, ◌^◌, Bool, true, false, ◌||◌, ◌&&◌, List, [], ◌∷◌, ◌++◌, Option, none, some, length,
  ltb, leb, ◌==◌, if◌then◌else◌, codes,
}
use cf_workers_vpsmonitor.Sftp.Attrs.{SftpSize, exact}
use cf_workers_vpsmonitor.Sftp.Parsing.{DirEntry, has_flag}

-- A string of JavaScript
abbrev pub Text : Type 0
Text = List ℕ

-- `SFTPFileKind`
pub data SftpFileKind : Type 0 where
  file directory symlink socket block_device character_device fifo unknown : SftpFileKind

-- The `switch` of `getSFTPFileKind`; the mask keeps the bits 12 to 15.
unfoldable pub kind_of_mode : ℕ → SftpFileKind
kind_of_mode mode =
    if mode == 8
    then file
    else (if mode == 4
        then directory
        else (if mode == 10
            then symlink
            else (if mode == 12
                then socket
                else (if mode == 6
                    then block_device
                    else (if mode == 2
                        then character_device
                        else (if mode == 1 then fifo else unknown))))))

-- `getSFTPFileKind`
unfoldable pub get_sftp_file_kind : Option ℕ → SftpFileKind
unfolding kind_of_mode
get_sftp_file_kind none = unknown
get_sftp_file_kind (some permissions) = kind_of_mode (permissions / 2 ^ 12 % 16)

-- The record `prefix`
unfoldable pub kind_prefix : SftpFileKind → ℕ
kind_prefix file = b'-'
kind_prefix directory = b'd'
kind_prefix symlink = b'l'
kind_prefix socket = b's'
kind_prefix block_device = b'b'
kind_prefix character_device = b'c'
kind_prefix fifo = b'p'
kind_prefix unknown = b'?'

-- The letter of an execution bit: with the special bit, one of `set` and `unset`.
unfoldable pub execution_letter : Bool → Bool → ℕ → ℕ → ℕ
execution_letter false executable set unset = if executable then b'x' else b'-'
execution_letter true executable set unset = if executable then set else unset

-- `formatSFTPPermissions`
unfoldable pub format_sftp_permissions : Option ℕ → Text
unfolding get_sftp_file_kind kind_prefix execution_letter has_flag
format_sftp_permissions none = codes "??????????"
format_sftp_permissions (some p) =
    let letter : ℕ → ℕ → ℕ = λ bit shown. if has_flag p bit then shown else b'-' in
    kind_prefix (get_sftp_file_kind (some p))
    ∷ letter 8 b'r'
    ∷ letter 7 b'w'
    ∷ execution_letter (has_flag p 11) (has_flag p 6) b's' b'S'
    ∷ letter 5 b'r'
    ∷ letter 4 b'w'
    ∷ execution_letter (has_flag p 10) (has_flag p 3) b's' b'S'
    ∷ letter 2 b'r'
    ∷ letter 1 b'w'
    ∷ execution_letter (has_flag p 9) (has_flag p 0) b't' b'T'
    ∷ []

unfoldable pub one_of : ℕ → Text → Bool
one_of c [] = false
one_of c (d ∷ ds) = (c == d) || one_of c ds

unfoldable pub all_of : Text → Text → Bool
unfolding one_of
all_of letters [] = true
all_of letters (c ∷ cs) = one_of c letters && all_of letters cs

-- `\s` in a regular expression
unfoldable pub is_space : ℕ → Bool
is_space c =
    (leb 9 c && leb c 13)
    || (c == 32)
    || (c == 160)
    || (c == 0x1680)
    || (leb 0x2000 c && leb c 0x200a)
    || (c == 0x2028)
    || (c == 0x2029)
    || (c == 0x202f)
    || (c == 0x205f)
    || (c == 0x3000)
    || (c == 0xfeff)

-- A finished word, if it has a letter, before the others.
unfoldable pub add_word : Text → List Text → List Text
add_word [] words = words
add_word (c ∷ word) words = (c ∷ word) ∷ words

-- `trim().split(/\s+/)`, of which only four words or more are looked at.
unfoldable pub split_words : Text → Text → List Text
unfolding is_space add_word
split_words word [] = add_word word []
split_words word (c ∷ cs) =
    let rest = split_words (if is_space c then [] else word ++ (c ∷ [])) cs in
    if is_space c then add_word word rest else rest

-- The end of the expression: nothing, or one of three characters.
unfoldable pub is_mode_end : Text → Bool
unfolding one_of
is_mode_end [] = true
is_mode_end (c ∷ []) = one_of c (codes "+@.")
is_mode_end (c ∷ d ∷ cs) = false

-- `/^[bcdlps-][rwxStTs-]{9}[+@.]?$/`
unfoldable pub is_mode_word : Text → Bool
unfolding one_of all_of is_mode_end
is_mode_word (k ∷ a ∷ b ∷ c ∷ d ∷ e ∷ f ∷ g ∷ h ∷ i ∷ rest) =
    one_of k (codes "bcdlps-")
    && all_of (codes "rwxStTs-") (a ∷ b ∷ c ∷ d ∷ e ∷ f ∷ g ∷ h ∷ i ∷ [])
    && is_mode_end rest
is_mode_word word = false

-- The words of a long name, if they are those of a listing: the owner and the group.
unfoldable pub identity_of_words : List Text → Option (Text × Text)
unfolding is_mode_word
identity_of_words (mode ∷ links ∷ owner ∷ group ∷ rest) =
    if is_mode_word mode then some (owner, group) else none
identity_of_words words = none

-- `parseLongnameIdentity`
unfoldable pub parse_longname_identity : Text → Option (Text × Text)
unfolding split_words identity_of_words
parse_longname_identity longname =
    if ltb 4096 (length longname) then none else identity_of_words (split_words [] longname)

-- What `formatEntry` makes of an entry.
pub record FormattedEntry : Type 0 where
  pub name : Text
  pub type : Text
  pub size : SftpSize
  pub mtime : ℕ
  pub permissions : Text
  pub permissions_raw : ℕ
  pub uid : Option ℕ
  pub gid : Option ℕ
  pub owner : Option Text
  pub group : Option Text

unfoldable pub shown_type : SftpFileKind → Text
shown_type directory = codes "directory"
shown_type symlink = codes "symlink"
shown_type file = codes "file"
shown_type kind = codes "other"

-- `value ?? other`
abbrev pub or_else : {A : Type 0} → Option A → A → A
or_else none other = other
or_else (some value) other = value

abbrev pub owner_of : Option (Text × Text) → Option Text
owner_of none = none
owner_of (some (owner, group)) = some owner

abbrev pub group_of : Option (Text × Text) → Option Text
group_of none = none
group_of (some (owner, group)) = some group

-- `formatEntry`
unfoldable pub format_entry : DirEntry Text → FormattedEntry
unfolding shown_type get_sftp_file_kind format_sftp_permissions parse_longname_identity
format_entry entry =
    let identity = parse_longname_identity entry.longname in
    record {
      name = entry.filename;
      type = shown_type (get_sftp_file_kind entry.attrs.permissions);
      size = or_else entry.attrs.size (exact 0);
      mtime = or_else entry.attrs.mtime 0;
      permissions = format_sftp_permissions entry.attrs.permissions;
      permissions_raw = or_else entry.attrs.permissions 0;
      uid = entry.attrs.uid;
      gid = entry.attrs.gid;
      owner = owner_of identity;
      group = group_of identity;
    }
