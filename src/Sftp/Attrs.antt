-- ===== src/Sftp/Attrs.antt =====
-- The fields of SFTP packets in worker/src/webssh/ssh/sftp.ts: `toUint64`, `displayUint64`, the
-- encoders, `encodeAttrs`, `parseAttrs`, `parseStatus` and `parseName`. `encode` and `decode` stand
-- for `TextEncoder` and the fatal `TextDecoder`. The numbers given to the encoders of 32-bit fields
-- are natural numbers; the source refuses the other numbers with the same error.
use cf_workers_vpsmonitor.Common.{
  ℕ, ◌+◌, ◌-◌, ◌*◌, ◌/◌, ◌%◌, ◌^◌, Bool, true, false, ◌&&◌, List, [], ◌∷◌, ◌++◌, Option, none, some,
  length, replicate, ltb, leb, if◌then◌else◌, Result, ok, throw, ◌>>=◌,
}
use cf_workers_vpsmonitor.Ssh.Wire.{Bytes, write_uint32, encode_uint32, encode_string, concat_bytes}
use cf_workers_vpsmonitor.Sftp.Frames.{SftpError, invalid_argument}

abbrev pub uint32_max : ℕ
uint32_max = 0xffffffff

abbrev pub uint64_max : ℕ
uint64_max = 2 ^ 64 - 1

abbrev pub max_safe_integer : ℕ
max_safe_integer = 2 ^ 53 - 1

-- `SFTPUint64Input`: a bigint or a number, not negative, or a string of code units; `unfit` is a
-- negative or a fractional one.
pub data Uint64Input : Type 0 where
  bigint number : ℕ → Uint64Input
  text : List ℕ → Uint64Input
  unfit : Uint64Input

-- `SFTPSize`: a number, or the decimal digits of a greater one.
pub data SftpSize : Type 0 where
  exact digits : ℕ → SftpSize

-- The test `/^[0-9]+$/`, behind the first character.
unfoldable pub all_digits : List ℕ → Bool
all_digits [] = true
all_digits (c ∷ cs) = (leb b'0' c && leb c b'9') && all_digits cs

unfoldable pub is_decimal : List ℕ → Bool
unfolding all_digits
is_decimal [] = false
is_decimal (c ∷ cs) = all_digits (c ∷ cs)

-- `BigInt` of a string of digits
unfoldable pub decimal_value : ℕ → List ℕ → ℕ
decimal_value value [] = value
decimal_value value (c ∷ cs) = decimal_value (value * 10 + (c - b'0')) cs

-- The tests of `toUint64` before that of the range.
unfoldable pub to_bigint : Uint64Input → Result SftpError ℕ
unfolding is_decimal decimal_value
to_bigint (bigint value) = ok value
to_bigint (number value) = if ltb max_safe_integer value then throw invalid_argument else ok value
to_bigint (text value) =
    if is_decimal value then ok (decimal_value 0 value) else throw invalid_argument
to_bigint unfit = throw invalid_argument

-- `toUint64`
unfoldable pub to_uint64 : Uint64Input → Result SftpError ℕ
unfolding to_bigint
to_uint64 value = do
  result ← to_bigint value
  if ltb uint64_max result then throw invalid_argument else ok result

-- `displayUint64`
unfoldable pub display_uint64 : ℕ → SftpSize
display_uint64 value = if leb value max_safe_integer then exact value else digits value

-- `encodeUint32`, with the test of `uint32`
unfoldable pub encode_number : ℕ → Result SftpError Bytes
encode_number value =
    if ltb uint32_max value then throw invalid_argument else ok (encode_uint32 value)

-- `encodeUint64`
unfoldable pub encode_uint64 : Uint64Input → Result SftpError Bytes
unfolding to_uint64
encode_uint64 value = do
  integer ← to_uint64 value
  ok (write_uint32 (write_uint32 (replicate 8 0) 0 (integer / 2 ^ 32)) 4 (integer % 2 ^ 32))

-- `encodeString`, on the encoded bytes
unfoldable pub encode_bytes : Bytes → Result SftpError Bytes
encode_bytes bytes =
    if ltb uint32_max (length bytes) then throw invalid_argument else ok (encode_string bytes)

-- `SFTPExtendedAttribute`; the data of an input is bytes or the encoding of a string.
pub record ExtendedAttribute (Text : Type 0) : Type 0 where
  pub type_name : Text
  pub data_bytes : Bytes

-- `SFTPAttrsInput`
pub record AttrsInput (Text : Type 0) : Type 0 where
  pub size : Option Uint64Input
  pub uid : Option ℕ
  pub gid : Option ℕ
  pub permissions : Option ℕ
  pub atime : Option ℕ
  pub mtime : Option ℕ
  pub extended : Option (List (ExtendedAttribute Text))

-- A part of the attributes: the flag, and the fields.
abbrev pub Part : Type 0
Part = Result SftpError (ℕ × List Bytes)

unfoldable pub size_part : Option Uint64Input → Part
unfolding encode_uint64
size_part none = ok (0, [])
size_part (some size) = do bytes ← encode_uint64 size; ok (1, bytes ∷ [])

-- Two fields that stand together or not at all.
unfoldable pub pair_part : ℕ → Option ℕ → Option ℕ → Part
unfolding encode_number
pair_part flag none none = ok (0, [])
pair_part flag (some a) none = throw invalid_argument
pair_part flag none (some b) = throw invalid_argument
pair_part flag (some a) (some b) = do
  first ← encode_number a
  second ← encode_number b
  ok (flag, first ∷ second ∷ [])

unfoldable pub permissions_part : Option ℕ → Part
unfolding encode_number
permissions_part none = ok (0, [])
permissions_part (some permissions) = do bytes ← encode_number permissions; ok (4, bytes ∷ [])

module _ {Text : Type 0} (encode : Text → Bytes) where
  -- The loop over the extended attributes.
  unfoldable pub encode_extensions : List (ExtendedAttribute Text) → Result SftpError (List Bytes)
  unfolding encode_bytes
  encode_extensions [] = ok []
  encode_extensions (e ∷ extensions) = do
    type_name ← encode_bytes (encode e.type_name)
    contents ← encode_bytes e.data_bytes
    rest ← encode_extensions extensions
    ok (type_name ∷ contents ∷ rest)

  unfoldable pub extended_part : ℕ → Option (List (ExtendedAttribute Text)) → Part
  unfolding encode_extensions encode_number
  extended_part max_extended none = ok (0, [])
  extended_part max_extended (some extensions) =
      if ltb max_extended (length extensions)
      then throw invalid_argument
      else (encode_number (length extensions) >>= λ count.
          encode_extensions extensions >>= λ fields. ok (0x80000000, count ∷ fields))

  -- `encodeAttrs` where attributes are given. The flags are different bits, so `|` is their sum.
  unfoldable pub encode_given : ℕ → AttrsInput Text → Result SftpError Bytes
  unfolding size_part pair_part permissions_part extended_part
  encode_given max_extended a = do
    size ← size_part a.size
    owner ← pair_part 2 a.uid a.gid
    permissions ← permissions_part a.permissions
    times ← pair_part 8 a.atime a.mtime
    extended ← extended_part max_extended a.extended
    flags ← encode_number (size.0 + owner.0 + permissions.0 + times.0 + extended.0)
    ok (concat_bytes (flags ∷ (size.1 ++ (owner.1 ++ (permissions.1 ++ (times.1 ++ extended.1))))))

  -- `encodeAttrs`
  unfoldable pub encode_attrs : ℕ → Option (AttrsInput Text) → Result SftpError Bytes
  unfolding encode_given encode_number
  encode_attrs max_extended none = encode_number 0
  encode_attrs max_extended (some a) = encode_given max_extended a
