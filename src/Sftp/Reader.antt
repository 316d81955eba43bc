-- ===== src/Sftp/Reader.antt =====
-- The class `Reader` of worker/src/webssh/ssh/sftp.ts: reading a packet's fields in order. `decode`
-- stands for the fatal UTF-8 `TextDecoder`, which gives no text for bytes that are not UTF-8.
use cf_workers_vpsmonitor.Common.{
  ℕ, ◌+◌, ◌-◌, ◌*◌, ◌^◌, Option, none, some, length, get_or, take, drop, ltb, not, ◌==◌,
}
use cf_workers_vpsmonitor.Common.State.{M, ◌>>=◌, ◌>>◌, pure, fail, get, modify, refuse}
use cf_workers_vpsmonitor.Ssh.Wire.{Bytes, read_uint32}
use cf_workers_vpsmonitor.Sftp.Frames.{SftpError, malformed}

-- The fields of `Reader`.
pub record Reader : Type 0 where
  pub data_bytes : Bytes
  pub offset : ℕ

abbrev pub new_reader : Bytes → Reader
new_reader bytes = record { data_bytes = bytes; offset = 0 }

abbrev pub Reading : Type 0 → Type 0
Reading = M SftpError Reader

-- `remaining`
unfoldable pub remaining : Reader → ℕ
remaining r = length r.data_bytes - r.offset

-- `require`: the sizes that are asked for are natural numbers.
unfoldable pub require_bytes : ℕ → Reading (Unit {0})
require_bytes size = do left ← get remaining; refuse (ltb left size) malformed

-- `readByte`
unfoldable pub read_byte : Reading ℕ
read_byte = do
  require_bytes 1
  byte ← get λ r. get_or r.data_bytes r.offset 0
  modify λ r. record r { offset = r.offset + 1 }
  pure byte

-- `readUint32`
unfoldable pub read_number : Reading ℕ
read_number = do
  require_bytes 4
  value ← get λ r. read_uint32 r.data_bytes r.offset
  modify λ r. record r { offset = r.offset + 4 }
  pure value

-- `readUint64`
unfoldable pub read_uint64 : Reading ℕ
read_uint64 = do high ← read_number; low ← read_number; pure (high * 2 ^ 32 + low)

-- `readBytes`
unfoldable pub read_slice : ℕ → Reading Bytes
read_slice size = do
  require_bytes size
  value ← get λ r. take size (drop r.offset r.data_bytes)
  modify λ r. record r { offset = r.offset + size }
  pure value

-- `readStringBytes`
unfoldable pub read_string_bytes : Reading Bytes
read_string_bytes = do size ← read_number; read_slice size

unfoldable pub or_malformed : {A : Type 0} → Option A → Reading A
or_malformed none = fail malformed
or_malformed (some a) = pure a

-- `readText`
unfoldable pub read_text : {Text : Type 0} → (Bytes → Option Text) → Reading Text
read_text decode = do bytes ← read_string_bytes; or_malformed (decode bytes)

-- `assertEnd`
unfoldable pub assert_end : Reading (Unit {0})
assert_end = do left ← get remaining; refuse (not (left == 0)) malformed
