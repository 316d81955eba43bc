-- ===== src/Ssh/Wire/Tests.antt =====
-- Runs of worker/src/webssh/ssh/utils.ts at fixed inputs, and the theorems applied there.
use cf_workers_vpsmonitor.Common.{
  ◌+◌, ◌≤◌, ◌<◌, ◌≡◌, refl, ◌⊎◌, [], ◌∷◌, ◌++◌, length, get_or, take, drop, concat, throw, arith,
}
use cf_workers_vpsmonitor.Ssh.Wire.{
  Bytes, read_uint32, write_uint32, encode_string, concat_bytes, to_ssh_mpint,
  x25519_secret_to_ssh_mpint, secret_length,
}
use cf_workers_vpsmonitor.Ssh.Wire.Laws.{
  be32, read_uint32-write_uint32, read_uint32-encode_string, concat_bytes-eq-concat,
}
use cf_workers_vpsmonitor.Ssh.Wire.Mpint.{be_value, to_ssh_mpint_lem}

abbrev buffer : Bytes
buffer = 9 ∷ 9 ∷ 9 ∷ 9 ∷ 9 ∷ 9 ∷ []

abbrev secret : Bytes
secret = 0 ∷ 0 ∷ 200 ∷ 1 ∷ []

written : write_uint32 buffer 1 0x01020304 ≡ 9 ∷ 1 ∷ 2 ∷ 3 ∷ 4 ∷ 9 ∷ []
unfolding write_uint32
written = refl

-- `readUint32` past the end reads zeros.
read_past_end : read_uint32 (1 ∷ 2 ∷ []) 0 ≡ 0x01020000
unfolding read_uint32
read_past_end = refl

mpint_runs : to_ssh_mpint secret ≡ 0 ∷ 0 ∷ 0 ∷ 3 ∷ 0 ∷ 200 ∷ 1 ∷ []
unfolding to_ssh_mpint
mpint_runs = refl

-- Zero has one byte, where RFC 4251 has none.
mpint_of_zero : to_ssh_mpint (0 ∷ 0 ∷ []) ≡ 0 ∷ 0 ∷ 0 ∷ 1 ∷ 0 ∷ []
unfolding to_ssh_mpint
mpint_of_zero = refl

short_secret : x25519_secret_to_ssh_mpint secret ≡ throw (secret_length 4)
unfolding x25519_secret_to_ssh_mpint
short_secret = refl

read_uint32-write_uint32_example :
    (read_uint32 (write_uint32 buffer 1 77) 1 ≡ 77)
    × (length (write_uint32 buffer 1 77) ≡ length buffer)
    × (take 1 (write_uint32 buffer 1 77) ≡ take 1 buffer)
    × (drop (1 + 4) (write_uint32 buffer 1 77) ≡ drop (1 + 4) buffer)
read_uint32-write_uint32_example = read_uint32-write_uint32 buffer 1 77 (omega arith) (omega arith)

read_uint32-encode_string_example :
    (read_uint32 (encode_string secret ++ buffer) 0 ≡ length secret)
    × (take (length secret) (drop 4 (encode_string secret ++ buffer)) ≡ secret)
read_uint32-encode_string_example = read_uint32-encode_string secret buffer (omega arith)

concat_bytes-eq-concat_example : concat_bytes (secret ∷ buffer ∷ []) ≡ concat (secret ∷ buffer ∷ [])
concat_bytes-eq-concat_example = concat_bytes-eq-concat (secret ∷ buffer ∷ [])

to_ssh_mpint_example :
    (s : Bytes) × (to_ssh_mpint secret ≡ be32 (length s) ++ s)
    × (be_value 0 s ≡ be_value 0 secret)
    × (get_or s 0 0 < 128)
    × ((0 < get_or s 0 0) ⊎ (128 ≤ get_or s 1 0))
    × (length s ≤ length secret + 1)
to_ssh_mpint_example = to_ssh_mpint_lem secret (omega arith) (omega arith)
