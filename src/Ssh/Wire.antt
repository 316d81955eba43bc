-- ===== src/Ssh/Wire.antt =====
-- Bytes on the wire: worker/src/webssh/ssh/utils.ts. A Uint8Array is the list of its bytes, and a
-- JavaScript number that the code treats as an unsigned integer is a natural number.
pub mod Laws
pub mod Mpint
mod Tests
use cf_workers_vpsmonitor.Common.{
  ℕ, zero, suc, ◌+◌, ◌-◌, ◌*◌, ◌/◌, ◌%◌, ◌^◌, ◌<◌, Bool, ◌&&◌, List, [], ◌∷◌, length, get_or, set,
  drop, replicate, blit, leb, ltb, ◌==◌, if◌then◌else◌, Result, ok, throw,
}

abbrev pub Bytes : Type 0
Bytes = List ℕ

-- Every element of a Uint8Array is below 256.
abbrev pub IsBytes : Bytes → Type 0
IsBytes [] = Unit
IsBytes (b ∷ bs) = (b < 256) × IsBytes bs

-- `readUint32`: a byte beyond the end is `undefined`, which the shifts read as 0. The shifted bytes
-- do not overlap, so `|` is their sum; `>>> 0` is the remainder.
unfoldable pub read_uint32 : Bytes → ℕ → ℕ
read_uint32 bytes offset =
    (get_or bytes offset 0 * 2 ^ 24
      + get_or bytes (offset + 1) 0 * 2 ^ 16
      + get_or bytes (offset + 2) 0 * 2 ^ 8
      + get_or bytes (offset + 3) 0)
    % 2 ^ 32

-- `writeUint32`
unfoldable pub write_uint32 : Bytes → ℕ → ℕ → Bytes
write_uint32 bytes offset value =
    let b0 = set bytes offset (value / 2 ^ 24 % 256) in
    let b1 = set b0 (offset + 1) (value / 2 ^ 16 % 256) in
    let b2 = set b1 (offset + 2) (value / 2 ^ 8 % 256) in set b2 (offset + 3) (value % 256)

-- `encodeUint32`
unfoldable pub encode_uint32 : ℕ → Bytes
unfolding write_uint32
encode_uint32 value = write_uint32 (replicate 4 0) 0 value

-- `encodeString`, on the encoded bytes
unfoldable pub encode_string : Bytes → Bytes
unfolding write_uint32
encode_string encoded =
    blit (write_uint32 (replicate (4 + length encoded) 0) 0 (length encoded)) 4 encoded

-- The two loops of `concat`.
total_length : List Bytes → ℕ → ℕ
total_length [] total = total
total_length (a ∷ arrays) total = total_length arrays (total + length a)

concat_from : Bytes → ℕ → List Bytes → Bytes
concat_from result offset [] = result
concat_from result offset (a ∷ arrays) =
    concat_from (blit result offset a) (offset + length a) arrays

-- `concat`
unfoldable pub concat_bytes : List Bytes → Bytes
unfolding total_length concat_from
concat_bytes arrays = concat_from (replicate (total_length arrays 0) 0) 0 arrays

-- The loop of `toSSHMPInt`: leading zeros are skipped while more than one byte is left.
skip_zeros : Bytes → Bytes
skip_zeros [] = []
skip_zeros (b ∷ []) = b ∷ []
skip_zeros (b ∷ (c ∷ bs)) = let rest = skip_zeros (c ∷ bs) in if b == 0 then rest else b ∷ (c ∷ bs)

-- `significant.length > 0 && (significant[0] & 0x80) !== 0`: the bit of weight 128 is set.
needs_leading_zero : Bytes → Bool
needs_leading_zero significant = ltb 0 (length significant) && get_or significant 0 0 / 128 % 2 == 1

-- `toSSHMPInt`
unfoldable pub to_ssh_mpint : Bytes → Bytes
unfolding skip_zeros needs_leading_zero write_uint32
to_ssh_mpint bytes =
    let significant = skip_zeros bytes in
    let zero_needed = needs_leading_zero significant in
    let value_offset = if zero_needed then 5 else 4 in
    let result = replicate (value_offset + length significant) 0 in
    blit (write_uint32 result 0 (length significant + (if zero_needed then 1 else 0))) value_offset
      significant

pub data WireError : Type 0 where
  secret_length : ℕ → WireError

-- `x25519SecretToSSHMPInt`
unfoldable pub x25519_secret_to_ssh_mpint : Bytes → Result WireError Bytes
unfolding to_ssh_mpint
x25519_secret_to_ssh_mpint bytes =
    if length bytes == 32 then ok (to_ssh_mpint bytes) else throw (secret_length (length bytes))
