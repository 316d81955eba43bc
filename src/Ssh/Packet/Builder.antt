-- ===== src/Ssh/Packet/Builder.antt =====
-- `SSHPacketBuilder` of worker/src/webssh/ssh/packet.ts. `encrypt` and `mac` are the cipher's
-- functions, and `random n` stands for the `n` bytes of `crypto.getRandomValues`.
pub mod Padding
pub mod Layout
pub mod RoundTrip
use cf_workers_vpsmonitor.Common.{
  ℕ, true, false, ◌+◌, ◌-◌, ◌%◌, Bool, Option, none, some, length, take, drop, set, replicate, blit,
  ltb, ◌==◌, if◌then◌else◌, ◌++◌,
}
use cf_workers_vpsmonitor.Ssh.Wire.{Bytes, write_uint32}

-- `encrypt(data, seq, aad)`
abbrev pub Encrypt : Type 0
Encrypt = Bytes → ℕ → Option Bytes → Bytes

-- `mac(packet, seq)`
abbrev pub Mac : Type 0
Mac = Bytes → ℕ → Bytes

-- `alignBase`
align_base : ℕ → ℕ → Bool → ℕ
align_base payload_length block has_auth_tag =
    if has_auth_tag then (1 + payload_length) % block else (4 + (1 + payload_length)) % block

-- `blockSize - (alignBase || blockSize)`
unfoldable pub padding_needed : ℕ → ℕ → ℕ
padding_needed base block = block - (if base == 0 then block else base)

-- `paddingLength`
unfoldable pub padding_length : ℕ → ℕ → Bool → ℕ
unfolding align_base
padding_length payload_length block has_auth_tag =
    let needed = padding_needed (align_base payload_length block has_auth_tag) block in
    if ltb needed 4 then needed + block else needed

-- The branch `hasAuthTag` behind the encryption.
unfoldable pub join_tagged : Bytes → Bytes → Bytes
join_tagged length_field encrypted =
    blit (blit (replicate (4 + length encrypted) 0) 0 length_field) 4 encrypted

-- The other branch behind the encryption.
unfoldable pub join_mac : ℕ → Option Mac → Bytes → Bytes → Bytes
join_mac seq_num none packet encrypted = encrypted
join_mac seq_num (some mac) packet encrypted =
    let tag = mac packet seq_num in
    blit (blit (replicate (length encrypted + length tag) 0) 0 encrypted) (length encrypted) tag

-- What is sent for a packet.
unfoldable pub seal : Option Encrypt → ℕ → Bool → Option Mac → Bytes → Bytes
seal none seq_num has_auth_tag mac packet = packet
seal (some encrypt) seq_num true mac packet =
    join_tagged (take 4 packet) (encrypt (drop 4 packet) seq_num (some (take 4 packet)))
seal (some encrypt) seq_num false mac packet =
    join_mac seq_num mac packet (encrypt packet seq_num none)

module _ (random : ℕ → Bytes) where
  -- The packet before it is encrypted.
  unfoldable pub clear_packet : ℕ → (Bytes → ℕ → Bytes) → ℕ → Bool → Bytes
  clear_packet payload_length write_payload block has_auth_tag =
      let padding = padding_length payload_length block has_auth_tag in
      let blank = replicate (4 + 1 + payload_length + padding) 0 in
      let sized = write_uint32 blank 0 (1 + payload_length + padding) in
      let headed = set sized 4 (padding % 256) in
      let filled = write_payload headed 5 in blit filled (5 + payload_length) (random padding)

  module _ (block : ℕ) (encrypt : Option Encrypt) (seq_num : ℕ) (has_auth_tag : Bool)
      (mac : Option Mac) where
    -- `buildWithPayloadWriter`
    unfoldable pub build_with_payload_writer : ℕ → (Bytes → ℕ → Bytes) → Bytes
    unfolding clear_packet seal
    build_with_payload_writer payload_length write_payload =
        seal encrypt seq_num has_auth_tag mac
          (clear_packet payload_length write_payload block has_auth_tag)

    -- `build`
    unfoldable pub build : Bytes → Bytes
    unfolding build_with_payload_writer
    build payload =
        build_with_payload_writer (length payload) λ packet offset. blit packet offset payload
