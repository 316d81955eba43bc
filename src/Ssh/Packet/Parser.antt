-- ===== src/Ssh/Packet/Parser.antt =====
-- `nextPacket` of `SSHPacketParser` in worker/src/webssh/ssh/packet.ts. The cipher's `decrypt` and
-- `verifyMac` are arguments: WebCrypto is not modelled. A call makes at most one committing use of
-- `decrypt`, its last, so one function stands for the cipher during one call. What `feed` adds
-- during an `await` lies behind the bytes that the call reads.
pub mod Queue
pub mod Refine
pub mod Results
use cf_workers_vpsmonitor.Common.{
  ℕ, ◌+◌, ◌-◌, ◌*◌, ◌%◌, ◌^◌, Bool, true, false, not, ◌&&◌, ◌||◌, List, Option, none, some, length,
  get_or, take, drop, ltb, leb, ◌==◌, if◌then◌else◌, Result, ok, throw,
}
use cf_workers_vpsmonitor.Common.State.{M, ◌>>=◌, ◌>>◌, pure, fail, get, modify, refuse}
use cf_workers_vpsmonitor.Ssh.Wire.{Bytes, read_uint32}
use cf_workers_vpsmonitor.Ssh.Packet.Buffer.{
  PacketError, block_size, below_minimum, exceeds_maximum, not_aligned, decryption_failed,
  length_mismatch, invalid_mac, invalid_padding, PacketParser, next_sequence_number, peek_bytes,
  read_bytes,
}

abbrev pub max_packet_size : ℕ
max_packet_size = 256 * 1024

abbrev pub min_packet_length : ℕ
min_packet_length = 5

-- `SSHPacket`
pub record SshPacket : Type 0 where
  pub packet_length : ℕ
  pub padding_length : ℕ
  pub payload : Bytes
  pub mac : Bytes

-- `decrypt(data, seq, aad, commit)`; `none` is `null`.
abbrev pub Decrypt : Type 0
Decrypt = Bytes → ℕ → Option Bytes → Bool → Option Bytes

-- `verifyMac(packet, mac, seq)`
abbrev pub VerifyMac : Type 0
VerifyMac = Bytes → Bytes → ℕ → Bool

-- What `nextPacket` uses of the buffer and the sequence number.
pub record BufferOps (S : Type 0) : Type 0 where
  pub peek : ℕ → M PacketError S (Option Bytes)
  pub read : ℕ → M PacketError S (Option Bytes)
  pub buffered : S → ℕ
  pub seq : S → ℕ
  pub advance : S → S

unfoldable pub read_result :
    PacketParser
    → Result PacketError (Option Bytes × PacketParser)
    → Result PacketError (Option Bytes) × PacketParser
read_result p (ok (found, p')) = (ok found, p')
read_result p (throw e) = (throw e, p)

unfoldable pub peek_result :
    PacketParser
    → Result PacketError (Option Bytes)
    → Result PacketError (Option Bytes) × PacketParser
peek_result p r = (r, p)

-- The methods of `SSHPacketParser`.
unfoldable pub parser_ops : BufferOps PacketParser
unfolding read_result peek_result
parser_ops = record {
  peek = λ n p. peek_result p (peek_bytes p n);
  read = λ n p. read_result p (read_bytes p n);
  buffered = λ p. p.buffered_length;
  seq = λ p. p.seq_num;
  advance = λ p. record p { seq_num = next_sequence_number p.seq_num };
}

abbrev pub Outcome : Type 0
Outcome = Option SshPacket

-- `!(await verifyMac(...))` where the check is made at all
unfoldable pub mac_fails : ℕ → Option VerifyMac → Bytes → Bytes → ℕ → Bool
mac_fails mac_length none packet mac seq_num = false
mac_fails mac_length (some verify) packet mac seq_num =
    ltb 0 mac_length && not (verify packet mac seq_num)

module _ {S : Type 0} (ops : BufferOps S) where
  open ops use {peek, read, buffered, seq, advance}

  -- `if (!bytes) return null`
  unfoldable pub or_null :
      Option Bytes → (Bytes → M PacketError S Outcome) → M PacketError S Outcome
  or_null none k = pure none
  or_null (some bytes) k = k bytes

  -- `if (!bytes) throw`
  unfoldable pub or_throw :
      PacketError → Option Bytes → (Bytes → M PacketError S Outcome) → M PacketError S Outcome
  or_throw e none k = fail e
  or_throw e (some bytes) k = k bytes

  unfoldable pub check_packet_length : ℕ → M PacketError S (Unit {0})
  check_packet_length packet_length = do
    refuse (ltb packet_length min_packet_length) (below_minimum packet_length)
    refuse (ltb max_packet_size packet_length) (exceeds_maximum packet_length)

  -- From the padding length, at index `at` of the decrypted bytes, to the returned packet.
  unfoldable pub finish_packet : Bytes → ℕ → ℕ → Bytes → M PacketError S Outcome
  finish_packet decrypted at packet_length mac = do
    let padding_length = get_or decrypted at 0
    refuse (ltb padding_length 4 || leb packet_length padding_length)
        (invalid_padding padding_length packet_length)
    let payload = take (packet_length - 1 - padding_length) (drop (at + 1) decrypted)
    modify advance
    pure (
        some (record {
          packet_length = packet_length;
          padding_length = padding_length;
          payload = payload;
          mac = mac;
        }))

  module _ (block : ℕ) (decrypt : Decrypt) where
    -- The part of the branch with an authentication tag behind its read.
    unfoldable pub open_authenticated : ℕ → Bytes → M PacketError S Outcome
    open_authenticated packet_length raw = do
      seq_num ← get seq
      or_throw decryption_failed (decrypt (drop 4 raw) seq_num (some (take 4 raw)) true)
          λ decrypted. do
            refuse (not (length decrypted == packet_length))
                (length_mismatch (length decrypted) packet_length)
            finish_packet decrypted 0 packet_length (drop (4 + packet_length) raw)

    -- From `readBytes` on.
    unfoldable pub take_authenticated : ℕ → M PacketError S Outcome
    take_authenticated packet_length = do
      raw ← read (4 + packet_length + 16)
      or_null raw (open_authenticated packet_length)

    -- The checks of the length field.
    unfoldable pub frame_authenticated : Bytes → M PacketError S Outcome
    frame_authenticated length_bytes = do
      let packet_length = read_uint32 length_bytes 0
      check_packet_length packet_length
      refuse (not (packet_length % block == 0)) (not_aligned packet_length)
      available ← get buffered
      if ltb available (4 + packet_length + 16) then pure none else take_authenticated packet_length

    -- The branch `hasAuthTag`.
    unfoldable pub next_authenticated : M PacketError S Outcome
    next_authenticated = do found ← peek 4; or_null found frame_authenticated

    module _ (mac_length : ℕ) (verify_mac : Option VerifyMac) where
      -- The part of the other branch behind its reads.
      unfoldable pub open_plain : ℕ → Bytes → Bytes → M PacketError S Outcome
      open_plain packet_length encrypted mac = do
        seq_num ← get seq
        or_throw decryption_failed (decrypt encrypted seq_num none true) λ decrypted. do
          refuse (not (length decrypted == 4 + packet_length))
              (length_mismatch (length decrypted) (4 + packet_length))
          refuse (mac_fails mac_length verify_mac decrypted mac seq_num) invalid_mac
          finish_packet decrypted 4 packet_length mac

      -- The second `readBytes` and the test for two results.
      unfoldable pub take_mac : ℕ → Option Bytes → M PacketError S Outcome
      take_mac packet_length found = do
        tag ← read mac_length
        or_null found λ encrypted. or_null tag (open_plain packet_length encrypted)

      -- From the first `readBytes` on.
      unfoldable pub take_plain : ℕ → M PacketError S Outcome
      take_plain packet_length = do found ← read (4 + packet_length); take_mac packet_length found

      -- The checks of the length field in the decrypted header.
      unfoldable pub frame_plain : Bytes → M PacketError S Outcome
      frame_plain header = do
        let packet_length = read_uint32 header 0
        check_packet_length packet_length
        refuse (not ((4 + packet_length) % block == 0)) (not_aligned (4 + packet_length))
        available ← get buffered
        if ltb available (4 + packet_length + mac_length)
            then pure none
            else take_plain packet_length

      unfoldable pub decrypt_header : Bytes → M PacketError S Outcome
      decrypt_header encrypted_header = do
        seq_num ← get seq
        or_throw decryption_failed (decrypt encrypted_header seq_num none false) frame_plain

      -- The branch without an authentication tag.
      unfoldable pub next_plain : M PacketError S Outcome
      next_plain = do found ← peek block; or_null found decrypt_header

      -- `nextPacket`
      unfoldable pub next_packet : Bool → M PacketError S Outcome
      next_packet has_auth_tag = do
        refuse (ltb block 4) (block_size block)
        if has_auth_tag then next_authenticated else next_plain
