-- ===== src/Ssh/Packet/Buffer.antt =====
-- The chunk buffer of `SSHPacketParser` in worker/src/webssh/ssh/packet.ts: `feed`, `peekBytes`,
-- `readBytes`, `consumeBytes` and `compactChunks`.
pub mod Refine
use cf_workers_vpsmonitor.Common.{
  ℕ, zero, suc, ◌+◌, ◌-◌, ◌*◌, ◌%◌, ◌^◌, min, Bool, false, ◌&&◌, List, [], ◌∷◌, ◌++◌, Option, none,
  some, length, get_elem?, take, drop, leb, ltb, ◌==◌, if◌then◌else◌, Result, ok, throw, ◌>>=◌,
}
use cf_workers_vpsmonitor.Ssh.Wire.{Bytes}

-- What the parser throws. `no_chunk` is the TypeError of a read past the last chunk.
pub data PacketError : Type 0 where
  cannot_consume no_chunk : PacketError
  block_size below_minimum exceeds_maximum not_aligned : ℕ → PacketError
  decryption_failed : PacketError
  length_mismatch : ℕ → ℕ → PacketError
  invalid_mac : PacketError
  invalid_padding : ℕ → ℕ → PacketError

-- The fields of `SSHPacketParser`.
pub record PacketParser : Type 0 where
  pub chunks : List Bytes
  pub chunk_index : ℕ
  pub read_offset : ℕ
  pub buffered_length : ℕ
  pub seq_num : ℕ

abbrev pub new_parser : PacketParser
new_parser = record {
  chunks = [];
  chunk_index = 0;
  read_offset = 0;
  buffered_length = 0;
  seq_num = 0;
}

abbrev pub compact_chunks_threshold : ℕ
compact_chunks_threshold = 32

-- `nextSequenceNumber`
unfoldable pub next_sequence_number : ℕ → ℕ
next_sequence_number value = (value + 1) % 2 ^ 32

-- `feed`
unfoldable pub feed : PacketParser → Bytes → PacketParser
feed p bytes = if length bytes == 0 then p else record p {
  chunks = p.chunks ++ (bytes ∷ []);
  buffered_length = p.buffered_length + length bytes;
}

-- The copying loop of `peekBytes`: the chunks from the current one on, the offset in the first of
-- them, and the number of bytes still to copy.
unfoldable pub gather : List Bytes → ℕ → ℕ → Result PacketError Bytes
gather cs start zero = ok []
gather [] start (suc n) = throw no_chunk
gather (c ∷ cs) start (suc n) =
    let copied = min (length c - start) (suc n) in
    let rest = gather cs 0 (suc n - copied) in
    rest >>= λ more. ok (take copied (drop start c) ++ more)

-- The first chunk holds all the bytes asked for.
unfoldable pub first_suffices : Option Bytes → ℕ → ℕ → Bool
first_suffices none offset bytes = false
first_suffices (some first) offset bytes = leb bytes (length first - offset)

unfoldable pub first_slice : Option Bytes → ℕ → ℕ → Bytes
first_slice none offset bytes = []
first_slice (some first) offset bytes = take bytes (drop offset first)

-- `peekBytes`: `none` where fewer bytes are buffered.
unfoldable pub peek_bytes : PacketParser → ℕ → Result PacketError (Option Bytes)
peek_bytes p bytes =
    if bytes == 0
    then ok (some [])
    else if ltb p.buffered_length bytes
    then ok none
    else if first_suffices (get_elem? p.chunks p.chunk_index) p.read_offset bytes
    then ok (some (first_slice (get_elem? p.chunks p.chunk_index) p.read_offset bytes))
    else gather (drop p.chunk_index p.chunks) p.read_offset bytes >>= λ found. ok (some found)

-- `compactChunks`
unfoldable pub compact_chunks : PacketParser → PacketParser
compact_chunks p =
    if p.buffered_length == 0
    then record p { chunks = []; chunk_index = 0; read_offset = 0 }
    else if ltb compact_chunks_threshold p.chunk_index && leb (length p.chunks) (p.chunk_index * 2)
    then record p { chunks = drop p.chunk_index p.chunks; chunk_index = 0 }
    else p

-- The loop of `consumeBytes`: the chunks from the current one on, its index, the offset in it, and
-- the bytes still to skip; the new index and offset.
unfoldable pub skip : List Bytes → ℕ → ℕ → ℕ → Result PacketError (ℕ × ℕ)
skip cs index offset zero = ok (index, offset)
skip [] index offset (suc n) = throw no_chunk
skip (c ∷ cs) index offset (suc n) =
    let rest = skip cs (index + 1) 0 (suc n - (length c - offset)) in
    if ltb (suc n) (length c - offset) then ok (index, offset + suc n) else rest

-- `consumeBytes`
unfoldable pub consume_bytes : PacketParser → ℕ → Result PacketError PacketParser
consume_bytes p bytes =
    if bytes == 0
    then ok p
    else if ltb p.buffered_length bytes
    then throw cannot_consume
    else skip (drop p.chunk_index p.chunks) p.chunk_index p.read_offset bytes >>= λ (index, offset).
        ok (
          compact_chunks (record p {
            buffered_length = p.buffered_length - bytes;
            chunk_index = index;
            read_offset = offset;
          }))

-- `readBytes`
unfoldable pub read_bytes : PacketParser → ℕ → Result PacketError (Option Bytes × PacketParser)
read_bytes p bytes = peek_bytes p bytes >>= λ found. elim found [
  | none ↦ ok (none, p)
  | some result ↦ consume_bytes p bytes >>= λ p'. ok (some result, p')
]
