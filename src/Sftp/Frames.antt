-- ===== src/Sftp/Frames.antt =====
-- The framing of the SFTP client in worker/src/webssh/ssh/sftp.ts: the loop of `SFTPClient.feed`,
-- which cuts the chunks that arrive into packets, and `validatePacketLength`.
pub mod Stream
pub mod Chunks
pub mod Refine
use cf_workers_vpsmonitor.Common.{
  ℕ, zero, suc, ◌+◌, ◌-◌, min, Bool, ◌&&◌, ◌||◌, List, [], ◌∷◌, Option, none, some, length, take,
  drop, replicate, blit, ltb, leb, ◌==◌, if◌then◌else◌,
}
use cf_workers_vpsmonitor.Common.State.{M, ◌>>=◌, ◌>>◌, pure, refuse}
use cf_workers_vpsmonitor.Ssh.Wire.{Bytes, read_uint32}

-- What the client throws; a `malformed` stands for the errors of the reader and of the parsers.
pub data SftpError : Type 0 where
  disposed not_ready malformed version_mismatch unexpected_version invalid_argument : SftpError
  before_negotiation request_id_zero duplicate_extension no_request_ids : SftpError
  packet_length packet_too_long : ℕ → SftpError
  unexpected_type timed_out : ℕ → SftpError
  status_error : ℕ → ℕ → SftpError

-- `maxPacketLength` and `maxBufferedBytes`
pub record FrameLimits : Type 0 where
  pub max_packet_length : ℕ
  pub max_buffered_bytes : ℕ

-- The fields of `SFTPClient` that hold an incomplete packet.
pub record Frames : Type 0 where
  pub header : Bytes
  pub header_length : ℕ
  pub packet_buffer : Option Bytes
  pub packet_offset : ℕ

abbrev pub new_frames : Frames
new_frames = record {
  header = replicate 4 0;
  header_length = 0;
  packet_buffer = none;
  packet_offset = 0;
}

-- The condition of `validatePacketLength`.
unfoldable pub is_bad_length : FrameLimits → ℕ → Bool
is_bad_length limits size =
    (ltb size 1 || ltb limits.max_packet_length size) || ltb (limits.max_buffered_bytes - 4) size

-- `validatePacketLength`
unfoldable pub validate_packet_length : {S : Type 0} → FrameLimits → ℕ → M SftpError S (Unit {0})
validate_packet_length limits size = refuse (is_bad_length limits size) (packet_length size)

-- `dispatch` is the client's handling of a whole packet.
module _ {S : Type 0} (limits : FrameLimits) (dispatch : Bytes → M SftpError S (Unit {0})) where
  -- The branch `this.packetBuffer`; the frames and what is left of the chunk.
  unfoldable pub fill_packet : Frames → Bytes → Bytes → M SftpError S (Frames × Bytes)
  fill_packet f buffer chunk = do
    let count = min (length buffer - f.packet_offset) (length chunk)
    let filled = blit buffer f.packet_offset (take count chunk)
    if f.packet_offset + count == length filled
        then (dispatch filled
            >> pure (record f { packet_buffer = none; packet_offset = 0 }, drop count chunk))
        else pure (
          record f { packet_buffer = some filled; packet_offset = f.packet_offset + count },
          drop count chunk,
        )

  -- The branch in which the chunk has the whole header.
  unfoldable pub take_header : Frames → Bytes → M SftpError S (Frames × Bytes)
  take_header f chunk = do
    let size = read_uint32 chunk 0
    let body = drop 4 chunk
    validate_packet_length limits size
    if leb size (length body)
        then (dispatch (take size body) >> pure (f, drop size body))
        else pure (
          record f {
            packet_buffer = some (blit (replicate size 0) 0 body);
            packet_offset = length body;
          },
          [],
        )

  -- The end of the loop's body: some bytes of the header.
  unfoldable pub fill_header : Frames → Bytes → M SftpError S (Frames × Bytes)
  fill_header f chunk = do
    let count = min (4 - f.header_length) (length chunk)
    let header = blit f.header f.header_length (take count chunk)
    let size = read_uint32 header 0
    if f.header_length + count == 4
        then (validate_packet_length limits size
            >> pure (
              record {
                header = header;
                header_length = 0;
                packet_buffer = some (replicate size 0);
                packet_offset = 0;
              },
              drop count chunk,
            ))
        else pure (
          record f { header = header; header_length = f.header_length + count },
          drop count chunk,
        )

  -- The tests of the loop's body.
  unfoldable pub choose_step : Option Bytes → Frames → Bytes → M SftpError S (Frames × Bytes)
  choose_step (some buffer) f chunk = fill_packet f buffer chunk
  choose_step none f chunk =
      if f.header_length == 0 && leb 4 (length chunk)
      then take_header f chunk
      else fill_header f chunk

  -- The body of the loop.
  unfoldable pub feed_step : Frames → Bytes → M SftpError S (Frames × Bytes)
  feed_step f chunk = choose_step f.packet_buffer f chunk

  -- `while (offset < chunk.length)`: a pass takes at least one byte, so the chunk's length is fuel
  -- enough.
  unfoldable pub feed_loop : ℕ → Frames → Bytes → M SftpError S Frames
  feed_loop zero f chunk = pure f
  feed_loop (suc fuel) f [] = pure f
  feed_loop (suc fuel) f (b ∷ chunk) = do
    step ← feed_step f (b ∷ chunk)
    feed_loop fuel (step.0) (step.1)
