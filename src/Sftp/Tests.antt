-- ===== src/Sftp/Tests.antt =====
-- Tests and witnesses for worker/src/webssh/ssh/sftp.ts.
use cf_workers_vpsmonitor.Common.{
  ℕ, Bool, true, false, List, [], ◌∷◌, ◌++◌, Option, some, length, ◌≡◌, ◌≢◌, refl, Result, ok,
  throw, arith, ◌==◌,
}
use cf_workers_vpsmonitor.Common.State.{pure, ◌>>◌}
use cf_workers_vpsmonitor.Ssh.Wire.{Bytes, write_uint32, read_uint32, encode_string}
use cf_workers_vpsmonitor.Sftp.Frames.{
  SftpError, disposed, malformed, packet_length, FrameLimits, new_frames, is_bad_length,
  validate_packet_length, take_header, choose_step, feed_step, feed_loop,
}
use cf_workers_vpsmonitor.Sftp.Frames.Stream.{in_header, take_bytes}
use cf_workers_vpsmonitor.Sftp.Frames.Refine.{view, Agrees, feed_loop_refines}
use cf_workers_vpsmonitor.Sftp.Reader.{
  Reader, Reading, read_byte, read_number, require_bytes, remaining, assert_end,
}
use cf_workers_vpsmonitor.Sftp.Client.{
  ready, is_disposed, PendingRequest, resolved, SftpClient, has_pending, get_pending,
  delete_pending, dispose, allocate_request_id, find_id, bump,
}
use cf_workers_vpsmonitor.Sftp.Dispatch.{
  answer, settle, dispatch, feed, request, initialize, parse_whole,
}
use cf_workers_vpsmonitor.Sftp.Delivery.{feed_chunks, dispatch_all, feed_chunks-encode_string}
use cf_workers_vpsmonitor.Sftp.Responses.{
  response, settlement, rethrown, dispatch_late, dispatch_pending,
}
use cf_workers_vpsmonitor.Sftp.RequestIds.{IsId, IsFree, allocate_request_id_lem}
use cf_workers_vpsmonitor.Sftp.Disposal.{IsSettledBy, feed-throw, dispose-final}

abbrev limits : FrameLimits
limits = record { max_packet_length = 64; max_buffered_bytes = 68 }

-- A text is its bytes.
abbrev decode : Bytes → Option Bytes
decode bytes = some bytes

abbrev same_text : Bytes → Bytes → Bool
same_text a b = length a == length b

-- A parser that takes one byte of any response.
abbrev parse_byte : ℕ → Reading ℕ
parse_byte type = read_byte

abbrev client : SftpClient ℕ Bytes
client = record {
  limits = limits;
  max_version_extensions = 4;
  state = ready;
  next_request_id = 8;
  pending = record { id = 7; parse = parse_byte } ∷ [];
  frames = new_frames;
  awaiting = false;
  settled = [];
  sent = [];
}

-- A packet is a record of the bytes that it had.
abbrev keep : Bytes → List Bytes → Result SftpError (Unit {0}) × List Bytes
keep packet packets = (ok tt, packets ++ (packet ∷ []))

abbrev chunk : Bytes
chunk = 0 ∷ 0 ∷ 0 ∷ 2 ∷ 9 ∷ 8 ∷ 0 ∷ 0 ∷ []

feed_loop_refines_example :
    Agrees
      (feed_loop limits keep 8 new_frames chunk [])
      (take_bytes limits keep (view new_frames) chunk [])
feed_loop_refines_example =
    feed_loop_refines limits keep 8 new_frames chunk [] (refl, omega arith) (omega arith)

abbrev bodies : List Bytes
bodies = (9 ∷ 8 ∷ []) ∷ (7 ∷ []) ∷ []

-- Both packets in three chunks, which are cut in the second header.
abbrev chunks : List Bytes
chunks = (0 ∷ 0 ∷ 0 ∷ 2 ∷ 9 ∷ []) ∷ (8 ∷ 0 ∷ 0 ∷ []) ∷ (0 ∷ 1 ∷ 7 ∷ []) ∷ []

feed_chunks-encode_string_example :
    Agrees
      (feed_chunks limits keep new_frames chunks [])
      ((dispatch_all limits keep bodies >> pure (in_header [])) [])
unfolding is_bad_length encode_string write_uint32
feed_chunks-encode_string_example =
    feed_chunks-encode_string limits keep new_frames chunks bodies [] (refl, omega arith) refl
      ((refl, omega arith), ((refl, omega arith), tt)) refl

dispatch_late_example : dispatch decode same_text (response 105 5 (1 ∷ [])) client ≡ (ok tt, client)
unfolding get_pending
dispatch_late_example =
    dispatch_late decode same_text 105 5 (1 ∷ []) client refl (ground arith) (omega arith)
      (omega arith) refl

feed-throw_example : is_disposed (feed decode same_text (0 ∷ 0 ∷ 0 ∷ 0 ∷ []) client).1.state ≡ true
unfolding feed feed_loop feed_step choose_step take_header validate_packet_length is_bad_length
    read_uint32
feed-throw_example = feed-throw decode same_text (0 ∷ 0 ∷ 0 ∷ 0 ∷ []) client (packet_length 0) refl

abbrev seven : PendingRequest ℕ
seven = record { id = 7; parse = parse_byte }

abbrev answered : Result SftpError (Unit {0}) × SftpClient ℕ Bytes
answered = dispatch decode same_text (response 103 7 (5 ∷ [])) client

abbrev answer_read : Result SftpError ℕ × Reader
answer_read =
    parse_whole parse_byte 103 (record { data_bytes = response 103 7 (5 ∷ []); offset = 5 })

dispatch_pending_example :
    (answered ≡ (
      rethrown answer_read.0,
      record client {
        pending = delete_pending 7 client.pending;
        settled = client.settled ++ (settlement 7 answer_read ∷ []);
      },
    ))
    × (has_pending 7 answered.1.pending ≡ false)
    × ((other : ℕ)
        → other ≢ 7
        → has_pending other answered.1.pending ≡ has_pending other client.pending)
unfolding get_pending
dispatch_pending_example =
    dispatch_pending decode same_text 103 7 (5 ∷ []) client seven refl (ground arith) (omega arith)
      (omega arith) refl

abbrev gone : SftpClient ℕ Bytes
gone = dispose malformed client

dispose-final_example :
    (is_disposed client.state ≡ false → IsSettledBy malformed client gone)
    × ((chunk : Bytes) → feed decode same_text chunk gone ≡ (throw disposed, gone))
    × ((type : ℕ) (fields : List Bytes) (parse : ℕ → ℕ → Reading ℕ)
        → request type fields parse gone ≡ (throw disposed, gone))
    × (initialize gone ≡ (throw disposed, gone))
    × ((again : SftpError) → dispose again gone ≡ gone)
dispose-final_example = dispose-final decode same_text malformed client

-- The answered request's promise has the byte of the response.
answered_settled : answered.1.settled ≡ resolved 7 5 ∷ []
unfolding dispatch answer settle get_pending read_byte read_number read_uint32 require_bytes
    remaining assert_end parse_whole
answered_settled = refl

-- The next number is taken, so that the one behind it is given, which wraps around.
abbrev wrapping : SftpClient ℕ Bytes
wrapping = record client {
  next_request_id = 0xffffffff;
  pending = record { id = 0xffffffff; parse = parse_byte } ∷ [];
}

allocate_request_id_lem_example :
    (id : ℕ) × IsFree id wrapping.pending
    × IsId (bump id)
    × (allocate_request_id wrapping ≡ (ok id, record wrapping { next_request_id = bump id }))
allocate_request_id_lem_example =
    allocate_request_id_lem wrapping (omega arith, omega arith) (omega arith)

wrapped : allocate_request_id wrapping ≡ (ok 1, record wrapping { next_request_id = 2 })
unfolding allocate_request_id find_id bump has_pending
wrapped = refl
