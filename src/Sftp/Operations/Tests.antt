-- ===== src/Sftp/Operations/Tests.antt =====
-- Tests and witnesses for the attributes and operations of worker/src/webssh/ssh/sftp.ts.
use cf_workers_vpsmonitor.Common.{
  ◌≤◌, ◌+◌, ◌-◌, ◌*◌, ◌/◌, ◌%◌, ◌&&◌, Bool, false, [], ◌∷◌, ◌++◌, Option, none, some, length, ltb,
  leb, ◌==◌, ◌≡◌, refl, ok, arith, if◌then◌else◌,
}
use mathlib.Core.Option.{map}
use cf_workers_vpsmonitor.Ssh.Wire.{encode_string, Bytes, encode_uint32, concat_bytes, read_uint32}
use cf_workers_vpsmonitor.Ssh.Wire.Laws.{be32}
use cf_workers_vpsmonitor.Sftp.Frames.{new_frames}
use cf_workers_vpsmonitor.Sftp.Reader.{
  Reader, read_string_bytes, read_number, read_slice, require_bytes, remaining,
}
use cf_workers_vpsmonitor.Sftp.Attrs.{AttrsInput, encode_attrs, encode_given}
use cf_workers_vpsmonitor.Sftp.Parsing.{parse_attrs}
use cf_workers_vpsmonitor.Sftp.Parsing.RoundTrip.{sent_attrs, parse_attrs-encode_attrs}
use cf_workers_vpsmonitor.Sftp.Client.{ready, SftpClient, resolved, get_pending, delete_pending}
use cf_workers_vpsmonitor.Sftp.Dispatch.{dispatch}
use cf_workers_vpsmonitor.Sftp.Responses.{response}
use cf_workers_vpsmonitor.Sftp.Operations.{
  Reply, attrs, attrs_type, data_type, parse_stat, parse_contents,
}
use cf_workers_vpsmonitor.Sftp.Operations.Replies.{dispatch-stat, parse_contents-size}

-- UTF-8 of the code points below 0x800.
abbrev encode : Bytes → Bytes
encode [] = []
encode (c ∷ text) =
    if ltb c 0x80 then c ∷ encode text else (192 + c / 64) ∷ (128 + c % 64) ∷ encode text

abbrev decode_points : Bytes → Option Bytes
decode_points [] = some []
decode_points (b ∷ []) = if ltb b 0x80 then some (b ∷ []) else none
decode_points (b ∷ c ∷ rest) =
    let one = map (λ points. b ∷ points) (decode_points (c ∷ rest)) in
    let two = map (λ points. ((b - 192) * 64 + (c - 128)) ∷ points) (decode_points rest) in
    if ltb b 0x80
    then one
    else if leb 192 b && ltb b 224 && leb 128 c && ltb c 192
    then two
    else none

abbrev drop_mark : Bytes → Bytes
drop_mark (a ∷ b ∷ c ∷ rest) =
    if a == 0xef && b == 0xbb && c == 0xbf then rest else a ∷ b ∷ c ∷ rest
drop_mark bytes = bytes

-- A byte order mark at the start is left out, and other bytes are refused.
abbrev decode : Bytes → Option Bytes
decode bytes = decode_points (drop_mark bytes)

abbrev same_text : Bytes → Bytes → Bool
same_text a b = length a == length b

abbrev input : AttrsInput Bytes
input = record {
  size = none;
  uid = some 5;
  gid = some 6;
  permissions = some 0o755;
  atime = none;
  mtime = none;
  extended = some (record { type_name = 0xe9 ∷ b'a' ∷ []; data_bytes = 1 ∷ 2 ∷ [] } ∷ []);
}

abbrev input_bytes : Bytes
input_bytes =
    128 ∷ 0 ∷ 0 ∷ 6 ∷ be32 5
    ++ be32 6
    ++ be32 0o755
    ++ be32 1
    ++ be32 3
    ++ (0xc3 ∷ 0xa9 ∷ b'a' ∷ [])
    ++ be32 2
    ++ (1 ∷ 2 ∷ [])

input_encoded : encode_attrs encode 4 (some input) ≡ ok input_bytes
unfolding encode_attrs encode_given concat_bytes encode_uint32 encode_string
input_encoded = refl

-- The attributes stand behind one byte and before another.
parse_attrs-encode_attrs_example :
    parse_attrs decode 4 (record { data_bytes = (9 ∷ []) ++ (input_bytes ++ (8 ∷ [])); offset = 1 })
    ≡ (
      ok (sent_attrs input),
      record { data_bytes = (9 ∷ []) ++ (input_bytes ++ (8 ∷ [])); offset = 34 },
    )
parse_attrs-encode_attrs_example =
    parse_attrs-encode_attrs encode decode 4 input input_bytes (refl, tt) input_encoded
      ((9 ∷ []) ++ (input_bytes ++ (8 ∷ []))) (9 ∷ []) (8 ∷ []) 1 refl refl

abbrev client : SftpClient (Reply Bytes) Bytes
client = record {
  limits = record { max_packet_length = 64; max_buffered_bytes = 68 };
  max_version_extensions = 4;
  state = ready;
  next_request_id = 8;
  pending = record { id = 7; parse = parse_stat decode 4 7 } ∷ [];
  frames = new_frames;
  awaiting = false;
  settled = [];
  sent = [];
}

dispatch-stat_example :
    dispatch decode same_text (response attrs_type 7 input_bytes) client
    ≡ (ok tt, record client { pending = []; settled = resolved 7 (attrs (sent_attrs input)) ∷ [] })
unfolding get_pending delete_pending
dispatch-stat_example =
    dispatch-stat encode decode same_text 4 7 input input_bytes client (refl, tt) input_encoded refl
      (omega arith) (omega arith) refl

-- Two bytes of data for a request of three.
abbrev data_response : Reader
data_response = record { data_bytes = 0 ∷ 0 ∷ 0 ∷ 2 ∷ 5 ∷ 6 ∷ []; offset = 0 }

parse_contents-size_example : 2 ≤ 3
unfolding parse_contents read_string_bytes read_number read_slice require_bytes remaining
    read_uint32
parse_contents-size_example =
    parse_contents-size decode 3 7 data_type data_response (5 ∷ 6 ∷ []) refl
