-- ===== src/Ssh/Packet/Tests.antt =====
-- The packet layer of worker/src/webssh/ssh/packet.ts at a small cipher, and its theorems applied.
use cf_workers_vpsmonitor.Common.{
  ap, ◌*◌, ℕ, ◌+◌, ◌-◌, ◌%◌, ◌≤◌, ◌≡◌, refl, true, false, none, some, [], ◌∷◌, ◌++◌, length, take,
  drop, replicate, get_or, length-append, length-replicate, take-append, ok, throw, arith, ◌==◌,
}
use cf_workers_vpsmonitor.Ssh.Wire.{Bytes, write_uint32, read_uint32}
use cf_workers_vpsmonitor.Ssh.Packet.Buffer.{
  PacketParser, new_parser, feed, read_bytes, block_size, peek_bytes, gather, first_suffices,
  first_slice, consume_bytes, skip, compact_chunks, next_sequence_number,
}
use cf_workers_vpsmonitor.Ssh.Packet.Buffer.Refine.{
  contents, IsValid, feed_lem, ReadsQueue, read_bytes_lem,
}
use cf_workers_vpsmonitor.Ssh.Packet.Parser.{
  Decrypt, VerifyMac, next_packet, parser_ops, next_authenticated, frame_authenticated,
  take_authenticated, open_authenticated, finish_packet, check_packet_length, or_null, or_throw,
}
use cf_workers_vpsmonitor.Ssh.Packet.Parser.Queue.{queue_ops}
use cf_workers_vpsmonitor.Ssh.Packet.Parser.Refine.{Agrees, view, next_packet_refines}
use cf_workers_vpsmonitor.Ssh.Packet.Builder.{
  Encrypt, Mac, padding_length, padding_needed, build, seal, join_tagged, join_mac, clear_packet,
}
use cf_workers_vpsmonitor.Ssh.Packet.Builder.Padding.{padding_length_bounds}
use cf_workers_vpsmonitor.Ssh.Packet.Builder.RoundTrip.{
  IsTagCipher, IsMacCipher, Delivers, next_packet-build_tagged, next_packet-build_mac,
}

packets : Unit {0}
unfolding build seal join_tagged join_mac clear_packet padding_length padding_needed write_uint32
packets = tt

abbrev random : ℕ → Bytes
random n = replicate n 5

-- A tag of sixteen bytes behind the text.
abbrev encrypt : Encrypt
encrypt d seq aad = d ++ replicate 16 1

abbrev decrypt : Decrypt
decrypt c seq aad commit = some (take (length c - 16) c)

abbrev plain_encrypt : Encrypt
plain_encrypt d seq aad = d

abbrev plain_decrypt : Decrypt
plain_decrypt c seq aad commit = some c

abbrev mac : Mac
mac d seq = 7 ∷ []

abbrev verify : VerifyMac
verify d tag seq = get_or tag 0 0 == 7

abbrev payload : Bytes
payload = 94 ∷ 1 ∷ 2 ∷ []

abbrev tagged_packet : Bytes
unfolding packets
tagged_packet = build random 8 (some encrypt) 0 true none payload

abbrev mac_packet : Bytes
unfolding packets
mac_packet = build random 8 (some plain_encrypt) 0 false (some mac) payload

-- A packet in two chunks, with one byte more.
abbrev holding : Bytes → PacketParser
holding bytes = record {
  chunks = take 7 bytes ∷ (drop 7 bytes ++ (42 ∷ [])) ∷ [];
  chunk_index = 0;
  read_offset = 0;
  buffered_length = length bytes + 1;
  seq_num = 0;
}

tag_cipher : IsTagCipher encrypt decrypt
tag_cipher = record {
  opens = λ d seq aad. ap some (
      take-append (length (d ++ replicate 16 1) - 16) d (replicate 16 1)
        (omega (arith, length-append d (replicate 16 1))));
  grows = λ d seq aad. length-append d (replicate 16 1);
}

mac_cipher : IsMacCipher 8 plain_encrypt plain_decrypt mac 1 verify
mac_cipher = record {
  opens = λ d seq. refl;
  keeps = λ d seq. refl;
  header = λ d seq. refl;
  mac_size = λ d seq. refl;
  accepts = λ d seq. refl;
}

tagged_size : length tagged_packet ≡ 4 + 8 + 16
unfolding packets
tagged_size = refl

holding-IsValid_tagged : IsValid (holding tagged_packet)
unfolding packets
holding-IsValid_tagged = record { index_in = omega arith; fits = omega arith; counted = refl }

holding-IsValid_mac : IsValid (holding mac_packet)
unfolding packets
holding-IsValid_mac = record { index_in = omega arith; fits = omega arith; counted = refl }

contents_tagged :
    contents (holding tagged_packet)
    ≡ build random 8 (some encrypt) 0 true none payload ++ (42 ∷ [])
unfolding packets
contents_tagged = refl

contents_mac :
    contents (holding mac_packet)
    ≡ build random 8 (some plain_encrypt) 0 false (some mac) payload ++ (42 ∷ [])
unfolding packets
contents_mac = refl

tagged_room : 1 + length payload + padding_length (length payload) 8 true ≤ 256 * 1024
unfolding packets
tagged_room = omega arith

mac_room : 1 + length payload + padding_length (length payload) 8 false ≤ 256 * 1024
unfolding packets
mac_room = omega arith

-- The whole parser, run on the packet in two chunks.
parser : Unit {0}
unfolding next_packet next_authenticated frame_authenticated take_authenticated open_authenticated
    finish_packet check_packet_length or_null or_throw parser_ops peek_bytes read_bytes gather
    first_suffices first_slice consume_bytes skip compact_chunks read_uint32 next_sequence_number
parser = tt

tagged_run : next_packet parser_ops 8 decrypt 0 none true (holding tagged_packet) ≡ (
  ok (
      some (record {
        packet_length = 8;
        padding_length = 4;
        payload = payload;
        mac = replicate 16 1;
      })),
  record {
    chunks = take 7 tagged_packet ∷ (drop 7 tagged_packet ++ (42 ∷ [])) ∷ [];
    chunk_index = 1;
    read_offset = 21;
    buffered_length = 1;
    seq_num = 1;
  },
)
unfolding parser packets
tagged_run = refl

-- A cipher block below four bytes is refused.
small_block :
    next_packet parser_ops 2 decrypt 0 none true new_parser ≡ (throw (block_size 2), new_parser)
unfolding parser
small_block = refl

next_packet-build_tagged_example :
    Delivers
      (holding tagged_packet)
      payload
      (42 ∷ [])
      (next_packet parser_ops 8 decrypt 0 none true (holding tagged_packet))
next_packet-build_tagged_example =
    next_packet-build_tagged random payload (42 ∷ []) 8 encrypt decrypt none 0 none
      (holding tagged_packet) (λ n. length-replicate n 5) tag_cipher (omega arith) (omega arith)
      tagged_room holding-IsValid_tagged contents_tagged

next_packet-build_mac_example :
    Delivers
      (holding mac_packet)
      payload
      (42 ∷ [])
      (next_packet parser_ops 8 plain_decrypt 1 (some verify) false (holding mac_packet))
next_packet-build_mac_example =
    next_packet-build_mac random payload (42 ∷ []) 8 plain_encrypt plain_decrypt mac 1 verify
      (holding mac_packet) (λ n. length-replicate n 5) mac_cipher (omega arith) (omega arith)
      mac_room holding-IsValid_mac contents_mac

next_packet_refines_example :
    Agrees
      (next_packet parser_ops 8 decrypt 0 none true (holding tagged_packet))
      (next_packet queue_ops 8 decrypt 0 none true (view (holding tagged_packet)))
next_packet_refines_example =
    next_packet_refines 8 decrypt 0 none (holding tagged_packet) true holding-IsValid_tagged

feed_lem_example :
    (contents (feed (holding mac_packet) payload) ≡ contents (holding mac_packet) ++ payload)
    × IsValid (feed (holding mac_packet) payload)
    × ((feed (holding mac_packet) payload).seq_num ≡ 0)
feed_lem_example = feed_lem (holding mac_packet) payload holding-IsValid_mac

read_bytes_lem_example : ReadsQueue (holding mac_packet) 9 (read_bytes (holding mac_packet) 9)
read_bytes_lem_example = read_bytes_lem (holding mac_packet) 9 holding-IsValid_mac

padding_length_bounds_example :
    (4 ≤ padding_length 3 8 true)
    × (padding_length 3 8 true ≤ 8 + 3)
    × ((1 + 3 + padding_length 3 8 true) % 8 ≡ 0)
padding_length_bounds_example = padding_length_bounds 3 8 true (omega arith)
