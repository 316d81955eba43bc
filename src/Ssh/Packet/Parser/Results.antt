-- ===== src/Ssh/Packet/Parser/Results.antt =====
-- What `nextPacket` of worker/src/webssh/ssh/packet.ts returns for a well-formed packet, on the flat
-- queue.
use cf_workers_vpsmonitor.Common.{
  ℕ, ◌+◌, ◌-◌, ◌%◌, ◌≤◌, ◌<◌, ◌≡◌, sym, ap, ◌∙◌, true, false, Option, none, some, ◌++◌,
  append_assoc, length, take, drop, get_or, leb, ltb, ◌==◌, ◌||◌, le→leb, le→ltb, length-append,
  drop-drop, take-append, drop-append, Result, ok, arith, ==_iff,
}
use cf_workers_vpsmonitor.Ssh.Wire.{Bytes, read_uint32}
use cf_workers_vpsmonitor.Ssh.Packet.Buffer.{PacketError, next_sequence_number}
use cf_workers_vpsmonitor.Ssh.Packet.Parser.{
  SshPacket, Decrypt, VerifyMac, max_packet_size, min_packet_length, or_null, or_throw,
  check_packet_length, finish_packet, open_authenticated, take_authenticated, frame_authenticated,
  next_authenticated, mac_fails, open_plain, take_mac, take_plain, frame_plain, decrypt_header,
  next_plain, next_packet, Outcome,
}
use cf_workers_vpsmonitor.Ssh.Packet.Parser.Queue.{Queue, queue_ops, peek_queue, read_queue}

abbrev pub Returned : Type 0
Returned = Result PacketError Outcome × Queue

-- The packet with the padding length at index `at` of the decrypted bytes.
abbrev pub packet_from : Bytes → ℕ → ℕ → Bytes → SshPacket
packet_from d at n mac = record {
  packet_length = n;
  padding_length = get_or d at 0;
  payload = take (n - 1 - get_or d at 0) (drop (at + 1) d);
  mac = mac;
}

abbrev pub after_packet : Bytes → ℕ → Queue
after_packet rest seq = record { bytes = rest; seq_num = next_sequence_number seq }

finish_packet_lem :
    (d : Bytes) (at n : ℕ) (mac : Bytes) (q : Queue)
    → 4 ≤ get_or d at 0
    → get_or d at 0 < n
    → finish_packet queue_ops d at n mac q
      ≡ (ok (some (packet_from d at n mac)), after_packet q.bytes q.seq_num)
unfolding finish_packet
finish_packet_lem d at n mac q h k =
    let e : (ltb (get_or d at 0) 4 || leb n (get_or d at 0)) ≡ false = ground arith in rw e

open_authenticated_lem :
    (block : ℕ) (decrypt : Decrypt) (n : ℕ) (field cipher d : Bytes) (q : Queue)
    → length field ≡ 4
    → decrypt cipher q.seq_num (some field) true ≡ some d
    → length d ≡ n
    → 4 ≤ get_or d 0 0
    → get_or d 0 0 < n
    → open_authenticated queue_ops block decrypt n (field ++ cipher) q
      ≡ (ok (some (packet_from d 0 n (drop n cipher))), after_packet q.bytes q.seq_num)
unfolding open_authenticated or_throw
open_authenticated_lem block decrypt n field cipher d q f e l h k =
    let same : (length d == n) ≡ true = (==_iff (length d) n).1 l in
    rw (
      take-append 4 field cipher (sym f),
      drop-append 4 field cipher (sym f),
      e,
      same,
      finish_packet_lem d 0 n (drop (4 + n) (field ++ cipher)) q h k,
      ← drop-drop n 4 (field ++ cipher),
      drop-append 4 field cipher (sym f),
    )

-- Reading exactly what stands in front.
peek_front :
    (n : ℕ) (front rest : Bytes) (seq : ℕ)
    → n ≡ length front
    → peek_queue n (record { bytes = front ++ rest; seq_num = seq }) ≡ some front
peek_front n front rest seq h = rw (
  le→leb n (length (front ++ rest)) (omega (arith, length-append front rest)),
  take-append n front rest h,
)

read_front :
    (n : ℕ) (front rest : Bytes) (seq : ℕ)
    → n ≡ length front
    → read_queue n (record { bytes = front ++ rest; seq_num = seq })
      ≡ record { bytes = rest; seq_num = seq }
read_front n front rest seq h = rw (
  le→leb n (length (front ++ rest)) (omega (arith, length-append front rest)),
  drop-append n front rest h,
)

-- A length field that the parser accepts.
pub record IsLength (n : ℕ) : Type 0 where
  pub enough : min_packet_length ≤ n
  pub small : n ≤ max_packet_size

module _ (block : ℕ) (decrypt : Decrypt) (n : ℕ) (field cipher rest d : Bytes) (seq : ℕ)
    (f : length field ≡ 4) (c : length cipher ≡ n + 16)
    (e : decrypt cipher seq (some field) true ≡ some d) (l : length d ≡ n) (h : 4 ≤ get_or d 0 0)
    (k : get_or d 0 0 < n) where
  abbrev arrived : Queue
  arrived = record { bytes = (field ++ cipher) ++ rest; seq_num = seq }

  take_authenticated_lem :
      take_authenticated queue_ops block decrypt n arrived
      ≡ (ok (some (packet_from d 0 n (drop n cipher))), after_packet rest seq)
  unfolding take_authenticated or_null
  take_authenticated_lem =
      let size : 4 + n + 16 ≡ length (field ++ cipher) =
        omega (arith, length-append field cipher) in
      rw
        (
          peek_front (4 + n + 16) (field ++ cipher) rest seq size,
          read_front (4 + n + 16) (field ++ cipher) rest seq size,
        )
        (open_authenticated_lem block decrypt n field cipher d
          (record { bytes = rest; seq_num = seq }) f e l h k)

  frame_authenticated_lem :
      read_uint32 field 0 ≡ n
      → IsLength n
      → n % block ≡ 0
      → frame_authenticated queue_ops block decrypt field arrived
        ≡ (ok (some (packet_from d 0 n (drop n cipher))), after_packet rest seq)
  unfolding frame_authenticated check_packet_length
  frame_authenticated_lem r v a =
      let available : ltb (length arrived.bytes) (4 + n + 16) ≡ false =
        le→ltb _ (4 + n + 16)
          (omega (arith, length-append (field ++ cipher) rest, length-append field cipher)) in
      rw (
        r,
        le→ltb n min_packet_length v.enough,
        le→ltb max_packet_size n v.small,
        a,
        available,
        take_authenticated_lem,
      )

  -- The parser returns the packet of a well-formed frame with an authentication tag.
  pub authenticated_lem :
      4 ≤ block
      → read_uint32 field 0 ≡ n
      → IsLength n
      → n % block ≡ 0
      → (mac_length : ℕ) (verify : Option VerifyMac)
      → next_packet queue_ops block decrypt mac_length verify true arrived
        ≡ (ok (some (packet_from d 0 n (drop n cipher))), after_packet rest seq)
  unfolding next_packet next_authenticated or_null
  authenticated_lem b r v a mac_length verify = rw (
    le→ltb block 4 b,
    append_assoc field cipher rest,
    peek_front 4 field (cipher ++ rest) seq (sym f),
    ← append_assoc field cipher rest,
    frame_authenticated_lem r v a,
  )

-- A code that the check accepts is no failure, whatever its length.
pub mac_fails_lem :
    (verify : VerifyMac) (mac_length seq : ℕ) (d tag : Bytes)
    → verify d tag seq ≡ true
    → mac_fails mac_length (some verify) d tag seq ≡ false
unfolding mac_fails
mac_fails_lem verify mac_length seq d tag h = ground arith

module _ (block : ℕ) (decrypt : Decrypt) (mac_length : ℕ) (verify : Option VerifyMac) (n : ℕ)
    (cipher tag rest d : Bytes) (seq : ℕ) (c : length cipher ≡ 4 + n) (t : length tag ≡ mac_length)
    (e : decrypt cipher seq none true ≡ some d) (l : length d ≡ 4 + n)
    (g : mac_fails mac_length verify d tag seq ≡ false) (h : 4 ≤ get_or d 4 0)
    (k : get_or d 4 0 < n) where
  abbrev received : Queue
  received = record { bytes = cipher ++ (tag ++ rest); seq_num = seq }

  take_plain_lem :
      take_plain queue_ops block decrypt mac_length verify n received
      ≡ (ok (some (packet_from d 4 n tag)), after_packet rest seq)
  unfolding take_plain take_mac or_null open_plain or_throw
  take_plain_lem = rw (
    peek_front (4 + n) cipher (tag ++ rest) seq (sym c),
    read_front (4 + n) cipher (tag ++ rest) seq (sym c),
    peek_front mac_length tag rest seq (sym t),
    read_front mac_length tag rest seq (sym t),
    e,
    (==_iff (length d) (4 + n)).1 l,
    g,
    finish_packet_lem d 4 n tag (record { bytes = rest; seq_num = seq }) h k,
  )

  frame_plain_lem :
      (header : Bytes)
      → read_uint32 header 0 ≡ n
      → IsLength n
      → (4 + n) % block ≡ 0
      → frame_plain queue_ops block decrypt mac_length verify header received
        ≡ (ok (some (packet_from d 4 n tag)), after_packet rest seq)
  unfolding frame_plain check_packet_length
  frame_plain_lem header r v a =
      let available : ltb (length received.bytes) (4 + n + mac_length) ≡ false =
        le→ltb _ (4 + n + mac_length)
          (omega (arith, length-append cipher (tag ++ rest), length-append tag rest)) in
      rw (
        r,
        le→ltb n min_packet_length v.enough,
        le→ltb max_packet_size n v.small,
        a,
        available,
        take_plain_lem,
      )

  -- The parser returns the packet of a well-formed frame without an authentication tag.
  pub plain_lem :
      (first left header : Bytes)
      → 4 ≤ block
      → cipher ≡ first ++ left
      → block ≡ length first
      → decrypt first seq none false ≡ some header
      → read_uint32 header 0 ≡ n
      → IsLength n
      → (4 + n) % block ≡ 0
      → next_packet queue_ops block decrypt mac_length verify false received
        ≡ (ok (some (packet_from d 4 n tag)), after_packet rest seq)
  unfolding next_packet next_plain decrypt_header or_null or_throw
  plain_lem first left header b s w u r v a =
      let split : cipher ++ (tag ++ rest) ≡ first ++ (left ++ (tag ++ rest)) =
        ap (λ x. x ++ (tag ++ rest)) s ∙ append_assoc first left (tag ++ rest) in
      rw (
        le→ltb block 4 b,
        split,
        peek_front block first (left ++ (tag ++ rest)) seq w,
        u,
        ← split,
        frame_plain_lem header r v a,
      )
