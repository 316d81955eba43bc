-- ===== src/Ssh/Packet/Builder/RoundTrip.antt =====
-- What `SSHPacketBuilder` sends, `SSHPacketParser` of worker/src/webssh/ssh/packet.ts returns.
use native.Mathlib.Nat.{mod-eq_of_lt}
use cf_workers_vpsmonitor.Common.{
  ℕ, ◌+◌, ◌-◌, ◌%◌, ◌^◌, ◌≤◌, ◌<◌, ◌≡◌, refl, sym, ap, ◌∙◌, Bool, true, false, Option, none, some,
  [], ◌++◌, append_assoc, length, take, drop, ltb, ltb→le, ltb→lt, length-append, length-take,
  take-append, take-append-drop, take-append_ge, Result, ok, arith, Bool-cases, inl, inr,
}
use cf_workers_vpsmonitor.Ssh.Wire.{Bytes, read_uint32}
use cf_workers_vpsmonitor.Ssh.Wire.Laws.{be32, read_uint32_lem}
use cf_workers_vpsmonitor.Ssh.Packet.Buffer.{PacketError, PacketParser, next_sequence_number}
use cf_workers_vpsmonitor.Ssh.Packet.Buffer.Refine.{contents, IsValid}
use cf_workers_vpsmonitor.Ssh.Packet.Parser.{
  SshPacket, Decrypt, VerifyMac, max_packet_size, mac_fails, next_packet, parser_ops, Outcome,
}
use cf_workers_vpsmonitor.Ssh.Packet.Parser.Queue.{Queue, queue_ops}
use cf_workers_vpsmonitor.Ssh.Packet.Parser.Refine.{view, next_packet_refines}
use cf_workers_vpsmonitor.Ssh.Packet.Parser.Results.{
  IsLength, packet_from, after_packet, authenticated_lem, plain_lem, mac_fails_lem,
}
use cf_workers_vpsmonitor.Ssh.Packet.Builder.{
  Encrypt, Mac, padding_length, build, clear_packet, seal,
}
use cf_workers_vpsmonitor.Ssh.Packet.Builder.Padding.{padding_length_bounds}
use cf_workers_vpsmonitor.Ssh.Packet.Builder.Layout.{
  body, write_at, clear_packet_lem, join_tagged_lem, join_mac_lem,
}

-- A cipher with an authentication tag of 16 bytes: decryption undoes encryption.
pub record IsTagCipher (encrypt : Encrypt) (decrypt : Decrypt) : Type 0 where
  pub opens :
      (d : Bytes) (seq : ℕ) (aad : Bytes)
      → decrypt (encrypt d seq (some aad)) seq (some aad) true ≡ some d
  pub grows :
      (d : Bytes) (seq : ℕ) (aad : Bytes) → length (encrypt d seq (some aad)) ≡ length d + 16

-- A block cipher with a separate authentication code: decryption undoes encryption, also of the
-- first block alone, and the check accepts the code that was made.
pub record IsMacCipher (block : ℕ) (encrypt : Encrypt) (decrypt : Decrypt) (mac : Mac)
    (mac_length : ℕ) (verify : VerifyMac) : Type 0 where
  pub opens : (d : Bytes) (seq : ℕ) → decrypt (encrypt d seq none) seq none true ≡ some d
  pub keeps : (d : Bytes) (seq : ℕ) → length (encrypt d seq none) ≡ length d
  pub header :
      (d : Bytes) (seq : ℕ)
      → decrypt (take block (encrypt d seq none)) seq none false ≡ some (take block d)
  pub mac_size : (d : Bytes) (seq : ℕ) → length (mac d seq) ≡ mac_length
  pub accepts : (d : Bytes) (seq : ℕ) → verify d (mac d seq) seq ≡ true

-- The parser returned a packet with this payload, and the bytes behind the packet are left.
abbrev pub Delivers :
    PacketParser → Bytes → Bytes → Result PacketError Outcome × PacketParser → Type 0
Delivers p payload rest r =
    (packet : SshPacket) × (p' : PacketParser) × (r ≡ (ok (some packet), p'))
    × (packet.payload ≡ payload)
    × (contents p' ≡ rest)
    × (p'.seq_num ≡ next_sequence_number p.seq_num)
    × IsValid p'

abbrev paired :
    PacketParser → Result PacketError Outcome → Result PacketError Outcome × PacketParser
paired p r = (r, p)

-- From the flat queue to the parser.
delivers :
    (p : PacketParser) (payload rest : Bytes) (packet : SshPacket) (block : ℕ) (decrypt : Decrypt)
    (mac_length : ℕ) (verify : Option VerifyMac) (tagged : Bool)
    → IsValid p
    → next_packet queue_ops block decrypt mac_length verify tagged (view p)
      ≡ (ok (some packet), after_packet rest p.seq_num)
    → packet.payload ≡ payload
    → Delivers p payload rest (next_packet parser_ops block decrypt mac_length verify tagged p)
delivers p payload rest packet block decrypt mac_length verify tagged v e f =
    let (agrees, valid) = next_packet_refines block decrypt mac_length verify p tagged v in
    split (next_packet parser_ops block decrypt mac_length verify tagged p) valid (sym agrees ∙ e)
  where
    split :
        (r : Result PacketError Outcome × PacketParser)
        → IsValid r.1
        → ◌≡◌ {A = Result PacketError Outcome × Queue}
            (r.0, view r.1)
            (ok (some packet), after_packet rest p.seq_num)
        → Delivers p payload rest r
    split (result, p') valid same = (
      packet,
      p',
      ap (λ (x : Result PacketError Outcome × Queue). paired p' x.0) same,
      f,
      ap (λ (x : Result PacketError Outcome × Queue). x.1.bytes) same,
      ap (λ (x : Result PacketError Outcome × Queue). x.1.seq_num) same,
      valid,
    )

-- What the builder writes behind the length field fits the length field.
module _ (random : ℕ → Bytes) (filled : (n : ℕ) → length (random n) ≡ n) (payload : Bytes)
    (block : ℕ) (tagged : Bool) (b : 4 ≤ block) (small : block ≤ 252) where
  abbrev padding : ℕ
  padding = padding_length (length payload) block tagged

  abbrev field_value : ℕ
  field_value = 1 + length payload + padding

  abbrev behind : Bytes
  behind = body payload padding (random padding)

  clear_lem :
      clear_packet random (length payload) (write_at payload) block tagged
      ≡ be32 field_value ++ behind
  clear_lem = clear_packet_lem random payload block tagged padding refl (filled padding)

  length-behind : length behind ≡ field_value
  length-behind = omega (arith, length-append payload (random padding), filled padding)

  padding_byte : padding % 256 ≡ padding
  padding_byte =
      let h = padding_length_bounds (length payload) block tagged b in
      mod-eq_of_lt (omega (arith, h.1))

  padding_range : (4 ≤ padding % 256) × (padding % 256 < field_value)
  padding_range =
      let h = padding_length_bounds (length payload) block tagged b in
      rw padding_byte (h.0, omega arith)

  payload_lem : take (field_value - 1 - padding % 256) (payload ++ random padding) ≡ payload
  payload_lem =
      rw padding_byte
        (take-append (field_value - 1 - padding) payload (random padding) (omega arith))

  field_range : field_value ≤ max_packet_size → IsLength field_value
  field_range m =
      let h = padding_length_bounds (length payload) block tagged b in
      record { enough = omega (arith, h.0); small = m }

-- With an authenticated cipher a packet that the builder makes at the front of what a valid parser
-- has buffered is returned with its payload, whatever the chunks, and exactly its bytes are consumed.
-- The block size is from 4 to 252 and the packet within the parser's limit.
pub next_packet-build_tagged :
    (random : ℕ → Bytes) (payload rest : Bytes) (block : ℕ) (encrypt : Encrypt) (decrypt : Decrypt)
    (mac : Option Mac) (mac_length : ℕ) (verify : Option VerifyMac) (p : PacketParser)
    → ((n : ℕ) → length (random n) ≡ n)
    → IsTagCipher encrypt decrypt
    → 4 ≤ block
    → block ≤ 252
    → 1 + length payload + padding_length (length payload) block true ≤ max_packet_size
    → IsValid p
    → contents p ≡ build random block (some encrypt) p.seq_num true mac payload ++ rest
    → Delivers p payload rest (next_packet parser_ops block decrypt mac_length verify true p)
unfolding build seal
next_packet-build_tagged random payload rest block encrypt decrypt mac mac_length verify p filled
      cipher b small m v c =
    let n = field_value random filled payload block true b small in
    let d = behind random filled payload block true b small in
    let sealed : Bytes = encrypt d p.seq_num (some (be32 n)) in
    let (four, below) = padding_range random filled payload block true b small in
    let built : build random block (some encrypt) p.seq_num true mac payload ≡ be32 n ++ sealed =
      rw (clear_lem random filled payload block true b small)
        (join_tagged_lem (be32 n) sealed refl) in
    let fits = field_range random filled payload block true b small m in
    let whole : next_packet queue_ops block decrypt mac_length verify true (view p)
        ≡ (ok (some (packet_from d 0 n (drop n sealed))), after_packet rest p.seq_num) =
      rw (c, built)
        (authenticated_lem block decrypt n (be32 n) sealed rest d p.seq_num refl
          (cipher.grows d p.seq_num (be32 n)
            ∙ ap (λ k. k + 16) (length-behind random filled payload block true b small))
          (cipher.opens d p.seq_num (be32 n))
          (length-behind random filled payload block true b small) four below b
          (read_uint32_lem [] n [] 0 refl (omega (arith, fits.small))) fits
          (padding_length_bounds (length payload) block true b).2 mac_length verify) in
    delivers p payload rest _ block decrypt mac_length verify true v whole
      (payload_lem random filled payload block true b small)

-- An aligned size that is not 0 holds at least one block.
block-le-size : (n block : ℕ) → (4 + n) % block ≡ 0 → block ≤ 4 + n
block-le-size n block h = elim (Bool-cases (ltb (4 + n) block)) [
  | inl l ↦ let e = mod-eq_of_lt (ltb→lt (4 + n) block l) in absurd (omega (arith, e))
  | inr l ↦ ltb→le (4 + n) block l
]

first_block :
    (n block : ℕ) (t : Bytes)
    → 4 ≤ block
    → n < 2 ^ 32
    → read_uint32 (take block (be32 n ++ t)) 0 ≡ n
first_block n block t h k =
    ap (λ bytes. read_uint32 bytes 0) (take-append_ge block (be32 n) t h)
    ∙ read_uint32_lem [] n (take (block - 4) t) 0 refl k

-- With a block cipher and a separate authentication code a packet that the builder makes at the
-- front of what a valid parser has buffered is returned with its payload, and exactly its bytes and
-- the code are consumed. The block size is from 4 to 252 and the packet within the parser's limit.
pub next_packet-build_mac :
    (random : ℕ → Bytes) (payload rest : Bytes) (block : ℕ) (encrypt : Encrypt) (decrypt : Decrypt)
    (mac : Mac) (mac_length : ℕ) (verify : VerifyMac) (p : PacketParser)
    → ((n : ℕ) → length (random n) ≡ n)
    → IsMacCipher block encrypt decrypt mac mac_length verify
    → 4 ≤ block
    → block ≤ 252
    → 1 + length payload + padding_length (length payload) block false ≤ max_packet_size
    → IsValid p
    → contents p ≡ build random block (some encrypt) p.seq_num false (some mac) payload ++ rest
    → Delivers p payload rest
        (next_packet parser_ops block decrypt mac_length (some verify) false p)
unfolding build seal
next_packet-build_mac random payload rest block encrypt decrypt mac mac_length verify p filled
      cipher b small m v c =
    let n = field_value random filled payload block false b small in
    let d : Bytes = be32 n ++ behind random filled payload block false b small in
    let sealed : Bytes = encrypt d p.seq_num none in
    let tag : Bytes = mac d p.seq_num in
    let (four, below) = padding_range random filled payload block false b small in
    let built : build random block (some encrypt) p.seq_num false (some mac) payload
        ≡ sealed ++ tag =
      rw (clear_lem random filled payload block false b small)
        (join_mac_lem mac p.seq_num d sealed) in
    let fits = field_range random filled payload block false b small m in
    let size : length d ≡ 4 + n =
      omega (arith, length-behind random filled payload block false b small) in
    let aligned : (4 + n) % block ≡ 0 =
      ap (λ k. k % block) {x = 4 + n}
        {y = 5 + length payload + padding_length (length payload) block false} (omega arith)
      ∙ (padding_length_bounds (length payload) block false b).2 in
    let room = block-le-size n block aligned in
    let genuine : mac_fails mac_length (some verify) d tag p.seq_num ≡ false =
      mac_fails_lem verify mac_length p.seq_num d tag (cipher.accepts d p.seq_num) in
    let whole : next_packet queue_ops block decrypt mac_length (some verify) false (view p)
        ≡ (ok (some (packet_from d 4 n tag)), after_packet rest p.seq_num) =
      rw (c, built, append_assoc sealed tag rest)
        (plain_lem block decrypt mac_length (some verify) n sealed tag rest d p.seq_num
          (cipher.keeps d p.seq_num ∙ size) (cipher.mac_size d p.seq_num) (cipher.opens d p.seq_num)
          size genuine four below (take block sealed) (drop block sealed) (take block d) b
          (sym (take-append-drop block sealed))
          (omega (arith, length-take block sealed, cipher.keeps d p.seq_num))
          (cipher.header d p.seq_num)
          (first_block n block (behind random filled payload block false b small) b
            (omega (arith, fits.small)))
          fits aligned) in
    delivers p payload rest _ block decrypt mac_length (some verify) false v whole
      (payload_lem random filled payload block false b small)
