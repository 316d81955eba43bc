-- ===== src/Ssh/Packet/Parser/Refine.antt =====
-- How the chunks arrived does not matter: `nextPacket` of worker/src/webssh/ssh/packet.ts on the
-- chunk buffer does what it does on the flat queue of the buffered bytes.
use cf_workers_vpsmonitor.Common.{
  ℕ, ◌+◌, ◌≡◌, refl, Bool, true, false, ◌||◌, Option, none, some, length, take, drop, get_or, leb,
  ltb, ◌==◌, if◌then◌else◌, inl, inr, ◌%◌, le→leb, Result, Bool-cases, Option-cases, arith,
}
use cf_workers_vpsmonitor.Common.State.{M, ◌>>=◌, ◌>>◌}
use cf_workers_vpsmonitor.Ssh.Wire.{Bytes, read_uint32}
use cf_workers_vpsmonitor.Ssh.Packet.Buffer.{PacketError, PacketParser}
use cf_workers_vpsmonitor.Ssh.Packet.Buffer.Refine.{
  contents, IsValid, peek_bytes_lem, read_bytes_lem,
}
use cf_workers_vpsmonitor.Ssh.Packet.Parser.{
  Decrypt, VerifyMac, parser_ops, Outcome, or_null, or_throw, check_packet_length, finish_packet,
  open_authenticated, next_authenticated, mac_fails, min_packet_length, max_packet_size, open_plain,
  take_authenticated, frame_authenticated, take_mac, take_plain, frame_plain, decrypt_header,
  next_plain, next_packet,
}
use cf_workers_vpsmonitor.Ssh.Packet.Parser.Queue.{Queue, peek_queue, queue_ops}

-- The queue that a parser stands for.
abbrev pub view : PacketParser → Queue
view p = record { bytes = contents p; seq_num = p.seq_num }

-- The same result, and a valid parser that stands for the other side's queue.
abbrev pub Agrees :
    {A : Type 0} → Result PacketError A × PacketParser → Result PacketError A × Queue → Type 0
Agrees x y = (y ≡ (x.0, view x.1)) × IsValid x.1

finish-Agrees :
    (decrypted : Bytes) (at n : ℕ) (mac : Bytes) (p : PacketParser)
    → IsValid p
    → Agrees
        (finish_packet parser_ops decrypted at n mac p)
        (finish_packet queue_ops decrypted at n mac (view p))
unfolding finish_packet parser_ops
finish-Agrees decrypted at n mac p v =
    elim (Bool-cases (ltb (get_or decrypted at 0) 4 || leb n (get_or decrypted at 0))) [
      | inl bad ↦ rw bad (refl, v)
      | inr good ↦
          rw good (refl, record { index_in = v.index_in; fits = v.fits; counted = v.counted })
    ]

module _ (block : ℕ) (decrypt : Decrypt) where
  open_authenticated-Agrees :
      (n : ℕ) (raw : Bytes) (p : PacketParser)
      → IsValid p
      → Agrees
          (open_authenticated parser_ops block decrypt n raw p)
          (open_authenticated queue_ops block decrypt n raw (view p))
  unfolding open_authenticated or_throw parser_ops
  open_authenticated-Agrees n raw p v =
      elim (Option-cases (decrypt (drop 4 raw) p.seq_num (some (take 4 raw)) true)) [
        | inl failed ↦ rw failed (refl, v)
        | inr (b, e) ↦ rw e elim (Bool-cases (length b == n)) [
          | inl fits ↦ rw fits (finish-Agrees b 0 n (drop (4 + n) raw) p v)
          | inr bad ↦ rw bad (refl, v)
        ]
      ]

  module _ (mac_length : ℕ) (verify : Option VerifyMac) where
    open_plain-Agrees :
        (n : ℕ) (encrypted mac : Bytes) (p : PacketParser)
        → IsValid p
        → Agrees
            (open_plain parser_ops block decrypt mac_length verify n encrypted mac p)
            (open_plain queue_ops block decrypt mac_length verify n encrypted mac (view p))
    unfolding open_plain or_throw parser_ops
    open_plain-Agrees n encrypted mac p v =
        elim (Option-cases (decrypt encrypted p.seq_num none true)) [
          | inl failed ↦ rw failed (refl, v)
          | inr (b, e) ↦ rw e elim (Bool-cases (length b == 4 + n)) [
            | inr bad ↦ rw bad (refl, v)
            | inl fits ↦ rw fits elim (Bool-cases (mac_fails mac_length verify b mac p.seq_num)) [
              | inl forged ↦ rw forged (refl, v)
              | inr genuine ↦ rw genuine (finish-Agrees b 4 n mac p v)
            ]
          ]
        ]

or_null-Agrees :
    (found : Option Bytes) (f : Bytes → M PacketError PacketParser Outcome)
    (g : Bytes → M PacketError Queue Outcome) (p : PacketParser)
    → IsValid p
    → ((b : Bytes) → Agrees (f b p) (g b (view p)))
    → Agrees (or_null parser_ops found f p) (or_null queue_ops found g (view p))
unfolding or_null
or_null-Agrees none f g p v h = (refl, v)
or_null-Agrees (some b) f g p v h = h b

-- Reading on both sides, followed by the same continuation.
module _ {B : Type 0} where
  read-Agrees :
      (n : ℕ) (p : PacketParser) (f : Option Bytes → M PacketError PacketParser B)
      (g : Option Bytes → M PacketError Queue B)
      → IsValid p
      → ((found : Option Bytes) (p' : PacketParser)
          → IsValid p'
          → Agrees (f found p') (g found (view p')))
      → Agrees ((parser_ops.read n >>= f) p) ((queue_ops.read n >>= g) (view p))
  unfolding parser_ops
  read-Agrees n p f g v h = elim (read_bytes_lem p n v) [
    | inl (short, e) ↦
        let c : leb n (length (contents p)) ≡ false = ground arith in rw (e, c) (h none p v)
    | inr (there, p', e, left, valid, seq) ↦
        rw (e, le→leb n (length (contents p)) there, ← left, ← seq)
          (h (some (take n (contents p))) p' valid)
  ]

  peek-Agrees :
      (n : ℕ) (p : PacketParser) (f : Option Bytes → M PacketError PacketParser B)
      (g : Option Bytes → M PacketError Queue B)
      → IsValid p
      → ((found : Option Bytes) → Agrees (f found p) (g found (view p)))
      → Agrees ((parser_ops.peek n >>= f) p) ((queue_ops.peek n >>= g) (view p))
  unfolding parser_ops
  peek-Agrees n p f g v h = rw (peek_bytes_lem p n v) (h (peek_queue n (view p)))

-- The checks of the length field, followed by the same continuation.
check-Agrees :
    {B : Type 0} (n : ℕ) (p : PacketParser) (f : M PacketError PacketParser B)
    (g : M PacketError Queue B)
    → IsValid p
    → Agrees (f p) (g (view p))
    → Agrees
        ((check_packet_length parser_ops n >> f) p)
        ((check_packet_length queue_ops n >> g) (view p))
unfolding check_packet_length
check-Agrees n p f g v h = elim (Bool-cases (ltb n min_packet_length)) [
  | inl short ↦ rw short (refl, v)
  | inr long ↦ rw long elim (Bool-cases (ltb max_packet_size n)) [
    | inl big ↦ rw big (refl, v)
    | inr fits ↦ rw fits h
  ]
]

module _ (block : ℕ) (decrypt : Decrypt) where
  take_authenticated-Agrees :
      (n : ℕ) (p : PacketParser)
      → IsValid p
      → Agrees
          (take_authenticated parser_ops block decrypt n p)
          (take_authenticated queue_ops block decrypt n (view p))
  unfolding take_authenticated
  take_authenticated-Agrees n p v =
      read-Agrees (4 + n + 16) p
        (λ raw. or_null parser_ops raw (open_authenticated parser_ops block decrypt n))
        (λ raw. or_null queue_ops raw (open_authenticated queue_ops block decrypt n)) v
        λ raw p' v'.
          or_null-Agrees raw _ _ p' v' λ b. open_authenticated-Agrees block decrypt n b p' v'

  frame_authenticated-Agrees :
      (b : Bytes) (p : PacketParser)
      → IsValid p
      → Agrees
          (frame_authenticated parser_ops block decrypt b p)
          (frame_authenticated queue_ops block decrypt b (view p))
  unfolding frame_authenticated parser_ops
  frame_authenticated-Agrees b p v =
      let n = read_uint32 b 0 in
      check-Agrees n p _ _ v elim (Bool-cases (n % block == 0)) [
        | inr bad ↦ rw bad (refl, v)
        | inl aligned ↦
            rw (aligned, ← v.counted)
              elim (Bool-cases (ltb p.buffered_length (4 + n + 16))) [
                | inl short ↦ rw short (refl, v)
                | inr there ↦ rw there (take_authenticated-Agrees n p v)
              ]
      ]

  next_authenticated-Agrees :
      (p : PacketParser)
      → IsValid p
      → Agrees
          (next_authenticated parser_ops block decrypt p)
          (next_authenticated queue_ops block decrypt (view p))
  unfolding next_authenticated
  next_authenticated-Agrees p v =
      peek-Agrees 4 p
        (λ found. or_null parser_ops found (frame_authenticated parser_ops block decrypt))
        (λ found. or_null queue_ops found (frame_authenticated queue_ops block decrypt)) v
        λ found. or_null-Agrees found _ _ p v λ b. frame_authenticated-Agrees b p v

  module _ (mac_length : ℕ) (verify : Option VerifyMac) where
    take_mac-Agrees :
        (n : ℕ) (found : Option Bytes) (p : PacketParser)
        → IsValid p
        → Agrees
            (take_mac parser_ops block decrypt mac_length verify n found p)
            (take_mac queue_ops block decrypt mac_length verify n found (view p))
    unfolding take_mac
    take_mac-Agrees n found p v =
        read-Agrees mac_length p
          (λ tag. or_null parser_ops found λ encrypted.
            or_null parser_ops tag
              (open_plain parser_ops block decrypt mac_length verify n encrypted))
          (λ tag. or_null queue_ops found λ encrypted.
            or_null queue_ops tag
              (open_plain queue_ops block decrypt mac_length verify n encrypted))
          v
          λ tag p' v'. or_null-Agrees found _ _ p' v' λ encrypted.
            or_null-Agrees tag _ _ p' v'
              λ mac. open_plain-Agrees block decrypt mac_length verify n encrypted mac p' v'

    take_plain-Agrees :
        (n : ℕ) (p : PacketParser)
        → IsValid p
        → Agrees
            (take_plain parser_ops block decrypt mac_length verify n p)
            (take_plain queue_ops block decrypt mac_length verify n (view p))
    unfolding take_plain
    take_plain-Agrees n p v =
        read-Agrees (4 + n) p (take_mac parser_ops block decrypt mac_length verify n)
          (take_mac queue_ops block decrypt mac_length verify n) v (take_mac-Agrees n)

    frame_plain-Agrees :
        (header : Bytes) (p : PacketParser)
        → IsValid p
        → Agrees
            (frame_plain parser_ops block decrypt mac_length verify header p)
            (frame_plain queue_ops block decrypt mac_length verify header (view p))
    unfolding frame_plain parser_ops
    frame_plain-Agrees header p v =
        let n = read_uint32 header 0 in
        check-Agrees n p _ _ v elim (Bool-cases ((4 + n) % block == 0)) [
          | inr bad ↦ rw bad (refl, v)
          | inl aligned ↦
              rw (aligned, ← v.counted)
                elim (Bool-cases (ltb p.buffered_length (4 + n + mac_length))) [
                  | inl short ↦ rw short (refl, v)
                  | inr there ↦ rw there (take_plain-Agrees n p v)
                ]
        ]

    decrypt_header-Agrees :
        (b : Bytes) (p : PacketParser)
        → IsValid p
        → Agrees
            (decrypt_header parser_ops block decrypt mac_length verify b p)
            (decrypt_header queue_ops block decrypt mac_length verify b (view p))
    unfolding decrypt_header or_throw parser_ops
    decrypt_header-Agrees b p v = elim (Option-cases (decrypt b p.seq_num none false)) [
      | inl failed ↦ rw failed (refl, v)
      | inr (header, e) ↦ rw e (frame_plain-Agrees header p v)
    ]

    next_plain-Agrees :
        (p : PacketParser)
        → IsValid p
        → Agrees
            (next_plain parser_ops block decrypt mac_length verify p)
            (next_plain queue_ops block decrypt mac_length verify (view p))
    unfolding next_plain
    next_plain-Agrees p v =
        peek-Agrees block p
          (λ found.
            or_null parser_ops found (decrypt_header parser_ops block decrypt mac_length verify))
          (λ found.
            or_null queue_ops found (decrypt_header queue_ops block decrypt mac_length verify))
          v λ found. or_null-Agrees found _ _ p v λ b. decrypt_header-Agrees b p v

    -- On a valid parser `next_packet` returns or throws what it returns or throws on the flat queue of
    -- the buffered bytes, leaves a valid parser, and that parser stands for the queue's next state:
    -- how the bytes were cut into chunks makes no difference.
    pub next_packet_refines :
        (p : PacketParser) (has_auth_tag : Bool)
        → IsValid p
        → Agrees
            (next_packet parser_ops block decrypt mac_length verify has_auth_tag p)
            (next_packet queue_ops block decrypt mac_length verify has_auth_tag (view p))
    unfolding next_packet
    next_packet_refines p has_auth_tag v = elim (Bool-cases (ltb block 4)) [
      | inl bad ↦ rw bad (refl, v)
      | inr good ↦ rw good (branch has_auth_tag)
    ]
      where
        branch :
            (tagged : Bool)
            → Agrees
                ((if tagged
                    then next_authenticated parser_ops block decrypt
                    else next_plain parser_ops block decrypt mac_length verify)
                  p)
                ((if tagged
                    then next_authenticated queue_ops block decrypt
                    else next_plain queue_ops block decrypt mac_length verify)
                  (view p))
        branch true = next_authenticated-Agrees p v
        branch false = next_plain-Agrees p v
