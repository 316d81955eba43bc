-- ===== src/Ssh/Packet/Builder/Layout.antt =====
-- What `SSHPacketBuilder` of worker/src/webssh/ssh/packet.ts writes before and behind the encryption.
use cf_workers_vpsmonitor.Common.{
  ℕ, ◌+◌, ◌%◌, ◌≡◌, refl, sym, ap, ◌∙◌, Bool, some, [], ◌∷◌, ◌++◌, append-nil, length, set, blit,
  arith,
}
use cf_workers_vpsmonitor.Ssh.Wire.{Bytes}
use cf_workers_vpsmonitor.Ssh.Wire.Laws.{
  be32, blit_zeros, write_uint32_blank, blit_blank, set_zeros,
}
use cf_workers_vpsmonitor.Ssh.Packet.Builder.{
  Mac, padding_length, clear_packet, join_tagged, join_mac,
}

-- The part of a packet behind its length field.
abbrev pub body : Bytes → ℕ → Bytes → Bytes
body payload padding filler = padding % 256 ∷ (payload ++ filler)

abbrev pub write_at : Bytes → Bytes → ℕ → Bytes
write_at payload packet offset = blit packet offset payload

-- The clear packet is the length field, the padding length, the payload and the random padding.
pub clear_packet_lem :
    (random : ℕ → Bytes) (payload : Bytes) (block : ℕ) (tagged : Bool) (padding : ℕ)
    → padding_length (length payload) block tagged ≡ padding
    → length (random padding) ≡ padding
    → clear_packet random (length payload) (write_at payload) block tagged
      ≡ be32 (1 + length payload + padding) ++ body payload padding (random padding)
unfolding clear_packet
clear_packet_lem random payload block tagged padding e r =
    let n = length payload in
    let pl = 1 + length payload + padding in
    let start : Bytes = be32 pl ++ (padding % 256 ∷ []) in
    rw e (
      ap (λ t. blit (blit (set t 4 (padding % 256)) 5 payload) (5 + n) (random padding))
        (write_uint32_blank (4 + 1 + n + padding) pl pl (omega arith))
      ∙ ap (λ t. blit (blit t 5 payload) (5 + n) (random padding))
          (set_zeros (be32 pl) 4 pl (n + padding) (padding % 256) refl (omega arith))
      ∙ ap (λ t. blit t (5 + n) (random padding))
          (blit_zeros start payload 5 (n + padding) padding refl refl)
      ∙ blit_zeros (start ++ payload) (random padding) (5 + n) padding 0 (omega arith)
          (omega (arith, r))
      ∙ append-nil ((start ++ payload) ++ random padding))

-- Behind the encryption: the length field stays in clear in front of the tagged ciphertext.
pub join_tagged_lem :
    (f encrypted : Bytes) → length f ≡ 4 → join_tagged f encrypted ≡ f ++ encrypted
unfolding join_tagged
join_tagged_lem f encrypted h =
    rw
      (
        blit_blank f (4 + length encrypted) (length encrypted) (omega (arith, h)),
        blit_zeros f encrypted 4 (length encrypted) 0 (sym h) (omega arith),
      )
      (append-nil _)

-- The authentication code stands behind the ciphertext.
pub join_mac_lem :
    (m : Mac) (seq : ℕ) (packet encrypted : Bytes)
    → join_mac seq (some m) packet encrypted ≡ encrypted ++ m packet seq
unfolding join_mac
join_mac_lem m seq packet encrypted =
    let tag = m packet seq in
    rw
      (
        blit_blank encrypted (length encrypted + length tag) (length tag) refl,
        blit_zeros encrypted tag (length encrypted) (length tag) 0 refl (omega arith),
      )
      (append-nil _)
