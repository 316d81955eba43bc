-- ===== src/Ssh/Channel/Delivery.antt =====
-- Data that one `SSHChannel` of worker/src/webssh/ssh/channel.ts sends, another accepts.
use cf_workers_vpsmonitor.Common.{
  ℕ, ◌+◌, ◌-◌, ◌^◌, ◌≤◌, ◌<◌, ◌≡◌, refl, ap, ◌∙◌, false, ◌||◌, some, [], ◌∷◌, ◌++◌, append-nil,
  length, take, drop, replicate, blit, length-take, length-drop, take_all, ok, arith, ==_iff,
  le→ltb,
}
use cf_workers_vpsmonitor.Ssh.Wire.{Bytes, read_uint32, write_uint32}
use cf_workers_vpsmonitor.Ssh.Wire.Laws.{
  be32, read_uint32_lem, write_uint32_zeros, set_zeros, blit_zeros,
}
use cf_workers_vpsmonitor.Ssh.Channel.{
  SshChannel, ChannelDataChunk, default_max_packet_size, take_channel_data_chunk,
  write_channel_data_payload, handle_channel_data,
}

-- The bytes that are cut out of the source.
abbrev pub cut : Bytes → ℕ → ℕ → Bytes
cut source offset n = take n (drop offset source)

-- The payload that is written into a fresh buffer is the message number, the channel, the length
-- and the bytes.
pub write_channel_data_payload_lem :
    (c : SshChannel) (source : Bytes) (offset n : ℕ)
    → offset + n ≤ length source
    → write_channel_data_payload c (replicate (9 + n) 0) 0 source offset n
      ≡ (94 ∷ []) ++ (be32 c.remote_channel_id ++ (be32 n ++ cut source offset n))
unfolding write_channel_data_payload
write_channel_data_payload_lem c source offset n h =
    let id = c.remote_channel_id in
    let s : Bytes = cut source offset n in
    let size : length s ≡ n =
      omega (arith, length-take n (drop offset source), length-drop offset source) in
    ap (λ t. blit (write_uint32 (write_uint32 t 1 id) 5 n) 9 s)
      (set_zeros [] 0 (9 + n) (8 + n) 94 refl (omega arith))
    ∙ ap (λ t. blit (write_uint32 t 5 n) 9 s)
        (write_uint32_zeros (94 ∷ []) 1 (8 + n) (4 + n) id refl (omega arith))
    ∙ ap (λ t. blit t 9 s)
        (write_uint32_zeros ((94 ∷ []) ++ be32 id) 5 (4 + n) n n refl (omega arith))
    ∙ blit_zeros ((94 ∷ []) ++ be32 id ++ be32 n) s 9 n 0 refl (omega (arith, size))
    ∙ append-nil _

-- A chunk that is taken lies in the data behind the offset, is not empty, fits the peer's packet size
-- and window, and is what the window shrinks by.
pub take_channel_data_chunk_lem :
    (bytes : Bytes) (offset : ℕ) (c c' : SshChannel) (k : ChannelDataChunk)
    → take_channel_data_chunk bytes offset c ≡ (ok (some k), c')
    → (k.source ≡ bytes)
      × (k.source_offset ≡ offset)
      × (k.payload_length ≡ 9 + k.bytes_consumed)
      × (1 ≤ k.bytes_consumed)
      × (offset + k.bytes_consumed ≤ length bytes)
      × (k.bytes_consumed ≤ c.remote_max_packet_size)
      × (c'.remote_window_size + k.bytes_consumed ≡ c.remote_window_size)
      × (c'.remote_channel_id ≡ c.remote_channel_id)
unfolding take_channel_data_chunk
take_channel_data_chunk_lem bytes offset c c' k h = ground arith

-- A payload that passes the checks is accepted and taken off the window.
accept_data :
    (r : SshChannel) (p : Bytes) (n : ℕ)
    → 9 ≤ length p
    → read_uint32 p 1 ≡ r.local_channel_id
    → read_uint32 p 5 ≡ n
    → n ≡ length p - 9
    → n ≤ default_max_packet_size
    → n ≤ r.local_window_size
    → (r.eof_received || r.close_received) ≡ false
    → handle_channel_data p r ≡ (
      ok (take n (drop 9 p)),
      record r {
        local_window_size = r.local_window_size - n;
        consumed_since_window_adjust = r.consumed_since_window_adjust + n;
      },
    )
unfolding handle_channel_data
accept_data r p n long who size whole m w f = rw (
  le→ltb (length p) 9 long,
  (==_iff (read_uint32 p 1) r.local_channel_id).1 who,
  size,
  (==_iff n (length p - 9)).1 whole,
  f,
  le→ltb default_max_packet_size n m,
  le→ltb r.local_window_size n w,
)

-- The receiver's view of a payload with these fields.
handle_channel_data_lem :
    (r : SshChannel) (id n : ℕ) (s : Bytes)
    → id ≡ r.local_channel_id
    → id < 2 ^ 32
    → length s ≡ n
    → n ≤ default_max_packet_size
    → n ≤ r.local_window_size
    → (r.eof_received || r.close_received) ≡ false
    → handle_channel_data ((94 ∷ []) ++ (be32 id ++ (be32 n ++ s))) r ≡ (
      ok s,
      record r {
        local_window_size = r.local_window_size - n;
        consumed_since_window_adjust = r.consumed_since_window_adjust + n;
      },
    )
handle_channel_data_lem r id n s e h l m w f =
    let p : Bytes = (94 ∷ []) ++ (be32 id ++ (be32 n ++ s)) in
    accept_data r p n (omega arith) (read_uint32_lem (94 ∷ []) id (be32 n ++ s) 1 refl h ∙ e)
      (read_uint32_lem ((94 ∷ []) ++ be32 id) n s 5 refl (omega arith)) (omega arith) m w f
    ∙ ap
        (λ b. (
          ok b,
          record r {
            local_window_size = r.local_window_size - n;
            consumed_since_window_adjust = r.consumed_since_window_adjust + n;
          },
        ))
        (take_all n s (omega arith))

-- A chunk that one channel takes and writes, the other side's channel accepts as exactly the bytes of
-- the chunk, and takes their number off its window: where the sender's remote number is the receiver's
-- local one, nothing has ended, and the chunk is within the receiver's packet size and window.
pub handle_channel_data-write :
    (bytes : Bytes) (offset : ℕ) (c c' r : SshChannel) (k : ChannelDataChunk)
    → take_channel_data_chunk bytes offset c ≡ (ok (some k), c')
    → c.remote_channel_id ≡ r.local_channel_id
    → c.remote_channel_id < 2 ^ 32
    → k.bytes_consumed ≤ default_max_packet_size
    → k.bytes_consumed ≤ r.local_window_size
    → (r.eof_received || r.close_received) ≡ false
    → handle_channel_data
        (write_channel_data_payload c'
          (replicate k.payload_length 0)
          0
          k.source
          k.source_offset
          k.bytes_consumed)
        r
      ≡ (
        ok (take k.bytes_consumed (drop offset bytes)),
        record r {
          local_window_size = r.local_window_size - k.bytes_consumed;
          consumed_since_window_adjust = r.consumed_since_window_adjust + k.bytes_consumed;
        },
      )
handle_channel_data-write bytes offset c c' r k taken e h m w f =
    let (source, at, size, some_bytes, inside, fits, window, id) =
      take_channel_data_chunk_lem bytes offset c c' k taken in
    let n = k.bytes_consumed in
    let cut_size : length (cut bytes offset n) ≡ n =
      omega (arith, length-take n (drop offset bytes), length-drop offset bytes) in
    rw (source, at, size, write_channel_data_payload_lem c' bytes offset n inside)
      (handle_channel_data_lem r c'.remote_channel_id n (cut bytes offset n) (id ∙ e) (omega arith)
        cut_size m w f)
