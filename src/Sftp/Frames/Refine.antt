-- ===== src/Sftp/Frames/Refine.antt =====
-- The loop of `SFTPClient.feed` of worker/src/webssh/ssh/sftp.ts does what the byte-by-byte reader
-- does.
use cf_workers_vpsmonitor.Common.{
  ℕ, zero, suc, ◌+◌, ◌-◌, min, false, ◌&&◌, [], ◌∷◌, Option, none, some, length, take, drop,
  replicate, blit, leb, ◌==◌, ◌≡◌, refl, Result, ok, throw, ◌≤◌, ◌<◌, arith, sym, ◌∙◌, subst,
  Bool-cases, leb→le, inl, inr, length-blit, length-drop, length-replicate, ==_iff,
}
use cf_workers_vpsmonitor.Common.State.{M, bind_from, ◌>>=◌}
use cf_workers_vpsmonitor.Ssh.Wire.{Bytes, read_uint32}
use cf_workers_vpsmonitor.Sftp.Frames.{
  SftpError, FrameLimits, Frames, is_bad_length, validate_packet_length, fill_packet, take_header,
  fill_header, choose_step, feed_step, feed_loop,
}
use cf_workers_vpsmonitor.Sftp.Frames.Stream.{Partial, in_header, in_packet, take_bytes}
use cf_workers_vpsmonitor.Sftp.Frames.Chunks.{
  count_of, filled_of, take_bytes-filled, take_bytes-unfilled, take_bytes_header, take_bytes_body,
  take_bytes_start, take_bytes-headed, take_bytes-unheaded,
}

abbrev pub view_of : Option Bytes → Frames → Partial
view_of none f = in_header (take f.header_length f.header)
view_of (some buffer) f = in_packet (length buffer) (take f.packet_offset buffer)

-- The incomplete packet that the frames stand for.
abbrev pub view : Frames → Partial
view f = view_of f.packet_buffer f

abbrev pub IsRoomy : Option Bytes → Frames → Type 0
IsRoomy none f = f.header_length < 4
IsRoomy (some buffer) f = (f.header_length ≡ 0) × (f.packet_offset < length buffer)

-- The header has room left, or the packet has, and then the header is empty.
abbrev pub IsValid : Frames → Type 0
IsValid f = (length f.header ≡ 4) × IsRoomy f.packet_buffer f

module _ {S : Type 0} where
  abbrev pub view_result : Result SftpError Frames × S → Result SftpError Partial × S
  view_result (ok f, s) = (ok (view f), s)
  view_result (throw e, s) = (throw e, s)

  abbrev pub IsValidResult : Result SftpError Frames × S → Type 0
  IsValidResult (ok f, s) = IsValid f
  IsValidResult (throw e, s) = Unit

  -- The same result, and valid frames.
  abbrev pub Agrees : Result SftpError Frames × S → Result SftpError Partial × S → Type 0
  Agrees r q = (q ≡ view_result r) × IsValidResult r

pub is_bad_length-positive :
    (limits : FrameLimits) (size : ℕ) → is_bad_length limits size ≡ false → 0 < size
unfolding is_bad_length
is_bad_length-positive limits size h = ground arith

module _ {S : Type 0} (limits : FrameLimits) (dispatch : Bytes → M SftpError S (Unit {0}))
    (loop : Frames → Bytes → M SftpError S Frames) where
  -- The rest of the loop does what the reader does, for what is left of a chunk.
  abbrev pub Continues : Bytes → Type 0
  Continues chunk =
      (f : Frames) (rest : Bytes) (s : S)
      → IsValid f
      → length rest < length chunk
      → Agrees (loop f rest s) (take_bytes limits dispatch (view f) rest s)

  fill_packet-Agrees :
      (f : Frames) (buffer chunk : Bytes) (s : S)
      → length f.header ≡ 4
      → f.header_length ≡ 0
      → f.packet_offset < length buffer
      → 0 < length chunk
      → Continues chunk
      → Agrees ((fill_packet limits dispatch f buffer chunk >>= λ step. loop (step.0) (step.1)) s) (
          take_bytes limits dispatch
            (in_packet (length buffer) (take f.packet_offset buffer))
            chunk
            s)
  unfolding fill_packet
  fill_packet-Agrees f buffer chunk s h0 h1 h2 h3 k =
      let o = f.packet_offset in
      let c = count_of o buffer chunk in
      let filled = filled_of o buffer chunk in
      let size = length-blit buffer o (take c chunk) in
      elim (Bool-cases (o + c == length filled)) [
        | inl full ↦ rw full (
            rw
              (take_bytes-filled limits dispatch o buffer chunk s h2 h3
                ((==_iff (o + c) (length filled)).0 full ∙ size))
              (emptied (drop c chunk) (omega (arith, length-drop c chunk)) (dispatch filled s)))
        | inr short ↦ rw short (
            rw (take_bytes-unfilled limits dispatch o buffer chunk s h2 (ground arith)) (
              k (record f { packet_buffer = some filled; packet_offset = o + c }) (drop c chunk) s
                (h0, (h1, ground arith)) (omega (arith, length-drop c chunk))))
      ]
    where
      emptied :
          (rest : Bytes)
          → length rest < length chunk
          → (r : Result SftpError (Unit {0}) × S)
          → Agrees
              (bind_from {A = Frames × Bytes}
                (bind_from r
                  (λ _ t. (ok (record f { packet_buffer = none; packet_offset = 0 }, rest), t)))
                (λ step. loop (step.0) (step.1)))
              (bind_from
                (bind_from r (λ _ t. (ok (in_header []), t)))
                (λ q. take_bytes limits dispatch q rest))
      emptied rest g (throw e, t) = (refl, tt)
      emptied rest g (ok u, t) =
          subst
            (λ n.
              Agrees (loop (record f { packet_buffer = none; packet_offset = 0 }) rest t)
                (take_bytes limits dispatch (in_header (take n f.header)) rest t))
            h1 (k (record f { packet_buffer = none; packet_offset = 0 }) rest t (h0, omega arith) g)

  -- The rest of the loop, where the frames hold no packet.
  headers :
      (chunk : Bytes) (f : Frames) (rest : Bytes) (s : S)
      → f.packet_buffer ≡ none
      → IsValid f
      → length rest < length chunk
      → Continues chunk
      → Agrees
          (loop f rest s)
          (take_bytes limits dispatch (in_header (take f.header_length f.header)) rest s)
  headers chunk f rest s e v g k =
      subst (λ o. Agrees (loop f rest s) (take_bytes limits dispatch (view_of o f) rest s)) e
        (k f rest s v g)

  take_header-Agrees :
      (f : Frames) (chunk : Bytes) (s : S)
      → length f.header ≡ 4
      → f.packet_buffer ≡ none
      → f.header_length ≡ 0
      → 4 ≤ length chunk
      → Continues chunk
      → Agrees
          ((take_header limits dispatch f chunk >>= λ step. loop (step.0) (step.1)) s)
          (take_bytes limits dispatch (in_header []) chunk s)
  unfolding take_header validate_packet_length take_bytes
  take_header-Agrees f chunk s h0 h1 h2 h3 k =
      let size = read_uint32 chunk 0 in
      let body = drop 4 chunk in
      rw (take_bytes_header limits dispatch chunk s h3)
        (elim (Bool-cases (is_bad_length limits size)) [
          | inl bad ↦ rw bad (refl, tt)
          | inr good ↦ rw good (elim (Bool-cases (leb size (length body))) [
            | inl there ↦ rw there (
                rw
                  (take_bytes_body limits dispatch size body s
                    (is_bad_length-positive limits size good) (leb→le size (length body) there))
                  (next (drop size body) (omega (arith, length-drop size body, length-drop 4 chunk))
                    (dispatch (take size body) s)))
            | inr short ↦ rw short (
                rw (take_bytes_start limits dispatch size body s (ground arith)) (
                  rest_in (blit (replicate size 0) 0 body) (length body) (
                    ground (
                      arith,
                      length-blit (replicate size 0) 0 body,
                      length-replicate {A = ℕ} size 0,
                    ))))
          ])
        ])
    where
      rest_in :
          (b : Bytes) (o : ℕ)
          → o < length b
          → Agrees
              (loop (record f { packet_buffer = some b; packet_offset = o }) [] s)
              (ok (in_packet (length b) (take o b)), s)
      rest_in b o g =
          k (record f { packet_buffer = some b; packet_offset = o }) [] s (h0, (h2, g))
            (omega arith)

      next :
          (rest : Bytes)
          → length rest < length chunk
          → (r : Result SftpError (Unit {0}) × S)
          → Agrees
              (bind_from {A = Frames × Bytes}
                (bind_from r (λ _ t. (ok (f, rest), t)))
                (λ step. loop (step.0) (step.1)))
              (bind_from r (λ _. take_bytes limits dispatch (in_header []) rest))
      next rest g (throw e, t) = (refl, tt)
      next rest g (ok u, t) =
          subst
            (λ n.
              Agrees (loop f rest t)
                (take_bytes limits dispatch (in_header (take n f.header)) rest t))
            h2 (headers chunk f rest t h1 (h0, subst (λ o. IsRoomy o f) (sym h1) (omega arith)) g k)

  fill_header-Agrees :
      (f : Frames) (chunk : Bytes) (s : S)
      → length f.header ≡ 4
      → f.packet_buffer ≡ none
      → f.header_length < 4
      → 0 < length chunk
      → Continues chunk
      → Agrees
          ((fill_header limits dispatch f chunk >>= λ step. loop (step.0) (step.1)) s)
          (take_bytes limits dispatch (in_header (take f.header_length f.header)) chunk s)
  unfolding fill_header validate_packet_length
  fill_header-Agrees f chunk s h0 h1 h2 h3 k =
      let o = f.header_length in
      let c = min (4 - o) (length chunk) in
      let header = blit f.header o (take c chunk) in
      let size = read_uint32 header 0 in
      let four = length-blit f.header o (take c chunk) ∙ h0 in
      elim (Bool-cases (o + c == 4)) [
        | inl full ↦ rw full (
            rw
              (take_bytes-headed limits dispatch f.header o c chunk s h0 h2 (omega arith)
                ((==_iff (o + c) 4).0 full))
              (elim (Bool-cases (is_bad_length limits size)) [
                | inl bad ↦ rw bad (refl, tt)
                | inr good ↦ rw good (
                    begun header size (drop c chunk) four (is_bad_length-positive limits size good)
                      (omega (arith, length-drop c chunk)))
              ]))
        | inr short ↦ rw short (
            rw
              (take_bytes-unheaded limits dispatch f.header o c chunk s h0 (omega arith)
                (ground arith))
              (headers chunk (record f { header = header; header_length = o + c }) (drop c chunk) s
                h1
                (
                  four,
                  subst (λ b. IsRoomy b (record f { header = header; header_length = o + c }))
                      (sym h1) (ground arith),
                )
                (omega (arith, length-drop c chunk)) k))
      ]
    where
      begun :
          (header : Bytes) (size : ℕ) (rest : Bytes)
          → length header ≡ 4
          → 0 < size
          → length rest < length chunk
          → Agrees
              (loop
                (record {
                  header = header;
                  header_length = 0;
                  packet_buffer = some (replicate size 0);
                  packet_offset = 0;
                })
                rest
                s)
              (take_bytes limits dispatch (in_packet size []) rest s)
      begun header size rest four positive g =
          subst
            (λ n.
              Agrees
                (loop
                  (record {
                    header = header;
                    header_length = 0;
                    packet_buffer = some (replicate size 0);
                    packet_offset = 0;
                  })
                  rest s)
                (take_bytes limits dispatch (in_packet n []) rest s))
            (length-replicate size 0)
            (k
              (record {
                header = header;
                header_length = 0;
                packet_buffer = some (replicate size 0);
                packet_offset = 0;
              })
              rest s (four, (refl, omega (arith, length-replicate {A = ℕ} size 0))) g)

  choose_step-Agrees :
      (o : Option Bytes) (f : Frames) (chunk : Bytes) (s : S)
      → f.packet_buffer ≡ o
      → length f.header ≡ 4
      → IsRoomy o f
      → 0 < length chunk
      → Continues chunk
      → Agrees
          ((choose_step limits dispatch o f chunk >>= λ step. loop (step.0) (step.1)) s)
          (take_bytes limits dispatch (view_of o f) chunk s)
  unfolding choose_step
  choose_step-Agrees (some buffer) f chunk s e v r h k =
      fill_packet-Agrees f buffer chunk s v (r.0) (r.1) h k
  choose_step-Agrees none f chunk s e v r h k =
      elim (Bool-cases (f.header_length == 0 && leb 4 (length chunk))) [
        | inl whole ↦
            let z : f.header_length ≡ 0 = ground arith in
            rw whole (
              subst
                (λ n.
                  Agrees
                    ((take_header limits dispatch f chunk >>= λ step. loop (step.0) (step.1)) s)
                    (take_bytes limits dispatch (in_header (take n f.header)) chunk s))
                (sym z) (take_header-Agrees f chunk s v e z (ground arith) k))
        | inr split ↦ rw split (fill_header-Agrees f chunk s v e r h k)
      ]

-- From any valid frames, one loop over a chunk, whose length is fuel enough, returns or throws what
-- the byte-by-byte reader does, leaves the same client, and valid frames that stand for the
-- reader's incomplete packet.
pub feed_loop_refines :
    {S : Type 0} (limits : FrameLimits) (dispatch : Bytes → M SftpError S (Unit {0})) (fuel : ℕ)
    (f : Frames) (chunk : Bytes) (s : S)
    → IsValid f
    → length chunk ≤ fuel
    → Agrees
        (feed_loop limits dispatch fuel f chunk s)
        (take_bytes limits dispatch (view f) chunk s)
unfolding feed_loop feed_step take_bytes
feed_loop_refines limits dispatch zero f [] s v h = (refl, v)
feed_loop_refines limits dispatch zero f (b ∷ chunk) s v h = absurd (omega arith)
feed_loop_refines limits dispatch (suc fuel) f [] s v h = (refl, v)
feed_loop_refines limits dispatch (suc fuel) f (b ∷ chunk) s v h =
    choose_step-Agrees limits dispatch (feed_loop limits dispatch fuel) f.packet_buffer f
      (b ∷ chunk) s refl (v.0) (v.1) (omega arith)
      λ f' rest t v' g. feed_loop_refines limits dispatch fuel f' rest t v' (omega arith)
