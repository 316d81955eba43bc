-- ===== src/Sftp/Frames/Chunks.antt =====
-- What the byte-by-byte reader does with a whole chunk, in the cases that the loop of
-- `SFTPClient.feed` of worker/src/webssh/ssh/sftp.ts has.
use cf_workers_vpsmonitor.Common.{
  ℕ, ◌+◌, ◌-◌, min, [], ◌∷◌, ◌++◌, length, take, drop, replicate, blit, ◌≡◌, refl, Result, ok,
  throw, ◌≤◌, ◌<◌, arith, sym, ap, ap₂, ◌∙◌, blit_lem, length-blit, length-take, length-drop,
  length-append, length-replicate, take-append-drop, take-append, take_all, append_assoc,
}
use cf_workers_vpsmonitor.Common.State.{M, bind_from, ◌>>=◌, ◌>>◌, pure}
use cf_workers_vpsmonitor.Ssh.Wire.{Bytes, read_uint32}
use cf_workers_vpsmonitor.Sftp.Frames.{SftpError, FrameLimits, validate_packet_length}
use cf_workers_vpsmonitor.Sftp.Frames.Stream.{
  Partial, in_header, in_packet, take_bytes, take_bytes-append, take_bytes_part, take_bytes_whole,
  take_bytes_head, take_bytes_size,
}

-- What lies before the end of what was written.
take-blit :
    (t c : Bytes) (o : ℕ)
    → o + length c ≤ length t
    → take (o + length c) (blit t o c) ≡ take o t ++ c
take-blit t c o h =
    ap (λ x. take (o + length c) (blit x o c)) (sym (take-append-drop o t))
    ∙ ap (take (o + length c)) (
        blit_lem o (take o t) (drop o t) c (omega (arith, length-take o t))
          (omega (arith, length-drop o t)))
    ∙ ap (take (o + length c)) (sym (append_assoc (take o t) c (drop (length c) (drop o t))))
    ∙ take-append (o + length c) (take o t ++ c) (drop (length c) (drop o t))
        (omega (arith, length-append (take o t) c, length-take o t))

-- How much of a chunk goes into a packet's buffer, and the buffer behind that.
abbrev pub count_of : ℕ → Bytes → Bytes → ℕ
count_of o buffer chunk = min (length buffer - o) (length chunk)

abbrev pub filled_of : ℕ → Bytes → Bytes → Bytes
filled_of o buffer chunk = blit buffer o (take (count_of o buffer chunk) chunk)

length-got :
    (o : ℕ) (buffer chunk : Bytes)
    → length (take (count_of o buffer chunk) chunk) ≡ count_of o buffer chunk
length-got o buffer chunk = omega (arith, length-take (count_of o buffer chunk) chunk)

take-filled :
    (o : ℕ) (buffer chunk : Bytes)
    → o < length buffer
    → take (o + count_of o buffer chunk) (filled_of o buffer chunk)
      ≡ take o buffer ++ take (count_of o buffer chunk) chunk
take-filled o buffer chunk h =
    let c = count_of o buffer chunk in
    ap (λ n. take (o + n) (filled_of o buffer chunk)) (sym (length-got o buffer chunk))
    ∙ take-blit buffer (take c chunk) o (omega (arith, length-got o buffer chunk))

-- The same for the four bytes of a header.
header-filled :
    (h : Bytes) (o c : ℕ) (chunk : Bytes)
    → length h ≡ 4
    → c ≤ length chunk
    → o + c ≤ 4
    → take o h ++ take c chunk ≡ take (o + c) (blit h o (take c chunk))
header-filled h o c chunk h0 h1 h2 =
    let n : length (take c chunk) ≡ c = omega (arith, length-take c chunk) in
    sym (take-blit h (take c chunk) o (omega (arith, n)))
    ∙ ap (λ k. take (o + k) (blit h o (take c chunk))) n

read_uint32-take : (bytes : Bytes) → read_uint32 (take 4 bytes) 0 ≡ read_uint32 bytes 0
unfolding read_uint32
read_uint32-take [] = refl
read_uint32-take (a ∷ []) = refl
read_uint32-take (a ∷ b ∷ []) = refl
read_uint32-take (a ∷ b ∷ c ∷ []) = refl
read_uint32-take (a ∷ b ∷ c ∷ d ∷ bytes) = refl

module _ {S : Type 0} (limits : FrameLimits) (dispatch : Bytes → M SftpError S (Unit {0})) where
  -- A chunk is read in two parts.
  take_bytes_split :
      (q : Partial) (n : ℕ) (chunk : Bytes) (s : S)
      → take_bytes limits dispatch q chunk s
        ≡ (take_bytes limits dispatch q (take n chunk) >>= λ q'.
              take_bytes limits dispatch q' (drop n chunk))
            s
  take_bytes_split q n chunk s =
      ap (λ b. take_bytes limits dispatch q b s) (sym (take-append-drop n chunk))
      ∙ take_bytes-append limits dispatch q (take n chunk) (drop n chunk) s

  -- The chunk completes the packet.
  pub take_bytes-filled :
      (o : ℕ) (buffer chunk : Bytes) (s : S)
      → o < length buffer
      → 0 < length chunk
      → o + count_of o buffer chunk ≡ length buffer
      → take_bytes limits dispatch (in_packet (length buffer) (take o buffer)) chunk s
        ≡ bind_from
            (bind_from (dispatch (filled_of o buffer chunk) s) (λ _ t. (ok (in_header []), t)))
            (λ q. take_bytes limits dispatch q (drop (count_of o buffer chunk) chunk))
  take_bytes-filled o buffer chunk s h0 h1 h2 =
      let c = count_of o buffer chunk in
      let e : take o buffer ++ take c chunk ≡ filled_of o buffer chunk =
        sym (take-filled o buffer chunk h0)
        ∙ take_all (o + c) (filled_of o buffer chunk)
            (omega (arith, length-blit buffer o (take c chunk))) in
      take_bytes_split (in_packet (length buffer) (take o buffer)) c chunk s
      ∙ ap (λ r. bind_from r (λ q. take_bytes limits dispatch q (drop c chunk)))
          (take_bytes_whole limits dispatch (length buffer) (take o buffer) (take c chunk) s
              (omega (arith, length-got o buffer chunk))
              (omega (arith, length-got o buffer chunk, length-take o buffer))
            ∙ ap (λ b. (dispatch b >> pure (in_header [])) s) e)

  -- The chunk does not complete the packet.
  pub take_bytes-unfilled :
      (o : ℕ) (buffer chunk : Bytes) (s : S)
      → o < length buffer
      → o + count_of o buffer chunk < length buffer
      → take_bytes limits dispatch (in_packet (length buffer) (take o buffer)) chunk s
        ≡ take_bytes limits dispatch
            (in_packet
              (length (filled_of o buffer chunk))
              (take (o + count_of o buffer chunk) (filled_of o buffer chunk)))
            (drop (count_of o buffer chunk) chunk)
            s
  take_bytes-unfilled o buffer chunk s h0 h1 =
      let c = count_of o buffer chunk in
      take_bytes_split (in_packet (length buffer) (take o buffer)) c chunk s
      ∙ ap (λ r. bind_from r (λ q. take_bytes limits dispatch q (drop c chunk)))
          (take_bytes_part limits dispatch (length buffer) (take o buffer) (take c chunk) s
            (omega (arith, length-got o buffer chunk, length-take o buffer)))
      ∙ ap₂ (λ n b. take_bytes limits dispatch (in_packet n b) (drop c chunk) s)
          (sym (length-blit buffer o (take c chunk))) (sym (take-filled o buffer chunk h0))

  -- A result that is fixed before the rest goes on.
  pub then_pure :
      {A B : Type 0} (r : Result SftpError (Unit {0}) × S) (a : A) (k : A → M SftpError S B)
      → bind_from (bind_from r (λ _ t. (ok a, t))) k ≡ bind_from r (λ _. k a)
  then_pure (ok u, t) a k = refl
  then_pure (throw e, t) a k = refl

  -- The chunk starts with a whole header.
  pub take_bytes_header :
      (chunk : Bytes) (s : S)
      → 4 ≤ length chunk
      → take_bytes limits dispatch (in_header []) chunk s
        ≡ (validate_packet_length limits (read_uint32 chunk 0)
              >> take_bytes limits dispatch (in_packet (read_uint32 chunk 0) []) (drop 4 chunk))
            s
  take_bytes_header chunk s h =
      take_bytes_split (in_header []) 4 chunk s
      ∙ ap (λ r. bind_from r (λ q. take_bytes limits dispatch q (drop 4 chunk)))
          (take_bytes_size limits dispatch [] (take 4 chunk) s (omega (arith, length-take 4 chunk))
              (omega (arith, length-take 4 chunk))
            ∙ ap (λ n. (validate_packet_length limits n >> pure (in_packet n [])) s)
                (read_uint32-take chunk))
      ∙ then_pure (validate_packet_length limits (read_uint32 chunk 0) s)
          (in_packet (read_uint32 chunk 0) []) (λ q. take_bytes limits dispatch q (drop 4 chunk))

  -- The chunk has the whole packet.
  pub take_bytes_body :
      (size : ℕ) (body : Bytes) (s : S)
      → 0 < size
      → size ≤ length body
      → take_bytes limits dispatch (in_packet size []) body s
        ≡ (dispatch (take size body) >> take_bytes limits dispatch (in_header []) (drop size body))
            s
  take_bytes_body size body s h0 h1 =
      take_bytes_split (in_packet size []) size body s
      ∙ ap (λ r. bind_from r (λ q. take_bytes limits dispatch q (drop size body)))
          (take_bytes_whole limits dispatch size [] (take size body) s
            (omega (arith, length-take size body)) (omega (arith, length-take size body)))
      ∙ then_pure (dispatch (take size body) s) (in_header [])
          (λ q. take_bytes limits dispatch q (drop size body))

  -- The chunk ends within the packet.
  pub take_bytes_start :
      (size : ℕ) (body : Bytes) (s : S)
      → length body < size
      → take_bytes limits dispatch (in_packet size []) body s ≡ (
        ok (
            in_packet
              (length (blit (replicate size 0) 0 body))
              (take (length body) (blit (replicate size 0) 0 body))),
        s,
      )
  take_bytes_start size body s h =
      let n = length-blit (replicate size 0) 0 body in
      let blank = length-replicate {A = ℕ} size 0 in
      take_bytes_part limits dispatch size [] body s (omega arith)
      ∙ ap₂ (λ m b. (ok (in_packet m b), s)) (sym (n ∙ blank))
          (sym (
            ap (λ m. take m (blit (replicate size 0) 0 body)) {x = length body}
              {y = 0 + length body} (omega arith)
            ∙ take-blit (replicate size 0) body 0 (omega (arith, blank))))

  -- The chunk completes the header.
  pub take_bytes-headed :
      (h : Bytes) (o c : ℕ) (chunk : Bytes) (s : S)
      → length h ≡ 4
      → o < 4
      → c ≤ length chunk
      → o + c ≡ 4
      → take_bytes limits dispatch (in_header (take o h)) chunk s
        ≡ (validate_packet_length limits (read_uint32 (blit h o (take c chunk)) 0)
              >> take_bytes limits dispatch
                  (in_packet (read_uint32 (blit h o (take c chunk)) 0) [])
                  (drop c chunk))
            s
  take_bytes-headed h o c chunk s h0 h1 h2 h3 =
      take_bytes_split (in_header (take o h)) c chunk s
      ∙ ap (λ r. bind_from r (λ q. take_bytes limits dispatch q (drop c chunk)))
          (take_bytes_size limits dispatch (take o h) (take c chunk) s
              (omega (arith, length-take c chunk))
              (omega (arith, length-take c chunk, length-take o h))
            ∙ ap
                (λ b.
                  (validate_packet_length limits (read_uint32 b 0)
                      >> pure (in_packet (read_uint32 b 0) []))
                    s)
                (header-filled h o c chunk h0 h2 (omega arith)
                  ∙ take_all (o + c) (blit h o (take c chunk))
                      (omega (arith, length-blit h o (take c chunk)))))
      ∙ then_pure (validate_packet_length limits (read_uint32 (blit h o (take c chunk)) 0) s)
          (in_packet (read_uint32 (blit h o (take c chunk)) 0) [])
          (λ q. take_bytes limits dispatch q (drop c chunk))

  -- The chunk does not complete the header.
  pub take_bytes-unheaded :
      (h : Bytes) (o c : ℕ) (chunk : Bytes) (s : S)
      → length h ≡ 4
      → c ≤ length chunk
      → o + c < 4
      → take_bytes limits dispatch (in_header (take o h)) chunk s
        ≡ take_bytes limits dispatch
            (in_header (take (o + c) (blit h o (take c chunk))))
            (drop c chunk)
            s
  take_bytes-unheaded h o c chunk s h0 h2 h3 =
      take_bytes_split (in_header (take o h)) c chunk s
      ∙ ap (λ r. bind_from r (λ q. take_bytes limits dispatch q (drop c chunk)))
          (take_bytes_head limits dispatch (take o h) (take c chunk) s
            (omega (arith, length-take c chunk, length-take o h)))
      ∙ ap (λ b. take_bytes limits dispatch (in_header b) (drop c chunk) s)
          (header-filled h o c chunk h0 h2 (omega arith))
