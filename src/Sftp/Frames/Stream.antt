-- ===== src/Sftp/Frames/Stream.antt =====
-- A reader of SFTP packets that takes one byte at a time, to compare the loop of `SFTPClient.feed` of
-- worker/src/webssh/ssh/sftp.ts with.
use cf_workers_vpsmonitor.Common.{
  ℕ, suc, ◌+◌, true, false, [], ◌∷◌, ◌++◌, length, ◌==◌, if◌then◌else◌, ◌≡◌, refl, Result, ok,
  throw, ◌∙◌, ap, append-nil, append_assoc, length-append, ◌<◌, arith,
}
use cf_workers_vpsmonitor.Common.State.{M, bind_from, ◌>>=◌, ◌>>◌, pure}
use cf_workers_vpsmonitor.Ssh.Wire.{Bytes, read_uint32}
use cf_workers_vpsmonitor.Sftp.Frames.{SftpError, FrameLimits, validate_packet_length}

-- An incomplete packet: some bytes of its header, or its length and some bytes of its body.
pub data Partial : Type 0 where
  in_header : Bytes → Partial
  in_packet : ℕ → Bytes → Partial

module _ {S : Type 0} (limits : FrameLimits) (dispatch : Bytes → M SftpError S (Unit {0})) where
  -- One byte.
  unfoldable pub take_byte : Partial → ℕ → M SftpError S Partial
  take_byte (in_header h) b =
      let h' = h ++ (b ∷ []) in
      if length h' == 4
      then (validate_packet_length limits (read_uint32 h' 0)
          >> pure (in_packet (read_uint32 h' 0) []))
      else pure (in_header h')
  take_byte (in_packet size p) b =
      let p' = p ++ (b ∷ []) in
      if length p' == size then (dispatch p' >> pure (in_header [])) else pure (in_packet size p')

  unfoldable pub take_bytes : Partial → Bytes → M SftpError S Partial
  take_bytes q [] = pure q
  take_bytes q (b ∷ bs) = do q' ← take_byte q b; take_bytes q' bs

  -- Chunks one after another are as good as one chunk.
  pub take_bytes-append :
      (q : Partial) (a b : Bytes) (s : S)
      → take_bytes q (a ++ b) s ≡ (take_bytes q a >>= λ q'. take_bytes q' b) s
  unfolding take_bytes
  take_bytes-append q [] b s = refl
  take_bytes-append q (x ∷ a) b s = go (take_byte q x s) λ q' t. take_bytes-append q' a b t
    where
      go :
          (r : Result SftpError Partial × S)
          → ((q' : Partial) (t : S)
              → take_bytes q' (a ++ b) t ≡ (take_bytes q' a >>= λ q''. take_bytes q'' b) t)
          → bind_from r (λ q'. take_bytes q' (a ++ b))
            ≡ bind_from (bind_from r (λ q'. take_bytes q' a)) (λ q'. take_bytes q' b)
      go (ok q', t) h = h q' t
      go (throw e, t) h = refl

  -- Bytes that do not complete the packet.
  pub take_bytes_part :
      (size : ℕ) (p xs : Bytes) (s : S)
      → length p + length xs < size
      → take_bytes (in_packet size p) xs s ≡ (ok (in_packet size (p ++ xs)), s)
  unfolding take_bytes take_byte
  take_bytes_part size p [] s h = rw (append-nil p) refl
  take_bytes_part size p (x ∷ xs) s h =
      let c : (length (p ++ (x ∷ [])) == size) ≡ false =
        rw (length-append p (x ∷ [])) (ground arith) in
      rw c (
        take_bytes_part size (p ++ (x ∷ [])) xs s (rw (length-append p (x ∷ [])) (omega arith))
        ∙ ap (λ t. (ok (in_packet size t), s)) (append_assoc p (x ∷ []) xs))

  -- Bytes that complete the packet.
  take_bytes_whole_cons :
      (size : ℕ) (p : Bytes) (x : ℕ) (xs : Bytes) (s : S)
      → length p + suc (length xs) ≡ size
      → take_bytes (in_packet size p) (x ∷ xs) s ≡ (dispatch (p ++ x ∷ xs) >> pure (in_header [])) s
  unfolding take_bytes take_byte
  take_bytes_whole_cons size p x [] s h =
      let c : (length (p ++ (x ∷ [])) == size) ≡ true =
        rw (length-append p (x ∷ [])) (ground arith) in
      rw c (go (dispatch (p ++ (x ∷ [])) s))
    where
      go :
          (r : Result SftpError (Unit {0}) × S)
          → bind_from (bind_from r (λ _ t. (ok (in_header []), t))) (λ q'. take_bytes q' [])
            ≡ bind_from r (λ _ t. (ok (in_header []), t))
      go (ok u, t) = refl
      go (throw e, t) = refl
  take_bytes_whole_cons size p x (y ∷ xs) s h =
      let c : (length (p ++ (x ∷ [])) == size) ≡ false =
        rw (length-append p (x ∷ [])) (ground arith) in
      rw c (
        take_bytes_whole_cons size (p ++ (x ∷ [])) y xs s
          (rw (length-append p (x ∷ [])) (omega arith))
        ∙ ap (λ t. (dispatch t >> pure (in_header [])) s) (append_assoc p (x ∷ []) (y ∷ xs)))

  -- Bytes that do not complete the header.
  pub take_bytes_head :
      (h xs : Bytes) (s : S)
      → length h + length xs < 4
      → take_bytes (in_header h) xs s ≡ (ok (in_header (h ++ xs)), s)
  unfolding take_bytes take_byte
  take_bytes_head h [] s k = rw (append-nil h) refl
  take_bytes_head h (x ∷ xs) s k =
      let c : (length (h ++ (x ∷ [])) == 4) ≡ false =
        rw (length-append h (x ∷ [])) (ground arith) in
      rw c (
        take_bytes_head (h ++ (x ∷ [])) xs s (rw (length-append h (x ∷ [])) (omega arith))
        ∙ ap (λ t. (ok (in_header t), s)) (append_assoc h (x ∷ []) xs))

  -- Bytes that complete the header.
  take_bytes_size_cons :
      (h : Bytes) (x : ℕ) (xs : Bytes) (s : S)
      → length h + suc (length xs) ≡ 4
      → take_bytes (in_header h) (x ∷ xs) s
        ≡ (validate_packet_length limits (read_uint32 (h ++ x ∷ xs) 0)
              >> pure (in_packet (read_uint32 (h ++ x ∷ xs) 0) []))
            s
  unfolding take_bytes take_byte
  take_bytes_size_cons h x [] s k =
      let c : (length (h ++ (x ∷ [])) == 4) ≡ true = rw (length-append h (x ∷ [])) (ground arith) in
      rw c (go (validate_packet_length limits (read_uint32 (h ++ (x ∷ [])) 0) s))
    where
      go :
          (r : Result SftpError (Unit {0}) × S)
          → bind_from
              (bind_from r (λ _ t. (ok (in_packet (read_uint32 (h ++ (x ∷ [])) 0) []), t)))
              (λ q'. take_bytes q' [])
            ≡ bind_from r (λ _ t. (ok (in_packet (read_uint32 (h ++ (x ∷ [])) 0) []), t))
      go (ok u, t) = refl
      go (throw e, t) = refl
  take_bytes_size_cons h x (y ∷ xs) s k =
      let c : (length (h ++ (x ∷ [])) == 4) ≡ false =
        rw (length-append h (x ∷ [])) (ground arith) in
      rw c (
        take_bytes_size_cons (h ++ (x ∷ [])) y xs s (rw (length-append h (x ∷ [])) (omega arith))
        ∙ ap
            (λ t.
              (validate_packet_length limits (read_uint32 t 0)
                  >> pure (in_packet (read_uint32 t 0) []))
                s)
            (append_assoc h (x ∷ []) (y ∷ xs)))

  pub take_bytes_whole :
      (size : ℕ) (p xs : Bytes) (s : S)
      → 0 < length xs
      → length p + length xs ≡ size
      → take_bytes (in_packet size p) xs s ≡ (dispatch (p ++ xs) >> pure (in_header [])) s
  take_bytes_whole size p [] s k h = absurd (omega arith)
  take_bytes_whole size p (x ∷ xs) s k h = take_bytes_whole_cons size p x xs s h

  pub take_bytes_size :
      (h xs : Bytes) (s : S)
      → 0 < length xs
      → length h + length xs ≡ 4
      → take_bytes (in_header h) xs s
        ≡ (validate_packet_length limits (read_uint32 (h ++ xs) 0)
              >> pure (in_packet (read_uint32 (h ++ xs) 0) []))
            s
  take_bytes_size h [] s j k = absurd (omega arith)
  take_bytes_size h (x ∷ xs) s j k = take_bytes_size_cons h x xs s k
