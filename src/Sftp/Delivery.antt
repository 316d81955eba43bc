-- ===== src/Sftp/Delivery.antt =====
-- Packets sent and received: `sendFramed` and the loop of `feed` of worker/src/webssh/ssh/sftp.ts.
use cf_workers_vpsmonitor.Common.{
  ◌<◌, ◌^◌, false, List, [], ◌∷◌, ◌++◌, map, concat, length, drop, ◌≡◌, refl, ap, ◌∙◌, Result, ok,
  throw, subst, arith, length-append, take-append, drop-append,
}
use cf_workers_vpsmonitor.Common.State.{M, bind_from, ◌>>=◌, ◌>>◌, pure}
use cf_workers_vpsmonitor.Ssh.Wire.{Bytes, encode_string}
use cf_workers_vpsmonitor.Ssh.Wire.Laws.{encode_string_lem, read_uint32-encode_string}
use cf_workers_vpsmonitor.Sftp.Frames.{
  SftpError, FrameLimits, Frames, is_bad_length, validate_packet_length, feed_loop,
}
use cf_workers_vpsmonitor.Sftp.Frames.Stream.{Partial, in_header, take_bytes, take_bytes-append}
use cf_workers_vpsmonitor.Sftp.Frames.Chunks.{take_bytes_header, take_bytes_body}
use cf_workers_vpsmonitor.Sftp.Frames.Refine.{
  is_bad_length-positive, view, IsValid, Agrees, feed_loop_refines,
}

-- Packets whose length is in the receiver's limits.
abbrev pub AreSendable : FrameLimits → List Bytes → Type 0
AreSendable limits [] = Unit
AreSendable limits (b ∷ bodies) =
    ((is_bad_length limits (length b) ≡ false) × (length b < 2 ^ 32)) × AreSendable limits bodies

module _ {S : Type 0} (limits : FrameLimits) (dispatch : Bytes → M SftpError S (Unit {0})) where
  -- The loop on one chunk after another.
  unfoldable pub feed_chunks : Frames → List Bytes → M SftpError S Frames
  feed_chunks f [] = pure f
  feed_chunks f (chunk ∷ chunks) = do
    f' ← feed_loop limits dispatch (length chunk) f chunk
    feed_chunks f' chunks

  -- The packets one after another.
  unfoldable pub dispatch_all : List Bytes → M SftpError S (Unit {0})
  dispatch_all [] = pure tt
  dispatch_all (b ∷ bodies) = do dispatch b; dispatch_all bodies

  feed_chunks-Agrees :
      (f : Frames) (chunks : List Bytes) (s : S)
      → IsValid f
      → Agrees (feed_chunks f chunks s) (take_bytes limits dispatch (view f) (concat chunks) s)
  unfolding feed_chunks take_bytes
  feed_chunks-Agrees f [] s v = (refl, v)
  feed_chunks-Agrees f (chunk ∷ chunks) s v =
      rw (take_bytes-append limits dispatch (view f) chunk (concat chunks) s) (
        go (feed_loop limits dispatch (length chunk) f chunk s)
          (take_bytes limits dispatch (view f) chunk s)
          (feed_loop_refines limits dispatch (length chunk) f chunk s v (omega arith))
          λ f' t v'. feed_chunks-Agrees f' chunks t v')
    where
      go :
          (r : Result SftpError Frames × S) (q : Result SftpError Partial × S)
          → Agrees r q
          → ((f' : Frames) (t : S)
              → IsValid f'
              → Agrees
                  (feed_chunks f' chunks t)
                  (take_bytes limits dispatch (view f') (concat chunks) t))
          → Agrees
              (bind_from r (λ f'. feed_chunks f' chunks))
              (bind_from q (λ q'. take_bytes limits dispatch q' (concat chunks)))
      go (ok f', t) q h k = rw (h.0) (k f' t (h.1))
      go (throw e, t) q h k = rw (h.0) (refl, tt)

  -- A whole packet at the front of what is read.
  take_bytes-frame :
      (b more : Bytes) (s : S)
      → is_bad_length limits (length b) ≡ false
      → length b < 2 ^ 32
      → take_bytes limits dispatch (in_header []) (encode_string b ++ more) s
        ≡ (dispatch b >> take_bytes limits dispatch (in_header []) more) s
  unfolding validate_packet_length
  take_bytes-frame b more s good short =
      let e : drop 4 (encode_string b ++ more) ≡ b ++ more = rw (encode_string_lem b) refl in
      take_bytes_header limits dispatch (encode_string b ++ more) s
        (rw (encode_string_lem b) (omega arith))
      ∙ rw (e, (read_uint32-encode_string b more short).0, good)
          (take_bytes_body limits dispatch (length b) (b ++ more) s
              (is_bad_length-positive limits (length b) good) (omega (arith, length-append b more))
            ∙ rw (take-append (length b) b more refl, drop-append (length b) b more refl) refl)

  take_bytes-frames :
      (bodies : List Bytes) (s : S)
      → AreSendable limits bodies
      → take_bytes limits dispatch (in_header []) (concat (map encode_string bodies)) s
        ≡ (dispatch_all bodies >> pure (in_header [])) s
  unfolding take_bytes dispatch_all
  take_bytes-frames [] s h = refl
  take_bytes-frames (b ∷ bodies) s ((good, short), h) =
      take_bytes-frame b (concat (map encode_string bodies)) s good short
      ∙ go (dispatch b s) λ t. take_bytes-frames bodies t h
    where
      go :
          (r : Result SftpError (Unit {0}) × S)
          → ((t : S)
              → take_bytes limits dispatch (in_header []) (concat (map encode_string bodies)) t
                ≡ (dispatch_all bodies >> pure (in_header [])) t)
          → bind_from r
              (λ _. take_bytes limits dispatch (in_header []) (concat (map encode_string bodies)))
            ≡ bind_from (bind_from r (λ _. dispatch_all bodies)) (λ _. pure (in_header []))
      go (ok u, t) k = k t
      go (throw e, t) k = refl

  -- Packets that were sent one after another, in whatever chunks they arrive at frames that hold no
  -- incomplete packet, and of lengths within the limits, are dispatched in their order, each once
  -- and whole, up to the first error, and nothing is left over.
  pub feed_chunks-encode_string :
      (f : Frames) (chunks bodies : List Bytes) (s : S)
      → IsValid f
      → view f ≡ in_header []
      → AreSendable limits bodies
      → concat chunks ≡ concat (map encode_string bodies)
      → Agrees (feed_chunks f chunks s) ((dispatch_all bodies >> pure (in_header [])) s)
  feed_chunks-encode_string f chunks bodies s v e h same =
      subst (λ r. Agrees (feed_chunks f chunks s) r)
        (ap (λ q. take_bytes limits dispatch q (concat chunks) s) e
          ∙ ap (λ b. take_bytes limits dispatch (in_header []) b s) same
          ∙ take_bytes-frames bodies s h)
        (feed_chunks-Agrees f chunks s v)
