-- ===== src/Sftp/Handler/Uploads/Writes.antt =====
-- Where the chunks of an upload of worker/src/webssh/backend/sftp-handler.ts are written.
use cf_workers_vpsmonitor.Common.{
  ℕ, ◌+◌, List, [], ◌∷◌, ◌++◌, append-nil, append_assoc, Option, none, some, length, length-append,
  concat, ◌≡◌, refl, sym, ap, subst, ◌∙◌, Result, ok, throw, Bool-cases, inl, inr, ◌⊎◌, arith,
}
use cf_workers_vpsmonitor.Common.State.{bind_from, ◌>>◌}
use cf_workers_vpsmonitor.Ssh.Wire.{Bytes}
use cf_workers_vpsmonitor.Sftp.Frames.{SftpError}
use cf_workers_vpsmonitor.Sftp.Handler.Entries.{Text}
use cf_workers_vpsmonitor.Sftp.Handler.State
use cf_workers_vpsmonitor.Sftp.Handler.Arrivals.{arrive-keeps}
use cf_workers_vpsmonitor.Sftp.Handler.State.{
  Call, Answer, Event, answered, sent_json, sent_binary, Arrival, cancel_arrived, close_arrived,
  Handler, Method, Server, HandlerError, UploadState, call, lift, arrive, on_closed,
  cancel_download, dispose, caught, note, write_file, close_handle, remove_file, report_error,
  dispose_arrived, version_arrived, directory_arrived, flush_failed, receive, receive_version,
  receive_directory, working_directory, init, protocol, send_failed, unsupported_version,
  sftp_ready, sftp_error, Message, upload, invalid_chunk, rejected, sftp_closed,
  sftp_upload_progress,
}
use cf_workers_vpsmonitor.Sftp.Handler.Handles.{call-view}
use cf_workers_vpsmonitor.Sftp.Handler.Uploads.{
  set_upload, is_bad_chunk, abort_upload, write_chunk, accept_chunk, upload_chunk,
}

-- What was written in a handle, at an offset.
abbrev pub Write : Type 0
Write = Bytes × ℕ × Bytes

-- The writes that the far side confirmed
abbrev write_of : (c : Call) → Result SftpError (Answer c) → List Write
write_of (write_file handle offset bytes) (ok a) = (handle, offset, bytes) ∷ []
write_of (write_file handle offset bytes) (throw e) = []
write_of c answer = []

abbrev pub writes : List Event → List Write
writes [] = []
writes (answered c answer ∷ es) = write_of c answer ++ writes es
writes (sent_json message ∷ es) = writes es
writes (sent_binary bytes ∷ es) = writes es

writes-append : (es fs : List Event) → writes (es ++ fs) ≡ writes es ++ writes fs
writes-append [] fs = refl
writes-append (answered c answer ∷ es) fs =
    ap (λ ws. write_of c answer ++ ws) (writes-append es fs)
    ∙ sym (append_assoc (write_of c answer) (writes es) (writes fs))
writes-append (sent_json message ∷ es) fs = writes-append es fs
writes-append (sent_binary bytes ∷ es) fs = writes-append es fs

-- Chunks one after another, from an offset.
abbrev pub one_after_another : Bytes → ℕ → List Bytes → List Write
one_after_another handle offset [] = []
one_after_another handle offset (bytes ∷ chunks) =
    (handle, offset, bytes) ∷ one_after_another handle (offset + length bytes) chunks

module _ {W : Type 0} where
  arrive-writes :
      (news : List Arrival) (h : Handler W) → writes (arrive news h).events ≡ writes h.events
  unfolding cancel_download
  arrive-writes news h =
      arrive-keeps (λ s. writes s.events ≡ writes h.events)
        (λ message s e.
          writes-append s.events (sent_json message ∷ []) ∙ append-nil (writes s.events) ∙ e)
        (λ r d s e. e) (λ id s e. e) news h refl

  call-writes :
      (serve : Server W) (c : Call) (h : Handler W)
      → writes (call serve c h).1.events
        ≡ writes h.events ++ (write_of c (serve c h.world).0.0 ++ [])
  unfolding call
  call-writes serve c h =
      arrive-writes (serve c h.world).0.1 _
      ∙ writes-append h.events (answered c (serve c h.world).0.0 ∷ [])

  call-upload :
      (serve : Server W) (c : Call) (h : Handler W)
      → (call serve c h).1.upload_state ≡ h.upload_state
  call-upload serve c h = ap (λ v. v.1) (call-view serve c h)

same_received : (u v : UploadState) → some u ≡ some v → u.received ≡ v.received
same_received u v e = ap (received_or u.received) e
  where
    received_or : ℕ → Option UploadState → ℕ
    received_or n none = n
    received_or n (some w) = w.received

module _ {W : Type 0} (serve : Server W) (utf8 : Text → Bytes) where
  aborted-none :
      (u : UploadState) (e : HandlerError) (h : Handler W)
      → ((abort_upload serve utf8 u >> report_error upload u.request_id e) h).1.upload_state ≡ none
  unfolding abort_upload set_upload report_error
  aborted-none u e h = elim (Bool-cases u.handle_closed) [
    | inl t ↦
        rw t (call-upload serve (remove_file u.upload_path) (record h { upload_state = none }))
    | inr f ↦ rw f (
        call-upload serve (remove_file u.upload_path) _
        ∙ call-upload serve (close_handle u.handle) (record h { upload_state = none }))
  ]

  -- A chunk gives the upload up, or is written where the one before ended.
  IsWritten : UploadState → Bytes → Handler W → Handler W → Type 0
  IsWritten u bytes h h' =
      (h'.upload_state ≡ none)
      ⊎ ((h'.upload_state ≡ some (record u { received = u.received + length bytes }))
          × (writes h'.events ≡ writes h.events ++ ((u.handle, u.received, bytes) ∷ [])))

  write_chunk-IsWritten :
      (u : UploadState) (bytes : Bytes) (h : Handler W)
      → IsWritten u bytes h
          (caught
            (write_chunk serve utf8 u bytes h)
            (λ e. abort_upload serve utf8 u >> report_error upload u.request_id e)).1
  unfolding IsWritten write_chunk set_upload call
  write_chunk-IsWritten u bytes h =
      go (serve (write_file u.handle u.received bytes) h.world).0.0 _
        (call-writes serve (write_file u.handle u.received bytes) h)
    where
      go :
          (r : Result SftpError (Unit {0})) (s : Handler W)
          → writes s.events
            ≡ writes h.events ++ (write_of (write_file u.handle u.received bytes) r ++ [])
          → IsWritten u bytes h
              (caught
                (bind_from
                  (lift r, s)
                  (λ _.
                    set_upload serve utf8 (some (record u { received = u.received + length bytes }))
                    >> State.send_json
                        (sftp_upload_progress u.request_id (u.received + length bytes) u.size)))
                (λ e. abort_upload serve utf8 u >> report_error upload u.request_id e)).1
      go (ok a) s e = inr (
        refl,
        writes-append s.events (
              sent_json (sftp_upload_progress u.request_id (u.received + length bytes) u.size) ∷ [])
            ∙ append-nil (writes s.events)
            ∙ e,
      )
      go (throw x) s e = inl (aborted-none u (rejected x) s)

  accept_chunk-IsWritten :
      (u : UploadState) (bytes : Bytes) (h : Handler W)
      → IsWritten u bytes h (accept_chunk serve utf8 (some u) bytes h).1
  unfolding accept_chunk IsWritten
  accept_chunk-IsWritten u bytes h = elim (Bool-cases (is_bad_chunk u bytes)) [
    | inl bad ↦ rw bad (inl (aborted-none u invalid_chunk h))
    | inr good ↦ rw good (write_chunk-IsWritten u bytes h)
  ]

  upload_chunk-IsWritten :
      (u : UploadState) (bytes : Bytes) (h : Handler W)
      → h.upload_state ≡ some u
      → IsWritten u bytes h (upload_chunk serve utf8 bytes h).1
  unfolding upload_chunk
  upload_chunk-IsWritten u bytes h e =
      subst (λ w. IsWritten u bytes h (accept_chunk serve utf8 w bytes h).1) (sym e)
        (accept_chunk-IsWritten u bytes h)

  -- The chunks of an upload, one call each
  abbrev pub upload_all : List Bytes → Handler W → Handler W
  upload_all [] h = h
  upload_all (bytes ∷ chunks) h = upload_all chunks (upload_chunk serve utf8 bytes h).1

  upload_chunk-none :
      (bytes : Bytes) (h : Handler W)
      → h.upload_state ≡ none
      → (upload_chunk serve utf8 bytes h).1.upload_state ≡ none
  unfolding upload_chunk accept_chunk
  upload_chunk-none bytes h e =
      subst (λ w. (accept_chunk serve utf8 w bytes h).1.upload_state ≡ none) (sym e) e

  upload_all-none :
      (chunks : List Bytes) (h : Handler W)
      → h.upload_state ≡ none
      → (upload_all chunks h).upload_state ≡ none
  upload_all-none [] h e = e
  upload_all-none (bytes ∷ chunks) h e =
      upload_all-none chunks (upload_chunk serve utf8 bytes h).1 (upload_chunk-none bytes h e)

  -- Where an upload is still in progress after some chunks, the far side confirmed the writes of
  -- just these chunks meanwhile, in their order, in the upload's handle, each where the one before
  -- ended, from what was received before; and their bytes count as received.
  pub upload_all-writes :
      (chunks : List Bytes) (u u' : UploadState) (h : Handler W)
      → h.upload_state ≡ some u
      → (upload_all chunks h).upload_state ≡ some u'
      → (u'.received ≡ u.received + length (concat chunks))
        × (writes (upload_all chunks h).events
            ≡ writes h.events ++ one_after_another u.handle u.received chunks)
  unfolding IsWritten
  upload_all-writes [] u u' h e k =
      (omega (arith, same_received u u' (sym e ∙ k)), sym (append-nil (writes h.events)))
  upload_all-writes (bytes ∷ chunks) u u' h e k =
      let h1 : Handler W = (upload_chunk serve utf8 bytes h).1 in
      elim (upload_chunk-IsWritten u bytes h e) [
        | inl gone ↦
            let ended : none ≡ some u' = sym (upload_all-none chunks h1 gone) ∙ k in absurd cc
        | inr (e1, w1) ↦
            let (n, w) =
              upload_all-writes chunks (record u { received = u.received + length bytes }) u' h1 e1
                k in
            (
              omega (arith, n, length-append bytes (concat chunks)),
              w
                  ∙ ap (λ ws. ws ++ one_after_another u.handle (u.received + length bytes) chunks)
                      w1
                  ∙ append_assoc (writes h.events) ((u.handle, u.received, bytes) ∷ []) _,
            )
      ]
