-- ===== src/Sftp/Handler/Uploads/Rest.antt =====
-- The chunks, the end and the cancellation of an upload of
-- worker/src/webssh/backend/sftp-handler.ts keep no handle open but that of the upload in progress.
use cf_workers_vpsmonitor.Common.{
  ◌+◌, ◌≤◌, true, false, not, [], Option, none, some, length, ◌==◌, ◌≡◌, refl, sym, ap, subst, ◌∙◌,
  Result, if◌then◌else◌, Bool-cases, inl, inr, arith,
}
use cf_workers_vpsmonitor.Common.State.{◌>>◌, pure, refuse}
use cf_workers_vpsmonitor.Ssh.Wire.{Bytes}
use cf_workers_vpsmonitor.Sftp.Handler.Entries.{Text}
use cf_workers_vpsmonitor.Sftp.Handler.State.{
  Handler, Method, Server, HandlerError, rejected, UploadState, call, catching, caught,
  report_error, upload, invalid_chunk, sent_json, send_json, sftp_upload_cancelled,
  no_matching_upload, same_codes, upload_incomplete, sftp_upload_complete, sftp_upload_progress,
  write_file, close_handle, rename_file,
}
use cf_workers_vpsmonitor.Sftp.Handler.Handles.{
  IsNeutral, send_json-IsNeutral, if-IsNeutral, pure-IsNeutral, refuse-IsNeutral,
  report_error-IsNeutral, view, held_handles, note-view, without, call-view,
}
use cf_workers_vpsmonitor.Sftp.Handler.Uploads.{
  is_bad_chunk, set_upload, abort_upload, write_chunk, accept_chunk, upload_chunk, complete_upload,
  finish_matching, finish_failed, finish_upload, abort_present, matching, cancel_matching,
  cancel_upload,
}
use cf_workers_vpsmonitor.Sftp.Handler.Uploads.Aborts.{
  Fits, IsAtRest, neutral-cases, call-cases, IsOwned, IsLeft, without-owned, aborted-rest,
}

module _ {W : Type 0} (serve : Server W) (utf8 : Text → Bytes) where
  owned :
      (u : UploadState) (h : Handler W) → Fits (held_handles h, some u) → IsOwned (held_handles h) u
  owned u h r = inr (r.0, r.1)

  write_chunk-rest :
      (u : UploadState) (bytes : Bytes) (h : Handler W)
      → Fits (held_handles h, some u)
      → u.received + length bytes ≤ u.size
      → IsAtRest
          (caught
            (write_chunk serve utf8 u bytes h)
            (λ e. abort_upload serve utf8 u >> report_error upload u.request_id e)).1
  unfolding write_chunk set_upload
  write_chunk-rest u bytes h r l =
      let failed : HandlerError → Method W (Unit {0}) =
        λ e. abort_upload serve utf8 u >> report_error upload u.request_id e in
      call-cases (λ q. IsAtRest (caught q failed).1) serve (write_file u.handle u.received bytes) _
        h
        (λ a s v. (
          ap (λ w. w.0)
                (note-view
                    (sent_json
                      (sftp_upload_progress u.request_id (u.received + length bytes) u.size))
                    s
                  ∙ v)
              ∙ r.0,
          r.1,
          l,
          r.3,
        ))
        (λ e s v.
          aborted-rest serve utf8 u (report_error upload u.request_id (rejected e)) s
            (report_error-IsNeutral _ _ _) (subst (λ w. IsOwned w.0 u) (sym v) (owned u h r)))

  good_chunk :
      (u : UploadState) (bytes : Bytes)
      → is_bad_chunk u bytes ≡ false
      → u.received + length bytes ≤ u.size
  unfolding is_bad_chunk
  good_chunk u bytes good = ground arith

  accept_chunk-rest :
      (u : Option UploadState) (bytes : Bytes) (h : Handler W)
      → h.upload_state ≡ u
      → IsAtRest h
      → IsAtRest (accept_chunk serve utf8 u bytes h).1
  unfolding accept_chunk
  accept_chunk-rest none bytes h e r = r
  accept_chunk-rest (some u) bytes h e r =
      let fits = subst (λ w. Fits (held_handles h, w)) e r in
      elim (Bool-cases (is_bad_chunk u bytes)) [
        | inl bad ↦ rw bad (
            aborted-rest serve utf8 u (report_error upload u.request_id invalid_chunk) h
              (report_error-IsNeutral _ _ _) (owned u h fits))
        | inr good ↦ rw good (write_chunk-rest u bytes h fits (good_chunk u bytes good))
      ]

  pub upload_chunk-rest :
      (bytes : Bytes) (h : Handler W) → IsAtRest h → IsAtRest (upload_chunk serve utf8 bytes h).1
  unfolding upload_chunk
  upload_chunk-rest bytes h r = accept_chunk-rest h.upload_state bytes h refl r

  finish_failed-rest :
      (id : Text) (e : HandlerError) (h : Handler W)
      → IsLeft (view h)
      → IsAtRest (finish_failed serve utf8 id e h).1
  unfolding finish_failed abort_present
  finish_failed-rest id e h l = go h.upload_state refl l
    where
      go :
          (u : Option UploadState)
          → h.upload_state ≡ u
          → IsLeft (held_handles h, u)
          → IsAtRest ((abort_present serve utf8 u >> report_error upload id e) h).1
      go none k l =
          subst Fits
            (sym
              ((report_error-IsNeutral upload id e).same_view h ∙ ap (λ w. (held_handles h, w)) k))
            l
      go (some u) k l =
          aborted-rest serve utf8 u (report_error upload id e) h
            (report_error-IsNeutral upload id e) l

  rename_part-IsNeutral :
      (u : UploadState)
      → IsNeutral (
          if u.temporary
          then call serve (rename_file u.upload_path u.destination_path)
          else pure tt)
  rename_part-IsNeutral u =
      if-IsNeutral u.temporary _ _
        (record { same_view = call-view serve (rename_file u.upload_path u.destination_path) })
        (pure-IsNeutral tt)

  complete_upload-rest :
      (u : UploadState) (id : Text) (h : Handler W)
      → Fits (held_handles h, some u)
      → h.upload_state ≡ some u
      → IsAtRest (caught (complete_upload serve utf8 u h) (finish_failed serve utf8 id)).1
  unfolding complete_upload set_upload
  complete_upload-rest u id h r e =
      let P : Result HandlerError (Unit {0}) × Handler W → Type 0 =
        λ q. IsAtRest (caught q (finish_failed serve utf8 id)).1 in
      neutral-cases P (refuse (not (u.received == u.size)) upload_incomplete) _ h
        (refuse-IsNeutral _ _)
        (λ a s v e1.
          call-cases P serve (close_handle u.handle) _ s
            (λ a1 s1 v1.
              let now : Handler W = record s1 {
                upload_state = some (record u { handle_closed = true });
              } in
              let empty : held_handles s1 ≡ [] =
                ap (λ w. w.0) v1
                ∙ ap (λ w. without u.handle w.0) v
                ∙ without-owned (held_handles h) u (inr (r.0, r.1)) in
              neutral-cases P _ _ now (rename_part-IsNeutral u)
                (λ a2 s2 v2 e2.
                  ap (λ w. w.0)
                    (note-view
                      (sent_json (sftp_upload_complete u.request_id u.destination_path u.received))
                      (record s2 { upload_state = none }))
                  ∙ ap (λ w. w.0) v2
                  ∙ empty)
                (λ e2 s2 v2. finish_failed-rest id e2 s2 (subst IsLeft (sym v2) (inl empty))))
            (λ e2 s1 v1. finish_failed-rest id (rejected e2) s1 (
              subst IsLeft
                (sym (
                  v1
                  ∙ ap (λ w. (without u.handle w.0, w.1)) v
                  ∙ ap (λ w. (without u.handle (held_handles h), w)) e))
                (inl (without-owned (held_handles h) u (inr (r.0, r.1)))))))
        (λ e1 s v.
          finish_failed-rest id e1 s
            (subst IsLeft (sym (v ∙ ap (λ w. (held_handles h, w)) e)) (inr (r.0, r.1))))

  pub finish_upload-rest :
      (id : Text) (h : Handler W) → IsAtRest h → IsAtRest (finish_upload serve utf8 id h).1
  unfolding finish_upload finish_matching matching
  finish_upload-rest id h r = go h.upload_state refl r
    where
      go :
          (w : Option UploadState)
          → h.upload_state ≡ w
          → Fits (held_handles h, w)
          → IsAtRest
              (catching
                (finish_matching serve utf8 (matching id w))
                (finish_failed serve utf8 id)
                h).1
      go none k r =
          finish_failed-rest id no_matching_upload h
            (subst IsLeft (ap (λ w. (held_handles h, w)) (sym k)) r)
      go (some u) k r = elim (Bool-cases (same_codes u.request_id id)) [
        | inl same ↦ rw same (complete_upload-rest u id h r k)
        | inr other ↦ rw other (
            finish_failed-rest id no_matching_upload h
              (subst IsLeft (ap (λ w. (held_handles h, w)) (sym k)) (inr (r.0, r.1))))
      ]

  pub cancel_upload-rest :
      (id : Text) (h : Handler W) → IsAtRest h → IsAtRest (cancel_upload serve utf8 id h).1
  unfolding cancel_upload cancel_matching matching
  cancel_upload-rest id h r = go h.upload_state refl r
    where
      go :
          (w : Option UploadState)
          → h.upload_state ≡ w
          → Fits (held_handles h, w)
          → IsAtRest (cancel_matching serve utf8 id (matching id w) h).1
      go none k r = subst (λ w. Fits (held_handles h, w)) (sym k) r
      go (some u) k r = elim (Bool-cases (same_codes u.request_id id)) [
        | inl same ↦ rw same (
            aborted-rest serve utf8 u (send_json (sftp_upload_cancelled id)) h
              (send_json-IsNeutral _) (owned u h r))
        | inr other ↦ rw other (subst (λ w. Fits (held_handles h, w)) (sym k) r)
      ]
