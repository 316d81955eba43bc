-- ===== src/Sftp/Handler/Uploads/Begin.antt =====
-- `startUpload` of worker/src/webssh/backend/sftp-handler.ts opens the handle of its upload alone.
use cf_workers_vpsmonitor.Common.{
  ℕ, ◌≤◌, Bool, true, false, not, ◌||◌, [], ◌∷◌, Option, none, some, ltb, ◌≡◌, refl, sym, ap, subst,
  ◌∙◌, ok, ltb→le, arith,
}
use cf_workers_vpsmonitor.Common.State.{◌>>◌, refuse, refuse-passed}
use cf_workers_vpsmonitor.Ssh.Wire.{Bytes}
use cf_workers_vpsmonitor.Sftp.Handler.Entries.{Text}
use cf_workers_vpsmonitor.Sftp.Handler.State.{
  Handler, Server, HandlerError, UploadState, report_error, upload, max_file_size,
  invalid_upload_size, not_ready, invalid_path, another_upload, is_invalid_path, sent_json,
  sftp_upload_ready, open_file, is_present, assert_ready, validate_path,
}
use cf_workers_vpsmonitor.Sftp.Handler.Handles.{
  IsNeutral, neutral, report_error-IsNeutral, held_handles, note-view,
}
use cf_workers_vpsmonitor.Sftp.Handler.Uploads.{
  check_upload, check_room, choose_path, temporary_upload_path, begin_upload, start_upload,
  set_upload, upload_flags,
}
use cf_workers_vpsmonitor.Sftp.Handler.Uploads.Aborts.{
  Fits, IsAtRest, neutral-cases, call-cases, caught-rest,
}

module _ {W : Type 0} (serve : Server W) (utf8 : Text → Bytes) where
  check_upload-IsNeutral : (path : Text) (size : ℕ) → IsNeutral (check_upload serve utf8 path size)
  unfolding check_upload check_room
  check_upload-IsNeutral path size = search neutral depth 20

  choose_path-IsNeutral :
      (uuid path : Text) (overwrite : Bool) → IsNeutral (choose_path serve utf8 uuid path overwrite)
  unfolding choose_path temporary_upload_path
  choose_path-IsNeutral uuid path overwrite = search neutral depth 20

  -- What the tests of `startUpload` make sure of.
  check_upload-passed :
      (path : Text) (size : ℕ) (h : Handler W)
      → (check_upload serve utf8 path size h).0 ≡ ok tt
      → (h.upload_state ≡ none) × (size ≤ max_file_size)
  unfolding check_upload check_room assert_ready validate_path
  check_upload-passed path size h e =
      let small =
        refuse {E = HandlerError} {S = Handler W} (ltb max_file_size size) invalid_upload_size in
      let (_, e1) =
        refuse-passed (not h.ready || h.disposed) not_ready
          (validate_path utf8 path >> check_room serve utf8 size) h tt e in
      let (_, e2) =
        refuse-passed (is_invalid_path utf8 path) invalid_path (check_room serve utf8 size) h tt
          e1 in
      let (free, e3) = refuse-passed (is_present h.upload_state) another_upload small h tt e2 in
      (
        absent h.upload_state free,
        ltb→le max_file_size size (unrefused (ltb max_file_size size) e3),
      )
    where
      unrefused :
          (bad : Bool)
          → (refuse {E = HandlerError} {S = Handler W} bad invalid_upload_size h).0 ≡ ok tt
          → bad ≡ false
      unrefused true e = absurd cc
      unrefused false e = refl

      absent : (u : Option UploadState) → is_present u ≡ false → u ≡ none
      absent none e = refl
      absent (some u) e = absurd cc

  begin_upload-rest :
      (uuid id path : Text) (size : ℕ) (overwrite : Bool) (h : Handler W)
      → IsAtRest h
      → IsAtRest (begin_upload serve utf8 uuid id path size overwrite h).1
  unfolding begin_upload set_upload
  begin_upload-rest uuid id path size overwrite h r =
      neutral-cases (λ q. IsAtRest q.1) (check_upload serve utf8 path size) _ h
        (check_upload-IsNeutral path size)
        (λ a s v e.
          let (free, small) = check_upload-passed path size h e in
          neutral-cases (λ q. IsAtRest q.1) (choose_path serve utf8 uuid path overwrite) _ s
            (choose_path-IsNeutral uuid path overwrite)
            (λ upload_path s1 v1 e1.
              call-cases (λ q. IsAtRest q.1) serve (open_file upload_path upload_flags) _ s1
                (λ handle s2 v2.
                  let empty : held_handles h ≡ [] = subst (λ u. Fits (held_handles h, u)) free r in
                  (
                    ap (λ w. w.0) (note-view (sent_json (sftp_upload_ready id path size)) s2 ∙ v2)
                        ∙ ap (λ hs. handle ∷ hs) (ap (λ w. w.0) (v1 ∙ v) ∙ empty),
                    refl,
                    omega arith,
                    small,
                  ))
                (λ e2 s2 v2. subst Fits (sym (v2 ∙ v1 ∙ v)) r))
            (λ e1 s1 v1. subst Fits (sym (v1 ∙ v)) r))
        (λ e s v. subst Fits (sym v) r)

  pub start_upload-rest :
      (uuid id path : Text) (size : ℕ) (overwrite : Bool) (h : Handler W)
      → IsAtRest h
      → IsAtRest (start_upload serve utf8 uuid id path size overwrite h).1
  unfolding start_upload
  start_upload-rest uuid id path size overwrite h r =
      caught-rest (begin_upload serve utf8 uuid id path size overwrite h) (report_error upload id)
        (begin_upload-rest uuid id path size overwrite h r) (report_error-IsNeutral upload id)
