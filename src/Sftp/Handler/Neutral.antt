-- ===== src/Sftp/Handler/Neutral.antt =====
-- Downloads of worker/src/webssh/backend/sftp-handler.ts close what they open.
pub mod Listing
pub mod Opening
use cf_workers_vpsmonitor.Common.{
  ℕ, zero, suc, ◌+◌, Bool, true, false, not, ◌||◌, ◌&&◌, List, [], ◌∷◌, ◌++◌, Option, none, some,
  length, ltb, ◌==◌, ◌≡◌, refl, sym, ap, ◌∙◌, Result, ok, throw, if◌then◌else◌, Bool-cases, inl,
  inr,
}
use cf_workers_vpsmonitor.Common.State.{M, bind_from, ◌>>=◌, ◌>>◌, pure, fail, get, modify, refuse}
use cf_workers_vpsmonitor.Ssh.Wire.{Bytes}
use cf_workers_vpsmonitor.Sftp.Frames.{SftpError}
use cf_workers_vpsmonitor.Sftp.Attrs.{SftpSize, exact, digits}
use cf_workers_vpsmonitor.Sftp.Parsing.{DirEntry}
use cf_workers_vpsmonitor.Sftp.Handler.Entries.{Text}
use cf_workers_vpsmonitor.Sftp.Handler.State
use cf_workers_vpsmonitor.Sftp.Handler.State.{
  Answer, Handler, Method, Server, HandlerError, UploadState, call, catching, finally, ignoring,
  report_error, validate_path, assert_ready, lift, sftp_error, read_file, open_file, close_handle,
  max_file_size, sent_json, is_present, another_download,
}
use cf_workers_vpsmonitor.Sftp.Handler.Handles.{
  View, Acts, IsNeutral, neutral, pure-IsNeutral, view, held_handles, after_answer, call-view,
  bind-Acts, bind-IsNeutral, then-IsNeutral, if-IsNeutral, catching-IsNeutral, finally-IsNeutral,
  report_error-IsNeutral, assert_ready-IsNeutral, validate_path-IsNeutral, opened, open_file-Acts,
  send_json-IsNeutral, send_binary-IsNeutral, refuse-IsNeutral,
}
use cf_workers_vpsmonitor.Sftp.Handler.Downloads
use cf_workers_vpsmonitor.Sftp.Handler.Downloads.{
  assert_download_active, safe_size, pass_chunk, download_step, download_loop, transfer,
  download_failed, with_file, open_download, after_open, clear_active, start_download, install,
  prepare, run_download, take_number, chunk_of, read_length, wants_more, is_cancelled, is_too_large,
  is_active,
}

abbrev second : {A : Type 0} → A × Bytes → Bytes
second (a, handle) = handle

module _ {W : Type 0} (serve : Server W) (utf8 : Text → Bytes) where
  assert_download_active-IsNeutral : (n : ℕ) → IsNeutral (assert_download_active serve utf8 n)
  unfolding assert_download_active
  assert_download_active-IsNeutral n = search neutral

  reads-IsNeutral :
      (handle : Bytes) (offset size : ℕ) → IsNeutral (call serve (read_file handle offset size))
  reads-IsNeutral handle offset size = record {
    same_view = call-view serve (read_file handle offset size);
  }

  pass_chunk-IsNeutral :
      (next : ℕ → Method W ℕ) (id : Text) (size : Option ℕ) (offset : ℕ) (chunk : Bytes)
      → ((o : ℕ) → IsNeutral (next o))
      → IsNeutral (pass_chunk serve utf8 next id size offset chunk)
  unfolding pass_chunk
  pass_chunk-IsNeutral next id size offset [] n = pure-IsNeutral offset
  pass_chunk-IsNeutral next id size offset (b ∷ bytes) n = search (neutral, n)

  download_step-IsNeutral :
      (next : ℕ → Method W ℕ) (number : ℕ) (id : Text) (size : Option ℕ) (handle : Bytes)
      (offset : ℕ)
      → ((o : ℕ) → IsNeutral (next o))
      → IsNeutral (download_step serve utf8 next number id size handle offset)
  unfolding download_step
  download_step-IsNeutral next number id size handle offset n =
      search (neutral, n, reads-IsNeutral, assert_download_active-IsNeutral, pass_chunk-IsNeutral)

  download_loop-IsNeutral :
      (fuel number : ℕ) (id : Text) (size : Option ℕ) (handle : Bytes) (offset : ℕ)
      → IsNeutral (download_loop serve utf8 fuel number id size handle offset)
  unfolding download_loop
  download_loop-IsNeutral zero number id size handle offset = pure-IsNeutral offset
  download_loop-IsNeutral (suc fuel) number id size handle offset =
      download_step-IsNeutral _ number id size handle offset
        (λ o. download_loop-IsNeutral fuel number id size handle o)

  transfer-IsNeutral :
      (number : ℕ) (id path : Text) (size : Option ℕ) (handle : Bytes)
      → IsNeutral (transfer serve utf8 number id path size handle)
  unfolding transfer
  transfer-IsNeutral number id path size handle =
      search (neutral, assert_download_active-IsNeutral, download_loop-IsNeutral)

  download_failed-IsNeutral :
      (number : ℕ) (id : Text) (e : HandlerError)
      → IsNeutral (download_failed serve utf8 number id e)
  unfolding download_failed
  download_failed-IsNeutral number id e = search (neutral)

  install-IsNeutral : (number : ℕ) (id : Text) → IsNeutral (install serve utf8 number id)
  unfolding install
  install-IsNeutral number id = record { same_view = λ h. refl }

  stat-IsNeutral : (path : Text) → IsNeutral (call serve (State.stat path))
  stat-IsNeutral path = record { same_view = call-view serve (State.stat path) }

  safe_size-IsNeutral : (size : Option SftpSize) → IsNeutral (safe_size serve utf8 size)
  unfolding safe_size
  safe_size-IsNeutral none = search neutral
  safe_size-IsNeutral (some (exact size)) = search neutral
  safe_size-IsNeutral (some (digits size)) = search neutral

  prepare-IsNeutral : (number : ℕ) (id path : Text) → IsNeutral (prepare serve utf8 number id path)
  unfolding prepare
  prepare-IsNeutral number id path =
      search
        (
          neutral, install-IsNeutral, stat-IsNeutral, assert_download_active-IsNeutral,
          safe_size-IsNeutral,
        )
        depth 20

  open_download-Acts :
      (number : ℕ) (id path : Text) → Acts (open_download serve utf8 number id path) (opened second)
  unfolding open_download
  open_download-Acts number id path =
      bind-Acts (prepare serve utf8 number id path) _ (opened second)
        (prepare-IsNeutral number id path)
        (λ size. open_file-Acts serve path 1 (λ handle. (size, handle)) second (λ b. refl))
        (λ e v. refl)

  after_open-view :
      (number : ℕ) (id path : Text) (q : Result HandlerError (Option ℕ × Bytes) × Handler W)
      (v : View)
      → view q.1 ≡ opened second q.0 v
      → view (after_open serve utf8 number id path q).1 ≡ v
  unfolding after_open with_file
  after_open-view number id path (ok (size, handle), h) (hs, u) e =
      finally-IsNeutral serve handle hs
        (catching (transfer serve utf8 number id path size handle)
          (download_failed serve utf8 number id))
        h (search (neutral, transfer-IsNeutral, download_failed-IsNeutral)) (ap (λ v. v.0) e)
      ∙ ap (λ v. (hs, v.1)) e
  after_open-view number id path (throw x, h) v e =
      (download_failed-IsNeutral number id x).same_view h ∙ e

  run_download-IsNeutral :
      (number : ℕ) (id path : Text) → IsNeutral (run_download serve utf8 number id path)
  unfolding run_download clear_active
  run_download-IsNeutral number id path = record {
    same_view = λ h.
        after_open-view number id path (open_download serve utf8 number id path h) (view h)
          (open_download-Acts number id path h);
  }

  take_number-IsNeutral : IsNeutral (take_number serve utf8)
  unfolding take_number
  take_number-IsNeutral = record { same_view = λ h. refl }

  pub start_download-IsNeutral : (id path : Text) → IsNeutral (start_download serve utf8 id path)
  unfolding start_download
  start_download-IsNeutral id path = search (neutral, take_number-IsNeutral, run_download-IsNeutral)
