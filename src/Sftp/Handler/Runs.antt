-- ===== src/Sftp/Handler/Runs.antt =====
-- Sequences of calls of the methods of `SFTPHandler` in
-- worker/src/webssh/backend/sftp-handler.ts. The session runs one after the other, but for
-- the arrivals, which may come while another awaits an answer too.
use cf_workers_vpsmonitor.Common.{ℕ, Bool, false, List, [], ◌∷◌, none, sym, subst}
use cf_workers_vpsmonitor.Ssh.Wire.{Bytes}
use cf_workers_vpsmonitor.Sftp.Handler.Entries.{Text}
use cf_workers_vpsmonitor.Sftp.Handler.State.{Handler, Server, Arrival, arrive}
use cf_workers_vpsmonitor.Sftp.Handler.Opening.{announce_ready}
use cf_workers_vpsmonitor.Sftp.Handler.Downloads.{start_download}
use cf_workers_vpsmonitor.Sftp.Handler.Listing.{list_directory, remove, mkdir, rename}
use cf_workers_vpsmonitor.Sftp.Handler.Uploads.{
  start_upload, upload_chunk, finish_upload, cancel_upload,
}
use cf_workers_vpsmonitor.Sftp.Handler.Handles.{arrive-view}
use cf_workers_vpsmonitor.Sftp.Handler.Neutral.{start_download-IsNeutral}
use cf_workers_vpsmonitor.Sftp.Handler.Neutral.Opening.{announce_ready-IsNeutral}
use cf_workers_vpsmonitor.Sftp.Handler.Neutral.Listing.{
  list_directory-IsNeutral, remove-IsNeutral, mkdir-IsNeutral, rename-IsNeutral,
}
use cf_workers_vpsmonitor.Sftp.Handler.Uploads.Aborts.{Fits, IsAtRest}
use cf_workers_vpsmonitor.Sftp.Handler.Uploads.Begin.{start_upload-rest}
use cf_workers_vpsmonitor.Sftp.Handler.Uploads.Rest.{
  upload_chunk-rest, finish_upload-rest, cancel_upload-rest,
}

-- A call of a method; the identifiers of `crypto.randomUUID` and the fuel of a listing are given.
pub data Action : Type 0 where
  to_list : ℕ → Text → Text → Action
  to_download : Text → Text → Action
  to_start_upload : Text → Text → Text → ℕ → Bool → Action
  to_upload_chunk : Bytes → Action
  to_finish_upload to_cancel_upload : Text → Action
  to_remove : Text → Text → Bool → Action
  to_mkdir : Text → Text → Action
  to_rename : Text → Text → Text → Action
  to_arrive : Arrival → Action
  to_announce_ready : Action

module _ {W : Type 0} (serve : Server W) (utf8 : Text → Bytes) where
  unfoldable pub act : Action → Handler W → Handler W
  act (to_list fuel id path) h = (list_directory serve utf8 fuel id path h).1
  act (to_download id path) h = (start_download serve utf8 id path h).1
  act (to_start_upload uuid id path size overwrite) h =
      (start_upload serve utf8 uuid id path size overwrite h).1
  act (to_upload_chunk bytes) h = (upload_chunk serve utf8 bytes h).1
  act (to_finish_upload id) h = (finish_upload serve utf8 id h).1
  act (to_cancel_upload id) h = (cancel_upload serve utf8 id h).1
  act (to_remove id path directory) h = (remove serve utf8 id path directory h).1
  act (to_mkdir id path) h = (mkdir serve utf8 id path h).1
  act (to_rename id old_path new_path) h = (rename serve utf8 id old_path new_path h).1
  act (to_arrive arrival) h = arrive (arrival ∷ []) h
  act to_announce_ready h = (announce_ready h).1

  unfoldable pub act_all : List Action → Handler W → Handler W
  unfolding act
  act_all [] h = h
  act_all (a ∷ actions) h = act_all actions (act a h)

-- The fields as they are initialised
abbrev pub new_handler : {W : Type 0} → W → Handler W
new_handler world = record {
  ready = false;
  disposed = false;
  active_download = none;
  upload_state = none;
  next_number = 0;
  events = [];
  world = world;
}

module _ {W : Type 0} (serve : Server W) (utf8 : Text → Bytes) where
  act-rest : (a : Action) (h : Handler W) → IsAtRest h → IsAtRest (act serve utf8 a h)
  unfolding act
  act-rest (to_list fuel id path) h r =
      subst Fits (sym ((list_directory-IsNeutral serve utf8 fuel id path).same_view h)) r
  act-rest (to_download id path) h r =
      subst Fits (sym ((start_download-IsNeutral serve utf8 id path).same_view h)) r
  act-rest (to_start_upload uuid id path size overwrite) h r =
      start_upload-rest serve utf8 uuid id path size overwrite h r
  act-rest (to_upload_chunk bytes) h r = upload_chunk-rest serve utf8 bytes h r
  act-rest (to_finish_upload id) h r = finish_upload-rest serve utf8 id h r
  act-rest (to_cancel_upload id) h r = cancel_upload-rest serve utf8 id h r
  act-rest (to_remove id path directory) h r =
      subst Fits (sym ((remove-IsNeutral serve utf8 id path directory).same_view h)) r
  act-rest (to_mkdir id path) h r =
      subst Fits (sym ((mkdir-IsNeutral serve utf8 id path).same_view h)) r
  act-rest (to_rename id old_path new_path) h r =
      subst Fits (sym ((rename-IsNeutral serve utf8 id old_path new_path).same_view h)) r
  act-rest (to_arrive arrival) h r = subst Fits (sym (arrive-view (arrival ∷ []) h)) r
  act-rest to_announce_ready h r = subst Fits (sym (announce_ready-IsNeutral.same_view h)) r

  -- A handle is held from the answer that gives it to the handler to the call that asks to close
  -- it, whatever the answer to that is; one that the far side opened and whose answer the client
  -- rejected is not given to it. Whatever the far side answers, and whichever of `cancelDownload`,
  -- `onClosed`, `dispose`, the parts of `initialize` and a failed `flush` come while an answer is
  -- awaited or between two calls: after any sequence of calls, starting from a handler that
  -- satisfies this, the handles that are held are that of the upload in progress alone, for which
  -- no close was asked, or none where there is no upload; the upload received no more than its
  -- size, which is at most 64 MiB.
  pub act_all-IsAtRest :
      (actions : List Action) (h : Handler W) → IsAtRest h → IsAtRest (act_all serve utf8 actions h)
  unfolding act_all
  act_all-IsAtRest [] h r = r
  act_all-IsAtRest (a ∷ actions) h r =
      act_all-IsAtRest actions (act serve utf8 a h) (act-rest a h r)
