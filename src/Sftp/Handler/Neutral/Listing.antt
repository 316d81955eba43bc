-- ===== src/Sftp/Handler/Neutral/Listing.antt =====
-- Listings and the changes of single files in worker/src/webssh/backend/sftp-handler.ts close what
-- they open.
use cf_workers_vpsmonitor.Common.{
  ℕ, zero, suc, Bool, List, [], ◌∷◌, Option, none, some, ◌≡◌, refl, ap, ◌∙◌, Result, ok, throw,
}
use cf_workers_vpsmonitor.Common.State.{bind_from, ◌>>=◌}
use cf_workers_vpsmonitor.Ssh.Wire.{Bytes}
use cf_workers_vpsmonitor.Sftp.Frames.{SftpError}
use cf_workers_vpsmonitor.Sftp.Parsing.{DirEntry}
use cf_workers_vpsmonitor.Sftp.Handler.Entries.{Text}
use cf_workers_vpsmonitor.Sftp.Handler.State.{
  Handler, Method, Server, HandlerError, call, lift, realpath, open_dir, read_dir, remove_dir,
  remove_file, make_dir, rename_file,
}
use cf_workers_vpsmonitor.Sftp.Handler.Handles.{
  IsNeutral, neutral, view, held_handles, after_answer, call-view, bind-IsNeutral,
  finally-IsNeutral,
}
use cf_workers_vpsmonitor.Sftp.Handler.Listing.{
  DirectoryListing, from_result, pass_batch, list_step, list_loop, probe, probe_found, read_listing,
  send_listing, list_entries, list_directory, remove, mkdir, rename,
}

module _ {W : Type 0} where
  -- A method that closes the handle.
  pub record IsClosing {A : Type 0} (handle : Bytes) (m : Method W A) : Type 0 where
    pub closed_view :
        (h : Handler W) (hs : List Bytes)
        → held_handles h ≡ handle ∷ hs
        → view (m h).1 ≡ (hs, h.upload_state)

  bind-IsClosing :
      {A B : Type 0} (handle : Bytes) (m : Method W A) (k : A → Method W B)
      → IsClosing handle m
      → ((a : A) → IsNeutral (k a))
      → IsClosing handle (m >>= k)
  bind-IsClosing {A = A} handle m k c n = record {
    closed_view = λ h hs e. go h hs (m h) (c.closed_view h hs e);
  }
    where
      go :
          (h : Handler W) (hs : List Bytes) (q : Result HandlerError A × Handler W)
          → view q.1 ≡ (hs, h.upload_state)
          → view (bind_from q k).1 ≡ (hs, h.upload_state)
      go h hs (ok a, s) e = (n a).same_view s ∙ e
      go h hs (throw x, s) e = e

  from_result-IsNeutral :
      {A : Type 0} (r : Result HandlerError A) → IsNeutral {W = W} (from_result r)
  from_result-IsNeutral r = record { same_view = λ h. refl }

module _ {W : Type 0} (serve : Server W) (utf8 : Text → Bytes) where
  open_dir-IsNeutral :
      {B : Type 0} (path : Text) (k : Bytes → Method W B)
      → ((handle : Bytes) → IsClosing handle (k handle))
      → IsNeutral (call serve (open_dir path) >>= k)
  unfolding call
  open_dir-IsNeutral path k c = record {
    same_view = λ h. go h (serve (open_dir path) h.world).0.0 _ (call-view serve (open_dir path) h);
  }
    where
      go :
          (h : Handler W) (r : Result SftpError Bytes) (s : Handler W)
          → view s ≡ (after_answer (held_handles h) (open_dir path) r, h.upload_state)
          → view (bind_from (lift r, s) k).1 ≡ view h
      go h (ok b) s e =
          (c b).closed_view s (held_handles h) (ap (λ v. v.0) e) ∙ ap (λ v. (held_handles h, v.1)) e
      go h (throw x) s e = e

  read_dir-IsNeutral : (handle : Bytes) → IsNeutral (call serve (read_dir handle))
  read_dir-IsNeutral handle = record { same_view = call-view serve (read_dir handle) }

  pass_batch-IsNeutral :
      (next : DirectoryListing → Method W (Option DirectoryListing)) (l : DirectoryListing)
      (batch : List (DirEntry Text))
      → ((l' : DirectoryListing) → IsNeutral (next l'))
      → IsNeutral (pass_batch serve utf8 next l batch)
  unfolding pass_batch
  pass_batch-IsNeutral next l [] n = search neutral
  pass_batch-IsNeutral next l (entry ∷ entries) n = search (neutral, n, from_result-IsNeutral)

  list_loop-IsNeutral :
      (fuel : ℕ) (handle : Bytes) (l : DirectoryListing)
      → IsNeutral (list_loop serve utf8 fuel handle l)
  unfolding list_loop list_step
  list_loop-IsNeutral zero handle l = search neutral
  list_loop-IsNeutral (suc fuel) handle l =
      search (neutral, read_dir-IsNeutral, pass_batch-IsNeutral, list_loop-IsNeutral fuel handle)

  probe_found-IsNeutral :
      (handle : Bytes) (found : Option DirectoryListing)
      → IsNeutral (probe_found serve utf8 handle found)
  unfolding probe_found probe
  probe_found-IsNeutral handle none = search neutral
  probe_found-IsNeutral handle (some l) = search (neutral, read_dir-IsNeutral)

  read_listing-IsClosing :
      (fuel : ℕ) (handle : Bytes) → IsClosing handle (read_listing serve utf8 fuel handle)
  unfolding read_listing
  read_listing-IsClosing fuel handle = record {
    closed_view = λ h hs e.
        finally-IsNeutral serve handle hs _ h
          (bind-IsNeutral _ (λ found. probe_found serve utf8 handle found)
            (list_loop-IsNeutral fuel handle _) (probe_found-IsNeutral handle))
          e;
  }

  send_listing-IsNeutral :
      (id path : Text) (found : Option DirectoryListing)
      → IsNeutral (send_listing serve utf8 id path found)
  unfolding send_listing
  send_listing-IsNeutral id path none = search neutral
  send_listing-IsNeutral id path (some l) = search neutral

  realpath-IsNeutral : (path : Text) → IsNeutral (call serve (realpath path))
  realpath-IsNeutral path = record { same_view = call-view serve (realpath path) }

  list_entries-IsNeutral :
      (fuel : ℕ) (id path : Text) → IsNeutral (list_entries serve utf8 fuel id path)
  unfolding list_entries
  list_entries-IsNeutral fuel id path =
      search
        (
          neutral, realpath-IsNeutral, open_dir-IsNeutral, bind-IsClosing, read_listing-IsClosing,
          send_listing-IsNeutral,
        )
        depth 20

  pub list_directory-IsNeutral :
      (fuel : ℕ) (id path : Text) → IsNeutral (list_directory serve utf8 fuel id path)
  unfolding list_directory
  list_directory-IsNeutral fuel id path = search (neutral, list_entries-IsNeutral)

  remove_dir-IsNeutral : (path : Text) → IsNeutral (call serve (remove_dir path))
  remove_dir-IsNeutral path = record { same_view = call-view serve (remove_dir path) }

  remove_file-IsNeutral : (path : Text) → IsNeutral (call serve (remove_file path))
  remove_file-IsNeutral path = record { same_view = call-view serve (remove_file path) }

  make_dir-IsNeutral :
      (path : Text) (permissions : ℕ) → IsNeutral (call serve (make_dir path permissions))
  make_dir-IsNeutral path permissions = record {
    same_view = call-view serve (make_dir path permissions);
  }

  rename_file-IsNeutral :
      (source target : Text) → IsNeutral (call serve (rename_file source target))
  rename_file-IsNeutral source target = record {
    same_view = call-view serve (rename_file source target);
  }

  pub remove-IsNeutral :
      (id path : Text) (directory : Bool) → IsNeutral (remove serve utf8 id path directory)
  unfolding remove
  remove-IsNeutral id path directory =
      search (neutral, remove_dir-IsNeutral, remove_file-IsNeutral) depth 20

  pub mkdir-IsNeutral : (id path : Text) → IsNeutral (mkdir serve utf8 id path)
  unfolding mkdir
  mkdir-IsNeutral id path = search (neutral, make_dir-IsNeutral) depth 20

  pub rename-IsNeutral :
      (id old_path new_path : Text) → IsNeutral (rename serve utf8 id old_path new_path)
  unfolding rename
  rename-IsNeutral id old_path new_path = search (neutral, rename_file-IsNeutral) depth 20
