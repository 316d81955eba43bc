-- ===== src/Sftp/Handler/Uploads/Aborts.antt =====
-- What an upload of worker/src/webssh/backend/sftp-handler.ts holds between two calls, and that
-- giving it up lets go of it.
use cf_workers_vpsmonitor.Common.{
  ◌≤◌, true, false, List, [], ◌∷◌, none, some, ◌≡◌, refl, sym, ap, subst, ◌∙◌, ◌⊎◌, Result, ok,
  throw, Bool-cases, inl, inr,
}
use cf_workers_vpsmonitor.Common.State.{bind_from, ◌>>=◌, ◌>>◌}
use cf_workers_vpsmonitor.Ssh.Wire.{Bytes}
use cf_workers_vpsmonitor.Sftp.Frames.{SftpError}
use cf_workers_vpsmonitor.Sftp.Handler.Entries.{Text}
use cf_workers_vpsmonitor.Sftp.Handler.State.{
  Call, Answer, Handler, Method, Server, HandlerError, rejected, UploadState, call, lift, caught,
  max_file_size, close_handle, remove_file,
}
use cf_workers_vpsmonitor.Sftp.Handler.Handles.{
  View, IsNeutral, view, held_handles, without, without-none, without-head, after_answer, call-view,
}
use cf_workers_vpsmonitor.Sftp.Handler.Uploads.{set_upload, abort_upload}

-- Without an upload no handle is held, and else only its handle, which it did not ask to close; what
-- it received is not more than its size, and that is within the limit.
abbrev pub Fits : View → Type 0
Fits (hs, none) = hs ≡ []
Fits (hs, some u) =
    (hs ≡ u.handle ∷ [])
    × (u.handle_closed ≡ false)
    × (u.received ≤ u.size)
    × (u.size ≤ max_file_size)

module _ {W : Type 0} where
  -- The handler between two calls of its methods.
  abbrev pub IsAtRest : Handler W → Type 0
  IsAtRest h = Fits (view h)

  module _ {A B : Type 0} where
    pub neutral-cases :
        (P : Result HandlerError B × Handler W → Type 0) (m : Method W A) (k : A → Method W B)
        (h : Handler W)
        → IsNeutral m
        → ((a : A) (s : Handler W) → view s ≡ view h → (m h).0 ≡ ok a → P (k a s))
        → ((e : HandlerError) (s : Handler W) → view s ≡ view h → P (throw e, s))
        → P ((m >>= k) h)
    neutral-cases P m k h n f g = go (m h) refl (n.same_view h)
      where
        go :
            (q : Result HandlerError A × Handler W)
            → (m h).0 ≡ q.0
            → view q.1 ≡ view h
            → P (bind_from q k)
        go (ok a, s) e v = f a s v e
        go (throw x, s) e v = g x s v

  pub call-cases :
      {B : Type 0} (P : Result HandlerError B × Handler W → Type 0) (serve : Server W) (c : Call)
      (k : Answer c → Method W B) (h : Handler W)
      → ((a : Answer c) (s : Handler W)
          → view s ≡ (after_answer (held_handles h) c (ok a), h.upload_state)
          → P (k a s))
      → ((e : SftpError) (s : Handler W)
          → view s ≡ (after_answer (held_handles h) c (throw e), h.upload_state)
          → P (throw (rejected e), s))
      → P ((call serve c >>= k) h)
  unfolding call
  call-cases P serve c k h f g = go (serve c h.world).0.0 _ (call-view serve c h)
    where
      go :
          (r : Result SftpError (Answer c)) (s : Handler W)
          → view s ≡ (after_answer (held_handles h) c r, h.upload_state)
          → P (bind_from (lift r, s) k)
      go (ok a) s v = f a s v
      go (throw x) s v = g x s v

  pub caught-rest :
      (q : Result HandlerError (Unit {0}) × Handler W) (f : HandlerError → Method W (Unit {0}))
      → IsAtRest q.1
      → ((e : HandlerError) → IsNeutral (f e))
      → IsAtRest (caught q f).1
  caught-rest (ok a, s) f r n = r
  caught-rest (throw e, s) f r n = subst Fits (sym ((n e).same_view s)) r

-- The handle of the upload is open, or none is.
abbrev pub IsOwned : List Bytes → UploadState → Type 0
IsOwned hs u = (hs ≡ []) ⊎ ((hs ≡ u.handle ∷ []) × (u.handle_closed ≡ false))

-- An upload may be left behind with its handle closed.
abbrev pub IsLeft : View → Type 0
IsLeft (hs, none) = hs ≡ []
IsLeft (hs, some u) = IsOwned hs u

pub without-owned : (hs : List Bytes) (u : UploadState) → IsOwned hs u → without u.handle hs ≡ []
without-owned hs u (inl e) = rw e (without-none u.handle)
without-owned hs u (inr (e, c)) = rw e (without-head u.handle [])

owned-closed : (hs : List Bytes) (u : UploadState) → IsOwned hs u → u.handle_closed ≡ true → hs ≡ []
owned-closed hs u (inl e) t = e
owned-closed hs u (inr (e, c)) t = cc

module _ {W : Type 0} (serve : Server W) (utf8 : Text → Bytes) where
  abort_upload-view :
      (u : UploadState) (h : Handler W)
      → IsOwned (held_handles h) u
      → view (abort_upload serve utf8 u h).1 ≡ ([], none)
  unfolding abort_upload set_upload
  abort_upload-view u h o = elim (Bool-cases u.handle_closed) [
    | inl e ↦ rw e (
        call-view serve (remove_file u.upload_path) (record h { upload_state = none })
        ∙ ap (λ hs. (hs, none)) (owned-closed (held_handles h) u o e))
    | inr e ↦ rw e (
        call-view serve (remove_file u.upload_path) _
        ∙ call-view serve (close_handle u.handle) (record h { upload_state = none })
        ∙ ap (λ hs. (hs, none)) (without-owned (held_handles h) u o))
  ]

  -- An upload that is given up with a message leaves nothing open.
  pub aborted-rest :
      (u : UploadState) (m : Method W (Unit {0})) (h : Handler W)
      → IsNeutral m
      → IsOwned (held_handles h) u
      → IsAtRest ((abort_upload serve utf8 u >> m) h).1
  aborted-rest u m h n o = go (abort_upload serve utf8 u h) (abort_upload-view u h o)
    where
      go :
          (q : Result HandlerError (Unit {0}) × Handler W)
          → view q.1 ≡ ([], none)
          → IsAtRest (bind_from q (λ _. m)).1
      go (ok a, s) e = subst Fits (sym (n.same_view s ∙ e)) refl
      go (throw x, s) e = subst Fits (sym e) refl
