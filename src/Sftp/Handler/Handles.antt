-- ===== src/Sftp/Handler/Handles.antt =====
-- The handles that `SFTPHandler` of worker/src/webssh/backend/sftp-handler.ts was given and has not
-- asked to close, by what it did.
use cf_workers_vpsmonitor.Common.{
  ℕ, Bool, true, false, List, [], ◌∷◌, ◌++◌, Option, some, ◌≡◌, refl, ap, ◌∙◌, Result, ok, throw,
  if◌then◌else◌, ==_refl, not, ◌||◌,
}
use cf_workers_vpsmonitor.Common.State.{bind_from, ◌>>=◌, ◌>>◌, pure, fail, get, refuse}
use cf_workers_vpsmonitor.Ssh.Wire.{Bytes}
use cf_workers_vpsmonitor.Sftp.Handler.Entries.{Text}
use cf_workers_vpsmonitor.Sftp.Frames.{SftpError}
use cf_workers_vpsmonitor.Sftp.Handler.Arrivals.{arrive-keeps}
use cf_workers_vpsmonitor.Sftp.Handler.State.{
  Call, Answer, open_dir, open_file, close_handle, Event, answered, sent_json, sent_binary,
  UploadState, Arrival, Handler, Method, Server, HandlerError, same_codes, note, cancel_download,
  arrive, lift, call, catching, caught, finally, ignoring, send_json, send_binary, Message,
  sftp_error, report_error, assert_ready, validate_path, not_ready, Task,
}

-- The first such handle is taken away.
abbrev pub without : Bytes → List Bytes → List Bytes
unfolding same_codes
without handle [] = []
without handle (h ∷ hs) = if same_codes h handle then hs else h ∷ without handle hs

-- An answer to an open call gives a handle, and a rejected one gives none, also where the far side
-- opened one; a close call counts whatever its answer is.
abbrev pub after_answer : List Bytes → (c : Call) → Result SftpError (Answer c) → List Bytes
after_answer hs (open_dir path) (ok handle) = handle ∷ hs
after_answer hs (open_dir path) (throw e) = hs
after_answer hs (open_file path flags) (ok handle) = handle ∷ hs
after_answer hs (open_file path flags) (throw e) = hs
after_answer hs (close_handle handle) answer = without handle hs
after_answer hs c answer = hs

abbrev pub after_event : List Bytes → Event → List Bytes
after_event hs (answered c answer) = after_answer hs c answer
after_event hs (sent_json message) = hs
after_event hs (sent_binary bytes) = hs

abbrev pub handles_after : List Bytes → List Event → List Bytes
handles_after hs [] = hs
handles_after hs (e ∷ es) = handles_after (after_event hs e) es

handles_after-snoc :
    (hs : List Bytes) (es : List Event) (e : Event)
    → handles_after hs (es ++ (e ∷ [])) ≡ after_event (handles_after hs es) e
handles_after-snoc hs [] e = refl
handles_after-snoc hs (x ∷ es) e = handles_after-snoc (after_event hs x) es e

same_codes_refl : (xs : List ℕ) → same_codes xs xs ≡ true
unfolding same_codes
same_codes_refl [] = refl
same_codes_refl (x ∷ xs) = rw (==_refl x) (same_codes_refl xs)

pub without-none : (handle : Bytes) → without handle [] ≡ []
unfolding without
without-none handle = refl

pub without-head : (handle : Bytes) (hs : List Bytes) → without handle (handle ∷ hs) ≡ hs
unfolding without
without-head handle hs = rw (same_codes_refl handle) refl

-- The handles that are held, and the upload.
abbrev pub View : Type 0
View = List Bytes × Option UploadState

module _ {W : Type 0} where
  abbrev pub held_handles : Handler W → List Bytes
  held_handles h = handles_after [] h.events

  abbrev pub view : Handler W → View
  view h = (held_handles h, h.upload_state)

  -- What a method makes of the view, by its result.
  abbrev pub Acts : {A : Type 0} → Method W A → (Result HandlerError A → View → View) → Type 0
  Acts m f = (h : Handler W) → view (m h).1 ≡ f (m h).0 (view h)

  -- A method that leaves the view.
  pub record IsNeutral {A : Type 0} (m : Method W A) : Type 0 where
    pub same_view : (h : Handler W) → view (m h).1 ≡ view h

  pub note-view :
      (e : Event) (h : Handler W)
      → view (note e h) ≡ (after_event (held_handles h) e, h.upload_state)
  note-view e h = ap (λ hs. (hs, h.upload_state)) (handles_after-snoc [] h.events e)

  pub arrive-view : (news : List Arrival) (h : Handler W) → view (arrive news h) ≡ view h
  unfolding cancel_download
  arrive-view news h =
      arrive-keeps (λ s. view s ≡ view h) (λ message s e. note-view (sent_json message) s ∙ e)
        (λ r d s e. e) (λ id s e. e) news h refl

  pub call-view :
      (serve : Server W) (c : Call) (h : Handler W)
      → view (call serve c h).1
        ≡ (after_answer (held_handles h) c (serve c h.world).0.0, h.upload_state)
  unfolding call
  call-view serve c h =
      arrive-view (serve c h.world).0.1 _
      ∙ note-view (answered c (serve c h.world).0.0) (record h { world = (serve c h.world).1 })

  module _ {A B : Type 0} where
    pub bind-Acts :
        (m : Method W A) (k : A → Method W B) (f : Result HandlerError B → View → View)
        → IsNeutral m
        → ((a : A) → Acts (k a) f)
        → ((e : HandlerError) (v : View) → f (throw e) v ≡ v)
        → Acts (m >>= k) f
    bind-Acts m k f n g t h = go (m h) (n.same_view h)
      where
        go :
            (q : Result HandlerError A × Handler W)
            → view q.1 ≡ view h
            → view (bind_from q k).1 ≡ f (bind_from q k).0 (view h)
        go (ok a, s) e = rw (g a s, e) refl
        go (throw x, s) e = rw (e, t x (view h)) refl

    pub bind-IsNeutral :
        (m : Method W A) (k : A → Method W B)
        → IsNeutral m
        → ((a : A) → IsNeutral (k a))
        → IsNeutral (m >>= k)
    bind-IsNeutral m k n g = record {
      same_view = bind-Acts m k (λ r v. v) n (λ a. (g a).same_view) (λ e v. refl);
    }

  pub then-IsNeutral :
      {B : Type 0} (m : Method W (Unit {0})) (k : Method W B)
      → IsNeutral m
      → IsNeutral k
      → IsNeutral (m >> k)
  then-IsNeutral m k n g = bind-IsNeutral m (λ _. k) n (λ _. g)

  pub if-IsNeutral :
      {B : Type 0} (b : Bool) (m k : Method W B)
      → IsNeutral m
      → IsNeutral k
      → IsNeutral (if b then m else k)
  if-IsNeutral true m k n g = n
  if-IsNeutral false m k n g = g

  module _ {A : Type 0} where
    pub catching-IsNeutral :
        (m : Method W A) (f : HandlerError → Method W A)
        → IsNeutral m
        → ((e : HandlerError) → IsNeutral (f e))
        → IsNeutral (catching m f)
    catching-IsNeutral m f n g = record { same_view = λ h. go h (m h) (n.same_view h) }
      where
        go :
            (h : Handler W) (q : Result HandlerError A × Handler W)
            → view q.1 ≡ view h
            → view (caught q f).1 ≡ view h
        go h (ok a, s) e = e
        go h (throw x, s) e = (g x).same_view s ∙ e

    -- Neutral, but for a handle that the first part left open and the last part closes.
    pub finally-IsNeutral :
        (serve : Server W) (handle : Bytes) (hs : List Bytes) (m : Method W A) (h : Handler W)
        → IsNeutral m
        → held_handles h ≡ handle ∷ hs
        → view (finally m (ignoring (call serve (close_handle handle))) h).1 ≡ (hs, h.upload_state)
    finally-IsNeutral serve handle hs m h n e =
        call-view serve (close_handle handle) (m h).1
        ∙ ap (λ v. (without handle v.0, v.1)) (n.same_view h)
        ∙ ap (λ l. (without handle l, h.upload_state)) e
        ∙ ap (λ l. (l, h.upload_state)) (without-head handle hs)

  pub get-IsNeutral : {A : Type 0} (f : Handler W → A) → IsNeutral (get f)
  get-IsNeutral f = record { same_view = λ h. refl }

  pub fail-IsNeutral : {A : Type 0} (e : HandlerError) → IsNeutral {A = A} (fail e)
  fail-IsNeutral e = record { same_view = λ h. refl }

  pub pure-IsNeutral : {A : Type 0} (a : A) → IsNeutral (pure a)
  pure-IsNeutral a = record { same_view = λ h. refl }

  pub send_json-IsNeutral : (message : Message) → IsNeutral (send_json message)
  send_json-IsNeutral message = record { same_view = note-view (sent_json message) }

  pub send_binary-IsNeutral : (bytes : Bytes) → IsNeutral (send_binary bytes)
  send_binary-IsNeutral bytes = record { same_view = note-view (sent_binary bytes) }

  pub refuse-IsNeutral : (bad : Bool) (e : HandlerError) → IsNeutral (refuse bad e)
  refuse-IsNeutral true e = record { same_view = λ h. refl }
  refuse-IsNeutral false e = record { same_view = λ h. refl }

-- The view after a step that opens a handle, where it succeeds.
abbrev pub opened : {A : Type 0} → (A → Bytes) → Result HandlerError A → View → View
opened handle (ok a) (hs, u) = (handle a ∷ hs, u)
opened handle (throw e) (hs, u) = (hs, u)

module _ {W : Type 0} where
  pub report_error-IsNeutral :
      (task : Task) (id : Text) (e : HandlerError) → IsNeutral {W = W} (report_error task id e)
  unfolding report_error
  report_error-IsNeutral task id e = send_json-IsNeutral (sftp_error (some id) task e)

  pub assert_ready-IsNeutral : IsNeutral {W = W} assert_ready
  unfolding assert_ready
  assert_ready-IsNeutral = record {
    same_view = λ h. (refuse-IsNeutral (not h.ready || h.disposed) not_ready).same_view h;
  }

  pub validate_path-IsNeutral :
      (utf8 : Text → Bytes) (path : Text) → IsNeutral {W = W} (validate_path utf8 path)
  unfolding validate_path
  validate_path-IsNeutral utf8 path = refuse-IsNeutral _ _

module _ {W : Type 0} (serve : Server W) where
  -- A call that opens a file.
  pub open_file-Acts :
      {A : Type 0} (path : Text) (flags : ℕ) (k : Bytes → A) (handle_of : A → Bytes)
      → ((b : Bytes) → handle_of (k b) ≡ b)
      → Acts (call serve (open_file path flags) >>= λ b. pure (k b)) (opened handle_of)
  unfolding call
  open_file-Acts path flags k handle_of e h =
      go (serve (open_file path flags) h.world).0.0 _ (call-view serve (open_file path flags) h)
    where
      go :
          (r : Result SftpError Bytes) (s : Handler W)
          → view s ≡ (after_answer (held_handles h) (open_file path flags) r, h.upload_state)
          → view (bind_from (lift r, s) (λ b. pure (k b))).1
            ≡ opened handle_of
                (bind_from {E = HandlerError} {S = Handler W} (lift r, s) (λ b. pure (k b))).0
                (view h)
      go (ok b) s v = rw (e b) v
      go (throw x) s v = v

pub ruleset neutral = (
  then-IsNeutral, if-IsNeutral, bind-IsNeutral, catching-IsNeutral, pure-IsNeutral, get-IsNeutral,
  fail-IsNeutral, send_json-IsNeutral, send_binary-IsNeutral, refuse-IsNeutral,
  report_error-IsNeutral, assert_ready-IsNeutral, validate_path-IsNeutral,
)
