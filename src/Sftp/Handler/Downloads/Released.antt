-- ===== src/Sftp/Handler/Downloads/Released.antt =====
-- `download` of worker/src/webssh/backend/sftp-handler.ts ends as the active one.
use cf_workers_vpsmonitor.Common.{
  ℕ, Bool, true, false, List, Option, none, some, ◌≡◌, Result, ok, throw, if◌then◌else◌,
}
use cf_workers_vpsmonitor.Common.State.{bind_from, ◌>>=◌, ◌>>◌, pure, fail, get, refuse}
use cf_workers_vpsmonitor.Ssh.Wire.{Bytes}
use cf_workers_vpsmonitor.Sftp.Handler.Entries.{Text}
use cf_workers_vpsmonitor.Sftp.Handler.Arrivals.{arrive-keeps}
use cf_workers_vpsmonitor.Sftp.Handler.State.{
  Handler, Method, Server, HandlerError, DownloadState, Call, Arrival, Message, call, arrive,
  cancel_download, cancel_if, send_json, send_binary, catching, caught,
}

-- No download is active, or that of the number is.
abbrev IsOwn : ℕ → Option DownloadState → Type 0
IsOwn n none = Unit
IsOwn n (some d) = d.number ≡ n

cancel_if-IsOwn :
    (n : ℕ) (id : Text) (d : Option DownloadState) → IsOwn n d → IsOwn n (cancel_if id d)
unfolding cancel_if
cancel_if-IsOwn n id none o = o
cancel_if-IsOwn n id (some d) o = o

module _ {W : Type 0} where
  -- A method that keeps it so.
  record IsKeeping {A : Type 0} (n : ℕ) (m : Method W A) : Type 0 where
    kept : (h : Handler W) → IsOwn n h.active_download → IsOwn n (m h).1.active_download

  arrive-IsOwn :
      (n : ℕ) (news : List Arrival) (h : Handler W)
      → IsOwn n h.active_download
      → IsOwn n (arrive news h).active_download
  unfolding cancel_download
  arrive-IsOwn n news h o =
      arrive-keeps (λ s. IsOwn n s.active_download) (λ message s o. o) (λ r d s o. o)
        (λ id s o. cancel_if-IsOwn n id s.active_download o) news h o

  module _ {A : Type 0} where
    bind-IsKeeping :
        {B : Type 0} (n : ℕ) (m : Method W A) (k : A → Method W B)
        → IsKeeping n m
        → ((a : A) → IsKeeping n (k a))
        → IsKeeping n (m >>= k)
    bind-IsKeeping n m k p q = record { kept = λ h o. go (m h) (p.kept h o) }
      where
        go :
            (r : Result HandlerError A × Handler W)
            → IsOwn n r.1.active_download
            → IsOwn n (bind_from r k).1.active_download
        go (ok a, s) o = (q a).kept s o
        go (throw x, s) o = o

    catching-IsKeeping :
        (n : ℕ) (m : Method W A) (f : HandlerError → Method W A)
        → IsKeeping n m
        → ((e : HandlerError) → IsKeeping n (f e))
        → IsKeeping n (catching m f)
    catching-IsKeeping n m f p q = record { kept = λ h o. go (m h) (p.kept h o) }
      where
        go :
            (r : Result HandlerError A × Handler W)
            → IsOwn n r.1.active_download
            → IsOwn n (caught r f).1.active_download
        go (ok a, s) o = o
        go (throw x, s) o = (q x).kept s o

  then-IsKeeping :
      {B : Type 0} (n : ℕ) (m : Method W (Unit {0})) (k : Method W B)
      → IsKeeping n m
      → IsKeeping n k
      → IsKeeping n (m >> k)
  then-IsKeeping n m k p q = bind-IsKeeping n m (λ _. k) p (λ _. q)

  if-IsKeeping :
      {B : Type 0} (n : ℕ) (b : Bool) (m k : Method W B)
      → IsKeeping n m
      → IsKeeping n k
      → IsKeeping n (if b then m else k)
  if-IsKeeping n true m k p q = p
  if-IsKeeping n false m k p q = q

  pure-IsKeeping : {A : Type 0} (n : ℕ) (a : A) → IsKeeping n (pure a)
  pure-IsKeeping n a = record { kept = λ h o. o }

  fail-IsKeeping : {A : Type 0} (n : ℕ) (e : HandlerError) → IsKeeping {A = A} n (fail e)
  fail-IsKeeping n e = record { kept = λ h o. o }

  get-IsKeeping : {A : Type 0} (n : ℕ) (f : Handler W → A) → IsKeeping n (get f)
  get-IsKeeping n f = record { kept = λ h o. o }

  send_json-IsKeeping : (n : ℕ) (message : Message) → IsKeeping n (send_json message)
  send_json-IsKeeping n message = record { kept = λ h o. o }

  send_binary-IsKeeping : (n : ℕ) (bytes : Bytes) → IsKeeping n (send_binary bytes)
  send_binary-IsKeeping n bytes = record { kept = λ h o. o }

  refuse-IsKeeping : (n : ℕ) (bad : Bool) (e : HandlerError) → IsKeeping n (refuse bad e)
  refuse-IsKeeping n true e = record { kept = λ h o. o }
  refuse-IsKeeping n false e = record { kept = λ h o. o }

  call-IsKeeping : (n : ℕ) (serve : Server W) (c : Call) → IsKeeping n (call serve c)
  unfolding call
  call-IsKeeping n serve c = record { kept = λ h o. arrive-IsOwn n (serve c h.world).0.1 _ o }

ruleset keeping = (
  bind-IsKeeping, then-IsKeeping, if-IsKeeping, catching-IsKeeping, pure-IsKeeping, fail-IsKeeping,
  get-IsKeeping, send_json-IsKeeping, send_binary-IsKeeping, refuse-IsKeeping, call-IsKeeping,
)
