-- ===== src/Sftp/Client.antt =====
-- The request engine of `SFTPClient` in worker/src/webssh/ssh/sftp.ts: request numbers, dispatch of
-- responses, version negotiation, disposal. A promise that is settled is an entry of the log
-- `settled`, what `sendData` is called with an entry of `sent`, and a timer or a failed send that
-- fires later is a call of `time_out` or `fail_pending`.
use cf_workers_vpsmonitor.Common.{
  ℕ, zero, suc, ◌+◌, ◌%◌, ◌^◌, Bool, true, false, not, ◌&&◌, ◌||◌, List, [], ◌∷◌, ◌++◌, map, Option,
  none, some, length, ltb, ◌==◌, if◌then◌else◌,
}
use cf_workers_vpsmonitor.Common.State.{M, ◌>>=◌, ◌>>◌, pure, fail, get, modify, refuse}
use cf_workers_vpsmonitor.Ssh.Wire.{Bytes, encode_string}
use cf_workers_vpsmonitor.Sftp.Frames.{
  SftpError, no_request_ids, packet_too_long, timed_out, FrameLimits, Frames,
}
use cf_workers_vpsmonitor.Sftp.Reader.{Reading}

-- `ClientState`
pub data ClientState : Type 0 where
  fresh initializing ready closed : ClientState

abbrev pub is_initializing : ClientState → Bool
is_initializing initializing = true
is_initializing _ = false

abbrev pub is_fresh : ClientState → Bool
is_fresh fresh = true
is_fresh _ = false

abbrev pub is_ready : ClientState → Bool
is_ready ready = true
is_ready _ = false

abbrev pub is_disposed : ClientState → Bool
is_disposed closed = true
is_disposed _ = false

-- `PendingRequest`, without the timer and the two functions of the promise.
pub record PendingRequest (V : Type 0) : Type 0 where
  pub id : ℕ
  pub parse : ℕ → Reading V

-- A promise that was settled: a request's, by its number, or that of `initialize`.
pub data Settled (V Text : Type 0) : Type 0 where
  resolved : ℕ → V → Settled V Text
  rejected : ℕ → SftpError → Settled V Text
  initialized : ℕ → List (Text × Text) → Settled V Text
  initialization_failed : SftpError → Settled V Text

-- The fields of `SFTPClient`, and the two logs. `awaiting` says that the promise of `initialize`
-- has functions to settle it.
pub record SftpClient (V Text : Type 0) : Type 0 where
  pub limits : FrameLimits
  pub max_version_extensions : ℕ
  pub state : ClientState
  pub next_request_id : ℕ
  pub pending : List (PendingRequest V)
  pub frames : Frames
  pub awaiting : Bool
  pub settled : List (Settled V Text)
  pub sent : List Bytes

-- `(candidate + 1) >>> 0`, and 1 in place of 0
unfoldable pub bump : ℕ → ℕ
bump candidate = let after = (candidate + 1) % 2 ^ 32 in if after == 0 then 1 else after

module _ {V : Type 0} where
  -- `pending.has`
  unfoldable pub has_pending : ℕ → List (PendingRequest V) → Bool
  has_pending wanted [] = false
  has_pending wanted (r ∷ rs) = (r.id == wanted) || has_pending wanted rs

  -- `pending.get`
  unfoldable pub get_pending : ℕ → List (PendingRequest V) → Option (PendingRequest V)
  get_pending wanted [] = none
  get_pending wanted (r ∷ rs) =
      let rest = get_pending wanted rs in if r.id == wanted then some r else rest

  -- `pending.delete`
  unfoldable pub delete_pending : ℕ → List (PendingRequest V) → List (PendingRequest V)
  delete_pending wanted [] = []
  delete_pending wanted (r ∷ rs) =
      let rest = delete_pending wanted rs in if r.id == wanted then rest else r ∷ rest

  -- The loop of `allocateRequestId`.
  unfoldable pub find_id : ℕ → ℕ → List (PendingRequest V) → Option ℕ
  find_id zero candidate pending = none
  find_id (suc attempts) candidate pending =
      let next = find_id attempts (bump candidate) pending in
      if not (candidate == 0) && not (has_pending candidate pending) then some candidate else next

-- A method of the client.
abbrev pub ClientMethod : Type 0 → Type 0 → Type 0 → Type 0
ClientMethod V Text A = M SftpError (SftpClient V Text) A

module _ {V Text : Type 0} where
  unfoldable take_id : Option ℕ → ClientMethod V Text ℕ
  take_id none = fail no_request_ids
  take_id (some candidate) = do
    modify λ c. record c { next_request_id = bump candidate }
    pure candidate

  -- `allocateRequestId`
  unfoldable pub allocate_request_id : ClientMethod V Text ℕ
  unfolding take_id
  allocate_request_id = do
    found ← get λ c. find_id (length c.pending + 1) c.next_request_id c.pending
    take_id found

  unfoldable pub reject_all : SftpError → List (PendingRequest V) → List (Settled V Text)
  reject_all reason requests = map (λ r. rejected r.id reason) requests

  unfoldable pub failed_initialization : SftpError → Bool → List (Settled V Text)
  failed_initialization reason true = initialization_failed reason ∷ []
  failed_initialization reason false = []

  -- `failInitialization`
  unfoldable pub fail_initialization : SftpError → SftpClient V Text → SftpClient V Text
  unfolding failed_initialization
  fail_initialization reason c = record c {
    awaiting = false;
    settled = c.settled ++ failed_initialization reason c.awaiting;
  }

  -- `dispose`: the bytes of the header stay, behind a length of 0.
  unfoldable pub dispose : SftpError → SftpClient V Text → SftpClient V Text
  unfolding reject_all failed_initialization
  dispose reason c = if is_disposed c.state then c else record c {
    state = closed;
    frames = record c.frames { header_length = 0; packet_buffer = none; packet_offset = 0 };
    awaiting = false;
    settled = c.settled ++ failed_initialization reason c.awaiting ++ reject_all reason c.pending;
    pending = [];
  }

  -- What the timer of `initialize` does.
  unfoldable pub time_out_initialization : SftpClient V Text → SftpClient V Text
  unfolding fail_initialization dispose
  time_out_initialization c = dispose (timed_out 0) (fail_initialization (timed_out 0) c)

  -- What `initialize` does where the send fails later.
  unfoldable pub fail_initialization_send : SftpError → SftpClient V Text → SftpClient V Text
  unfolding fail_initialization dispose
  fail_initialization_send reason c =
      if is_initializing c.state then dispose reason (fail_initialization reason c) else c

  -- `failPending`
  unfoldable pub fail_pending : ℕ → SftpError → SftpClient V Text → SftpClient V Text
  fail_pending wanted reason c =
      if has_pending wanted c.pending
      then record c {
        pending = delete_pending wanted c.pending;
        settled = c.settled ++ (rejected wanted reason ∷ []);
      }
      else c

  -- What the timer of `request` does.
  unfoldable pub time_out : ℕ → SftpClient V Text → SftpClient V Text
  unfolding fail_pending
  time_out wanted c = fail_pending wanted (timed_out wanted) c

  -- `sendFramed`, where `sendData` returns
  unfoldable pub send_framed : Bytes → ClientMethod V Text (Unit {0})
  send_framed body = do
    limit ← get λ c. c.limits.max_packet_length
    refuse ((length body == 0 || ltb limit (length body)) || ltb 0xffffffff (length body))
        (packet_too_long (length body))
    modify λ c. record c { sent = c.sent ++ (encode_string body ∷ []) }
