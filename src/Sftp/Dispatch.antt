-- ===== src/Sftp/Dispatch.antt =====
-- What `SFTPClient` of worker/src/webssh/ssh/sftp.ts does with what arrives and what is asked of it:
-- `handleVersion`, `dispatch`, `feed`, `initialize` and `request`.
use cf_workers_vpsmonitor.Common.{
  ℕ, zero, suc, ◌+◌, Bool, true, false, not, ◌||◌, List, [], ◌∷◌, ◌++◌, Option, none, some, length,
  ltb, ◌==◌, if◌then◌else◌, Result, ok, throw,
}
use cf_workers_vpsmonitor.Common.State.{◌>>=◌, ◌>>◌, pure, fail, get, modify, refuse}
use cf_workers_vpsmonitor.Ssh.Wire.{Bytes, encode_uint32, concat_bytes}
use cf_workers_vpsmonitor.Sftp.Frames.{
  SftpError, disposed, not_ready, malformed, version_mismatch, unexpected_version,
  before_negotiation, request_id_zero, duplicate_extension, status_error, Frames, feed_loop,
}
use cf_workers_vpsmonitor.Sftp.Reader.{
  Reader, new_reader, Reading, remaining, read_byte, read_number, read_text, assert_end,
}
use cf_workers_vpsmonitor.Sftp.Client.{
  initializing, ready, is_fresh, is_initializing, is_ready, is_disposed, PendingRequest, resolved,
  rejected, initialized, SftpClient, ClientMethod, get_pending, delete_pending, allocate_request_id,
  fail_initialization, dispose, fail_pending, send_framed,
}

abbrev pub init_type : ℕ
init_type = 1

abbrev pub version_type : ℕ
version_type = 2

abbrev pub sftp_version : ℕ
sftp_version = 3

-- An error that the server reported in a STATUS packet.
abbrev pub is_status_error : SftpError → Bool
is_status_error (status_error code id) = true
is_status_error _ = false

-- `decode` is the fatal `TextDecoder`, `same_text` the comparison of two strings.
module _ {Text : Type 0} (decode : Bytes → Option Text) (same_text : Text → Text → Bool) where
  unfoldable pub has_name : Text → List (Text × Text) → Bool
  has_name name [] = false
  has_name name ((n, d) ∷ rest) = same_text n name || has_name name rest

  -- The loop of `handleVersion`: a pass reads at least eight bytes, so that their number is fuel
  -- enough.
  unfoldable pub read_extensions : ℕ → ℕ → ℕ → List (Text × Text) → Reading (List (Text × Text))
  read_extensions zero limit count extensions = pure extensions
  read_extensions (suc fuel) limit count extensions = do
    left ← get remaining
    if left == 0
        then pure extensions
        else (refuse (ltb limit (count + 1) || ltb left 8) malformed >> read_text decode >>= λ name.
            read_text decode >>= λ text.
            refuse (has_name name extensions) duplicate_extension
            >> read_extensions fuel limit (count + 1) (extensions ++ ((name, text) ∷ [])))

  -- What `handleVersion` reads.
  unfoldable pub read_version : ℕ → Reading (ℕ × List (Text × Text))
  read_version limit = do
    version ← read_number
    refuse (not (version == sftp_version)) version_mismatch
    left ← get remaining
    extensions ← read_extensions left limit 0 []
    assert_end
    pure (version, extensions)

-- `request.parse` and `assertEnd`
unfoldable pub parse_whole : {V : Type 0} → (ℕ → Reading V) → ℕ → Reading V
parse_whole parse type = do value ← parse type; assert_end; pure value

module _ {V Text : Type 0} where
  -- `handleVersion`, from the test of the version on
  unfoldable pub accept_version :
      Result SftpError (ℕ × List (Text × Text)) × Reader → ClientMethod V Text (Unit {0})
  accept_version (throw e, r) = fail e
  accept_version (ok (version, extensions), r) = modify λ c. record c {
    state = ready;
    awaiting = false;
    settled = c.settled ++ (if c.awaiting then initialized version extensions ∷ [] else []);
  }

  -- The end of `dispatch`: the promise is settled, and an error goes on unless the server sent it.
  unfoldable pub settle : ℕ → Result SftpError V × Reader → ClientMethod V Text (Unit {0})
  settle id (ok v, r) = modify λ c. record c { settled = c.settled ++ (resolved id v ∷ []) }
  settle id (throw e, r) = do
    modify λ c. record c { settled = c.settled ++ (rejected id e ∷ []) }
    refuse (not (is_status_error e)) e

  -- `dispatch` from the look-up of the request on: a response to no pending request is dropped.
  unfoldable pub answer :
      Option (PendingRequest V) → ℕ → ℕ → Reader → ClientMethod V Text (Unit {0})
  unfolding settle parse_whole
  answer none type id r = pure tt
  answer (some request) type id r = do
    modify λ c. record c { pending = delete_pending id c.pending }
    settle id (parse_whole request.parse type r)

  unfoldable pub dispatch_id : ℕ → Result SftpError ℕ × Reader → ClientMethod V Text (Unit {0})
  unfolding answer
  dispatch_id type (throw e, r) = fail e
  dispatch_id type (ok id, r) = do
    refuse (id == 0) request_id_zero
    found ← get λ c. get_pending id c.pending
    answer found type id r

  -- The end of `feed`: on an error the client is disposed of.
  unfoldable pub end_feed :
      Result SftpError Frames × SftpClient V Text → Result SftpError (Unit {0}) × SftpClient V Text
  end_feed (ok f, c) = (ok tt, record c { frames = f })
  end_feed (throw e, c) = (throw e, dispose e c)

module _ {V Text : Type 0} (decode : Bytes → Option Text) (same_text : Text → Text → Bool) where
  -- `handleVersion`
  unfoldable pub handle_version : Reader → ClientMethod V Text (Unit {0})
  unfolding read_version accept_version
  handle_version r = do
    state ← get λ c. c.state
    refuse (not (is_initializing state)) unexpected_version
    limit ← get λ c. c.max_version_extensions
    accept_version (read_version decode same_text limit r)

  -- `dispatch` behind the packet's type
  unfoldable pub dispatch_type : Result SftpError ℕ × Reader → ClientMethod V Text (Unit {0})
  unfolding handle_version dispatch_id
  dispatch_type (throw e, r) = fail e
  dispatch_type (ok type, r) = if type == version_type then handle_version r else do
    state ← get λ c. c.state
    refuse (not (is_ready state)) before_negotiation
    dispatch_id type (read_number r)

  -- `dispatch`
  unfoldable pub dispatch : Bytes → ClientMethod V Text (Unit {0})
  unfolding dispatch_type
  dispatch packet = dispatch_type (read_byte (new_reader packet))

  -- `feed`; that its chunk is a `Uint8Array` is the type of the argument.
  unfoldable pub feed : Bytes → ClientMethod V Text (Unit {0})
  unfolding end_feed dispatch
  feed chunk = do
    state ← get λ c. c.state
    refuse (is_disposed state) disposed
    λ c. end_feed (feed_loop c.limits dispatch (length chunk) c.frames chunk c)

module _ {V Text : Type 0} where
  unfoldable end_initialize :
      Result SftpError (Unit {0}) × SftpClient V Text
      → Result SftpError (Unit {0}) × SftpClient V Text
  end_initialize (ok u, c) = (ok tt, c)
  end_initialize (throw e, c) = (ok tt, dispose e (fail_initialization e c))

  unfoldable start : ClientMethod V Text (Unit {0})
  unfolding end_initialize
  start = do
    modify λ c. record c { state = initializing; awaiting = true }
    λ c.
        end_initialize
          (send_framed (concat_bytes ((init_type ∷ []) ∷ encode_uint32 sftp_version ∷ [])) c)

  -- `initialize`: a later call returns the promise of the first.
  unfoldable pub initialize : ClientMethod V Text (Unit {0})
  unfolding start
  initialize = do
    state ← get λ c. c.state
    refuse (is_disposed state) disposed
    if is_fresh state then start else pure tt

  unfoldable end_request :
      ℕ → Result SftpError (Unit {0}) × SftpClient V Text → Result SftpError ℕ × SftpClient V Text
  end_request id (ok u, c) = (ok id, c)
  end_request id (throw e, c) = (ok id, fail_pending id e c)

  -- `request`: the number of the request, whose promise it returns. The parser takes the number and
  -- the type of the response.
  unfoldable pub request : ℕ → List Bytes → (ℕ → ℕ → Reading V) → ClientMethod V Text ℕ
  unfolding end_request
  request type fields parse = do
    state ← get λ c. c.state
    refuse (not (is_ready state)) (if is_disposed state then disposed else not_ready)
    id ← allocate_request_id
    modify λ c. record c { pending = c.pending ++ (record { id = id; parse = parse id } ∷ []) }
    λ c. end_request id (send_framed (concat_bytes ((type ∷ []) ∷ encode_uint32 id ∷ fields)) c)
