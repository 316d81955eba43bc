-- ===== src/Ssh/Channel/Requests.antt =====
-- The channel requests that `SSHChannel` of worker/src/webssh/ssh/channel.ts builds. `utf8` stands for
-- `TextEncoder.encode`, on a text given by its code points; ASCII literals are their own encoding.
pub mod Layouts
use cf_workers_vpsmonitor.Common.{
  ℕ, ◌+◌, Bool, true, false, not, ◌&&◌, ◌||◌, List, [], ◌∷◌, length, set, replicate, blit, ltb, leb,
  ◌==◌, codes,
}
use cf_workers_vpsmonitor.Common.State.{M, ◌>>=◌, ◌>>◌, pure, get, modify, refuse}
use cf_workers_vpsmonitor.Ssh.Wire.{Bytes, write_uint32, encode_string}
use cf_workers_vpsmonitor.Ssh.Channel.{
  ChannelError, invalid_command, SshChannel, Method, default_window_size, default_max_packet_size,
  get_remote_channel_id,
}

abbrev pub Text : Type 0
Text = List ℕ

abbrev pub session_field : Bytes
unfolding encode_string
session_field = encode_string (codes "session")

abbrev pub pty_req_field : Bytes
unfolding encode_string
pty_req_field = encode_string (codes "pty-req")

abbrev pub shell_field : Bytes
unfolding encode_string
shell_field = encode_string (codes "shell")

abbrev pub exec_field : Bytes
unfolding encode_string
exec_field = encode_string (codes "exec")

abbrev pub subsystem_field : Bytes
unfolding encode_string
subsystem_field = encode_string (codes "subsystem")

abbrev pub window_change_field : Bytes
unfolding encode_string
window_change_field = encode_string (codes "window-change")

abbrev pub empty_terminal_modes_field : Bytes
unfolding encode_string
empty_terminal_modes_field = encode_string (0 ∷ [])

-- `buildOpenSession`
unfoldable pub build_open_session : ℕ → Method Bytes
build_open_session channel_id = do
  modify λ c. record c { local_channel_id = channel_id }
  local ← get (λ c. c.local_channel_id)
  let t0 = set (replicate (1 + length session_field + 12) 0) 0 90
  let t1 = blit t0 1 session_field
  let at = 1 + length session_field
  let t2 = write_uint32 t1 at local
  let t3 = write_uint32 t2 (at + 4) default_window_size
  pure (write_uint32 t3 (at + 8) default_max_packet_size)

-- The part of a request that the builders share: the message number, the channel, the name of the
-- request and whether a reply is wanted, in a buffer with room for `more` bytes.
unfoldable pub request_head : ℕ → Bytes → ℕ → ℕ → Bytes
request_head remote field reply more =
    let t0 = set (replicate (1 + 4 + length field + 1 + more) 0) 0 98 in
    let t1 = write_uint32 t0 1 remote in let t2 = blit t1 5 field in set t2 (5 + length field) reply

-- `buildShellRequest`
unfoldable pub build_shell_request : SshChannel → Bytes
build_shell_request c = request_head c.remote_channel_id shell_field 1 0

-- `buildWindowChange`
unfoldable pub build_window_change : SshChannel → ℕ → ℕ → Bytes
build_window_change c cols rows =
    let at = 5 + length window_change_field + 1 in
    let t0 = request_head c.remote_channel_id window_change_field 0 16 in
    let t1 = write_uint32 t0 at cols in
    let t2 = write_uint32 t1 (at + 4) rows in
    let t3 = write_uint32 t2 (at + 8) 0 in write_uint32 t3 (at + 12) 0

-- `/[\0\r\n]/.test(command)`
unfoldable pub has_control : Text → Bool
has_control [] = false
has_control (x ∷ xs) = x == 0 || x == 13 || x == 10 || has_control xs

-- A character of `[A-Za-z0-9@._+-]`.
is_subsystem_char : ℕ → Bool
is_subsystem_char x =
    leb b'A' x && leb x b'Z'
    || leb b'a' x && leb x b'z'
    || leb b'0' x && leb x b'9'
    || x == b'@'
    || x == b'.'
    || x == b'_'
    || x == b'+'
    || x == b'-'

all_subsystem_chars : Text → Bool
all_subsystem_chars [] = true
all_subsystem_chars (x ∷ xs) = is_subsystem_char x && all_subsystem_chars xs

-- The test of `buildSubsystemRequest` on the name.
unfoldable pub is_subsystem : Text → Bool
unfolding all_subsystem_chars is_subsystem_char
is_subsystem name = leb 1 (length name) && leb (length name) 64 && all_subsystem_chars name

-- A request with one string behind its head.
unfoldable pub string_request : Bytes → Bytes → ℕ → Bytes
string_request field argument remote =
    blit (request_head remote field 1 (length argument)) (5 + length field + 1) argument

module _ (utf8 : Text → Bytes) where
  -- `buildPTYRequest`
  unfoldable pub build_pty_request : SshChannel → ℕ → ℕ → Text → Bytes
  build_pty_request c cols rows terminal =
      let terminal_field = encode_string (utf8 terminal) in
      let at = 5 + length pty_req_field + 1 in
      let t0 =
        request_head c.remote_channel_id pty_req_field 1
          (length terminal_field + 16 + length empty_terminal_modes_field) in
      let t1 = blit t0 at terminal_field in
      let next = at + length terminal_field in
      let t2 = write_uint32 t1 next cols in
      let t3 = write_uint32 t2 (next + 4) rows in
      let t4 = write_uint32 t3 (next + 8) 0 in
      let t5 = write_uint32 t4 (next + 12) 0 in blit t5 (next + 16) empty_terminal_modes_field

  -- `buildExecRequest`
  unfoldable pub build_exec_request : Text → Method Bytes
  unfolding get_remote_channel_id
  build_exec_request command = do
    let command_bytes = utf8 command
    refuse (length command_bytes == 0 || ltb 4096 (length command_bytes) || has_control command)
        invalid_command
    remote ← get_remote_channel_id
    pure (string_request exec_field (encode_string command_bytes) remote)

  -- `buildSubsystemRequest`
  unfoldable pub build_subsystem_request : Text → Method Bytes
  unfolding is_subsystem get_remote_channel_id
  build_subsystem_request subsystem = do
    refuse (not (is_subsystem subsystem)) invalid_command
    remote ← get_remote_channel_id
    pure (string_request subsystem_field (encode_string (utf8 subsystem)) remote)
