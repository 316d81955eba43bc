-- ===== src/Ssh/Channel.antt =====
-- One SSH session channel: `SSHChannel` of worker/src/webssh/ssh/channel.ts. A method is a function
-- from the channel's state to its result or the error that it throws, and the state it leaves.
pub mod Requests
pub mod Windows
pub mod Lifecycle
pub mod Delivery
pub mod OpenFailure
mod Tests
use cf_workers_vpsmonitor.Common.{
  ℕ, ◌+◌, ◌-◌, ◌*◌, ◌^◌, min, Bool, true, false, not, ◌&&◌, ◌||◌, List, [], ◌∷◌, Option, none, some,
  length, take, drop, set, replicate, blit, ltb, leb, ◌==◌, if◌then◌else◌, codes, Result, ok, throw,
}
use cf_workers_vpsmonitor.Common.State.{M, ◌>>=◌, ◌>>◌, pure, fail, get, modify, refuse}
use cf_workers_vpsmonitor.Ssh.Wire.{Bytes, read_uint32, write_uint32, encode_string}

abbrev pub uint32_max : ℕ
uint32_max = 0xffffffff

abbrev pub default_window_size : ℕ
default_window_size = 2 * 1024 * 1024

abbrev pub default_max_packet_size : ℕ
default_max_packet_size = 32 * 1024

-- The errors that the methods throw.
pub data ChannelError : Type 0 where
  not_open malformed unexpected_recipient duplicate : ChannelError
  zero_packet_size invalid_command already_sent invalid_adjustment : ChannelError
  after_eof_or_close exceeds_packet_size exceeds_window invalid_threshold : ChannelError

-- The fields of `SSHChannel`.
pub record SshChannel : Type 0 where
  pub local_channel_id : ℕ
  pub remote_channel_id : ℕ
  pub local_window_size : ℕ
  pub remote_window_size : ℕ
  pub remote_max_packet_size : ℕ
  pub consumed_since_window_adjust : ℕ
  pub eof_received : Bool
  pub eof_sent : Bool
  pub close_sent : Bool
  pub close_received : Bool
  pub open_confirmed : Bool

abbrev pub new_channel : SshChannel
new_channel = record {
  local_channel_id = 0;
  remote_channel_id = 0;
  local_window_size = default_window_size;
  remote_window_size = 0;
  remote_max_packet_size = default_max_packet_size;
  consumed_since_window_adjust = 0;
  eof_received = false;
  eof_sent = false;
  close_sent = false;
  close_received = false;
  open_confirmed = false;
}

abbrev pub Method : Type 0 → Type 0
Method A = M ChannelError SshChannel A

-- `isClosed`
unfoldable pub is_closed : SshChannel → Bool
is_closed c = c.close_sent && c.close_received

-- `isOpen`
unfoldable pub is_open : SshChannel → Bool
is_open c = c.open_confirmed && not c.close_received

-- `getRemoteChannelID`
unfoldable pub get_remote_channel_id : Method ℕ
get_remote_channel_id = do
  confirmed ← get (λ c. c.open_confirmed)
  refuse (not confirmed) not_open
  get (λ c. c.remote_channel_id)

-- `handleOpenConfirmation`
unfoldable pub handle_open_confirmation : Bytes → Method (Unit {0})
handle_open_confirmation payload = do
  refuse (not (length payload == 17)) malformed
  local ← get (λ c. c.local_channel_id)
  refuse (not (read_uint32 payload 1 == local)) unexpected_recipient
  confirmed ← get (λ c. c.open_confirmed)
  refuse confirmed duplicate
  modify λ c. record c {
    remote_channel_id = read_uint32 payload 5;
    remote_window_size = read_uint32 payload 9;
  }
  refuse (read_uint32 payload 13 == 0) zero_packet_size
  modify λ c. record c { remote_max_packet_size = read_uint32 payload 13; open_confirmed = true }

-- The loop of `handleOpenFailure` over its two strings: the offset behind them.
unfoldable pub skip_strings : Bytes → ℕ → ℕ → Result ChannelError ℕ
skip_strings payload ℕ.zero offset = ok offset
skip_strings payload (ℕ.suc rounds) offset =
    let size = read_uint32 payload offset in
    let rest = skip_strings payload rounds (offset + 4 + size) in
    if ltb (length payload) (offset + 4)
    then throw malformed
    else if ltb (length payload - (offset + 4)) size
    then throw malformed
    else rest

unfoldable pub end_check : Bytes → Result ChannelError ℕ → Method (Unit {0})
end_check payload (ok offset) = refuse (not (offset == length payload)) malformed
end_check payload (throw e) = fail e

-- `handleOpenFailure`
unfoldable pub handle_open_failure : Bytes → Method (Unit {0})
handle_open_failure payload = do
  local ← get (λ c. c.local_channel_id)
  refuse (ltb (length payload) 17 || not (read_uint32 payload 1 == local)) malformed
  end_check payload (skip_strings payload 2 9)

-- `buildClose`
unfoldable pub build_close : Method Bytes
build_close = do
  sent ← get (λ c. c.close_sent)
  refuse sent already_sent
  modify λ c. record c { close_sent = true }
  remote ← get (λ c. c.remote_channel_id)
  pure (write_uint32 (set (replicate 5 0) 0 97) 1 remote)

-- `buildEof`: the flag is set before the remote number is asked for.
unfoldable pub build_eof : Method Bytes
unfolding get_remote_channel_id
build_eof = do
  sent ← get (λ c. c.eof_sent)
  refuse sent already_sent
  modify λ c. record c { eof_sent = true }
  remote ← get_remote_channel_id
  pure (write_uint32 (set (replicate 5 0) 0 96) 1 remote)

-- `ChannelDataChunk`
pub record ChannelDataChunk : Type 0 where
  pub source : Bytes
  pub source_offset : ℕ
  pub bytes_consumed : ℕ
  pub payload_length : ℕ

-- `takeChannelDataChunk`. An offset past the end leaves nothing to send, as a difference below 0 does.
unfoldable pub take_channel_data_chunk : Bytes → ℕ → Method (Option ChannelDataChunk)
take_channel_data_chunk bytes offset c =
    let available = length bytes - offset in
    let to_send = min (min available c.remote_max_packet_size) c.remote_window_size in
    if available == 0 then (ok none, c) else if to_send == 0 then (ok none, c) else (
      ok (
          some (record {
            source = bytes;
            source_offset = offset;
            bytes_consumed = to_send;
            payload_length = 9 + to_send;
          })),
      record c { remote_window_size = c.remote_window_size - to_send },
    )

-- `writeChannelDataPayload`
unfoldable pub write_channel_data_payload : SshChannel → Bytes → ℕ → Bytes → ℕ → ℕ → Bytes
write_channel_data_payload c target offset source source_offset source_length =
    let t0 = set target offset 94 in
    let t1 = write_uint32 t0 (offset + 1) c.remote_channel_id in
    let t2 = write_uint32 t1 (offset + 5) source_length in
    blit t2 (offset + 9) (take source_length (drop source_offset source))

-- `handleWindowAdjust`
unfoldable pub handle_window_adjust : Bytes → Method ℕ
handle_window_adjust payload = do
  refuse (not (length payload == 9)) malformed
  local ← get (λ c. c.local_channel_id)
  refuse (not (read_uint32 payload 1 == local)) unexpected_recipient
  window ← get (λ c. c.remote_window_size)
  let bytes_to_add = read_uint32 payload 5
  refuse (bytes_to_add == 0 || ltb (uint32_max - window) bytes_to_add) invalid_adjustment
  modify λ c. record c { remote_window_size = c.remote_window_size + bytes_to_add }
  pure bytes_to_add

-- `consumeLocalWindow`
unfoldable pub consume_local_window : ℕ → Method (Unit {0})
consume_local_window bytes = do
  ended ← get (λ c. c.eof_received || c.close_received)
  refuse ended after_eof_or_close
  refuse (ltb default_max_packet_size bytes) exceeds_packet_size
  window ← get (λ c. c.local_window_size)
  refuse (ltb window bytes) exceeds_window
  modify λ c. record c {
    local_window_size = c.local_window_size - bytes;
    consumed_since_window_adjust = c.consumed_since_window_adjust + bytes;
  }

-- `handleChannelData`
unfoldable pub handle_channel_data : Bytes → Method Bytes
unfolding consume_local_window
handle_channel_data payload = do
  refuse (ltb (length payload) 9) malformed
  local ← get (λ c. c.local_channel_id)
  refuse (not (read_uint32 payload 1 == local)) unexpected_recipient
  let size = read_uint32 payload 5
  refuse (not (size == length payload - 9)) malformed
  consume_local_window size
  pure (take size (drop 9 payload))

-- `handleExtendedData`
unfoldable pub handle_extended_data : Bytes → Method Bytes
unfolding consume_local_window
handle_extended_data payload = do
  refuse (ltb (length payload) 13) malformed
  local ← get (λ c. c.local_channel_id)
  refuse (not (read_uint32 payload 1 == local)) unexpected_recipient
  let size = read_uint32 payload 9
  refuse (not (size == length payload - 13)) malformed
  consume_local_window size
  pure (drop 13 payload)

-- `validateRecipientOnlyMessage`, which `handleRequestResult` calls and nothing else
unfoldable pub handle_request_result : Bytes → Method (Unit {0})
handle_request_result payload = do
  refuse (not (length payload == 5)) malformed
  local ← get (λ c. c.local_channel_id)
  refuse (not (read_uint32 payload 1 == local)) unexpected_recipient

-- `handleEof`
unfoldable pub handle_eof : Bytes → Method (Unit {0})
unfolding handle_request_result
handle_eof payload = do
  handle_request_result payload
  received ← get (λ c. c.eof_received)
  refuse received duplicate
  modify λ c. record c { eof_received = true }

-- `handleClose`
unfoldable pub handle_close : Bytes → Method (Unit {0})
unfolding handle_request_result
handle_close payload = do
  handle_request_result payload
  received ← get (λ c. c.close_received)
  refuse received duplicate
  modify λ c. record c { close_received = true }

-- `buildWindowAdjust`
unfoldable pub build_window_adjust : SshChannel → ℕ → Bytes
build_window_adjust c bytes_to_add =
    let t0 = set (replicate 9 0) 0 93 in
    let t1 = write_uint32 t0 1 c.remote_channel_id in write_uint32 t1 5 bytes_to_add

-- `takeLocalWindowAdjustment`
unfoldable pub take_local_window_adjustment : ℕ → Method (Option ℕ)
take_local_window_adjustment threshold c =
    let amount = c.consumed_since_window_adjust in
    if ltb threshold 1
    then (throw invalid_threshold, c)
    else if ltb amount threshold
    then (ok none, c)
    else (
      ok (some amount),
      record c {
        consumed_since_window_adjust = 0;
        local_window_size = c.local_window_size + amount;
      },
    )
