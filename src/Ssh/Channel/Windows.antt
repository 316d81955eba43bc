-- ===== src/Ssh/Channel/Windows.antt =====
-- Flow control of `SSHChannel` in worker/src/webssh/ssh/channel.ts: the windows of both directions
-- over any sequence of method calls.
use cf_workers_vpsmonitor.Common.{
  ℕ, ◌+◌, ◌≤◌, ◌≡◌, Option, some, List, [], ◌∷◌, length, drop, length-take, length-drop, Result, ok,
  throw, arith,
}
use cf_workers_vpsmonitor.Ssh.Wire.{Bytes, read_uint32}
use cf_workers_vpsmonitor.Ssh.Channel.{
  ChannelError, zero_packet_size, SshChannel, ChannelDataChunk, default_window_size, uint32_max,
  handle_open_confirmation, handle_window_adjust, handle_channel_data, handle_extended_data,
  handle_eof, handle_close, build_close, build_eof, take_channel_data_chunk,
  take_local_window_adjustment,
}
use cf_workers_vpsmonitor.Ssh.Channel.Requests.{build_open_session}

-- A call of a method that changes the channel.
pub data Call : Type 0 where
  open_session : ℕ → Call
  open_confirmation window_adjust channel_data extended_data eof close : Bytes → Call
  send_close send_eof : Call
  take_chunk : Bytes → ℕ → Call
  take_adjustment : ℕ → Call

-- The channel after the call, also if it throws.
unfoldable pub after_call : Call → SshChannel → SshChannel
after_call (open_session id) c = (build_open_session id c).1
after_call (open_confirmation p) c = (handle_open_confirmation p c).1
after_call (window_adjust p) c = (handle_window_adjust p c).1
after_call (channel_data p) c = (handle_channel_data p c).1
after_call (extended_data p) c = (handle_extended_data p c).1
after_call (eof p) c = (handle_eof p c).1
after_call (close p) c = (handle_close p c).1
after_call send_close c = (build_close c).1
after_call send_eof c = (build_eof c).1
after_call (take_chunk b o) c = (take_channel_data_chunk b o c).1
after_call (take_adjustment n) c = (take_local_window_adjustment n c).1

unfoldable pub run : List Call → SshChannel → SshChannel
run [] c = c
run (x ∷ xs) c = run xs (after_call x c)

-- The invariant: what was received and not yet returned to the peer makes up the default window, and
-- the send window and packet size are 32-bit numbers.
pub record IsValid (c : SshChannel) : Type 0 where
  pub receive : c.local_window_size + c.consumed_since_window_adjust ≡ default_window_size
  pub send : c.remote_window_size ≤ uint32_max
  pub packet : (1 ≤ c.remote_max_packet_size) × (c.remote_max_packet_size ≤ uint32_max)

read_uint32-le : (b : Bytes) (o : ℕ) → read_uint32 b o ≤ uint32_max
unfolding read_uint32
read_uint32-le b o = omega arith

after_call-IsValid : (x : Call) {c : SshChannel} → IsValid c → IsValid (after_call x c)
unfolding after_call build_open_session handle_open_confirmation handle_window_adjust
    handle_channel_data handle_extended_data handle_eof handle_close build_close build_eof
    take_channel_data_chunk take_local_window_adjustment
after_call-IsValid (open_session id) {c} v = ground arith
after_call-IsValid (open_confirmation p) {c} v =
    ground (arith, read_uint32-le p 5, read_uint32-le p 9, read_uint32-le p 13)
after_call-IsValid (window_adjust p) {c} v = ground (arith, read_uint32-le p 5)
after_call-IsValid (channel_data p) {c} v = ground arith
after_call-IsValid (extended_data p) {c} v = ground arith
after_call-IsValid (eof p) {c} v = ground arith
after_call-IsValid (close p) {c} v = ground arith
after_call-IsValid send_close {c} v = ground arith
after_call-IsValid send_eof {c} v = ground arith
after_call-IsValid (take_chunk b o) {c} v = ground arith
after_call-IsValid (take_adjustment n) {c} v = ground arith

-- From a new channel on, any sequence of calls, those that throw included, keeps the invariant.
pub run-IsValid : (xs : List Call) {c : SshChannel} → IsValid c → IsValid (run xs c)
unfolding run
run-IsValid [] v = v
run-IsValid (x ∷ xs) v = run-IsValid xs (after_call-IsValid x v)

-- What a call's result says.
abbrev result_size : Result ChannelError Bytes → ℕ
result_size (ok b) = length b
result_size (throw e) = 0

abbrev result_number : Result ChannelError ℕ → ℕ
result_number (ok n) = n
result_number (throw e) = 0

abbrev chunk_size : Result ChannelError (Option ChannelDataChunk) → ℕ
chunk_size (ok (some chunk)) = chunk.bytes_consumed
chunk_size _ = 0

abbrev taken_amount : Result ChannelError (Option ℕ) → ℕ
taken_amount (ok (some n)) = n
taken_amount _ = 0

-- A confirmation sets the window unless it is refused before that.
abbrev first_window : Bytes → Result ChannelError (Unit {0}) → ℕ
first_window p (ok u) = read_uint32 p 9
first_window p (throw zero_packet_size) = read_uint32 p 9
first_window p (throw e) = 0

-- Bytes handed out for sending, and bytes that the peer allowed.
unfoldable pub sent_by : Call → SshChannel → ℕ
sent_by (take_chunk b o) c = chunk_size (take_channel_data_chunk b o c).0
sent_by _ c = 0

unfoldable pub granted_by : Call → SshChannel → ℕ
granted_by (open_confirmation p) c = first_window p (handle_open_confirmation p c).0
granted_by (window_adjust p) c = result_number (handle_window_adjust p c).0
granted_by _ c = 0

-- Bytes of data accepted, and bytes of window returned to the peer.
unfoldable pub received_by : Call → SshChannel → ℕ
received_by (channel_data p) c = result_size (handle_channel_data p c).0
received_by (extended_data p) c = result_size (handle_extended_data p c).0
received_by _ c = 0

unfoldable pub returned_by : Call → SshChannel → ℕ
returned_by (take_adjustment n) c = taken_amount (take_local_window_adjustment n c).0
returned_by _ c = 0

-- The sum over a run.
unfoldable pub total : (Call → SshChannel → ℕ) → List Call → SshChannel → ℕ
total f [] c = 0
total f (x ∷ xs) c = f x c + total f xs (after_call x c)

sent-le-granted_call :
    (x : Call) (c : SshChannel)
    → (after_call x c).remote_window_size + sent_by x c ≤ c.remote_window_size + granted_by x c
unfolding after_call sent_by granted_by build_open_session handle_open_confirmation
    handle_window_adjust handle_channel_data handle_extended_data handle_eof handle_close
    build_close build_eof take_channel_data_chunk take_local_window_adjustment
sent-le-granted_call (open_session id) c = ground arith
sent-le-granted_call (open_confirmation p) c = ground arith
sent-le-granted_call (window_adjust p) c = ground arith
sent-le-granted_call (channel_data p) c = ground arith
sent-le-granted_call (extended_data p) c = ground arith
sent-le-granted_call (eof p) c = ground arith
sent-le-granted_call (close p) c = ground arith
sent-le-granted_call send_close c = ground arith
sent-le-granted_call send_eof c = ground arith
sent-le-granted_call (take_chunk b o) c = ground arith
sent-le-granted_call (take_adjustment n) c = ground arith

-- Over any sequence of calls the bytes handed out for sending, with what is left of the window, are
-- at most the window at the start and what the peer granted: the peer's window is never exceeded.
pub sent-le-granted :
    (xs : List Call) (c : SshChannel)
    → (run xs c).remote_window_size + total sent_by xs c
      ≤ c.remote_window_size + total granted_by xs c
unfolding run total
sent-le-granted [] c = omega arith
sent-le-granted (x ∷ xs) c =
    omega (arith, sent-le-granted_call x c, sent-le-granted xs (after_call x c))

received-call :
    (x : Call) (c : SshChannel)
    → (after_call x c).local_window_size + received_by x c ≡ c.local_window_size + returned_by x c
unfolding after_call received_by returned_by build_open_session handle_open_confirmation
    handle_window_adjust handle_channel_data handle_extended_data handle_eof handle_close
    build_close build_eof take_channel_data_chunk take_local_window_adjustment
received-call (open_session id) c = ground arith
received-call (open_confirmation p) c = ground arith
received-call (window_adjust p) c = ground arith
received-call (channel_data p) c =
    ground (arith, length-take (read_uint32 p 5) (drop 9 p), length-drop 9 p)
received-call (extended_data p) c = ground (arith, length-drop 13 p)
received-call (eof p) c = ground arith
received-call (close p) c = ground arith
received-call send_close c = ground arith
received-call send_eof c = ground arith
received-call (take_chunk b o) c = ground arith
received-call (take_adjustment n) c = ground arith

-- Over any sequence of calls the local window and the data accepted make up the local window at the
-- start and the adjustments handed out to be returned: nothing is accepted beyond what was advertised,
-- and none of the window is lost.
pub received-eq-returned :
    (xs : List Call) (c : SshChannel)
    → (run xs c).local_window_size + total received_by xs c
      ≡ c.local_window_size + total returned_by xs c
unfolding run total
received-eq-returned [] c = omega arith
received-eq-returned (x ∷ xs) c =
    omega (arith, received-call x c, received-eq-returned xs (after_call x c))
