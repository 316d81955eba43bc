-- ===== src/Ssh/Channel/Tests.antt =====
-- `SSHChannel` of worker/src/webssh/ssh/channel.ts at fixed states, and its theorems applied there.
use cf_workers_vpsmonitor.Common.{
  ◌+◌, ◌-◌, ◌⊎◌, ◌≤◌, ◌≡◌, refl, true, false, some, List, [], ◌∷◌, ◌++◌, length, take, drop,
  replicate, ok, throw, arith, ◌==◌, if◌then◌else◌,
}
use cf_workers_vpsmonitor.Ssh.Wire.{Bytes, read_uint32, encode_string}
use cf_workers_vpsmonitor.Ssh.Wire.Laws.{be32}
use cf_workers_vpsmonitor.Ssh.Channel.{
  SshChannel, ChannelDataChunk, new_channel, malformed, not_open, already_sent, invalid_command,
  is_closed, is_open, handle_open_confirmation, handle_open_failure, handle_channel_data,
  build_close, build_eof, take_channel_data_chunk, write_channel_data_payload,
}
use cf_workers_vpsmonitor.Ssh.Channel.Requests.{Text, build_exec_request}
use cf_workers_vpsmonitor.Ssh.Channel.Requests.Layouts.{
  IsPermitted, exec_bytes, build_exec_request_lem,
}
use cf_workers_vpsmonitor.Ssh.Channel.Windows.{
  Call, open_session, channel_data, take_chunk, take_adjustment, IsValid, run, total, sent_by,
  granted_by, received_by, returned_by, run-IsValid, sent-le-granted, received-eq-returned,
}
use cf_workers_vpsmonitor.Ssh.Channel.Lifecycle.{is_closed-run, no_data_after_end, sent_once}
use cf_workers_vpsmonitor.Ssh.Channel.Delivery.{handle_channel_data-write}
use cf_workers_vpsmonitor.Ssh.Channel.OpenFailure.{handle_open_failure_lem}

abbrev confirmation : Bytes
confirmation = 91 ∷ be32 0 ++ be32 6 ++ be32 1000 ++ be32 400

abbrev text : Bytes
text = replicate 500 65

-- A confirmed channel: the peer's number is 6, its window 1000 and its packet size 400.
abbrev opened : SshChannel
opened = record new_channel {
  remote_channel_id = 6;
  remote_window_size = 1000;
  remote_max_packet_size = 400;
  open_confirmed = true;
}

abbrev peer : SshChannel
peer = record new_channel { local_channel_id = 6; open_confirmed = true }

abbrev script : List Call
script =
    take_chunk text 0
    ∷ take_chunk text 400
    ∷ channel_data (94 ∷ be32 0 ++ be32 2 ++ (1 ∷ 2 ∷ []))
    ∷ take_adjustment 2
    ∷ []

confirmed : handle_open_confirmation confirmation new_channel ≡ (ok tt, opened)
unfolding handle_open_confirmation read_uint32
confirmed = refl

-- EOF asked for before the confirmation is lost: the flag is set, and the call throws.
eof_too_early : build_eof new_channel ≡ (throw not_open, record new_channel { eof_sent = true })
unfolding build_eof
eof_too_early = refl

new_channel-IsValid : IsValid new_channel
new_channel-IsValid = omega arith

opened-IsValid : IsValid opened
opened-IsValid = omega arith

abbrev chunk : ChannelDataChunk
chunk = record { source = text; source_offset = 400; bytes_consumed = 100; payload_length = 109 }

abbrev after_chunk : SshChannel
after_chunk = record opened { remote_window_size = 900 }

chunk_taken : take_channel_data_chunk text 400 opened ≡ (ok (some chunk), after_chunk)
unfolding take_channel_data_chunk
chunk_taken = refl

run-IsValid_example : IsValid (run (open_session 3 ∷ script) new_channel)
run-IsValid_example = run-IsValid (open_session 3 ∷ script) new_channel-IsValid

sent-le-granted_example :
    (run script opened).remote_window_size + total sent_by script opened
    ≤ opened.remote_window_size + total granted_by script opened
sent-le-granted_example = sent-le-granted script opened

received-eq-returned_example :
    (run script opened).local_window_size + total received_by script opened
    ≡ opened.local_window_size + total returned_by script opened
received-eq-returned_example = received-eq-returned script opened

handle_channel_data-write_example :
    handle_channel_data
      (write_channel_data_payload after_chunk (replicate 109 0) 0 text 400 100)
      peer
    ≡ (
      ok (take 100 (drop 400 text)),
      record peer {
        local_window_size = peer.local_window_size - 100;
        consumed_since_window_adjust = 0 + 100;
      },
    )
handle_channel_data-write_example =
    handle_channel_data-write text 400 opened after_chunk peer chunk chunk_taken refl (omega arith)
      (omega arith) (omega arith) refl

no_data_after_end_example : total received_by script (record opened { eof_received = true }) ≡ 0
no_data_after_end_example = no_data_after_end script (record opened { eof_received = true }) refl

both_closed : is_closed (record opened { close_sent = true; close_received = true }) ≡ true
unfolding is_closed
both_closed = refl

is_closed-run_example :
    (is_closed (run script (record opened { close_sent = true; close_received = true })) ≡ true)
    × (is_open (run script (record opened { close_sent = true; close_received = true })) ≡ false)
is_closed-run_example =
    is_closed-run script (record opened { close_sent = true; close_received = true }) both_closed

sent_once_example :
    (let d = run script (build_close opened).1 in build_close d ≡ (throw already_sent, d))
    × (let d = run script (build_eof opened).1 in build_eof d ≡ (throw already_sent, d))
sent_once_example = sent_once script opened

abbrev trailing : Bytes
trailing = 9 ∷ []

abbrev command : Text
command = 108 ∷ 115 ∷ []

abbrev refusal_head : Bytes
refusal_head = 92 ∷ be32 0 ++ be32 1

same_number : read_uint32 refusal_head 1 ≡ new_channel.local_channel_id
unfolding read_uint32
same_number = refl

handle_open_failure_lem_example :
    handle_open_failure
      (refusal_head ++ (encode_string text ++ (encode_string (101 ∷ []) ++ trailing)))
      new_channel
    ≡ ((if length trailing == 0 then ok tt else throw malformed), new_channel)
handle_open_failure_lem_example =
    handle_open_failure_lem new_channel refusal_head text (101 ∷ []) trailing refl same_number
      (omega arith) (omega arith)

build_exec_request_lem_example :
    ((¬ IsPermitted (λ t. t) command)
      × (build_exec_request (λ t. t) command opened ≡ (throw invalid_command, opened)))
    ⊎ (IsPermitted (λ t. t) command
        × (opened.open_confirmed ≡ false)
        × (build_exec_request (λ t. t) command opened ≡ (throw not_open, opened)))
    ⊎ (IsPermitted (λ t. t) command
        × (opened.open_confirmed ≡ true)
        × (build_exec_request (λ t. t) command opened ≡ (ok (exec_bytes opened command), opened)))
build_exec_request_lem_example = build_exec_request_lem (λ t. t) command opened
