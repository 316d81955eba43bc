-- ===== src/Session/Input.antt =====
-- The terminal's input queue in worker/src/webssh/backend/session.ts: `queueInput` and `flushInput`,
-- with the part of `close` and `markReady` that concerns them. `flushInput` runs up to its `await`
-- as one step; what happens when the send has ended is another, `resume`, and other steps may come
-- between. `flushingInput` is true exactly while the loop awaits a send.
pub mod Moves
pub mod Order
mod Tests
use cf_workers_vpsmonitor.Common.{
  ℕ, ◌+◌, ◌-◌, ◌*◌, Bool, true, false, ◌||◌, List, [], ◌∷◌, ◌++◌, Option, none, some, length, take,
  drop, ltb, ◌==◌, if◌then◌else◌, Result, ok, throw,
}
use cf_workers_vpsmonitor.Ssh.Wire.{Bytes}
use cf_workers_vpsmonitor.Ssh.Channel.{
  SshChannel, ChannelError, ChannelDataChunk, take_channel_data_chunk,
}

abbrev pub max_queued_input : ℕ
max_queued_input = 1024 * 1024

-- `Phase`
pub data Phase : Type 0 where
  version kex host_confirm auth pty shell ready closed : Phase

abbrev pub is_ready : Phase → Bool
is_ready ready = true
is_ready _ = false

abbrev pub is_closed : Phase → Bool
is_closed closed = true
is_closed _ = false

-- The fields that the two methods use. `awaiting` has the variables `first` and `chunk` of a loop
-- that awaits a send; `delivered` logs the bytes of the sends that have ended, and `notices` counts
-- the messages on truncated input.
pub record Session : Type 0 where
  pub phase : Phase
  pub input_queue : List Bytes
  pub queue_head_offset : ℕ
  pub queued_bytes : ℕ
  pub awaiting : Option (Bytes × ChannelDataChunk)
  pub shell_channel : SshChannel
  pub delivered : Bytes
  pub notices : ℕ

-- A pass of the loop of `flushInput` from the result of `takeChannelDataChunk` to the `await`.
unfoldable pub begin_send :
    Session → Bytes → Result ChannelError (Option ChannelDataChunk) × SshChannel → Session
begin_send s first (ok none, c) = record s { shell_channel = c; awaiting = none }
begin_send s first (ok (some chunk), c) = record s {
  shell_channel = c;
  awaiting = some (first, chunk);
}
begin_send s first (throw e, c) = record s { shell_channel = c; awaiting = none }

-- The loop of `flushInput` up to its `await`, or to its end.
unfoldable pub next_pass : List Bytes → Session → Session
next_pass [] s = record s { awaiting = none }
next_pass (first ∷ queue) s =
    if is_ready s.phase
    then begin_send s first (take_channel_data_chunk first s.queue_head_offset s.shell_channel)
    else record s { awaiting = none }

-- `flushInput`
unfoldable pub flush_from : Option (Bytes × ChannelDataChunk) → Session → Session
flush_from (some sending) s = s
flush_from none s = if is_ready s.phase then next_pass s.input_queue s else s

unfoldable pub flush_input : Session → Session
unfolding flush_from
flush_input s = flush_from s.awaiting s

-- `queueInput` from the push on
unfoldable pub push_input : Bytes → Session → Session
unfolding flush_input
push_input bytes s = flush_input (record s {
  input_queue = s.input_queue ++ (bytes ∷ []);
  queued_bytes = s.queued_bytes + length bytes;
})

-- `queueInput`
unfoldable pub queue_input : Bytes → Session → Session
unfolding push_input
queue_input bytes s =
    if length bytes == 0 || is_closed s.phase
    then s
    else if ltb max_queued_input (s.queued_bytes + length bytes)
    then (if max_queued_input - s.queued_bytes == 0
        then record s { notices = s.notices + 1 }
        else push_input (take (max_queued_input - s.queued_bytes) bytes)
            (record s { notices = s.notices + 1 }))
    else push_input bytes s

-- `inputQueue.shift()`
unfoldable pub shift : List Bytes → List Bytes
shift [] = []
shift (first ∷ queue) = queue

-- The loop of `flushInput` from the end of the send to the next `await`. After `close` the count of
-- bytes would fall below 0 here, and nothing reads it any more.
unfoldable pub end_send : Bytes → ChannelDataChunk → Session → Session
end_send first chunk s =
    let offset = s.queue_head_offset + chunk.bytes_consumed in
    let whole = offset == length first in
    record s {
      queue_head_offset = if whole then 0 else offset;
      queued_bytes = s.queued_bytes - chunk.bytes_consumed;
      input_queue = if whole then shift s.input_queue else s.input_queue;
      delivered = s.delivered ++ take chunk.bytes_consumed (drop chunk.source_offset chunk.source);
    }

unfoldable pub resume_from : Option (Bytes × ChannelDataChunk) → Session → Session
unfolding end_send
resume_from none s = s
resume_from (some (first, chunk)) s =
    let after = end_send first chunk s in next_pass after.input_queue after

unfoldable pub resume : Session → Session
unfolding resume_from
resume s = resume_from s.awaiting s

-- A send that fails: the loop ends.
unfoldable pub fail_send : Session → Session
fail_send s = record s { awaiting = none }

-- `markReady`
unfoldable pub mark_ready : Session → Session
unfolding flush_input
mark_ready s =
    if is_ready s.phase || is_closed s.phase then s else flush_input (record s { phase = ready })

-- `close`
unfoldable pub close : Session → Session
close s =
    if is_closed s.phase then s else record s { phase = closed; input_queue = []; queued_bytes = 0 }
