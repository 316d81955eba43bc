-- ===== src/Session/Input/Tests.antt =====
-- Tests and witnesses for the input queue of worker/src/webssh/backend/session.ts.
use cf_workers_vpsmonitor.Common.{List, [], ◌∷◌, ◌++◌, none, ◌≡◌, refl, arith}
use cf_workers_vpsmonitor.Ssh.Channel.{SshChannel, new_channel, take_channel_data_chunk}
use cf_workers_vpsmonitor.Session.Input.{
  Session, shell, begin_send, next_pass, flush_from, flush_input, push_input, queue_input, shift,
  end_send, resume_from, resume, mark_ready,
}
use cf_workers_vpsmonitor.Session.Input.Moves.{IsValid, stream}
use cf_workers_vpsmonitor.Session.Input.Order.{
  Step, input, send_ended, became_ready, apply, run, intakes, run_lem,
}

-- A channel that takes three bytes at a time.
abbrev narrow : SshChannel
narrow = record new_channel { remote_window_size = 100; remote_max_packet_size = 3 }

abbrev session : Session
session = record {
  phase = shell;
  input_queue = [];
  queue_head_offset = 0;
  queued_bytes = 0;
  awaiting = none;
  shell_channel = narrow;
  delivered = [];
  notices = 0;
}

abbrev steps : List Step
steps =
    input (1 ∷ 2 ∷ [])
    ∷ became_ready
    ∷ input (3 ∷ 4 ∷ 5 ∷ 6 ∷ [])
    ∷ send_ended
    ∷ send_ended
    ∷ send_ended
    ∷ []

run_lem_example :
    IsValid (run steps session)
    × (stream (run steps session) ≡ stream session ++ intakes steps session)
run_lem_example =
    run_lem steps session
      (record { inside = refl; counted = refl; bounded = omega arith; sending = tt })

all_delivered : (run steps session).delivered ≡ 1 ∷ 2 ∷ 3 ∷ 4 ∷ 5 ∷ 6 ∷ []
unfolding run apply queue_input push_input resume resume_from mark_ready flush_input flush_from
    next_pass begin_send end_send shift take_channel_data_chunk
all_delivered = refl
