-- ===== src/Session/Input/Order.antt =====
-- Input is delivered in its order, and is neither lost nor doubled: `queueInput` and `flushInput` of
-- worker/src/webssh/backend/session.ts, in any order of their steps.
use cf_workers_vpsmonitor.Common.{
  ◌||◌, List, [], ◌∷◌, ◌++◌, Option, none, some, ◌≡◌, refl, ap, sym, ap₂, ◌∙◌, Bool-cases, inl, inr,
  append_assoc, append-nil,
}
use cf_workers_vpsmonitor.Ssh.Wire.{Bytes}
use cf_workers_vpsmonitor.Ssh.Channel.{SshChannel, ChannelDataChunk}
use cf_workers_vpsmonitor.Session.Input.{
  Session, ready, is_ready, is_closed, flush_input, queue_input, end_send, resume_from, resume,
  fail_send, mark_ready, next_pass,
}
use cf_workers_vpsmonitor.Session.Input.Moves.{
  IsValid, IsSending, Keeps, stream, taken, flush_from-Keeps, next_pass-Keeps, queue_input_lem,
  end_send_lem,
}

-- What may happen to the queue of a session that is not closed: input, the end or the failure of a
-- send, the shell's start, and a flush behind any change of the channel.
pub data Step : Type 0 where
  input : Bytes → Step
  send_ended send_failed became_ready : Step
  channel_changed : SshChannel → Step

unfoldable pub apply : Step → Session → Session
apply (input bytes) s = queue_input bytes s
apply send_ended s = resume s
apply send_failed s = fail_send s
apply became_ready s = mark_ready s
apply (channel_changed c) s = flush_input (record s { shell_channel = c })

-- What a step takes in.
abbrev pub intake : Step → Session → Bytes
intake (input bytes) s = taken bytes s
intake send_ended s = []
intake send_failed s = []
intake became_ready s = []
intake (channel_changed c) s = []

unfoldable pub run : List Step → Session → Session
run [] s = s
run (step ∷ steps) s = run steps (apply step s)

unfoldable pub intakes : List Step → Session → Bytes
intakes [] s = []
intakes (step ∷ steps) s = intake step s ++ intakes steps (apply step s)

-- A valid session, whose stream has grown by some bytes.
abbrev Grows : Session → Session → Bytes → Type 0
Grows s' s bytes = IsValid s' × (stream s' ≡ stream s ++ bytes)

still : (s' s : Session) → Keeps s' s → Grows s' s []
still s' s k = (k.0, ap₂ (λ d w. d ++ w) (k.2) (k.1) ∙ sym (append-nil (stream s)))

resume_from-Grows :
    (o : Option (Bytes × ChannelDataChunk)) (s : Session)
    → IsSending o s.queue_head_offset s.input_queue
    → IsValid s
    → Grows (resume_from o s) s []
unfolding resume_from
resume_from-Grows none s h v = (v, sym (append-nil (stream s)))
resume_from-Grows (some (first, chunk)) s h v =
    let moved = end_send_lem first chunk s s.input_queue refl h v in
    let after = end_send first chunk s in
    let k =
      still (next_pass after.input_queue after) after
        (next_pass-Keeps after after.input_queue refl (moved.0)) in
    (k.0, k.1 ∙ ap (λ b. b ++ []) (moved.1))

apply-Grows : (step : Step) (s : Session) → IsValid s → Grows (apply step s) s (intake step s)
unfolding apply resume fail_send mark_ready flush_input
apply-Grows (input bytes) s v = queue_input_lem bytes s v
apply-Grows send_ended s v = resume_from-Grows s.awaiting s v.sending v
apply-Grows send_failed s v =
    still (record s { awaiting = none }) s
      (
        record { inside = v.inside; counted = v.counted; bounded = v.bounded; sending = tt },
        refl,
        refl,
      )
apply-Grows became_ready s v = elim (Bool-cases (is_ready s.phase || is_closed s.phase)) [
  | inl late ↦ rw late (v, sym (append-nil (stream s)))
  | inr now ↦ rw now (
      still _ s (
        flush_from-Keeps s.awaiting (record s { phase = ready })
          (record {
            inside = v.inside;
            counted = v.counted;
            bounded = v.bounded;
            sending = v.sending;
          })))
]
apply-Grows (channel_changed c) s v = still _ s (
    flush_from-Keeps s.awaiting (record s { shell_channel = c })
      (record { inside = v.inside; counted = v.counted; bounded = v.bounded; sending = v.sending }))

-- Over any steps of a valid session that is not closed by them, what is delivered and then what
-- waits is what was delivered and waited before, and then the inputs in their order, each cut only
-- at the limit of the queue; and the session stays valid, so that its queue stays within the limit.
pub run_lem :
    (steps : List Step) (s : Session)
    → IsValid s
    → IsValid (run steps s) × (stream (run steps s) ≡ stream s ++ intakes steps s)
unfolding run intakes
run_lem [] s v = (v, sym (append-nil (stream s)))
run_lem (step ∷ steps) s v =
    let now = apply-Grows step s v in
    let later = run_lem steps (apply step s) (now.0) in
    (
      later.0,
      later.1
          ∙ ap (λ b. b ++ intakes steps (apply step s)) (now.1)
          ∙ append_assoc (stream s) (intake step s) (intakes steps (apply step s)),
    )
