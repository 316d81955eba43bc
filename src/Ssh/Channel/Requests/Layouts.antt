-- ===== src/Ssh/Channel/Requests/Layouts.antt =====
-- What the request builders of worker/src/webssh/ssh/channel.ts put on the wire.
use cf_workers_vpsmonitor.Common.{
  ℕ, ◌+◌, ◌<◌, ◌≤◌, true, false, codes, ◌≢◌, ◌⊎◌, ◌≡◌, refl, sym, ap, ◌∙◌, ◌||◌, [], ◌∷◌, ◌++◌,
  append-nil, append_assoc, length-append, length, set, replicate, blit, ok, throw, arith,
}
use cf_workers_vpsmonitor.Common.{ltb, ◌==◌, Bool-cases, inl, inr}
use cf_workers_vpsmonitor.Common.State.{refuse}
use cf_workers_vpsmonitor.Ssh.Wire.{Bytes, write_uint32, encode_string}
use cf_workers_vpsmonitor.Ssh.Wire.Laws.{
  be32, encode_string_lem, write_uint32_zeros, set_zeros, blit_zeros,
}
use cf_workers_vpsmonitor.Ssh.Channel.{
  invalid_command, not_open, SshChannel, default_window_size, default_max_packet_size,
}
use cf_workers_vpsmonitor.Ssh.Channel.Requests.{
  Text, session_field, build_open_session, request_head, string_request, build_exec_request,
  exec_field, has_control,
}

-- The open request is the message number, the encoded channel type, the chosen number, and the window
-- and packet size that the channel starts with; the number is kept.
pub build_open_session_lem :
    (id : ℕ) (c : SshChannel)
    → build_open_session id c ≡ (
      ok (
          (90 ∷ [])
          ++ (session_field
              ++ (be32 id ++ (be32 default_window_size ++ be32 default_max_packet_size)))),
      record c { local_channel_id = id },
    )
unfolding build_open_session write_uint32 encode_string
build_open_session_lem id c = refl

-- The head of a request, followed by the room that is left.
request_head_lem :
    (remote : ℕ) (field : Bytes) (reply more : ℕ)
    → request_head remote field reply more
      ≡ ((((98 ∷ []) ++ be32 remote) ++ field) ++ (reply ∷ [])) ++ replicate more 0
unfolding request_head
request_head_lem remote field reply more =
    let start : Bytes = (98 ∷ []) ++ be32 remote in
    let n = length field in
    ap (λ t. set (blit (write_uint32 t 1 remote) 5 field) (5 + n) reply)
      (set_zeros [] 0 (1 + 4 + n + 1 + more) (4 + n + 1 + more) 98 refl (omega arith))
    ∙ ap (λ t. set (blit t 5 field) (5 + n) reply)
        (write_uint32_zeros (98 ∷ []) 1 (4 + n + 1 + more) (n + 1 + more) remote refl (omega arith))
    ∙ ap (λ t. set t (5 + n) reply)
        (blit_zeros start field 5 (n + 1 + more) (1 + more) refl (omega arith))
    ∙ set_zeros (start ++ field) (5 + n) (1 + more) more reply (omega arith) refl

string_request_lem :
    (field argument : Bytes) (remote : ℕ)
    → string_request field argument remote
      ≡ ((((98 ∷ []) ++ be32 remote) ++ field) ++ (1 ∷ [])) ++ argument
unfolding string_request
string_request_lem field argument remote =
    let start : Bytes = (((98 ∷ []) ++ be32 remote) ++ field) ++ (1 ∷ []) in
    ap (λ t. blit t (5 + length field + 1) argument)
      (request_head_lem remote field 1 (length argument))
    ∙ blit_zeros start argument (5 + length field + 1) (length argument) 0
        (omega (arith, length-append field (1 ∷ []))) (omega arith)
    ∙ append-nil _

-- The name of an exec request as the protocol writes it.
abbrev exec_name : Bytes
exec_name = 0 ∷ 0 ∷ 0 ∷ 4 ∷ codes "exec"

exec_field-eq-exec_name : exec_field ≡ exec_name
unfolding exec_field encode_string write_uint32
exec_field-eq-exec_name = refl

-- No NUL, LF or CR.
abbrev pub IsClean : Text → Type 0
IsClean [] = Unit
IsClean (x ∷ xs) = (x ≢ 0) × (x ≢ 10) × (x ≢ 13) × IsClean xs

-- A command of 1 to 4096 bytes without such characters.
abbrev pub IsPermitted : (Text → Bytes) → Text → Type 0
IsPermitted utf8 command =
    (0 < length (utf8 command)) × (length (utf8 command) ≤ 4096) × IsClean command

has_control-true : (command : Text) → has_control command ≡ true → ¬ IsClean command
unfolding has_control
has_control-true [] h = absurd cc
has_control-true (x ∷ xs) h = elim (Bool-cases (has_control xs)) [
  | inl later ↦ λ (a, b, c, rest). has_control-true xs later rest
  | inr first ↦ λ (a, b, c, rest). ground arith
]

has_control-false : (command : Text) → has_control command ≡ false → IsClean command
unfolding has_control
has_control-false [] h = tt
has_control-false (x ∷ xs) h =
    (λ e. ground arith, λ e. ground arith, λ e. ground arith, has_control-false xs (ground arith))

-- What `buildExecRequest` puts on the wire.
abbrev pub exec_bytes : SshChannel → Bytes → Bytes
exec_bytes c command =
    (((((98 ∷ []) ++ be32 c.remote_channel_id) ++ exec_name) ++ (1 ∷ [])) ++ be32 (length command))
    ++ command

build_exec_request-layout :
    (utf8 : Text → Bytes) (command : Text) (c : SshChannel)
    → string_request exec_field (encode_string (utf8 command)) c.remote_channel_id
      ≡ exec_bytes c (utf8 command)
build_exec_request-layout utf8 command c =
    let field : Bytes = (((98 ∷ []) ++ be32 c.remote_channel_id) ++ exec_field) ++ (1 ∷ []) in
    string_request_lem exec_field (encode_string (utf8 command)) c.remote_channel_id
    ∙ ap (λ b. field ++ b) (encode_string_lem (utf8 command))
    ∙ sym (append_assoc field (be32 (length (utf8 command))) (utf8 command))
    ∙ ap
        (λ name.
          (((((98 ∷ []) ++ be32 c.remote_channel_id) ++ name) ++ (1 ∷ []))
            ++ be32 (length (utf8 command)))
          ++ utf8 command)
        exec_field-eq-exec_name

-- An exec request leaves the channel alone. It is refused as invalid exactly for a command that is
-- empty, longer than 4096 bytes or has a NUL, CR or LF; for any other it is refused on a channel
-- that is not confirmed, and is else the message number, the peer's number, the name `exec`, the
-- wish for a reply, and the encoded command.
pub build_exec_request_lem :
    (utf8 : Text → Bytes) (command : Text) (c : SshChannel)
    → ((¬ IsPermitted utf8 command)
        × (build_exec_request utf8 command c ≡ (throw invalid_command, c)))
      ⊎ (IsPermitted utf8 command
          × (c.open_confirmed ≡ false)
          × (build_exec_request utf8 command c ≡ (throw not_open, c)))
      ⊎ (IsPermitted utf8 command
          × (c.open_confirmed ≡ true)
          × (build_exec_request utf8 command c ≡ (ok (exec_bytes c (utf8 command)), c)))
unfolding build_exec_request
build_exec_request_lem utf8 command c =
    elim (Bool-cases
      (length (utf8 command) == 0 || ltb 4096 (length (utf8 command)) || has_control command)) [
        | inl bad ↦
            let refused : ¬ IsPermitted utf8 command =
              λ (short, long, clean). has_control-true command (ground arith) clean in
            inl (refused, rw (bad, refuse))
        | inr good ↦
            let permitted : IsPermitted utf8 command =
              (ground arith, ground arith, has_control-false command (ground arith)) in
            elim (Bool-cases c.open_confirmed) [
              | inr closed ↦ inr (inl (permitted, closed, rw (good, closed, refuse)))
              | inl confirmed ↦ inr (
                  inr (
                    permitted,
                    confirmed,
                    simp (good, confirmed)
                        (ap (λ b. (ok b, c)) (build_exec_request-layout utf8 command c)),
                  ))
            ]
      ]
