-- ===== src/Ssh/Channel/Lifecycle.antt =====
-- The end of a channel: EOF and CLOSE of `SSHChannel` in worker/src/webssh/ssh/channel.ts.
use cf_workers_vpsmonitor.Common.{
  ℕ, ◌≡◌, refl, Bool, true, false, ◌||◌, List, [], ◌∷◌, throw, arith,
}
use cf_workers_vpsmonitor.Common.State.{refuse}
use cf_workers_vpsmonitor.Ssh.Wire.{Bytes}
use cf_workers_vpsmonitor.Ssh.Channel.{
  SshChannel, already_sent, is_closed, is_open, handle_open_confirmation, handle_window_adjust,
  handle_channel_data, handle_extended_data, handle_eof, handle_close, build_close, build_eof,
  take_channel_data_chunk, take_local_window_adjustment,
}
use cf_workers_vpsmonitor.Ssh.Channel.Requests.{build_open_session}
use cf_workers_vpsmonitor.Ssh.Channel.Windows.{
  Call, open_session, open_confirmation, window_adjust, channel_data, extended_data, eof, close,
  send_close, send_eof, take_chunk, take_adjustment, after_call, run, total, received_by,
}

-- The flags of the second state include those of the first.
pub record Keeps (c d : SshChannel) : Type 0 where
  pub eof_received : c.eof_received ≡ true → d.eof_received ≡ true
  pub eof_sent : c.eof_sent ≡ true → d.eof_sent ≡ true
  pub close_sent : c.close_sent ≡ true → d.close_sent ≡ true
  pub close_received : c.close_received ≡ true → d.close_received ≡ true
  pub open_confirmed : c.open_confirmed ≡ true → d.open_confirmed ≡ true

build_open_session-Keeps : (id : ℕ) (c : SshChannel) → Keeps c (build_open_session id c).1
unfolding build_open_session
build_open_session-Keeps id c = ground arith

handle_open_confirmation-Keeps :
    (p : Bytes) (c : SshChannel) → Keeps c (handle_open_confirmation p c).1
unfolding handle_open_confirmation
handle_open_confirmation-Keeps p c = ground arith

handle_window_adjust-Keeps : (p : Bytes) (c : SshChannel) → Keeps c (handle_window_adjust p c).1
unfolding handle_window_adjust
handle_window_adjust-Keeps p c = ground arith

handle_channel_data-Keeps : (p : Bytes) (c : SshChannel) → Keeps c (handle_channel_data p c).1
unfolding handle_channel_data
handle_channel_data-Keeps p c = ground arith

handle_extended_data-Keeps : (p : Bytes) (c : SshChannel) → Keeps c (handle_extended_data p c).1
unfolding handle_extended_data
handle_extended_data-Keeps p c = ground arith

handle_eof-Keeps : (p : Bytes) (c : SshChannel) → Keeps c (handle_eof p c).1
unfolding handle_eof
handle_eof-Keeps p c = ground arith

handle_close-Keeps : (p : Bytes) (c : SshChannel) → Keeps c (handle_close p c).1
unfolding handle_close
handle_close-Keeps p c = ground arith

build_close-Keeps : (c : SshChannel) → Keeps c (build_close c).1
unfolding build_close
build_close-Keeps c = ground arith

build_eof-Keeps : (c : SshChannel) → Keeps c (build_eof c).1
unfolding build_eof
build_eof-Keeps c = ground arith

take_channel_data_chunk-Keeps :
    (b : Bytes) (o : ℕ) (c : SshChannel) → Keeps c (take_channel_data_chunk b o c).1
unfolding take_channel_data_chunk
take_channel_data_chunk-Keeps b o c = ground arith

take_local_window_adjustment-Keeps :
    (n : ℕ) (c : SshChannel) → Keeps c (take_local_window_adjustment n c).1
unfolding take_local_window_adjustment
take_local_window_adjustment-Keeps n c = ground arith

after_call-Keeps : (x : Call) (c : SshChannel) → Keeps c (after_call x c)
unfolding after_call
after_call-Keeps (open_session id) c = build_open_session-Keeps id c
after_call-Keeps (open_confirmation p) c = handle_open_confirmation-Keeps p c
after_call-Keeps (window_adjust p) c = handle_window_adjust-Keeps p c
after_call-Keeps (channel_data p) c = handle_channel_data-Keeps p c
after_call-Keeps (extended_data p) c = handle_extended_data-Keeps p c
after_call-Keeps (eof p) c = handle_eof-Keeps p c
after_call-Keeps (close p) c = handle_close-Keeps p c
after_call-Keeps send_close c = build_close-Keeps c
after_call-Keeps send_eof c = build_eof-Keeps c
after_call-Keeps (take_chunk b o) c = take_channel_data_chunk-Keeps b o c
after_call-Keeps (take_adjustment n) c = take_local_window_adjustment-Keeps n c

run-Keeps : (xs : List Call) (c : SshChannel) → Keeps c (run xs c)
unfolding run
run-Keeps [] c = record {
  eof_received = λ h. h;
  eof_sent = λ h. h;
  close_sent = λ h. h;
  close_received = λ h. h;
  open_confirmed = λ h. h;
}
run-Keeps (x ∷ xs) c =
    let a = after_call-Keeps x c in
    let b = run-Keeps xs (after_call x c) in
    record {
      eof_received = λ h. b.eof_received (a.eof_received h);
      eof_sent = λ h. b.eof_sent (a.eof_sent h);
      close_sent = λ h. b.close_sent (a.close_sent h);
      close_received = λ h. b.close_received (a.close_received h);
      open_confirmed = λ h. b.open_confirmed (a.open_confirmed h);
    }

-- A channel that is closed on both sides stays so, and is not open, whatever is called next.
pub is_closed-run :
    (xs : List Call) (c : SshChannel)
    → is_closed c ≡ true
    → (is_closed (run xs c) ≡ true) × (is_open (run xs c) ≡ false)
unfolding is_closed is_open
is_closed-run xs c h =
    let k = run-Keeps xs c in
    let s = k.close_sent (ground arith) in let r = k.close_received (ground arith) in ground arith

abbrev ended : SshChannel → Bool
ended c = c.eof_received || c.close_received

ended-after_call : (x : Call) (c : SshChannel) → ended c ≡ true → ended (after_call x c) ≡ true
ended-after_call x c h =
    let k = after_call-Keeps x c in
    ended-keeps c.eof_received c.close_received h k.eof_received k.close_received
  where
    ended-keeps :
        (e d : Bool) {e' d' : Bool}
        → (e || d) ≡ true
        → (e ≡ true → e' ≡ true)
        → (d ≡ true → d' ≡ true)
        → (e' || d') ≡ true
    ended-keeps true d h f g = rw (f refl)
    ended-keeps false true {e'} h f g = rw (g refl) (or-true e')
      where
        or-true : (b : Bool) → (b || true) ≡ true
        or-true true = refl
        or-true false = refl
    ended-keeps false false h f g = cc

received-ended : (x : Call) (c : SshChannel) → ended c ≡ true → received_by x c ≡ 0
unfolding received_by handle_channel_data handle_extended_data
received-ended (channel_data p) c h = ground arith
received-ended (extended_data p) c h = ground arith
received-ended _ c h = refl

-- Once EOF or CLOSE has arrived no call of any later sequence accepts data.
pub no_data_after_end :
    (xs : List Call) (c : SshChannel)
    → (c.eof_received || c.close_received) ≡ true
    → total received_by xs c ≡ 0
unfolding total
no_data_after_end [] c h = refl
no_data_after_end (x ∷ xs) c h =
    omega
      (arith, received-ended x c h, no_data_after_end xs (after_call x c) (ended-after_call x c h))

close_set : (c : SshChannel) → (build_close c).1.close_sent ≡ true
unfolding build_close
close_set c = ground arith

eof_set : (c : SshChannel) → (build_eof c).1.eof_sent ≡ true
unfolding build_eof
eof_set c = ground arith

close_again : (d : SshChannel) → d.close_sent ≡ true → build_close d ≡ (throw already_sent, d)
unfolding build_close
close_again d h = rw (h, refuse)

eof_again : (d : SshChannel) → d.eof_sent ≡ true → build_eof d ≡ (throw already_sent, d)
unfolding build_eof
eof_again d h = rw (h, refuse)

-- CLOSE and EOF are sent at most once: after a call of the builder, every later call of
-- it, behind any sequence of calls, throws and changes nothing.
pub sent_once :
    (xs : List Call) (c : SshChannel)
    → (let d = run xs (build_close c).1 in build_close d ≡ (throw already_sent, d))
      × (let d = run xs (build_eof c).1 in build_eof d ≡ (throw already_sent, d))
sent_once xs c = (
  close_again (run xs (build_close c).1)
      ((run-Keeps xs (build_close c).1).close_sent (close_set c)),
  eof_again (run xs (build_eof c).1) ((run-Keeps xs (build_eof c).1).eof_sent (eof_set c)),
)
