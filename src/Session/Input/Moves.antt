-- ===== src/Session/Input/Moves.antt =====
-- Each operation on the terminal's input queue in worker/src/webssh/backend/session.ts, and what it
-- does to the bytes that are delivered and that wait.
use cf_workers_vpsmonitor.Common.{
  ℕ, ◌+◌, ◌-◌, ◌≤◌, ◌<◌, List, [], ◌∷◌, ◌++◌, Option, none, some, length, take, drop, min, concat,
  ltb, ◌==◌, if◌then◌else◌, ◌≡◌, refl, ap, sym, ap₂, ◌∙◌, subst, arith, Bool-cases, inl, inr,
  length-append, length-drop, length-take, append_assoc, append-nil, drop-append_le, drop-append,
  take-append-drop, drop-drop, take-append_le, ==_iff, take_all, suc-eqb-zero,
}
use cf_workers_vpsmonitor.Ssh.Wire.{Bytes}
use cf_workers_vpsmonitor.Ssh.Channel.{SshChannel, ChannelDataChunk, take_channel_data_chunk}
use cf_workers_vpsmonitor.Session.Input.{
  Session, is_ready, is_closed, begin_send, next_pass, flush_from, flush_input, push_input,
  queue_input, shift, end_send, max_queued_input,
}

-- The bytes that wait to be delivered.
abbrev pub waiting : Session → Bytes
waiting s = drop s.queue_head_offset (concat s.input_queue)

-- No chunk is empty.
abbrev pub AreFull : List Bytes → Type 0
AreFull [] = Unit
AreFull (chunk ∷ queue) = (0 < length chunk) × AreFull queue

-- The offset lies in the first chunk of the queue, and no chunk is empty.
abbrev pub IsInside : ℕ → List Bytes → Type 0
IsInside offset [] = offset ≡ 0
IsInside offset (first ∷ queue) = (offset < length first) × AreFull queue

-- A send that is awaited is of a part of the queue's first chunk, from the offset on.
abbrev pub IsSending : Option (Bytes × ChannelDataChunk) → ℕ → List Bytes → Type 0
IsSending none offset queue = Unit
IsSending (some (first, chunk)) offset [] = ⊥
IsSending (some (first, chunk)) offset (f ∷ queue) =
    (first ≡ f)
    × (chunk.source ≡ f)
    × (chunk.source_offset ≡ offset)
    × (0 < chunk.bytes_consumed)
    × (offset + chunk.bytes_consumed ≤ length f)

pub record IsValid (s : Session) : Type 0 where
  pub inside : IsInside s.queue_head_offset s.input_queue
  pub counted : s.queued_bytes ≡ length (waiting s)
  pub bounded : s.queued_bytes ≤ max_queued_input
  pub sending : IsSending s.awaiting s.queue_head_offset s.input_queue

-- The same without the send.
pub record Holds (s : Session) : Type 0 where
  pub in_first : IsInside s.queue_head_offset s.input_queue
  pub count : s.queued_bytes ≡ length (waiting s)
  pub limit : s.queued_bytes ≤ max_queued_input

-- The queue of the first session is that of the second, and valid.
abbrev pub Keeps : Session → Session → Type 0
Keeps s' s = IsValid s' × (waiting s' ≡ waiting s) × (s'.delivered ≡ s.delivered)

idle :
    (s : Session) (c : SshChannel)
    → Holds s
    → Keeps (record s { shell_channel = c; awaiting = none }) s
idle s c h =
    (record { inside = h.in_first; counted = h.count; bounded = h.limit; sending = tt }, refl, refl)

begin_send-Keeps :
    (s : Session) (first : Bytes) (queue : List Bytes)
    → s.input_queue ≡ first ∷ queue
    → Holds s
    → Keeps
        (begin_send s first (take_channel_data_chunk first s.queue_head_offset s.shell_channel))
        s
unfolding begin_send take_channel_data_chunk
begin_send-Keeps s first queue e h =
    let c = s.shell_channel in
    let o = s.queue_head_offset in
    let n = min (min (length first - o) c.remote_max_packet_size) c.remote_window_size in
    elim (Bool-cases (length first - o == 0)) [
      | inl none_left ↦ rw none_left (idle s c h)
      | inr some_left ↦ rw some_left (elim (Bool-cases (n == 0)) [
        | inl no_room ↦ rw no_room (idle s c h)
        | inr room ↦ rw room (
          record {
            inside = h.in_first;
            counted = h.count;
            bounded = h.limit;
            sending =
                subst
                  (IsSending
                    (some (
                      first,
                      record {
                        source = first;
                        source_offset = o;
                        bytes_consumed = n;
                        payload_length = 9 + n;
                      },
                    ))
                    o)
                  (sym e) (refl, refl, refl, ground arith, ground arith);
          },
          refl,
          refl,
        )
      ])
    ]

pub next_pass-Keeps :
    (s : Session) (q : List Bytes) → s.input_queue ≡ q → Holds s → Keeps (next_pass q s) s
unfolding next_pass
next_pass-Keeps s [] e h = idle s s.shell_channel h
next_pass-Keeps s (first ∷ queue) e h = elim (Bool-cases (is_ready s.phase)) [
  | inl go ↦ rw go (begin_send-Keeps s first queue e h)
  | inr wait ↦ rw wait (idle s s.shell_channel h)
]

pub flush_from-Keeps :
    (o : Option (Bytes × ChannelDataChunk)) (s : Session) → IsValid s → Keeps (flush_from o s) s
unfolding flush_from
flush_from-Keeps (some sending) s v = (v, refl, refl)
flush_from-Keeps none s v = elim (Bool-cases (is_ready s.phase)) [
  | inl go ↦ rw go (
      next_pass-Keeps s s.input_queue refl
        (record { in_first = v.inside; count = v.counted; limit = v.bounded }))
  | inr wait ↦ rw wait (v, refl, refl)
]

concat-snoc : (q : List Bytes) (b : Bytes) → concat (q ++ (b ∷ [])) ≡ concat q ++ b
concat-snoc [] b = append-nil b
concat-snoc (c ∷ q) b = ap (λ l. c ++ l) (concat-snoc q b) ∙ sym (append_assoc c (concat q) b)

IsInside-le : (o : ℕ) (q : List Bytes) → IsInside o q → o ≤ length (concat q)
IsInside-le o [] h = omega arith
IsInside-le o (f ∷ q) (h, g) = omega (arith, length-append f (concat q))

AreFull-snoc : (q : List Bytes) (b : Bytes) → 0 < length b → AreFull q → AreFull (q ++ (b ∷ []))
AreFull-snoc [] b p h = (p, tt)
AreFull-snoc (f ∷ q) b p (h, g) = (h, AreFull-snoc q b p g)

AreFull-IsInside : (q : List Bytes) → AreFull q → IsInside 0 q
AreFull-IsInside [] h = refl
AreFull-IsInside (f ∷ q) h = h

IsInside-snoc :
    (o : ℕ) (q : List Bytes) (b : Bytes) → 0 < length b → IsInside o q → IsInside o (q ++ (b ∷ []))
IsInside-snoc o [] b p h = (omega arith, tt)
IsInside-snoc o (f ∷ q) b p (h, g) = (h, AreFull-snoc q b p g)

IsSending-snoc :
    (a : Option (Bytes × ChannelDataChunk)) (o : ℕ) (q : List Bytes) (b : Bytes)
    → IsSending a o q
    → IsSending a o (q ++ (b ∷ []))
IsSending-snoc none o q b h = tt
IsSending-snoc (some (first, chunk)) o [] b h = absurd h
IsSending-snoc (some (first, chunk)) o (f ∷ q) b h = h

-- Everything that a session has taken in: what it has delivered, then what waits.
abbrev pub stream : Session → Bytes
stream s = s.delivered ++ waiting s

push_input_lem :
    (bytes : Bytes) (s : Session)
    → IsValid s
    → 0 < length bytes
    → s.queued_bytes + length bytes ≤ max_queued_input
    → IsValid (push_input bytes s) × (stream (push_input bytes s) ≡ stream s ++ bytes)
unfolding push_input flush_input
push_input_lem bytes s v h0 h1 =
    let q = s.input_queue in
    let o = s.queue_head_offset in
    let w : drop o (concat (q ++ (bytes ∷ []))) ≡ waiting s ++ bytes =
      ap (drop o) (concat-snoc q bytes)
      ∙ drop-append_le o (concat q) bytes (IsInside-le o q v.inside) in
    let pushed = record s {
      input_queue = q ++ (bytes ∷ []);
      queued_bytes = s.queued_bytes + length bytes;
    } in
    let k = flush_from-Keeps s.awaiting pushed (record {
      inside = IsInside-snoc o q bytes h0 v.inside;
      counted = rw (w, length-append (waiting s) bytes, ← v.counted) refl;
      bounded = h1;
      sending = IsSending-snoc s.awaiting o q bytes v.sending;
    }) in
    (k.0, ap₂ (λ d x. d ++ x) (k.2) (k.1 ∙ w) ∙ sym (append_assoc s.delivered (waiting s) bytes))

-- What the queue takes of an input.
abbrev pub taken : Bytes → Session → Bytes
taken bytes s = if is_closed s.phase then [] else take (max_queued_input - s.queued_bytes) bytes

pub queue_input_lem :
    (bytes : Bytes) (s : Session)
    → IsValid s
    → IsValid (queue_input bytes s) × (stream (queue_input bytes s) ≡ stream s ++ taken bytes s)
unfolding queue_input
queue_input_lem [] s v = (v, sym (ap (λ b. stream s ++ b) nothing ∙ append-nil (stream s)))
  where
    nothing : taken [] s ≡ []
    nothing = elim (Bool-cases (is_closed s.phase)) [
      | inl gone ↦ rw gone refl
      | inr live ↦ rw live (take_all (max_queued_input - s.queued_bytes) [] (omega arith))
    ]
queue_input_lem (b ∷ bs) s v =
    let bytes = b ∷ bs in
    let left = max_queued_input - s.queued_bytes in
    rw (suc-eqb-zero (length bs)) (elim (Bool-cases (is_closed s.phase)) [
      | inl gone ↦ rw gone (v, sym (append-nil (stream s)))
      | inr live ↦
          rw live (elim (Bool-cases (ltb max_queued_input (s.queued_bytes + length bytes))) [
            | inr fits ↦
                let all : take left bytes ≡ bytes = take_all left bytes (ground arith) in
                rw (fits, all) (push_input_lem bytes s v (omega arith) (ground arith))
            | inl over ↦ rw over (elim (Bool-cases (left == 0)) [
              | inl full ↦
                  let z = (==_iff left 0).0 full in
                  rw (full, z) (noticed, sym (append-nil (stream s)))
              | inr room ↦ rw room (
                  push_input_lem (take left bytes) (record s { notices = s.notices + 1 }) noticed
                    (ground (arith, length-take left bytes))
                    (ground (arith, length-take left bytes)))
            ])
          ])
    ])
  where
    noticed : IsValid (record s { notices = s.notices + 1 })
    noticed = record {
      inside = v.inside;
      counted = v.counted;
      bounded = v.bounded;
      sending = v.sending;
    }

-- A piece of the first chunk, and what is behind it.
drop-piece :
    (o n : ℕ) (f more : Bytes)
    → o + n ≤ length f
    → drop o (f ++ more) ≡ take n (drop o f) ++ drop (o + n) (f ++ more)
drop-piece o n f more h =
    sym (take-append-drop n (drop o (f ++ more)))
    ∙ ap₂ (λ a b. a ++ b)
        (ap (take n) (drop-append_le o f more (omega arith))
          ∙ take-append_le n (drop o f) more (omega (arith, length-drop o f)))
        (drop-drop n o (f ++ more))

-- The end of a send: what it delivers is what the queue gives up.
module _ (first : Bytes) (chunk : ChannelDataChunk) (s : Session) where
  piece : Bytes
  piece = take chunk.bytes_consumed (drop chunk.source_offset chunk.source)

  length-piece :
      (f : Bytes)
      → chunk.source ≡ f
      → chunk.source_offset ≡ s.queue_head_offset
      → s.queue_head_offset + chunk.bytes_consumed ≤ length f
      → length piece ≡ chunk.bytes_consumed
  unfolding piece
  length-piece f h1 h2 h4 =
      let n = ap length h1 in
      omega (
        arith,
        length-take chunk.bytes_consumed (drop chunk.source_offset chunk.source),
        length-drop chunk.source_offset chunk.source,
      )

  stream-moves :
      (rest : Bytes) → waiting s ≡ piece ++ rest → (s.delivered ++ piece) ++ rest ≡ stream s
  stream-moves rest h = append_assoc s.delivered piece rest ∙ ap (λ w. s.delivered ++ w) (sym h)

  count-moves :
      (rest : Bytes)
      → waiting s ≡ piece ++ rest
      → length piece ≡ chunk.bytes_consumed
      → s.queued_bytes ≡ length (waiting s)
      → s.queued_bytes - chunk.bytes_consumed ≡ length rest
  count-moves rest h l c = let m = ap length h in omega (arith, length-append piece rest)

  pub end_send_lem :
      (q : List Bytes)
      → s.input_queue ≡ q
      → IsSending (some (first, chunk)) s.queue_head_offset q
      → IsValid s
      → Holds (end_send first chunk s) × (stream (end_send first chunk s) ≡ stream s)
  unfolding end_send shift piece
  end_send_lem [] e h v = absurd h
  end_send_lem (f ∷ q) e (h0, h1, h2, h3, h4) v =
      let o = s.queue_head_offset in
      let n = chunk.bytes_consumed in
      let l = length-piece f h1 h2 h4 in
      let inside = subst (IsInside o) e v.inside in
      let given : waiting s ≡ piece ++ drop (o + n) (f ++ concat q) =
        ap (λ x. drop o (concat x)) e
        ∙ drop-piece o n f (concat q) h4
        ∙ ap₂ (λ a b. take n (drop a b) ++ drop (o + n) (f ++ concat q)) (sym h2) (sym h1) in
      elim (Bool-cases (o + n == length first)) [
        | inl whole ↦
            let all : o + n ≡ length f = (==_iff (o + n) (length first)).0 whole ∙ ap length h0 in
            let gone : waiting s ≡ piece ++ concat (shift s.input_queue) =
              given
              ∙ ap (λ b. piece ++ b)
                  (drop-append (o + n) f (concat q) all ∙ ap (λ x. concat (shift x)) (sym e)) in
            rw whole (
              record {
                in_first =
                    subst (λ x. IsInside 0 (shift x)) (sym e) (AreFull-IsInside q (inside.1));
                count = count-moves (concat (shift s.input_queue)) gone l v.counted;
                limit = omega (arith, v.bounded);
              },
              stream-moves (concat (shift s.input_queue)) gone,
            )
        | inr part ↦
            let some_left : o + n < length f = let k = ap length h0 in ground arith in
            let left : waiting s ≡ piece ++ drop (o + n) (concat s.input_queue) =
              given ∙ ap (λ x. piece ++ drop (o + n) (concat x)) (sym e) in
            rw part (
              record {
                in_first = subst (IsInside (o + n)) (sym e) (some_left, inside.1);
                count = count-moves (drop (o + n) (concat s.input_queue)) left l v.counted;
                limit = omega (arith, v.bounded);
              },
              stream-moves (drop (o + n) (concat s.input_queue)) left,
            )
      ]
