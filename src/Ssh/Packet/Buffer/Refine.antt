-- ===== src/Ssh/Packet/Buffer/Refine.antt =====
-- The chunk buffer is a queue of bytes: what worker/src/webssh/ssh/packet.ts keeps in chunks is
-- compared with the bytes that it stands for.
use cf_workers_vpsmonitor.Common.{
  ◌<◌, ◌⊎◌, subst, Option, le→ltb, ℕ, zero, suc, ◌+◌, ◌-◌, ◌*◌, ◌≤◌, ◌≡◌, refl, sym, ap, ◌∙◌, inl,
  inr, min, true, false, ◌&&◌, List, [], ◌∷◌, ◌++◌, append-nil, append_assoc, none, some, length,
  get_elem?, take, drop, concat, leb, ltb, ◌==◌, if◌then◌else◌, Bool-cases, Result, ok, ◌>>=◌,
  arith, length-append, length-drop, drop-drop, drop-append_le, drop-append_ge, ltb→lt, ltb→le,
  leb→le, ==_iff, suc-eqb-zero, get_elem?-drop, length-zero, take-append_min, take-append_le,
}
use cf_workers_vpsmonitor.Ssh.Wire.{Bytes}
use cf_workers_vpsmonitor.Ssh.Packet.Buffer.{
  PacketError, PacketParser, feed, gather, first_suffices, first_slice, peek_bytes, compact_chunks,
  compact_chunks_threshold, consume_bytes, read_bytes, skip,
}

-- The bytes from an offset in the first chunk on.
abbrev pub pending : List Bytes → ℕ → Bytes
pending [] offset = []
pending (c ∷ cs) offset = drop offset c ++ concat cs

-- The offset lies in the first chunk.
abbrev pub Fits : List Bytes → ℕ → Type 0
Fits [] offset = offset ≡ 0
Fits (c ∷ cs) offset = offset ≤ length c

-- The bytes that are buffered, in order.
abbrev pub contents : PacketParser → Bytes
contents p = pending (drop p.chunk_index p.chunks) p.read_offset

-- The representation invariant of the buffer.
pub record IsValid (p : PacketParser) : Type 0 where
  pub index_in : p.chunk_index ≤ length p.chunks
  pub fits : Fits (drop p.chunk_index p.chunks) p.read_offset
  pub counted : p.buffered_length ≡ length (contents p)

Fits-zero : (cs : List Bytes) → Fits cs 0
Fits-zero [] = refl
Fits-zero (c ∷ cs) = omega arith

pending-zero : (cs : List Bytes) → pending cs 0 ≡ concat cs
pending-zero [] = refl
pending-zero (c ∷ cs) = refl

concat-snoc : (cs : List Bytes) (b : Bytes) → concat (cs ++ (b ∷ [])) ≡ concat cs ++ b
concat-snoc [] b = append-nil b
concat-snoc (c ∷ cs) b = rw (concat-snoc cs b) (sym (append_assoc c (concat cs) b))

pending-snoc :
    (cs : List Bytes) (offset : ℕ) (b : Bytes)
    → Fits cs offset
    → (pending (cs ++ (b ∷ [])) offset ≡ pending cs offset ++ b) × Fits (cs ++ (b ∷ [])) offset
pending-snoc [] offset b h = rw h (append-nil b, omega arith)
pending-snoc (c ∷ cs) offset b h =
    (rw (concat-snoc cs b) (sym (append_assoc (drop offset c) (concat cs) b)), h)

-- `feed` appends to the queue.
pub feed_lem :
    (p : PacketParser) (b : Bytes)
    → IsValid p
    → (contents (feed p b) ≡ contents p ++ b)
      × IsValid (feed p b)
      × ((feed p b).seq_num ≡ p.seq_num)
unfolding feed
feed_lem p [] v = (sym (append-nil (contents p)), v, refl)
feed_lem p (x ∷ b) v =
    let e = drop-append_le p.chunk_index p.chunks ((x ∷ b) ∷ []) v.index_in in
    let (grown, fits) = pending-snoc (drop p.chunk_index p.chunks) p.read_offset (x ∷ b) v.fits in
    rw (suc-eqb-zero (length b), e)
      (
        grown,
        record {
          index_in = omega (arith, length-append {A = Bytes} p.chunks ((x ∷ b) ∷ []), v.index_in);
          fits = rw e fits;
          counted = rw (e, grown) (omega (arith, v.counted, length-append (contents p) (x ∷ b)));
        },
        refl,
      )

gather_lem :
    (cs : List Bytes) (start n : ℕ)
    → Fits cs start
    → n ≤ length (pending cs start)
    → gather cs start n ≡ ok (take n (pending cs start))
unfolding gather
gather_lem cs start zero h k = refl
gather_lem [] start (suc n) h k = absurd (omega arith)
gather_lem (c ∷ cs) start (suc n) h k =
    let copied : ℕ = min (length c - start) (suc n) in
    let e : length (drop start c) ≡ length c - start = length-drop start c in
    rw (
      gather_lem cs 0 (suc n - copied) (Fits-zero cs)
          (rw (pending-zero cs) (omega (arith, e, length-append (drop start c) (concat cs)))),
      pending-zero cs,
      take-append_min (suc n) (drop start c) (concat cs),
      e,
    )

first_slice_lem :
    (cs : List Bytes) (offset n : ℕ)
    → first_suffices (get_elem? cs 0) offset n ≡ true
    → Fits cs offset
    → first_slice (get_elem? cs 0) offset n ≡ take n (pending cs offset)
unfolding first_suffices first_slice
first_slice_lem [] offset n h k = cc
first_slice_lem (c ∷ cs) offset n h k = sym (
    take-append_le n (drop offset c) (concat cs)
      (omega (arith, leb→le n (length c - offset) h, length-drop offset c)))

-- `peek_bytes` shows the first bytes of the queue, or says that there are too few.
pub peek_bytes_lem :
    (p : PacketParser) (n : ℕ)
    → IsValid p
    → peek_bytes p n ≡ ok (if leb n (length (contents p)) then some (take n (contents p)) else none)
unfolding peek_bytes
peek_bytes_lem p zero v = let e : leb 0 (length (contents p)) ≡ true = ground arith in rw e
peek_bytes_lem p (suc n) v = elim (Bool-cases (ltb p.buffered_length (suc n))) [
  | inl short ↦
      let e : leb (suc n) (length (contents p)) ≡ false = ground (arith, v.counted) in
      rw (suc-eqb-zero n, short, e)
  | inr there ↦
      let e : leb (suc n) (length (contents p)) ≡ true = ground (arith, v.counted) in
      rw (suc-eqb-zero n, there, e, get_elem?-drop p.chunks p.chunk_index)
        (found (drop p.chunk_index p.chunks) v.fits (leb→le (suc n) (length (contents p)) e))
]
  where
    found :
        (cs : List Bytes)
        → Fits cs p.read_offset
        → suc n ≤ length (pending cs p.read_offset)
        → (if first_suffices (get_elem? cs 0) p.read_offset (suc n)
            then ok (some (first_slice (get_elem? cs 0) p.read_offset (suc n)))
            else gather cs p.read_offset (suc n) >>= λ bytes. ok (some bytes))
          ≡ ok (some (take (suc n) (pending cs p.read_offset)))
    found cs h k = elim (Bool-cases (first_suffices (get_elem? cs 0) p.read_offset (suc n))) [
      | inl one ↦ rw (one, first_slice_lem cs p.read_offset (suc n) one h)
      | inr several ↦ rw (several, gather_lem cs p.read_offset (suc n) h k)
    ]

-- What `skip` finds: a later chunk, and the queue without its first `n` bytes.
Skipped : List Bytes → ℕ → ℕ → ℕ → Result PacketError (ℕ × ℕ) → Type 0
Skipped cs index offset n r =
    (k offset' : ℕ) × (r ≡ ok (index + k, offset'))
    × (k ≤ length cs)
    × Fits (drop k cs) offset'
    × (pending (drop k cs) offset' ≡ drop n (pending cs offset))

skip_lem :
    (cs : List Bytes) (index offset n : ℕ)
    → Fits cs offset
    → n ≤ length (pending cs offset)
    → Skipped cs index offset n (skip cs index offset n)
unfolding skip Skipped
skip_lem cs index offset zero h k =
    let e : index + 0 ≡ index = omega arith in (0, offset, rw e, omega arith, h, refl)
skip_lem [] index offset (suc n) h k = absurd (omega arith)
skip_lem (c ∷ cs) index offset (suc n) h k = elim (Bool-cases (ltb (suc n) (length c - offset))) [
  | inl within ↦
      let e : index + 0 ≡ index = omega arith in
      let l = ltb→lt (suc n) (length c - offset) within in
      (
        0,
        offset + suc n,
        rw (within, e),
        omega arith,
        omega arith,
        ap (λ t. t ++ concat cs) (sym (drop-drop (suc n) offset c))
            ∙ sym (
                drop-append_le (suc n) (drop offset c) (concat cs)
                  (omega (arith, length-drop offset c))),
      )
  | inr past ↦
      let l = ltb→le (suc n) (length c - offset) past in
      let d : length (drop offset c) ≡ length c - offset = length-drop offset c in
      let m : ℕ = suc n - (length c - offset) in
      let (j, offset', e, inside, fits, rest) =
        skip_lem cs (index + 1) 0 m (Fits-zero cs)
          (rw (pending-zero cs) (omega (arith, d, length-append (drop offset c) (concat cs)))) in
      let shift : index + 1 + j ≡ index + suc j = omega arith in
      (
        suc j,
        offset',
        rw (past, ← shift) e,
        omega arith,
        fits,
        rest
            ∙ ap (drop m) (pending-zero cs)
            ∙ ap (λ t. drop t (concat cs)) {x = m} {y = suc n - length (drop offset c)}
                (omega arith)
            ∙ sym (drop-append_ge (suc n) (drop offset c) (concat cs) (omega arith)),
      )
]

-- Forgetting the consumed chunks keeps the queue.
pub compact_chunks_lem :
    (p : PacketParser)
    → IsValid p
    → (contents (compact_chunks p) ≡ contents p)
      × IsValid (compact_chunks p)
      × ((compact_chunks p).seq_num ≡ p.seq_num)
unfolding compact_chunks
compact_chunks_lem p v = elim (Bool-cases (p.buffered_length == 0)) [
  | inl empty ↦ rw empty (
    sym (length-zero (contents p) (omega (arith, v.counted, (==_iff p.buffered_length 0).0 empty))),
    record { index_in = omega arith; fits = refl; counted = (==_iff p.buffered_length 0).0 empty },
    refl,
  )
  | inr more ↦
      rw more
        elim (Bool-cases (
          ltb compact_chunks_threshold p.chunk_index
          && leb (length p.chunks) (p.chunk_index * 2))) [
            | inl old ↦
                rw old (
                  refl,
                  record { index_in = omega arith; fits = v.fits; counted = v.counted },
                  refl,
                )
            | inr young ↦ rw young (refl, v, refl)
          ]
]

-- Reading from the queue takes its first bytes off.
Consumed : PacketParser → ℕ → Result PacketError PacketParser → Type 0
Consumed p n r =
    (p' : PacketParser) × (r ≡ ok p')
    × (contents p' ≡ drop n (contents p))
    × IsValid p'
    × (p'.seq_num ≡ p.seq_num)

consume_bytes_lem :
    (p : PacketParser) (n : ℕ)
    → IsValid p
    → n ≤ length (contents p)
    → Consumed p n (consume_bytes p n)
unfolding Consumed consume_bytes Skipped
consume_bytes_lem p zero v h = (p, refl, refl, v, refl)
consume_bytes_lem p (suc n) v h =
    let (k, offset', e, inside, fits, rest) =
      skip_lem (drop p.chunk_index p.chunks) p.chunk_index p.read_offset (suc n) v.fits h in
    let q : PacketParser = record p {
      buffered_length = p.buffered_length - suc n;
      chunk_index = p.chunk_index + k;
      read_offset = offset';
    } in
    let at : drop k (drop p.chunk_index p.chunks) ≡ drop (p.chunk_index + k) p.chunks =
      drop-drop k p.chunk_index p.chunks in
    let left : contents q ≡ drop (suc n) (contents p) =
      ap (λ cs. pending cs offset') (sym at) ∙ rest in
    let q_valid : IsValid q = record {
      index_in = omega (arith, v.index_in, inside, length-drop {A = Bytes} p.chunk_index p.chunks);
      fits = subst (λ cs. Fits cs offset') at fits;
      counted = rw left (omega (arith, v.counted, length-drop (suc n) (contents p)));
    } in
    let (kept, valid, seq) = compact_chunks_lem q q_valid in
    (
      compact_chunks q,
      rw (suc-eqb-zero n, le→ltb p.buffered_length (suc n) (omega (arith, v.counted)), e),
      kept ∙ left,
      valid,
      seq,
    )

-- `read_bytes` takes exactly the bytes asked for off the front of the queue, or leaves the parser
-- as it is where too few are buffered; it does not throw.
abbrev pub ReadsQueue : PacketParser → ℕ → Result PacketError (Option Bytes × PacketParser) → Type 0
ReadsQueue p n r =
    ((length (contents p) < n) × (r ≡ ok (none, p)))
    ⊎ ((n ≤ length (contents p))
        × (p' : PacketParser) × (r ≡ ok (some (take n (contents p)), p'))
        × (contents p' ≡ drop n (contents p))
        × IsValid p'
        × (p'.seq_num ≡ p.seq_num))

pub read_bytes_lem : (p : PacketParser) (n : ℕ) → IsValid p → ReadsQueue p n (read_bytes p n)
unfolding read_bytes Consumed
read_bytes_lem p n v = elim (Bool-cases (leb n (length (contents p)))) [
  | inl there ↦
      let l = leb→le n (length (contents p)) there in
      let (p', e, left, valid, seq) = consume_bytes_lem p n v l in
      inr (l, p', rw (peek_bytes_lem p n v, there, e), left, valid, seq)
  | inr short ↦ inl (ground arith, rw (peek_bytes_lem p n v, short))
]
