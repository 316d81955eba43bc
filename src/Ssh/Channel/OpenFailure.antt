-- ===== src/Ssh/Channel/OpenFailure.antt =====
-- Which refusals `handleOpenFailure` of worker/src/webssh/ssh/channel.ts takes for well-formed.
use cf_workers_vpsmonitor.Common.{
  ℕ, suc, ◌+◌, ◌-◌, ◌^◌, ◌≤◌, ◌<◌, ◌≡◌, refl, sym, ap, ◌∙◌, true, false, ◌++◌, append_assoc, length,
  ◌==◌, if◌then◌else◌, length-append, get_or-append_le, ok, throw, arith, ==_iff, le→ltb,
  Bool-cases, inl, inr,
}
use cf_workers_vpsmonitor.Ssh.Wire.{Bytes, read_uint32, encode_string}
use cf_workers_vpsmonitor.Ssh.Wire.Laws.{
  be32, read_uint32_lem, encode_string_lem, length-encode_string,
}
use cf_workers_vpsmonitor.Ssh.Channel.{
  malformed, SshChannel, skip_strings, end_check, handle_open_failure,
}

-- One string behind what is already read is skipped.
skip_strings-string :
    (done a t : Bytes) (rounds o : ℕ)
    → o ≡ length done
    → length a < 2 ^ 32
    → skip_strings (done ++ (be32 (length a) ++ (a ++ t))) (suc rounds) o
      ≡ skip_strings (done ++ (be32 (length a) ++ (a ++ t))) rounds (o + 4 + length a)
unfolding skip_strings
skip_strings-string done a t rounds o h k =
    let p : Bytes = done ++ (be32 (length a) ++ (a ++ t)) in
    let size : length p ≡ length done + (4 + (length a + length t)) =
      omega (arith, length-append done (be32 (length a) ++ (a ++ t)), length-append a t) in
    rw (
      read_uint32_lem done (length a) (a ++ t) o h k,
      le→ltb (length p) (o + 4) (omega (arith, size)),
      le→ltb (length p - (o + 4)) (length a) (omega (arith, size)),
    )

two_strings :
    (head a b rest : Bytes)
    → length head ≡ 9
    → length a < 2 ^ 32
    → length b < 2 ^ 32
    → skip_strings (head ++ (encode_string a ++ (encode_string b ++ rest))) 2 9
      ≡ ok (9 + 4 + length a + 4 + length b)
unfolding skip_strings
two_strings head a b rest h k l =
    let t : Bytes = be32 (length b) ++ (b ++ rest) in
    let done : Bytes = head ++ (be32 (length a) ++ a) in
    let p : Bytes = head ++ (be32 (length a) ++ (a ++ t)) in
    let e : head ++ (encode_string a ++ (encode_string b ++ rest)) ≡ p =
      rw (encode_string_lem a, encode_string_lem b) refl in
    let f : p ≡ done ++ t = sym (append_assoc head (be32 (length a) ++ a) t) in
    ap (λ x. skip_strings x 2 9) e
    ∙ skip_strings-string head a t 1 9 (sym h) k
    ∙ ap (λ x. skip_strings x 1 (9 + 4 + length a)) f
    ∙ skip_strings-string done b rest 0 (9 + 4 + length a)
        (omega (arith, h, length-append head (be32 (length a) ++ a))) l

read_uint32-append :
    (head t : Bytes) → 5 ≤ length head → read_uint32 (head ++ t) 1 ≡ read_uint32 head 1
unfolding read_uint32
read_uint32-append head t h = rw (
  get_or-append_le head t 1 0 (omega arith),
  get_or-append_le head t (1 + 1) 0 (omega arith),
  get_or-append_le head t (1 + 2) 0 (omega arith),
  get_or-append_le head t (1 + 3) 0 (omega arith),
)

-- A refusal that consists of nine bytes with this channel's number, two encoded strings and some
-- further bytes is accepted if there are no further bytes, and refused as malformed if there are. The
-- channel does not change.
pub handle_open_failure_lem :
    (c : SshChannel) (head a b rest : Bytes)
    → length head ≡ 9
    → read_uint32 head 1 ≡ c.local_channel_id
    → length a < 2 ^ 32
    → length b < 2 ^ 32
    → handle_open_failure (head ++ (encode_string a ++ (encode_string b ++ rest))) c
      ≡ ((if length rest == 0 then ok tt else throw malformed), c)
unfolding handle_open_failure end_check
handle_open_failure_lem c head a b rest h i k l =
    let p : Bytes = head ++ (encode_string a ++ (encode_string b ++ rest)) in
    let size : length p ≡ 9 + 4 + length a + 4 + length b + length rest = omega (
      arith,
      h,
      length-append head (encode_string a ++ (encode_string b ++ rest)),
      length-append (encode_string a) (encode_string b ++ rest),
      length-append (encode_string b) rest,
      length-encode_string a,
      length-encode_string b,
    ) in
    let same : read_uint32 p 1 ≡ c.local_channel_id =
      read_uint32-append head (encode_string a ++ (encode_string b ++ rest)) (omega arith) ∙ i in
    checked p (9 + 4 + length a + 4 + length b) (length rest) size same
      (two_strings head a b rest h k l) (omega arith)
  where
    checked :
        (p : Bytes) (o n : ℕ)
        → length p ≡ o + n
        → read_uint32 p 1 ≡ c.local_channel_id
        → skip_strings p 2 9 ≡ ok o
        → 17 ≤ o
        → handle_open_failure p c ≡ ((if n == 0 then ok tt else throw malformed), c)
    checked p o n size same skipped long =
        rw
          (
            le→ltb (length p) 17 (omega arith),
            (==_iff (read_uint32 p 1) c.local_channel_id).1 same,
            skipped,
          )
          elim (Bool-cases (n == 0)) [
            | inl z ↦ let e : (o == length p) ≡ true = ground arith in rw (z, e)
            | inr z ↦ let e : (o == length p) ≡ false = ground arith in rw (z, e)
          ]
