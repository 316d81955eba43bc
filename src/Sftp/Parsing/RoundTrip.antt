-- ===== src/Sftp/Parsing/RoundTrip.antt =====
-- `parseAttrs` of worker/src/webssh/ssh/sftp.ts reads what `encodeAttrs` writes.
use cf_workers_vpsmonitor.Common.{
  ℕ, ◌+◌, ◌<◌, ◌^◌, Bool, false, List, [], ◌∷◌, ◌++◌, Option, none, some, concat, ltb, ◌≡◌, refl,
  sym, ap, subst, ◌∙◌, Result, ok, throw, ◌>>=◌, arith, append-nil, append_assoc, both_steps,
  Bool-cases, inl, inr,
}
use cf_workers_vpsmonitor.Common.State
use cf_workers_vpsmonitor.Ssh.Wire.{Bytes, encode_uint32, concat_bytes}
use cf_workers_vpsmonitor.Ssh.Wire.Laws.{concat_bytes-eq-concat}
use cf_workers_vpsmonitor.Sftp.Frames.{SftpError, malformed}
use cf_workers_vpsmonitor.Sftp.Reader.{Reading, read_number}
use cf_workers_vpsmonitor.Sftp.Attrs.{
  uint32_max, encode_number, AttrsInput, Part, extended_part, encode_given, encode_attrs, size_part,
  pair_part, permissions_part,
}
use cf_workers_vpsmonitor.Sftp.Parsing.{
  SftpAttrs, has_unknown_flag, has_flag, first_of, second_of, read_if, read_size, read_pair,
  read_extensions_counted, parse_attrs, from_size, from_owner, from_permissions, from_times,
  from_extended,
}
use cf_workers_vpsmonitor.Sftp.Parsing.Reads.{
  Reads, OkReads, pure-Reads, >>=-Reads, read_number-Reads,
}
use cf_workers_vpsmonitor.Sftp.Parsing.Parts.{
  bit, is_some, both, PartReads, sent_size, size_part-Reads, pair_part-Reads,
  permissions_part-Reads,
}
use cf_workers_vpsmonitor.Sftp.Parsing.Extended.{extended_part-Reads, AreGivenBack}

-- The flags word, of which parts are there.
abbrev flags_word : Bool → Bool → Bool → Bool → Bool → ℕ
flags_word a b c d e = bit a 1 + bit b 2 + bit c 4 + bit d 8 + bit e 0x80000000

-- The flags can be told apart again, and none is unknown.
flags_read :
    (a b c d e : Bool)
    → (has_unknown_flag (flags_word a b c d e) ≡ false)
      × (has_flag (flags_word a b c d e) 0 ≡ a)
      × (has_flag (flags_word a b c d e) 1 ≡ b)
      × (has_flag (flags_word a b c d e) 2 ≡ c)
      × (has_flag (flags_word a b c d e) 3 ≡ d)
      × (has_flag (flags_word a b c d e) 31 ≡ e)
unfolding has_unknown_flag has_flag
flags_read a b c d e = ground arith

pair_part-both :
    (flag : ℕ) (a b : Option ℕ) {p : ℕ × List Bytes}
    → pair_part flag a b ≡ ok p
    → (first_of (both a b) ≡ a) × (second_of (both a b) ≡ b)
unfolding pair_part
pair_part-both flag none none h = (refl, refl)
pair_part-both flag none (some b) h = cc
pair_part-both flag (some a) none h = cc
pair_part-both flag (some a) (some b) h = (refl, refl)

concat-append : (xs ys : List Bytes) → concat (xs ++ ys) ≡ concat xs ++ concat ys
concat-append [] ys = refl
concat-append (x ∷ xs) ys =
    ap (λ t. x ++ t) (concat-append xs ys) ∙ sym (append_assoc x (concat xs) (concat ys))

module _ {Text : Type 0} (encode : Text → Bytes) (decode : Bytes → Option Text) where
  abbrev flags_of : AttrsInput Text → ℕ
  flags_of a =
      flags_word (is_some a.size) (is_some (both a.uid a.gid)) (is_some a.permissions)
        (is_some (both a.atime a.mtime)) (is_some a.extended)

  -- What is read of two numbers where both are there.
  abbrev read_attrs : AttrsInput Text → SftpAttrs Text
  read_attrs a = record {
    flags = flags_of a;
    size = sent_size a.size;
    uid = first_of (both a.uid a.gid);
    gid = second_of (both a.uid a.gid);
    permissions = a.permissions;
    atime = first_of (both a.atime a.mtime);
    mtime = second_of (both a.atime a.mtime);
    extended = a.extended;
  }

  abbrev accept : ℕ → ℕ → Reading (SftpAttrs Text)
  accept max_extended flags =
      State.◌>>◌ (State.refuse (has_unknown_flag flags) malformed)
        (from_size decode max_extended flags)

  parse_attrs-Reads :
      (max_extended : ℕ) (a : AttrsInput Text) (size owner permissions times extended : Bytes)
      → flags_of a < 2 ^ 32
      → Reads (read_if (is_some a.size) read_size) size (sent_size a.size)
      → Reads (read_if (is_some (both a.uid a.gid)) read_pair) owner (both a.uid a.gid)
      → Reads (read_if (is_some a.permissions) read_number) permissions a.permissions
      → Reads (read_if (is_some (both a.atime a.mtime)) read_pair) times (both a.atime a.mtime)
      → Reads
          (read_if (is_some a.extended) (read_extensions_counted decode max_extended))
          extended
          a.extended
      → Reads
          (parse_attrs decode max_extended)
          (encode_uint32 (flags_of a)
            ++ (size ++ (owner ++ (permissions ++ (times ++ (extended ++ []))))))
          (read_attrs a)
  unfolding parse_attrs from_size from_owner from_permissions from_times from_extended
  parse_attrs-Reads max_extended a size owner permissions times extended h h0 h1 h2 h3 h4 =
      let flags = flags_of a in
      let (u, f0, f1, f2, f3, f4) =
        flags_read (is_some a.size) (is_some (both a.uid a.gid)) (is_some a.permissions)
          (is_some (both a.atime a.mtime)) (is_some a.extended) in
      >>=-Reads read_number (accept max_extended) (encode_uint32 flags) _ flags (read_attrs a)
        (read_number-Reads flags h)
        (rw u (
          >>=-Reads (read_if (has_flag flags 0) read_size) (from_owner decode max_extended flags)
            size _ (sent_size a.size) (read_attrs a) (rw f0 h0)
            (>>=-Reads (read_if (has_flag flags 1) read_pair)
              (from_permissions decode max_extended flags (sent_size a.size)) owner _
              (both a.uid a.gid) (read_attrs a) (rw f1 h1)
              (>>=-Reads (read_if (has_flag flags 2) read_number)
                (from_times decode max_extended flags (sent_size a.size) (both a.uid a.gid))
                permissions _ a.permissions (read_attrs a) (rw f2 h2)
                (>>=-Reads (read_if (has_flag flags 3) read_pair)
                  (from_extended decode max_extended flags (sent_size a.size) (both a.uid a.gid)
                    a.permissions)
                  times _ (both a.atime a.mtime) (read_attrs a) (rw f3 h3)
                  (>>=-Reads
                    (read_if (has_flag flags 31) (read_extensions_counted decode max_extended))
                    (λ e. State.pure (record (read_attrs a) { extended = e })) extended []
                    a.extended (read_attrs a) (rw f4 h4) (pure-Reads (read_attrs a))))))))

  -- The end of `encodeAttrs`.
  abbrev finish :
      ℕ × List Bytes
      → ℕ × List Bytes
      → ℕ × List Bytes
      → ℕ × List Bytes
      → ℕ × List Bytes
      → Result SftpError Bytes
  finish p0 p1 p2 p3 p4 = encode_number (p0.0 + p1.0 + p2.0 + p3.0 + p4.0) >>= λ flags.
      ok (concat_bytes (flags ∷ (p0.1 ++ (p1.1 ++ (p2.1 ++ (p3.1 ++ p4.1))))))

  finish-Reads :
      (max_extended : ℕ) (a : AttrsInput Text) (p0 p1 p2 p3 p4 : ℕ × List Bytes)
      → PartReads (ok p0) (is_some a.size) 1 read_size (sent_size a.size)
      → PartReads (ok p1) (is_some (both a.uid a.gid)) 2 read_pair (both a.uid a.gid)
      → PartReads (ok p2) (is_some a.permissions) 4 read_number a.permissions
      → PartReads (ok p3) (is_some (both a.atime a.mtime)) 8 read_pair (both a.atime a.mtime)
      → PartReads
          (ok p4)
          (is_some a.extended)
          0x80000000
          (read_extensions_counted decode max_extended)
          a.extended
      → OkReads (finish p0 p1 p2 p3 p4) (parse_attrs decode max_extended) (read_attrs a)
  unfolding encode_number
  finish-Reads max_extended a (f0, s0) (f1, s1) (f2, s2) (f3, s3) (f4, s4) (e0, r0) (e1, r1)
        (e2, r2) (e3, r3) (e4, r4) =
      let sum : f0 + f1 + f2 + f3 + f4 ≡ flags_of a = rw (e0, e1, e2, e3, e4) refl in
      rw sum (elim (Bool-cases (ltb uint32_max (flags_of a))) [
        | inl big ↦ rw big tt
        | inr fits ↦ rw fits (
            subst (λ b. Reads (parse_attrs decode max_extended) b (read_attrs a))
              (ap (λ t. encode_uint32 (flags_of a) ++ t) (sym (joined s0 s1 s2 s3 s4))
                ∙ sym (
                    concat_bytes-eq-concat
                      (encode_uint32 (flags_of a) ∷ (s0 ++ (s1 ++ (s2 ++ (s3 ++ s4)))))))
              (parse_attrs-Reads max_extended a (concat s0) (concat s1) (concat s2) (concat s3)
                (concat s4) (ground arith) r0 r1 r2 r3 r4))
      ])
    where
      joined :
          (t0 t1 t2 t3 t4 : List Bytes)
          → concat (t0 ++ (t1 ++ (t2 ++ (t3 ++ t4))))
            ≡ concat t0 ++ (concat t1 ++ (concat t2 ++ (concat t3 ++ (concat t4 ++ []))))
      joined t0 t1 t2 t3 t4 = simp (concat-append, append-nil)

  given-Reads :
      (max_extended : ℕ) (a : AttrsInput Text) (p0 p1 p2 p3 p4 : Part)
      → PartReads p0 (is_some a.size) 1 read_size (sent_size a.size)
      → PartReads p1 (is_some (both a.uid a.gid)) 2 read_pair (both a.uid a.gid)
      → PartReads p2 (is_some a.permissions) 4 read_number a.permissions
      → PartReads p3 (is_some (both a.atime a.mtime)) 8 read_pair (both a.atime a.mtime)
      → PartReads p4
          (is_some a.extended)
          0x80000000
          (read_extensions_counted decode max_extended)
          a.extended
      → OkReads
          (p0 >>= λ x0. p1 >>= λ x1. p2 >>= λ x2. p3 >>= λ x3. p4 >>= λ x4. finish x0 x1 x2 x3 x4)
          (parse_attrs decode max_extended)
          (read_attrs a)
  given-Reads m a (throw e) p1 p2 p3 p4 h0 h1 h2 h3 h4 = tt
  given-Reads m a (ok x0) (throw e) p2 p3 p4 h0 h1 h2 h3 h4 = tt
  given-Reads m a (ok x0) (ok x1) (throw e) p3 p4 h0 h1 h2 h3 h4 = tt
  given-Reads m a (ok x0) (ok x1) (ok x2) (throw e) p4 h0 h1 h2 h3 h4 = tt
  given-Reads m a (ok x0) (ok x1) (ok x2) (ok x3) (throw e) h0 h1 h2 h3 h4 = tt
  given-Reads m a (ok x0) (ok x1) (ok x2) (ok x3) (ok x4) h0 h1 h2 h3 h4 =
      finish-Reads m a x0 x1 x2 x3 x4 h0 h1 h2 h3 h4

-- What the peer reads of the attributes: the flags say which are there, and the size is shown as
-- `displayUint64` shows it.
abbrev pub sent_attrs : {Text : Type 0} → AttrsInput Text → SftpAttrs Text
sent_attrs a = record {
  flags =
      flags_word (is_some a.size) (is_some (both a.uid a.gid)) (is_some a.permissions)
        (is_some (both a.atime a.mtime)) (is_some a.extended);
  size = sent_size a.size;
  uid = a.uid;
  gid = a.gid;
  permissions = a.permissions;
  atime = a.atime;
  mtime = a.mtime;
  extended = a.extended;
}

-- Attributes that `encodeAttrs` accepts are read back by `parseAttrs` under the same limit,
-- wherever they stand in a packet, and it takes just their bytes; where the decoder gives back the
-- encoded type name of each extended attribute.
pub parse_attrs-encode_attrs :
    {Text : Type 0} (encode : Text → Bytes) (decode : Bytes → Option Text) (max_extended : ℕ)
    (a : AttrsInput Text) (bytes : Bytes)
    → AreGivenBack encode decode a.extended
    → encode_attrs encode max_extended (some a) ≡ ok bytes
    → Reads (parse_attrs decode max_extended) bytes (sent_attrs a)
unfolding encode_attrs encode_given
parse_attrs-encode_attrs encode decode max_extended a bytes k h =
    let all : OkReads (encode_attrs encode max_extended (some a)) (parse_attrs decode max_extended)
        (read_attrs encode decode a) =
      given-Reads encode decode max_extended a (size_part a.size) (pair_part 2 a.uid a.gid)
        (permissions_part a.permissions) (pair_part 8 a.atime a.mtime)
        (extended_part encode max_extended a.extended) (size_part-Reads a.size)
        (pair_part-Reads 2 a.uid a.gid) (permissions_part-Reads a.permissions)
        (pair_part-Reads 8 a.atime a.mtime)
        (extended_part-Reads encode decode max_extended a.extended k) in
    let (x0, h0, e0) = both_steps (size_part a.size) _ h in
    let (x1, h1, e1) = both_steps (pair_part 2 a.uid a.gid) _ h0 in
    let (x2, h2, e2) = both_steps (permissions_part a.permissions) _ h1 in
    let (x3, h3, e3) = both_steps (pair_part 8 a.atime a.mtime) _ h2 in
    let (uid, gid) = pair_part-both 2 a.uid a.gid e1 in
    let (atime, mtime) = pair_part-both 8 a.atime a.mtime e3 in
    let same : read_attrs encode decode a ≡ sent_attrs a =
      (λ i. record (sent_attrs a) { uid = uid i; gid = gid i; atime = atime i; mtime = mtime i }) in
    subst (Reads (parse_attrs decode max_extended) bytes) same
      (subst (λ r. OkReads r (parse_attrs decode max_extended) (read_attrs encode decode a)) h all)
