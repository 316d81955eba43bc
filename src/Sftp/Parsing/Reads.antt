-- ===== src/Sftp/Parsing/Reads.antt =====
-- What a parser of worker/src/webssh/ssh/sftp.ts takes from the packet, and how that composes.
use cf_workers_vpsmonitor.Common.{
  ℕ, ◌+◌, ◌-◌, ◌<◌, ◌^◌, false, [], ◌++◌, Option, some, length, take, drop, ltb, ◌≡◌, refl, sym, ap,
  subst, ◌∙◌, Result, ok, throw, arith, append_assoc, length-append, take-append, drop-append,
}
use cf_workers_vpsmonitor.Common.State.{◌>>=◌, pure}
use cf_workers_vpsmonitor.Ssh.Wire.{Bytes, read_uint32, encode_uint32, encode_string}
use cf_workers_vpsmonitor.Ssh.Wire.Laws.{
  be32, read_uint32_lem, encode_string_lem, encode_uint32_lem,
}
use cf_workers_vpsmonitor.Sftp.Frames.{SftpError}
use cf_workers_vpsmonitor.Sftp.Reader.{
  Reading, remaining, require_bytes, read_number, read_slice, read_string_bytes, read_text,
  or_malformed,
}

-- From these bytes, wherever they stand in the packet, the parser reads the value, and it takes
-- just them.
abbrev pub Reads : {A : Type 0} → Reading A → Bytes → A → Type 0
Reads m bytes a =
    (d before rest : Bytes) (o : ℕ)
    → d ≡ before ++ (bytes ++ rest)
    → o ≡ length before
    → m (record { data_bytes = d; offset = o })
      ≡ (ok a, record { data_bytes = d; offset = o + length bytes })

pub pure-Reads : {A : Type 0} (a : A) → Reads (pure a) [] a
pure-Reads a d before rest o e h =
    ap (λ n. (ok a, record { data_bytes = d; offset = n })) (omega arith)

-- The parser reads what was encoded, where it could be encoded.
abbrev pub OkReads : {A : Type 0} → Result SftpError Bytes → Reading A → A → Type 0
OkReads (ok bytes) m a = Reads m bytes a
OkReads (throw e) m a = Unit

module _ {A B : Type 0} where
  pub >>=-Reads :
      (m : Reading A) (f : A → Reading B) (xs ys : Bytes) (a : A) (b : B)
      → Reads m xs a
      → Reads (f a) ys b
      → Reads (m >>= f) (xs ++ ys) b
  >>=-Reads m f xs ys a b h k d before rest o e p =
      rw (h d before (ys ++ rest) o (e ∙ ap (λ t. before ++ t) (append_assoc xs ys rest)) p) (
        k d (before ++ xs) rest (o + length xs)
          (e
            ∙ ap (λ t. before ++ t) (append_assoc xs ys rest)
            ∙ sym (append_assoc before xs (ys ++ rest)))
          (omega (arith, length-append before xs))
        ∙ ap (λ n. (ok b, record { data_bytes = d; offset = n }))
            (omega (arith, length-append xs ys)))

-- The tests of `require` pass where the bytes are there.
require_bytes_lem :
    (n : ℕ) (d before bytes rest : Bytes) (o : ℕ)
    → d ≡ before ++ (bytes ++ rest)
    → o ≡ length before
    → n ≡ length bytes
    → require_bytes n (record { data_bytes = d; offset = o })
      ≡ (ok tt, record { data_bytes = d; offset = o })
unfolding require_bytes remaining
require_bytes_lem n d before bytes rest o e p q =
    let l = ap length e in
    let s : ltb (length d - o) n ≡ false =
      ground (arith, length-append before (bytes ++ rest), length-append bytes rest) in
    rw s refl

pub read_number-Reads : (v : ℕ) → v < 2 ^ 32 → Reads read_number (encode_uint32 v) v
unfolding read_number
read_number-Reads v h d before rest o e p =
    let b : d ≡ before ++ (be32 v ++ rest) =
      e ∙ ap (λ t. before ++ (t ++ rest)) (encode_uint32_lem v) in
    let value : read_uint32 d o ≡ v =
      ap (λ t. read_uint32 t o) b ∙ read_uint32_lem before v rest o p h in
    let l = ap length (encode_uint32_lem v) in
    rw (require_bytes_lem 4 d before (be32 v) rest o b p refl, value)
      (ap (λ n. (ok v, record { data_bytes = d; offset = n })) (omega arith))

pub read_slice-Reads : (bytes : Bytes) → Reads (read_slice (length bytes)) bytes bytes
unfolding read_slice
read_slice-Reads bytes d before rest o e p =
    let value : take (length bytes) (drop o d) ≡ bytes =
      ap (λ t. take (length bytes) (drop o t)) e
      ∙ ap (take (length bytes)) (drop-append o before (bytes ++ rest) p)
      ∙ take-append (length bytes) bytes rest refl in
    rw (require_bytes_lem (length bytes) d before bytes rest o e p refl, value) refl

pub read_string_bytes-Reads :
    (s : Bytes) → length s < 2 ^ 32 → Reads read_string_bytes (encode_string s) s
unfolding read_string_bytes
read_string_bytes-Reads s h =
    subst (λ bytes. Reads (read_number >>= read_slice) bytes s)
      (ap (λ t. t ++ s) (encode_uint32_lem (length s)) ∙ sym (encode_string_lem s))
      (>>=-Reads read_number read_slice (encode_uint32 (length s)) s (length s) s
        (read_number-Reads (length s) h) (read_slice-Reads s))

pub read_text-Reads :
    {Text : Type 0} (decode : Bytes → Option Text) (s : Bytes) (t : Text)
    → length s < 2 ^ 32
    → decode s ≡ some t
    → Reads (read_text decode) (encode_string s) t
unfolding read_text or_malformed
read_text-Reads decode s t h k d before rest o e p =
    rw (read_string_bytes-Reads s h d before rest o e p, k) refl
