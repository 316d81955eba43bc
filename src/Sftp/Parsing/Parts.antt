-- ===== src/Sftp/Parsing/Parts.antt =====
-- Each part of the attributes of worker/src/webssh/ssh/sftp.ts that `encodeAttrs` writes is what
-- `parseAttrs` reads.
use cf_workers_vpsmonitor.Common.{
  ℕ, ◌+◌, ◌*◌, ◌/◌, ◌%◌, ◌≤◌, ◌^◌, Bool, true, false, [], ◌∷◌, ◌++◌, Option, none, some, concat,
  replicate, ltb, if◌then◌else◌, ◌≡◌, refl, sym, ap, ap₂, subst, ◌∙◌, Result, ok, throw, ◌>>=◌,
  arith, append-nil, Bool-cases, inl, inr,
}
use cf_workers_vpsmonitor.Common.State
use cf_workers_vpsmonitor.Ssh.Wire.{Bytes, write_uint32, encode_uint32}
use cf_workers_vpsmonitor.Ssh.Wire.Laws.{
  be32, encode_uint32_lem, write_uint32_zeros, write_uint32_blank,
}
use cf_workers_vpsmonitor.Sftp.Frames.{SftpError, invalid_argument}
use cf_workers_vpsmonitor.Sftp.Reader.{Reading, read_number, read_uint64}
use cf_workers_vpsmonitor.Sftp.Attrs.{
  uint32_max, uint64_max, Uint64Input, SftpSize, to_uint64, display_uint64, encode_number,
  encode_uint64, to_bigint, Part, size_part, pair_part, permissions_part,
}
use cf_workers_vpsmonitor.Sftp.Parsing.{read_if, read_size, read_pair}
use cf_workers_vpsmonitor.Sftp.Parsing.Reads.{
  Reads, OkReads, pure-Reads, >>=-Reads, read_number-Reads,
}

abbrev pub bit : Bool → ℕ → ℕ
bit b flag = if b then flag else 0

abbrev pub is_some : {A : Type 0} → Option A → Bool
is_some none = false
is_some (some a) = true

-- A part: its flag is set where the part is there, and its fields are what is then read.
abbrev pub PartReads : {A : Type 0} → Part → Bool → ℕ → Reading A → Option A → Type 0
PartReads (ok (f, fields)) b flag m a = (f ≡ bit b flag) × Reads (read_if b m) (concat fields) a
PartReads (throw e) b flag m a = Unit

module _ {A : Type 0} where
  pub absent-Reads : (m : Reading A) → Reads (read_if false m) [] none
  unfolding read_if
  absent-Reads m = pure-Reads none

  pub present-Reads :
      (m : Reading A) (bytes : Bytes) (a : A)
      → Reads m bytes a
      → Reads (read_if true m) bytes (some a)
  unfolding read_if
  present-Reads m bytes a h =
      subst (λ b. Reads (read_if true m) b (some a)) (append-nil bytes)
        (>>=-Reads m (λ x. State.pure (some x)) bytes [] a (some a) h (pure-Reads (some a)))

  -- A part of one field.
  one_field :
      (r : Result SftpError Bytes) (flag : ℕ) (m : Reading A) (a : A)
      → OkReads r m a
      → PartReads (r >>= λ bytes. ok (flag, bytes ∷ [])) true flag m (some a)
  one_field (throw e) flag m a h = tt
  one_field (ok bytes) flag m a h = (
    refl,
    subst (λ b. Reads (read_if true m) b (some a)) (sym (append-nil bytes))
        (present-Reads m bytes a h),
  )

pub encode_number-Reads : (v : ℕ) → OkReads (encode_number v) read_number v
unfolding encode_number
encode_number-Reads v = elim (Bool-cases (ltb uint32_max v)) [
  | inl big ↦ rw big tt
  | inr fits ↦ rw fits (read_number-Reads v (ground arith))
]

pub permissions_part-Reads :
    (o : Option ℕ) → PartReads (permissions_part o) (is_some o) 4 read_number o
unfolding permissions_part
permissions_part-Reads none = (refl, absent-Reads read_number)
permissions_part-Reads (some v) =
    one_field (encode_number v) 4 read_number v (encode_number-Reads v)

-- What is read for two fields.
abbrev pub both : Option ℕ → Option ℕ → Option (ℕ × ℕ)
both (some a) (some b) = some (a, b)
both none b = none
both (some a) none = none

two_numbers :
    (r s : Result SftpError Bytes) (flag a b : ℕ)
    → OkReads r read_number a
    → OkReads s read_number b
    → PartReads (r >>= λ x. s >>= λ y. ok (flag, x ∷ y ∷ [])) true flag read_pair (some (a, b))
unfolding read_pair
two_numbers (throw e) s flag a b h k = tt
two_numbers (ok x) (throw e) flag a b h k = tt
two_numbers (ok x) (ok y) flag a b h k = (
  refl,
  present-Reads read_pair (x ++ (y ++ [])) (a, b)
      (>>=-Reads read_number (λ p. State.◌>>=◌ read_number (λ q. State.pure (p, q))) x (y ++ []) a
        (a, b) h
        (>>=-Reads read_number (λ q. State.pure (a, q)) y [] b (a, b) k (pure-Reads (a, b)))),
)

pub pair_part-Reads :
    (flag : ℕ) (a b : Option ℕ)
    → PartReads (pair_part flag a b) (is_some (both a b)) flag read_pair (both a b)
unfolding pair_part
pair_part-Reads flag none none = (refl, absent-Reads read_pair)
pair_part-Reads flag none (some b) = tt
pair_part-Reads flag (some a) none = tt
pair_part-Reads flag (some a) (some b) =
    two_numbers (encode_number a) (encode_number b) flag a b (encode_number-Reads a)
      (encode_number-Reads b)

-- The size that the peer reads.
abbrev size_value : Result SftpError ℕ → Option SftpSize
size_value (ok n) = some (display_uint64 n)
size_value (throw e) = none

abbrev pub sent_size : Option Uint64Input → Option SftpSize
sent_size none = none
sent_size (some size) = size_value (to_uint64 size)

uint64_bytes :
    (n : ℕ)
    → write_uint32 (write_uint32 (replicate 8 0) 0 (n / 2 ^ 32)) 4 (n % 2 ^ 32)
      ≡ encode_uint32 (n / 2 ^ 32) ++ encode_uint32 (n % 2 ^ 32)
uint64_bytes n =
    let h = n / 2 ^ 32 in
    let l = n % 2 ^ 32 in
    ap (λ t. write_uint32 t 4 l) (write_uint32_blank 8 4 h refl)
    ∙ write_uint32_zeros (be32 h) 4 4 0 l refl refl
    ∙ append-nil (be32 h ++ be32 l)
    ∙ ap₂ (λ a b. a ++ b) (sym (encode_uint32_lem h)) (sym (encode_uint32_lem l))

read_uint64-Reads :
    (n : ℕ)
    → n ≤ uint64_max
    → Reads read_uint64 (encode_uint32 (n / 2 ^ 32) ++ encode_uint32 (n % 2 ^ 32)) n
unfolding read_uint64
read_uint64-Reads n k =
    let h = n / 2 ^ 32 in
    let l = n % 2 ^ 32 in
    let sum : h * 2 ^ 32 + l ≡ n = omega arith in
    let whole : Reads read_uint64 (encode_uint32 h ++ (encode_uint32 l ++ [])) (h * 2 ^ 32 + l) =
      >>=-Reads read_number (λ a. State.◌>>=◌ read_number (λ b. State.pure (a * 2 ^ 32 + b)))
        (encode_uint32 h) (encode_uint32 l ++ []) h (h * 2 ^ 32 + l)
        (read_number-Reads h (omega arith))
        (>>=-Reads read_number (λ b. State.pure (h * 2 ^ 32 + b)) (encode_uint32 l) [] l
          (h * 2 ^ 32 + l) (read_number-Reads l (omega arith)) (pure-Reads (h * 2 ^ 32 + l))) in
    subst (λ a. Reads read_uint64 (encode_uint32 h ++ encode_uint32 l) a) sum
      (subst (λ t. Reads read_uint64 (encode_uint32 h ++ t) (h * 2 ^ 32 + l))
        (append-nil (encode_uint32 l)) whole)

-- A number that `toUint64` gives fits in 64 bits.
abbrev Fits : Result SftpError ℕ → Type 0
Fits (ok n) = n ≤ uint64_max
Fits (throw e) = Unit

to_uint64-Fits : (size : Uint64Input) → Fits (to_uint64 size)
unfolding to_uint64
to_uint64-Fits size = checked (to_bigint size)
  where
    checked :
        (r : Result SftpError ℕ)
        → Fits (r >>= λ n. if ltb uint64_max n then throw invalid_argument else ok n)
    checked (throw e) = tt
    checked (ok n) = elim (Bool-cases (ltb uint64_max n)) [
      | inl big ↦ rw big tt
      | inr small ↦ rw small (ground arith)
    ]

pub size_part-Reads :
    (o : Option Uint64Input) → PartReads (size_part o) (is_some o) 1 read_size (sent_size o)
unfolding size_part encode_uint64 read_size
size_part-Reads none = (refl, absent-Reads read_size)
size_part-Reads (some size) = go (to_uint64 size) (to_uint64-Fits size)
  where
    go :
        (r : Result SftpError ℕ)
        → Fits r
        → PartReads
            ((r >>= λ n.
                ok (write_uint32 (write_uint32 (replicate 8 0) 0 (n / 2 ^ 32)) 4 (n % 2 ^ 32)))
              >>= λ bytes. ok (1, bytes ∷ []))
            true
            1
            read_size
            (size_value r)
    go (throw e) h = tt
    go (ok n) h =
        let bytes = encode_uint32 (n / 2 ^ 32) ++ encode_uint32 (n % 2 ^ 32) in
        rw (uint64_bytes n) (
          one_field (ok bytes) 1 read_size (display_uint64 n) (
            subst (λ b. Reads read_size b (display_uint64 n)) (append-nil bytes)
              (>>=-Reads read_uint64 (λ v. State.pure (display_uint64 v)) bytes [] n
                (display_uint64 n) (read_uint64-Reads n h) (pure-Reads (display_uint64 n)))))
