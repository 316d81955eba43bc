-- ===== src/Ssh/Wire/Mpint.antt =====
-- `toSSHMPInt` of worker/src/webssh/ssh/utils.ts against the value that the bytes stand for.
use cf_workers_vpsmonitor.Common.{
  ℕ, suc, ◌+◌, ◌*◌, ◌≤◌, ◌<◌, ◌≡◌, refl, ◌⊎◌, inl, inr, [], ◌∷◌, ◌++◌, length, get_or, ◌==◌,
  if◌then◌else◌, Bool-cases, append-nil, arith, blit, replicate, ◌∙◌,
}
use cf_workers_vpsmonitor.Ssh.Wire.{
  Bytes, IsBytes, write_uint32, skip_zeros, needs_leading_zero, to_ssh_mpint,
}
use cf_workers_vpsmonitor.Ssh.Wire.Laws.{be32, write_uint32_zeros, blit_zeros}

-- The number that big-endian bytes stand for, after a prefix that stands for `acc`.
abbrev pub be_value : ℕ → Bytes → ℕ
be_value acc [] = acc
be_value acc (b ∷ bs) = be_value (acc * 256 + b) bs

abbrev first : Bytes → ℕ
first bs = get_or bs 0 0

skip_zeros-value : (bs : Bytes) → be_value 0 (skip_zeros bs) ≡ be_value 0 bs
unfolding skip_zeros
skip_zeros-value [] = refl
skip_zeros-value (b ∷ []) = refl
skip_zeros-value (b ∷ (c ∷ bs)) = ground (arith, skip_zeros-value (c ∷ bs))

skip_zeros-IsBytes : (bs : Bytes) → IsBytes bs → IsBytes (skip_zeros bs)
unfolding skip_zeros
skip_zeros-IsBytes [] h = h
skip_zeros-IsBytes (b ∷ []) h = h
skip_zeros-IsBytes (b ∷ (c ∷ bs)) h = elim (Bool-cases (b == 0)) [
  | inl z ↦ rw z (skip_zeros-IsBytes (c ∷ bs) h.1)
  | inr z ↦ rw z h
]

-- What is left is a single byte or does not begin with 0.
skip_zeros-first :
    (bs : Bytes)
    → 0 < length bs
    → (0 < length (skip_zeros bs))
      × (length (skip_zeros bs) ≤ length bs)
      × ((length (skip_zeros bs) ≡ 1) ⊎ (0 < first (skip_zeros bs)))
unfolding skip_zeros
skip_zeros-first [] h = absurd (omega arith)
skip_zeros-first (b ∷ []) h = (omega arith, omega arith, inl refl)
skip_zeros-first (b ∷ (c ∷ bs)) h = ground (arith, skip_zeros-first (c ∷ bs) (omega arith))

-- The contents of the encoded integer.
payload : Bytes → Bytes
payload significant = if needs_leading_zero significant then 0 ∷ significant else significant

-- The buffer of the branch without and with a leading zero.
plain_layout :
    (s : Bytes)
    → blit (write_uint32 (replicate (4 + length s) 0) 0 (length s + 0)) 4 s ≡ be32 (length s) ++ s
plain_layout s =
    let e : length s + 0 ≡ length s = omega arith in
    rw
      (
        e,
        write_uint32_zeros [] 0 (4 + length s) (length s) (length s) refl refl,
        blit_zeros (be32 (length s)) s 4 (length s) 0 refl (omega arith),
      )
      (append-nil _)

zero_layout :
    (s : Bytes)
    → blit (write_uint32 (replicate (5 + length s) 0) 0 (length s + 1)) 5 s
      ≡ be32 (suc (length s)) ++ (0 ∷ s)
zero_layout s =
    let e : length s + 1 ≡ suc (length s) = omega arith in
    rw
      (
        e,
        write_uint32_zeros [] 0 (5 + length s) (suc (length s)) (suc (length s)) refl (omega arith),
        blit_zeros (be32 (suc (length s)) ++ (0 ∷ [])) s 5 (length s) 0 refl (omega arith),
      )
      (append-nil _)

to_ssh_mpint-payload :
    (bs : Bytes)
    → to_ssh_mpint bs ≡ be32 (length (payload (skip_zeros bs))) ++ payload (skip_zeros bs)
unfolding to_ssh_mpint payload
to_ssh_mpint-payload bs = elim (Bool-cases (needs_leading_zero (skip_zeros bs))) [
  | inl z ↦ rw z (zero_layout (skip_zeros bs))
  | inr z ↦ rw z (plain_layout (skip_zeros bs))
]

payload_lem :
    (s : Bytes)
    → IsBytes s
    → 0 < be_value 0 s
    → (length s ≡ 1) ⊎ (0 < first s)
    → (be_value 0 (payload s) ≡ be_value 0 s)
      × (get_or (payload s) 0 0 < 128)
      × ((0 < get_or (payload s) 0 0) ⊎ (128 ≤ get_or (payload s) 1 0))
      × (length (payload s) ≤ length s + 1)
unfolding payload needs_leading_zero
payload_lem [] h k m = absurd (omega arith)
payload_lem (b ∷ []) h k m = ground arith
payload_lem (b ∷ (c ∷ s)) h k m = ground arith

-- For bytes that stand for a number other than 0 `toSSHMPInt` writes the length and then a contents
-- that stands for the same number, is not negative as a two's complement number, and has no byte
-- too many: it begins with a byte that is not 0, or needs the leading 0.
pub to_ssh_mpint_lem :
    (bs : Bytes)
    → IsBytes bs
    → 0 < be_value 0 bs
    → (s : Bytes) × (to_ssh_mpint bs ≡ be32 (length s) ++ s)
      × (be_value 0 s ≡ be_value 0 bs)
      × (get_or s 0 0 < 128)
      × ((0 < get_or s 0 0) ⊎ (128 ≤ get_or s 1 0))
      × (length s ≤ length bs + 1)
to_ssh_mpint_lem bs h k =
    let (some_left, shorter, start) = skip_zeros-first bs (nonempty bs k) in
    let same = skip_zeros-value bs in
    let (value, sign, minimal, bound) =
      payload_lem (skip_zeros bs) (skip_zeros-IsBytes bs h) (omega arith) start in
    (payload (skip_zeros bs), to_ssh_mpint-payload bs, value ∙ same, sign, minimal, omega arith)
  where
    nonempty : (bs : Bytes) → 0 < be_value 0 bs → 0 < length bs
    nonempty [] k = absurd (omega arith)
    nonempty (b ∷ bs) k = omega arith
