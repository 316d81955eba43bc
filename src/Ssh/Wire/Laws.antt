-- ===== src/Ssh/Wire/Laws.antt =====
-- What the functions of worker/src/webssh/ssh/utils.ts write, and that it reads back.
use cf_workers_vpsmonitor.Common.{
  ℕ, suc, ◌+◌, ◌/◌, ◌%◌, ◌^◌, ◌≤◌, ◌<◌, ◌≡◌, refl, ap, ◌∙◌, List, [], ◌∷◌, ◌++◌, length, set, drop,
  replicate, concat, blit, blit_lem, set-append, get_or-append, length-append, length-replicate,
  length-drop, length-take, take, take-append-drop, drop-drop, take-append, drop-append,
  replicate-add, sym, append-nil, append_assoc, arith,
}
use cf_workers_vpsmonitor.Ssh.Wire.{
  Bytes, read_uint32, write_uint32, encode_uint32, encode_string, total_length, concat_from,
  concat_bytes,
}

-- A number as four bytes, the highest first.
abbrev pub be32 : ℕ → Bytes
be32 v = v / 2 ^ 24 % 256 ∷ v / 2 ^ 16 % 256 ∷ v / 2 ^ 8 % 256 ∷ v % 256 ∷ []

-- `write_uint32` overwrites the four bytes at its offset and nothing else.
pub write_uint32_lem :
    (done : Bytes) (a b c d : ℕ) (rest : Bytes) (o v : ℕ)
    → o ≡ length done
    → write_uint32 (done ++ (a ∷ b ∷ c ∷ d ∷ rest)) o v ≡ done ++ (be32 v ++ rest)
unfolding write_uint32
write_uint32_lem done a b c d rest o v h = rw (
  set-append done (a ∷ b ∷ c ∷ d ∷ rest) o 0 (v / 2 ^ 24 % 256) (omega arith),
  set-append done _ (o + 1) 1 (v / 2 ^ 16 % 256) (omega arith),
  set-append done _ (o + 2) 2 (v / 2 ^ 8 % 256) (omega arith),
  set-append done _ (o + 3) 3 (v % 256) (omega arith),
)

pub read_uint32_lem :
    (done : Bytes) (v : ℕ) (rest : Bytes) (o : ℕ)
    → o ≡ length done
    → v < 2 ^ 32
    → read_uint32 (done ++ (be32 v ++ rest)) o ≡ v
unfolding read_uint32
read_uint32_lem done v rest o h k =
    rw
      (
        get_or-append done (be32 v ++ rest) o 0 0 (omega arith),
        get_or-append done (be32 v ++ rest) (o + 1) 1 0 (omega arith),
        get_or-append done (be32 v ++ rest) (o + 2) 2 0 (omega arith),
        get_or-append done (be32 v ++ rest) (o + 3) 3 0 (omega arith),
      )
      (omega arith)

pub encode_uint32_lem : (v : ℕ) → encode_uint32 v ≡ be32 v
unfolding encode_uint32
encode_uint32_lem v = refl

-- Writing into a fresh buffer: what is written is followed by the zeros that are left.
pub blit_zeros :
    (done s : Bytes) (o n m : ℕ)
    → o ≡ length done
    → n ≡ length s + m
    → blit (done ++ replicate n 0) o s ≡ (done ++ s) ++ replicate m 0
blit_zeros done s o n m h k =
    rw
      (
        k,
        blit_lem o done (replicate (length s + m) 0) s h
            (omega (arith, length-replicate {A = ℕ} (length s + m) 0)),
        replicate-add {A = ℕ} (length s) m 0,
        drop-append (length s) (replicate (length s) 0) (replicate m 0)
            (sym (length-replicate {A = ℕ} (length s) 0)),
      )
      (sym (append_assoc done s (replicate m 0)))

pub write_uint32_zeros :
    (done : Bytes) (o n m v : ℕ)
    → o ≡ length done
    → n ≡ 4 + m
    → write_uint32 (done ++ replicate n 0) o v ≡ (done ++ be32 v) ++ replicate m 0
write_uint32_zeros done o n m v h k =
    let e : n ≡ suc (suc (suc (suc m))) = omega arith in
    rw (e, write_uint32_lem done 0 0 0 0 (replicate m 0) o v h)
      (sym (append_assoc done (be32 v) (replicate m 0)))

-- The same at the start of the buffer.
pub write_uint32_blank :
    (n m v : ℕ) → n ≡ 4 + m → write_uint32 (replicate n 0) 0 v ≡ be32 v ++ replicate m 0
write_uint32_blank n m v h = write_uint32_zeros [] 0 n m v refl h

pub blit_blank :
    (s : Bytes) (n m : ℕ) → n ≡ length s + m → blit (replicate n 0) 0 s ≡ s ++ replicate m 0
blit_blank s n m h = blit_zeros [] s 0 n m refl h

pub set_zeros :
    (done : Bytes) (o n m v : ℕ)
    → o ≡ length done
    → n ≡ 1 + m
    → set (done ++ replicate n 0) o v ≡ (done ++ (v ∷ [])) ++ replicate m 0
set_zeros done o n m v h k =
    let e : n ≡ suc m = omega arith in
    rw (e, set-append done (0 ∷ replicate m 0) o 0 v (omega arith))
      (sym (append_assoc done (v ∷ []) (replicate m 0)))

-- The bytes of a string are its length in four bytes, then its contents.
pub encode_string_lem : (s : Bytes) → encode_string s ≡ be32 (length s) ++ s
unfolding encode_string
encode_string_lem s =
    rw
      (
        write_uint32_zeros [] 0 (4 + length s) (length s) (length s) refl refl,
        blit_zeros (be32 (length s)) s 4 (length s) 0 refl (omega arith),
      )
      (append-nil _)

pub length-encode_string : (s : Bytes) → length (encode_string s) ≡ 4 + length s
length-encode_string s = rw (encode_string_lem s) (omega arith)

total_length_lem :
    (arrays : List Bytes) (n : ℕ) → total_length arrays n ≡ n + length (concat arrays)
unfolding total_length
total_length_lem [] n = omega arith
total_length_lem (a ∷ arrays) n =
    omega (arith, total_length_lem arrays (n + length a), length-append a (concat arrays))

concat_from_lem :
    (done : Bytes) (arrays : List Bytes) (o n : ℕ)
    → o ≡ length done
    → n ≡ length (concat arrays)
    → concat_from (done ++ replicate n 0) o arrays ≡ done ++ concat arrays
unfolding concat_from
concat_from_lem done [] o n h k = rw k
concat_from_lem done (a ∷ arrays) o n h k =
    rw (blit_zeros done a o n (length (concat arrays)) h (k ∙ length-append a (concat arrays))) (
      concat_from_lem (done ++ a) arrays (o + length a) (length (concat arrays))
        (omega (arith, length-append done a)) refl
      ∙ append_assoc done a (concat arrays))

-- `concat` allocates one buffer of the total length and copies each array to its place: the result
-- is the arrays one after another.
pub concat_bytes-eq-concat : (arrays : List Bytes) → concat_bytes arrays ≡ concat arrays
unfolding concat_bytes
concat_bytes-eq-concat arrays =
    concat_from_lem [] arrays 0 (total_length arrays 0) refl
      (omega (arith, total_length_lem arrays 0))

split_four :
    (t : Bytes) → 4 ≤ length t → (a b c d : ℕ) × (rest : Bytes) × (t ≡ a ∷ b ∷ c ∷ d ∷ rest)
split_four [] h = absurd (omega arith)
split_four (a ∷ []) h = absurd (omega arith)
split_four (a ∷ b ∷ []) h = absurd (omega arith)
split_four (a ∷ b ∷ c ∷ []) h = absurd (omega arith)
split_four (a ∷ b ∷ c ∷ d ∷ rest) h = (a, b, c, d, rest, refl)

drop_behind : (done t : Bytes) (o : ℕ) → o ≡ length done → drop (o + 4) (done ++ t) ≡ drop 4 t
drop_behind done t o l = sym (drop-drop 4 o (done ++ t)) ∙ ap (drop 4) (drop-append o done t l)

-- A number of 32 bits that is written inside a buffer is read back at the same offset, and the
-- buffer keeps its length and every byte before and behind the four.
pub read_uint32-write_uint32 :
    (bytes : Bytes) (o v : ℕ)
    → o + 4 ≤ length bytes
    → v < 2 ^ 32
    → (read_uint32 (write_uint32 bytes o v) o ≡ v)
      × (length (write_uint32 bytes o v) ≡ length bytes)
      × (take o (write_uint32 bytes o v) ≡ take o bytes)
      × (drop (o + 4) (write_uint32 bytes o v) ≡ drop (o + 4) bytes)
read_uint32-write_uint32 bytes o v h k =
    let (a, b, c, d, rest, e) = split_four (drop o bytes) (omega (arith, length-drop o bytes)) in
    written (take o bytes) a b c d rest (omega (arith, length-take o bytes))
      (sym (take-append-drop o bytes) ∙ ap (λ l. take o bytes ++ l) e)
  where
    written :
        (done : Bytes) (a b c d : ℕ) (rest : Bytes)
        → o ≡ length done
        → bytes ≡ done ++ (a ∷ b ∷ c ∷ d ∷ rest)
        → (read_uint32 (write_uint32 bytes o v) o ≡ v)
          × (length (write_uint32 bytes o v) ≡ length bytes)
          × (take o (write_uint32 bytes o v) ≡ take o bytes)
          × (drop (o + 4) (write_uint32 bytes o v) ≡ drop (o + 4) bytes)
    written done a b c d rest l e =
        rw (e, write_uint32_lem done a b c d rest o v l)
          (
            read_uint32_lem done v rest o l k,
            omega (
              arith,
              length-append done (be32 v ++ rest),
              length-append done (a ∷ b ∷ c ∷ d ∷ rest),
            ),
            take-append o done (be32 v ++ rest) l
                ∙ sym (take-append o done (a ∷ b ∷ c ∷ d ∷ rest) l),
            drop_behind done (be32 v ++ rest) o l
                ∙ sym (drop_behind done (a ∷ b ∷ c ∷ d ∷ rest) o l),
          )

-- Reading a string: the length field and then that many bytes give the string back.
pub read_uint32-encode_string :
    (s rest : Bytes)
    → length s < 2 ^ 32
    → (read_uint32 (encode_string s ++ rest) 0 ≡ length s)
      × (take (length s) (drop 4 (encode_string s ++ rest)) ≡ s)
read_uint32-encode_string s rest h =
    rw (encode_string_lem s, append_assoc)
      (read_uint32_lem [] (length s) (s ++ rest) 0 refl h, take-append (length s) s rest refl)
