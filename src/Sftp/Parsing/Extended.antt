-- ===== src/Sftp/Parsing/Extended.antt =====
-- The extended attributes of worker/src/webssh/ssh/sftp.ts: `parseAttrs` reads what `encodeAttrs`
-- writes of them.
use cf_workers_vpsmonitor.Common.{
  ℕ, suc, ◌+◌, ◌-◌, ◌*◌, ◌/◌, ◌<◌, ◌≤◌, ◌^◌, true, false, ◌||◌, List, [], ◌∷◌, ◌++◌, Option, none,
  some, length, concat, ltb, ◌≡◌, ◌⊎◌, refl, sym, ap, subst, ◌∙◌, Result, ok, throw, ◌>>=◌, arith,
  append-nil, append_assoc, length-append, Bool-cases, inl, inr,
}
use cf_workers_vpsmonitor.Common.State
use cf_workers_vpsmonitor.Ssh.Wire.{Bytes, encode_uint32, encode_string}
use cf_workers_vpsmonitor.Ssh.Wire.Laws.{length-encode_string, encode_uint32_lem}
use cf_workers_vpsmonitor.Sftp.Frames.{SftpError, invalid_argument}
use cf_workers_vpsmonitor.Sftp.Reader.{read_string_bytes, read_text, remaining}
use cf_workers_vpsmonitor.Sftp.Attrs.{
  uint32_max, encode_number, encode_bytes, ExtendedAttribute, encode_extensions, extended_part,
}
use cf_workers_vpsmonitor.Sftp.Parsing.{read_extension, read_extended, read_extensions_counted}
use cf_workers_vpsmonitor.Sftp.Parsing.Reads.{
  Reads, pure-Reads, >>=-Reads, read_number-Reads, read_string_bytes-Reads, read_text-Reads,
}
use cf_workers_vpsmonitor.Sftp.Parsing.Parts.{is_some, PartReads, absent-Reads, present-Reads}

encode_bytes_cases :
    (s : Bytes)
    → (encode_bytes s ≡ throw invalid_argument)
      ⊎ ((encode_bytes s ≡ ok (encode_string s)) × (length s < 2 ^ 32))
unfolding encode_bytes
encode_bytes_cases s = elim (Bool-cases (ltb uint32_max (length s))) [
  | inl long ↦ inl (rw long refl)
  | inr fits ↦ inr (rw fits refl, ground arith)
]

module _ {Text : Type 0} (encode : Text → Bytes) (decode : Bytes → Option Text) where
  -- The decoder gives back the encoded type name of each.
  abbrev AreAllGivenBack : List (ExtendedAttribute Text) → Type 0
  AreAllGivenBack [] = Unit
  AreAllGivenBack (e ∷ es) = (decode (encode e.type_name) ≡ some e.type_name) × AreAllGivenBack es

  abbrev pub AreGivenBack : Option (List (ExtendedAttribute Text)) → Type 0
  AreGivenBack none = Unit
  AreGivenBack (some es) = AreAllGivenBack es

  -- Extended attributes that were encoded are read, and each takes at least eight bytes.
  abbrev ListReads : Result SftpError (List Bytes) → List (ExtendedAttribute Text) → Type 0
  ListReads (throw e) es = Unit
  ListReads (ok fields) es =
      Reads (read_extended decode (length es)) (concat fields) es
      × (8 * length es ≤ length (concat fields))

  read_extension-Reads :
      (e : ExtendedAttribute Text)
      → decode (encode e.type_name) ≡ some e.type_name
      → length (encode e.type_name) < 2 ^ 32
      → length e.data_bytes < 2 ^ 32
      → Reads
          (read_extension decode)
          (encode_string (encode e.type_name) ++ (encode_string e.data_bytes ++ []))
          e
  unfolding read_extension
  read_extension-Reads e same h k =
      >>=-Reads (read_text decode)
        (λ t.
          State.◌>>=◌ read_string_bytes
            (λ b. State.pure (record { type_name = t; data_bytes = b })))
        (encode_string (encode e.type_name)) (encode_string e.data_bytes ++ []) e.type_name e
        (read_text-Reads decode (encode e.type_name) e.type_name h same)
        (>>=-Reads read_string_bytes
          (λ b. State.pure (record { type_name = e.type_name; data_bytes = b }))
          (encode_string e.data_bytes) [] e.data_bytes e (read_string_bytes-Reads e.data_bytes k)
          (pure-Reads e))

  encode_extensions-Reads :
      (es : List (ExtendedAttribute Text))
      → AreAllGivenBack es
      → ListReads (encode_extensions encode es) es
  unfolding encode_extensions read_extended
  encode_extensions-Reads [] all = (pure-Reads [], omega arith)
  encode_extensions-Reads (e ∷ es) (same, all) = elim (encode_bytes_cases (encode e.type_name)) [
    | inl bad ↦ rw bad tt
    | inr (good, short) ↦ rw good (elim (encode_bytes_cases e.data_bytes) [
      | inl bad ↦ rw bad tt
      | inr (fine, small) ↦
          rw fine (go (encode_extensions encode es) short small (encode_extensions-Reads es all))
    ])
  ]
    where
      go :
          (r : Result SftpError (List Bytes))
          → length (encode e.type_name) < 2 ^ 32
          → length e.data_bytes < 2 ^ 32
          → ListReads r es
          → ListReads
              (r >>= λ rest.
                ok (encode_string (encode e.type_name) ∷ encode_string e.data_bytes ∷ rest))
              (e ∷ es)
      go (throw x) h k l = tt
      go (ok rest) h k (l, m) =
          let a = encode_string (encode e.type_name) in
          let b = encode_string e.data_bytes in
          (
            subst (λ bytes. Reads (read_extended decode (suc (length es))) bytes (e ∷ es))
                (append_assoc a (b ++ []) (concat rest)
                  ∙ ap (λ t. a ++ t) (append_assoc b [] (concat rest)))
                (>>=-Reads (read_extension decode)
                  (λ x. State.◌>>=◌ (read_extended decode (length es)) (λ xs. State.pure (x ∷ xs)))
                  (a ++ (b ++ [])) (concat rest) e (e ∷ es) (read_extension-Reads e same h k)
                  (subst
                    (λ bytes.
                      Reads
                        (State.◌>>=◌ (read_extended decode (length es)) (λ xs. State.pure (e ∷ xs)))
                        bytes (e ∷ es))
                    (append-nil (concat rest))
                    (>>=-Reads (read_extended decode (length es)) (λ xs. State.pure (e ∷ xs))
                      (concat rest) [] es (e ∷ es) l (pure-Reads (e ∷ es))))),
            omega (
              arith,
              length-append a (b ++ concat rest),
              length-append b (concat rest),
              length-encode_string (encode e.type_name),
              length-encode_string e.data_bytes,
            ),
          )

  -- The count is within the limit and within what is left of the packet.
  counted-Reads :
      (max_extended : ℕ) (es : List (ExtendedAttribute Text)) (bytes : Bytes)
      → length es ≤ max_extended
      → length es < 2 ^ 32
      → 8 * length es ≤ length bytes
      → Reads (read_extended decode (length es)) bytes es
      → Reads (read_extensions_counted decode max_extended) (encode_uint32 (length es) ++ bytes) es
  unfolding read_extensions_counted remaining
  counted-Reads max_extended es bytes h k l r d before rest o e p =
      let count = encode_uint32 (length es) in
      let n = ap length (encode_uint32_lem (length es)) in
      let e' : d ≡ (before ++ count) ++ (bytes ++ rest) =
        e
        ∙ ap (λ t. before ++ t) (append_assoc count bytes rest)
        ∙ sym (append_assoc before count (bytes ++ rest)) in
      let p' : o + length count ≡ length (before ++ count) =
        omega (arith, length-append before count) in
      let whole = ap length e' in
      let fits : (ltb max_extended (length es)
            || ltb ((length d - (o + length count)) / 8) (length es))
          ≡ false =
        ground (arith, length-append (before ++ count) (bytes ++ rest), length-append bytes rest) in
      rw
        (
          read_number-Reads (length es) k d before (bytes ++ rest) o
              (e ∙ ap (λ t. before ++ t) (append_assoc count bytes rest)) p,
          fits,
        )
        (r d (before ++ count) rest (o + length count) e' p'
          ∙ ap (λ m. (ok es, record { data_bytes = d; offset = m }))
              (omega (arith, length-append count bytes)))

  pub extended_part-Reads :
      (max_extended : ℕ) (o : Option (List (ExtendedAttribute Text)))
      → AreGivenBack o
      → PartReads
          (extended_part encode max_extended o)
          (is_some o)
          0x80000000
          (read_extensions_counted decode max_extended)
          o
  unfolding extended_part encode_number
  extended_part-Reads max_extended none all =
      (refl, absent-Reads (read_extensions_counted decode max_extended))
  extended_part-Reads max_extended (some es) all =
      elim (Bool-cases (ltb max_extended (length es))) [
        | inl many ↦ rw many tt
        | inr few ↦ rw few (elim (Bool-cases (ltb uint32_max (length es))) [
          | inl big ↦ rw big tt
          | inr fits ↦ rw fits (
              go (encode_extensions encode es) (ground arith) (ground arith)
                (encode_extensions-Reads es all))
        ])
      ]
    where
      go :
          (r : Result SftpError (List Bytes))
          → length es ≤ max_extended
          → length es < 2 ^ 32
          → ListReads r es
          → PartReads
              (r >>= λ fields. ok (0x80000000, encode_uint32 (length es) ∷ fields))
              true
              0x80000000
              (read_extensions_counted decode max_extended)
              (some es)
      go (throw e) h k l = tt
      go (ok fields) h k (l, m) = (
        refl,
        present-Reads (read_extensions_counted decode max_extended)
            (encode_uint32 (length es) ++ concat fields) es
            (counted-Reads max_extended es (concat fields) h k m l),
      )
