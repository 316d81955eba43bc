-- ===== src/Sftp/Operations/Replies.antt =====
-- What the operations of `SFTPClient` in worker/src/webssh/ssh/sftp.ts make of responses.
use cf_workers_vpsmonitor.Common.{
  ℕ, ◌+◌, ◌-◌, ◌<◌, ◌≤◌, ◌^◌, Bool, true, false, not, [], ◌∷◌, ◌++◌, Option, some, length, ltb,
  ◌==◌, ◌≡◌, ◌≢◌, refl, ap, sym, ◌∙◌, Result, ok, throw, arith, append-nil, length-append,
  if◌then◌else◌, ◌⊎◌, inl, inr,
}
use cf_workers_vpsmonitor.Common.State.{M, bind_from, refuse, refuse-passed, pure, fail, ◌>>◌}
use cf_workers_vpsmonitor.Ssh.Wire.{Bytes}
use cf_workers_vpsmonitor.Ssh.Wire.Laws.{be32}
use cf_workers_vpsmonitor.Sftp.Frames.{SftpError, status_error, unexpected_type}
use cf_workers_vpsmonitor.Sftp.Reader.{Reader, read_string_bytes, assert_end, remaining}
use cf_workers_vpsmonitor.Sftp.Attrs.{AttrsInput, encode_attrs}
use cf_workers_vpsmonitor.Sftp.Parsing.{parse_status}
use cf_workers_vpsmonitor.Sftp.Parsing.Extended.{AreGivenBack}
use cf_workers_vpsmonitor.Sftp.Parsing.RoundTrip.{sent_attrs, parse_attrs-encode_attrs}
use cf_workers_vpsmonitor.Sftp.Client.{is_ready, SftpClient, resolved, get_pending, delete_pending}
use cf_workers_vpsmonitor.Sftp.Dispatch.{dispatch, parse_whole}
use cf_workers_vpsmonitor.Sftp.Responses.{response, settlement, rethrown, dispatch_pending}
use cf_workers_vpsmonitor.Sftp.Operations.{
  Reply, ended, attrs, contents, attrs_type, status_type, status_eof, data_type, expect_type,
  parse_eof_status, parse_stat, parse_contents,
}

settlement-resolved :
    {V Text : Type 0} (id : ℕ) (v : V) (q : Result SftpError V × Reader)
    → q.0 ≡ ok v
    → settlement {Text = Text} id q ≡ resolved id v
settlement-resolved id v (ok w, r) h = cc
settlement-resolved id v (throw e, r) h = cc

module _ {Text : Type 0} (encode : Text → Bytes) (decode : Bytes → Option Text) where
  parse_stat-encode_attrs :
      (max_extended id : ℕ) (a : AttrsInput Text) (bytes : Bytes)
      → AreGivenBack encode decode a.extended
      → encode_attrs encode max_extended (some a) ≡ ok bytes
      → (parse_whole
          (parse_stat decode max_extended id)
          attrs_type
          (record { data_bytes = response attrs_type id bytes; offset = 5 })).0
        ≡ ok (attrs (sent_attrs a))
  unfolding parse_whole parse_stat expect_type assert_end remaining
  parse_stat-encode_attrs max_extended id a bytes k h =
      let before : Bytes = attrs_type ∷ be32 id in
      let read =
        parse_attrs-encode_attrs encode decode max_extended a bytes k h
          (response attrs_type id bytes) before [] 5
          (ap (λ t. before ++ t) (sym (append-nil bytes))) refl in
      let done : (length (response attrs_type id bytes) - (5 + length bytes) == 0) ≡ true =
        ground (arith, length-append before bytes) in
      rw (read, done) refl

  -- When the response to a `stat` request has attributes as `encodeAttrs` writes them, the promise
  -- of the request resolves with those attributes, the request is not pending any more, the
  -- client has no other change, and nothing is thrown. The client is ready, the request is pending under a 32-bit number
  -- that is not 0, with the parser of `stat`, and the decoder gives back the encoded type name of
  -- each extended attribute.
  pub dispatch-stat :
      (same_text : Text → Text → Bool) (max_extended id : ℕ) (a : AttrsInput Text) (bytes : Bytes)
      (c : SftpClient (Reply Text) Text)
      → AreGivenBack encode decode a.extended
      → encode_attrs encode max_extended (some a) ≡ ok bytes
      → is_ready c.state ≡ true
      → 0 < id
      → id < 2 ^ 32
      → get_pending id c.pending
        ≡ some (record { id = id; parse = parse_stat decode max_extended id })
      → dispatch decode same_text (response attrs_type id bytes) c ≡ (
        ok tt,
        record c {
          pending = delete_pending id c.pending;
          settled = c.settled ++ (resolved id (attrs (sent_attrs a)) ∷ []);
        },
      )
  dispatch-stat same_text max_extended id a bytes c h0 h1 h2 h3 h4 h5 =
      let read = parse_stat-encode_attrs max_extended id a bytes h0 h1 in
      let settled_as = settlement-resolved id (attrs (sent_attrs a)) _ read in
      (dispatch_pending decode same_text attrs_type id bytes c
        (record { id = id; parse = parse_stat decode max_extended id }) h2 (ground arith) h3 h4
        h5).0
      ∙ (λ i. (
        rethrown (read i),
        record c {
          pending = delete_pending id c.pending;
          settled = c.settled ++ (settled_as i ∷ []);
        },
      ))

-- What a parser that returned had from its first step.
bind_from-ok :
    {E S A B : Type 0} (q : Result E A × S) (f : A → M E S B) (b : B)
    → (bind_from q f).0 ≡ ok b
    → (a : A) × (s : S) × ((f a s).0 ≡ ok b)
bind_from-ok (ok a, s) f b h = (a, s, h)
bind_from-ok (throw e, s) f b h = cc

if-either :
    {E S B : Type 0} (b : Bool) (m k : M E S B) (s : S) (v : Result E B)
    → ((if b then m else k) s).0 ≡ v
    → ((m s).0 ≡ v) ⊎ ((k s).0 ≡ v)
if-either true m k s v h = inl h
if-either false m k s v h = inr h

no_contents :
    {Text : Type 0} (decode : Bytes → Option Text) (id : ℕ) (r : Reader) (bytes : Bytes)
    → (parse_eof_status decode id r).0 ≢ ok (contents bytes)
unfolding parse_eof_status
no_contents decode id r bytes h =
    let (code, s, k) = bind_from-ok (parse_status decode r) _ (contents bytes) h in
    elim (if-either (code == status_eof) (pure ended) (fail (status_error code id)) s _ k) [
      | inl e ↦ cc
      | inr e ↦ cc
    ]

-- A `read` gives at most the bytes that it asked for, whatever the response is.
pub parse_contents-size :
    {Text : Type 0} (decode : Bytes → Option Text) (size id type : ℕ) (r : Reader) (bytes : Bytes)
    → (parse_contents decode size id type r).0 ≡ ok (contents bytes)
    → length bytes ≤ size
unfolding parse_contents
parse_contents-size decode size id type r bytes h =
    elim (if-either (type == status_type) (parse_eof_status decode id) _ r (ok (contents bytes))
      h) [
        | inl e ↦ absurd (no_contents decode id r bytes e)
        | inr e ↦
            let (read, s, k) =
              bind_from-ok
                ((refuse (not (type == data_type)) (unexpected_type type) >> read_string_bytes) r) _
                (contents bytes) e in
            let (fits, same) = refuse-passed (ltb size (length read)) _ _ s (contents bytes) k in
            let same_bytes : read ≡ bytes = cc in rw (sym same_bytes) (ground arith)
      ]
