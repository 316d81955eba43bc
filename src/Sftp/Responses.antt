-- ===== src/Sftp/Responses.antt =====
-- What a response does to the requests of `SFTPClient` in worker/src/webssh/ssh/sftp.ts.
use cf_workers_vpsmonitor.Common.{
  ℕ, ◌<◌, ◌^◌, Bool, true, false, ◌||◌, List, [], ◌∷◌, ◌++◌, Option, none, some, length, ◌==◌, ◌-◌,
  ltb, ◌≡◌, refl, ap, ◌∙◌, ◌≢◌, Result, ok, throw, Bool-cases, inl, inr, arith,
}
use cf_workers_vpsmonitor.Ssh.Wire.{Bytes, read_uint32}
use cf_workers_vpsmonitor.Ssh.Wire.Laws.{be32, read_uint32_lem}
use cf_workers_vpsmonitor.Sftp.Frames.{
  SftpError, disposed, not_ready, malformed, version_mismatch, unexpected_version, invalid_argument,
  before_negotiation, request_id_zero, duplicate_extension, no_request_ids, packet_length,
  packet_too_long, unexpected_type, timed_out, status_error,
}
use cf_workers_vpsmonitor.Sftp.Reader.{
  Reader, new_reader, read_byte, read_number, require_bytes, remaining,
}
use cf_workers_vpsmonitor.Sftp.Client.{
  is_ready, PendingRequest, Settled, resolved, rejected, SftpClient, get_pending, has_pending,
  delete_pending,
}
use cf_workers_vpsmonitor.Sftp.Dispatch.{
  version_type, settle, parse_whole, answer, dispatch_id, dispatch_type, dispatch, request,
}

-- A response: its type, the request's number, and the fields.
abbrev pub response : ℕ → ℕ → Bytes → Bytes
response type id fields = type ∷ be32 id ++ fields

-- How the promise of a request is settled.
abbrev pub settlement : {V Text : Type 0} → ℕ → Result SftpError V × Reader → Settled V Text
settlement id (ok v, r) = resolved id v
settlement id (throw e, r) = rejected id e

-- What of a response's outcome goes on to `feed`: an error, unless the server reported it.
abbrev pub rethrown : {V : Type 0} → Result SftpError V → Result SftpError (Unit {0})
rethrown (ok v) = ok tt
rethrown (throw (status_error code id)) = ok tt
rethrown (throw e) = throw e

read_byte-response :
    (type id : ℕ) (fields : Bytes)
    → read_byte (new_reader (response type id fields))
      ≡ (ok type, record { data_bytes = response type id fields; offset = 1 })
unfolding read_byte require_bytes remaining
read_byte-response type id fields =
    let e : ltb (length (response type id fields) - 0) 1 ≡ false = ground arith in rw e refl

read_number-response :
    (type id : ℕ) (fields : Bytes)
    → id < 2 ^ 32
    → read_number (record { data_bytes = response type id fields; offset = 1 })
      ≡ (ok id, record { data_bytes = response type id fields; offset = 5 })
unfolding read_number require_bytes remaining
read_number-response type id fields h =
    let e : ltb (length (response type id fields) - 1) 4 ≡ false = ground arith in
    let v : read_uint32 (response type id fields) 1 ≡ id =
      read_uint32_lem (type ∷ []) id fields 1 refl h in
    rw (e, v) refl

module _ {V : Type 0} where
  has_pending-delete :
      (id : ℕ) (rs : List (PendingRequest V)) → has_pending id (delete_pending id rs) ≡ false
  unfolding has_pending delete_pending
  has_pending-delete id [] = refl
  has_pending-delete id (r ∷ rs) = elim (Bool-cases (r.id == id)) [
    | inl same ↦ rw same (has_pending-delete id rs)
    | inr other ↦ rw (other, other) (has_pending-delete id rs)
  ]

  has_pending-delete_other :
      (id other : ℕ) (rs : List (PendingRequest V))
      → other ≢ id
      → has_pending other (delete_pending id rs) ≡ has_pending other rs
  unfolding has_pending delete_pending
  has_pending-delete_other id other [] ne = refl
  has_pending-delete_other id other (r ∷ rs) ne = elim (Bool-cases (r.id == id)) [
    | inl same ↦
        let e : (r.id == other) ≡ false = ground arith in
        rw (same, e) (has_pending-delete_other id other rs ne)
    | inr differs ↦
        rw differs (ap (λ b. (r.id == other) || b) (has_pending-delete_other id other rs ne))
  ]

module _ {V Text : Type 0} where
  settle_lem :
      (id : ℕ) (q : Result SftpError V × Reader) (c : SftpClient V Text)
      → settle id q c ≡ (rethrown q.0, record c { settled = c.settled ++ (settlement id q ∷ []) })
  unfolding settle
  settle_lem id (ok v, r) c = refl
  settle_lem id (throw disposed, r) c = refl
  settle_lem id (throw not_ready, r) c = refl
  settle_lem id (throw malformed, r) c = refl
  settle_lem id (throw version_mismatch, r) c = refl
  settle_lem id (throw unexpected_version, r) c = refl
  settle_lem id (throw invalid_argument, r) c = refl
  settle_lem id (throw before_negotiation, r) c = refl
  settle_lem id (throw request_id_zero, r) c = refl
  settle_lem id (throw duplicate_extension, r) c = refl
  settle_lem id (throw no_request_ids, r) c = refl
  settle_lem id (throw (packet_length n), r) c = refl
  settle_lem id (throw (packet_too_long n), r) c = refl
  settle_lem id (throw (unexpected_type n), r) c = refl
  settle_lem id (throw (timed_out n), r) c = refl
  settle_lem id (throw (status_error n m), r) c = refl

  answer-some :
      (request : PendingRequest V) (type id : ℕ) (r : Reader) (c : SftpClient V Text)
      → get_pending id c.pending ≡ some request
      → answer (get_pending id c.pending) type id r c ≡ (
        rethrown (parse_whole request.parse type r).0,
        record c {
          pending = delete_pending id c.pending;
          settled = c.settled ++ (settlement id (parse_whole request.parse type r) ∷ []);
        },
      )
  unfolding answer
  answer-some request type id r c h = rw h (
      settle_lem id (parse_whole request.parse type r)
        (record c { pending = delete_pending id c.pending }))

module _ {V Text : Type 0} (decode : Bytes → Option Text) (same_text : Text → Text → Bool) where
  -- Where `dispatch` gets to with a response.
  dispatch-answer :
      (type id : ℕ) (fields : Bytes) (c : SftpClient V Text)
      → is_ready c.state ≡ true
      → type ≢ version_type
      → 0 < id
      → id < 2 ^ 32
      → dispatch decode same_text (response type id fields) c
        ≡ answer
            (get_pending id c.pending)
            type
            id
            (record { data_bytes = response type id fields; offset = 5 })
            c
  unfolding dispatch dispatch_type dispatch_id
  dispatch-answer type id fields c h0 h1 h2 h3 =
      let a : (type == version_type) ≡ false = ground arith in
      let b : (id == 0) ≡ false = ground arith in
      rw (read_byte-response type id fields, a, h0, read_number-response type id fields h3, b) refl

  -- In a client that is ready, a response of a type other than VERSION, whose number is a 32-bit
  -- number, not 0 and not that of a pending request, changes nothing and throws nothing.
  pub dispatch_late :
      (type id : ℕ) (fields : Bytes) (c : SftpClient V Text)
      → is_ready c.state ≡ true
      → type ≢ version_type
      → 0 < id
      → id < 2 ^ 32
      → get_pending id c.pending ≡ none
      → dispatch decode same_text (response type id fields) c ≡ (ok tt, c)
  unfolding answer
  dispatch_late type id fields c h0 h1 h2 h3 h4 =
      dispatch-answer type id fields c h0 h1 h2 h3 ∙ rw h4 refl

  -- In a client that is ready, a response of a type other than VERSION, whose number is a 32-bit
  -- number, not 0 and that of a pending request, settles that request as its parser says, and takes
  -- it off the pending ones, where the parser throws too; no other request is affected, and nothing
  -- else. What the parser throws is thrown again, but for an error that the server reported.
  pub dispatch_pending :
      (type id : ℕ) (fields : Bytes) (c : SftpClient V Text) (r : PendingRequest V)
      → is_ready c.state ≡ true
      → type ≢ version_type
      → 0 < id
      → id < 2 ^ 32
      → get_pending id c.pending ≡ some r
      → let outcome = dispatch decode same_text (response type id fields) c in
        let parsed =
          parse_whole r.parse type (record { data_bytes = response type id fields; offset = 5 }) in
        (outcome ≡ (
          rethrown parsed.0,
          record c {
            pending = delete_pending id c.pending;
            settled = c.settled ++ (settlement id parsed ∷ []);
          },
        ))
        × (has_pending id outcome.1.pending ≡ false)
        × ((other : ℕ)
            → other ≢ id
            → has_pending other outcome.1.pending ≡ has_pending other c.pending)
  dispatch_pending type id fields c r h0 h1 h2 h3 h4 =
      let e =
        dispatch-answer type id fields c h0 h1 h2 h3
        ∙ answer-some r type id (record { data_bytes = response type id fields; offset = 5 }) c
            h4 in
      rw e (
        refl,
        has_pending-delete id c.pending,
        λ other ne. has_pending-delete_other id other c.pending ne,
      )
