-- ===== src/Sftp/Handler/Downloads/Total.antt =====
-- What `download` in worker/src/webssh/backend/sftp-handler.ts sends.
use cf_workers_vpsmonitor.Common.{
  ℕ, zero, suc, ◌+◌, ◌≤◌, Bool, true, false, not, ◌||◌, List, [], ◌∷◌, ◌++◌, Option, length, ltb,
  ltb→le, ◌≡◌, refl, subst, ◌∙◌, Result, ok, throw, Bool-cases, inl, inr, arith,
}
use cf_workers_vpsmonitor.Common.State.{bind_from, ◌>>=◌, ◌>>◌, refuse}
use cf_workers_vpsmonitor.Ssh.Wire.{Bytes}
use cf_workers_vpsmonitor.Sftp.Handler.Entries.{Text}
use cf_workers_vpsmonitor.Sftp.Handler.Arrivals.{arrive-keeps}
use cf_workers_vpsmonitor.Sftp.Handler.State.{
  Handler, Method, Server, HandlerError, Event, answered, sent_json, sent_binary, Call, Arrival,
  Message, call, arrive, cancel_download, note, send_json, max_file_size, read_file,
  sftp_download_progress, sftp_download_done, sftp_download_start,
}
use cf_workers_vpsmonitor.Sftp.Handler.Downloads.{
  assert_download_active, pass_chunk, download_step, download_loop, transfer, chunk_of, read_length,
  wants_more, is_active, is_cancelled, filename_of,
}

-- The bytes that went to the browser
abbrev pub bytes_sent : List Event → ℕ
bytes_sent [] = 0
bytes_sent (answered c answer ∷ es) = bytes_sent es
bytes_sent (sent_json message ∷ es) = bytes_sent es
bytes_sent (sent_binary bytes ∷ es) = length bytes + bytes_sent es

bytes_sent-append : (es fs : List Event) → bytes_sent (es ++ fs) ≡ bytes_sent es + bytes_sent fs
bytes_sent-append [] fs = omega arith
bytes_sent-append (answered c answer ∷ es) fs = bytes_sent-append es fs
bytes_sent-append (sent_json message ∷ es) fs = bytes_sent-append es fs
bytes_sent-append (sent_binary bytes ∷ es) fs = omega (arith, bytes_sent-append es fs)

module _ {W : Type 0} where
  abbrev pub total : Handler W → ℕ
  total h = bytes_sent h.events

  arrive-total : (news : List Arrival) (h : Handler W) → total (arrive news h) ≡ total h
  unfolding cancel_download
  arrive-total news h =
      arrive-keeps (λ s. total s ≡ total h)
        (λ message s e. omega (arith, bytes_sent-append s.events (sent_json message ∷ [])))
        (λ r d s e. e) (λ id s e. e) news h refl

  -- A method that sends no bytes.
  record IsSilent {A : Type 0} (m : Method W A) : Type 0 where
    same_total : (h : Handler W) → total (m h).1 ≡ total h

  call-IsSilent : (serve : Server W) (c : Call) → IsSilent (call serve c)
  unfolding call
  call-IsSilent serve c = record {
    same_total = λ h.
        arrive-total (serve c h.world).0.1 _
        ∙ omega (arith, bytes_sent-append h.events (answered c (serve c h.world).0.0 ∷ []));
  }

  send_json-IsSilent : (message : Message) → IsSilent (send_json message)
  send_json-IsSilent message = record {
    same_total = λ h. omega (arith, bytes_sent-append h.events (sent_json message ∷ []));
  }

  refuse-IsSilent : (bad : Bool) (e : HandlerError) → IsSilent (refuse bad e)
  refuse-IsSilent true e = record { same_total = λ h. refl }
  refuse-IsSilent false e = record { same_total = λ h. refl }

  silent-cases :
      {A B : Type 0} (P : Result HandlerError B × Handler W → Type 0) (m : Method W A)
      (k : A → Method W B) (h : Handler W)
      → IsSilent m
      → ((a : A) (s : Handler W) → total s ≡ total h → P (k a s))
      → ((e : HandlerError) (s : Handler W) → total s ≡ total h → P (throw e, s))
      → P ((m >>= k) h)
  silent-cases {A = A} P m k h n f g = go (m h) (n.same_total h)
    where
      go : (q : Result HandlerError A × Handler W) → total q.1 ≡ total h → P (bind_from q k)
      go (ok a, s) v = f a s v
      go (throw x, s) v = g x s v

  then-IsSilent :
      {B : Type 0} (m : Method W (Unit {0})) (k : Method W B)
      → IsSilent m
      → IsSilent k
      → IsSilent (m >> k)
  then-IsSilent {B = B} m k n g = record {
    same_total = λ h.
        silent-cases (λ q. total q.1 ≡ total h) m (λ _. k) h n (λ a s v. g.same_total s ∙ v)
          (λ e s v. v);
  }

  -- From an offset and a total: what a result says that was sent, within the limit.
  abbrev pub IsCounted : ℕ → ℕ → Result HandlerError ℕ × Handler W → Type 0
  IsCounted offset before (ok loaded, h) =
      (total h + offset ≡ before + loaded) × (loaded ≤ max_file_size)
  IsCounted offset before (throw e, h) = total h + offset ≤ before + max_file_size

  -- What `transfer` made of the handler that it was called on.
  abbrev pub IsTransferred :
      Text → Text → Handler W → Result HandlerError (Unit {0}) × Handler W → Type 0
  IsTransferred id path before (ok a, h) =
      (loaded : ℕ) × (es : List Event) × (h.events
        ≡ es ++ (sent_json (sftp_download_done id (filename_of path) loaded) ∷ []))
      × (total h ≡ total before + loaded)
      × (loaded ≤ max_file_size)
  IsTransferred id path before (throw e, h) = total h ≤ total before + max_file_size

  IsCounted-later :
      (offset more before after : ℕ) (q : Result HandlerError ℕ × Handler W)
      → after ≡ before + more
      → IsCounted (offset + more) after q
      → IsCounted offset before q
  IsCounted-later offset more before after (ok loaded, h) e (c, l) = (omega arith, l)
  IsCounted-later offset more before after (throw x, h) e c = omega arith

module _ {W : Type 0} (serve : Server W) (utf8 : Text → Bytes) where
  assert_download_active-IsSilent :
      (number : ℕ) → IsSilent (assert_download_active serve utf8 number)
  unfolding assert_download_active
  assert_download_active-IsSilent number = record {
    same_total = λ h.
        (refuse-IsSilent
            (not (is_active number h.active_download) || is_cancelled number h.active_download)
            _).same_total
          h;
  }

  -- The rest of the loop counts, from any offset within the limit.
  abbrev Counts : (ℕ → Method W ℕ) → Type 0
  Counts next = (o : ℕ) (s : Handler W) → o ≤ max_file_size → IsCounted o (total s) (next o s)

  pass_chunk-IsCounted :
      (next : ℕ → Method W ℕ) (id : Text) (size : Option ℕ) (offset : ℕ) (chunk : Bytes)
      (h : Handler W)
      → Counts next
      → offset ≤ max_file_size
      → IsCounted offset (total h) (pass_chunk serve utf8 next id size offset chunk h)
  unfolding pass_chunk
  pass_chunk-IsCounted next id size offset [] h n l = (refl, l)
  pass_chunk-IsCounted next id size offset (b ∷ bytes) h n l =
      let sent : Handler W =
        note (sent_json (sftp_download_progress id (offset + length (b ∷ bytes)) size))
          (note (sent_binary (b ∷ bytes)) h) in
      elim (Bool-cases (ltb max_file_size (offset + length (b ∷ bytes)))) [
        | inl big ↦ rw big (omega arith)
        | inr fits ↦ rw fits (
            IsCounted-later offset (length (b ∷ bytes)) (total h) (total sent) _
              (omega (
                arith,
                bytes_sent-append (h.events ++ (sent_binary (b ∷ bytes) ∷ []))
                    (sent_json (sftp_download_progress id (offset + length (b ∷ bytes)) size) ∷ []),
                bytes_sent-append h.events (sent_binary (b ∷ bytes) ∷ []),
              ))
              (n (offset + length (b ∷ bytes)) sent (ltb→le _ _ fits)))
      ]

  download_step-IsCounted :
      (next : ℕ → Method W ℕ) (number : ℕ) (id : Text) (size : Option ℕ) (handle : Bytes)
      (offset : ℕ) (h : Handler W)
      → Counts next
      → offset ≤ max_file_size
      → IsCounted offset (total h) (download_step serve utf8 next number id size handle offset h)
  unfolding download_step
  download_step-IsCounted next number id size handle offset h n l =
      let P : Result HandlerError ℕ × Handler W → Type 0 = IsCounted offset (total h) in
      let failed : (e : HandlerError) (s : Handler W) → total s ≡ total h → P (throw e, s) =
        λ e s v. omega arith in
      elim (Bool-cases (wants_more size offset)) [
        | inl more ↦ rw more (
            silent-cases P
              (assert_download_active serve utf8 number
                >> call serve (read_file handle offset (read_length size offset)))
              _ h
              (then-IsSilent _ _ (assert_download_active-IsSilent number)
                (call-IsSilent serve (read_file handle offset (read_length size offset))))
              (λ chunk s v.
                silent-cases P (assert_download_active serve utf8 number) _ s
                  (assert_download_active-IsSilent number)
                  (λ a t w.
                    subst
                      (λ n.
                        IsCounted offset n
                          (pass_chunk serve utf8 next id size offset (chunk_of chunk) t))
                      (w ∙ v) (pass_chunk-IsCounted next id size offset (chunk_of chunk) t n l))
                  (λ e t w. failed e t (w ∙ v)))
              failed)
        | inr done ↦ rw done (refl, l)
      ]

  download_loop-Counts :
      (fuel number : ℕ) (id : Text) (size : Option ℕ) (handle : Bytes)
      → Counts (download_loop serve utf8 fuel number id size handle)
  unfolding download_loop
  download_loop-Counts zero number id size handle o s l = (refl, l)
  download_loop-Counts (suc fuel) number id size handle o s l =
      download_step-IsCounted _ number id size handle o s
        (download_loop-Counts fuel number id size handle) l

  -- A download sends at most 64 MiB in all, also where it fails or is cancelled. Where it does not,
  -- its last message is that it is done, with the number of bytes that were sent.
  pub transfer-total :
      (number : ℕ) (id path : Text) (size : Option ℕ) (handle : Bytes) (h : Handler W)
      → IsTransferred id path h (transfer serve utf8 number id path size handle h)
  unfolding transfer
  transfer-total number id path size handle h =
      silent-cases (IsTransferred id path h) (assert_download_active serve utf8 number) _ h
        (assert_download_active-IsSilent number)
        (λ a s v.
          let begun : Handler W =
            note (sent_json (sftp_download_start id (filename_of path) size)) s in
          let same =
            (send_json-IsSilent (sftp_download_start id (filename_of path) size)).same_total s
            ∙ v in
          finished begun same
            (download_loop serve utf8 (suc max_file_size) number id size handle 0 begun)
            (download_loop-Counts (suc max_file_size) number id size handle 0 begun (omega arith)))
        (λ e s v. omega arith)
    where
      finished :
          (begun : Handler W)
          → total begun ≡ total h
          → (q : Result HandlerError ℕ × Handler W) → IsCounted 0 (total begun) q
          → IsTransferred id path h (
              bind_from q (λ loaded.
                assert_download_active serve utf8 number
                >> send_json (sftp_download_done id (filename_of path) loaded)))
      finished begun same (throw e, s) c = omega arith
      finished begun same (ok loaded, s) (c, l) =
          silent-cases (IsTransferred id path h) (assert_download_active serve utf8 number) _ s
            (assert_download_active-IsSilent number)
            (λ a t v. (
              loaded,
              t.events,
              refl,
              (send_json-IsSilent (sftp_download_done id (filename_of path) loaded)).same_total t
                  ∙ omega arith,
              l,
            ))
            (λ e t v. omega arith)
