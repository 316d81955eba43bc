-- ===== src/Sftp/Disposal.antt =====
-- `dispose` of `SFTPClient` in worker/src/webssh/ssh/sftp.ts, and what stays possible after it.
use cf_workers_vpsmonitor.Common.{
  ℕ, ◌∷◌, ◌++◌, ◌==◌, Bool, true, false, List, [], Option, length, ◌≡◌, refl, sym, Result, ok,
  throw, Bool-cases, inl, inr, arith, subst,
}
use mathlib.Core.List.{Mem, mem-cons_self, mem-cons_of_mem, mem-append_right, mem-append_left}
use cf_workers_vpsmonitor.Common.State.{bind_from, refuse}
use cf_workers_vpsmonitor.Ssh.Wire.{Bytes}
use cf_workers_vpsmonitor.Sftp.Frames.{SftpError, disposed, Frames, feed_loop}
use cf_workers_vpsmonitor.Sftp.Reader.{Reading}
use cf_workers_vpsmonitor.Sftp.Client.{
  rejected, initialization_failed, PendingRequest, has_pending, reject_all, failed_initialization,
  ClientState, fresh, initializing, ready, closed, is_disposed, is_ready, SftpClient, dispose,
}
use cf_workers_vpsmonitor.Sftp.Dispatch.{dispatch, end_feed, feed, initialize, request}

disposed-ready : (s : ClientState) → is_disposed s ≡ true → is_ready s ≡ false
disposed-ready fresh h = refl
disposed-ready initializing h = refl
disposed-ready ready h = sym h
disposed-ready closed h = refl

module _ {V Text : Type 0} where
  dispose-disposed :
      (reason : SftpError) (c : SftpClient V Text) → is_disposed (dispose reason c).state ≡ true
  unfolding dispose
  dispose-disposed reason c = elim (Bool-cases (is_disposed c.state)) [
    | inl gone ↦ rw gone gone
    | inr live ↦ rw live refl
  ]

  reject_all-has_pending :
      (reason : SftpError) (id : ℕ) (rs : List (PendingRequest V))
      → has_pending id rs ≡ true
      → Mem (rejected id reason) (reject_all {Text = Text} reason rs)
  unfolding reject_all has_pending
  reject_all-has_pending reason id [] h = absurd cc
  reject_all-has_pending reason id (r ∷ rs) h = elim (Bool-cases (r.id == id)) [
    | inl same ↦
        let e : r.id ≡ id = ground arith in
        subst (λ n. Mem (rejected n reason) (reject_all {Text = Text} reason (r ∷ rs))) e
          mem-cons_self
    | inr other ↦ mem-cons_of_mem _ (reject_all-has_pending reason id rs (ground arith))
  ]

  -- No promise is left open.
  abbrev pub IsSettledBy : SftpError → SftpClient V Text → SftpClient V Text → Type 0
  IsSettledBy reason c c' =
      (c'.pending ≡ [])
      × ((id : ℕ) → has_pending id c.pending ≡ true → Mem (rejected id reason) c'.settled)
      × (c.awaiting ≡ true → Mem (initialization_failed reason) c'.settled)

  dispose-IsSettledBy :
      (reason : SftpError) (c : SftpClient V Text)
      → is_disposed c.state ≡ false
      → IsSettledBy reason c (dispose reason c)
  unfolding dispose failed_initialization
  dispose-IsSettledBy reason c live = rw live (
    refl,
    (λ id h.
        mem-append_right (c.settled ++ failed_initialization reason c.awaiting)
          (reject_all-has_pending reason id c.pending h)),
    (λ h.
        mem-append_left (reject_all reason c.pending)
          (rw h (mem-append_right c.settled mem-cons_self))),
  )

  dispose-again :
      (reason : SftpError) (c : SftpClient V Text)
      → is_disposed c.state ≡ true
      → dispose reason c ≡ c
  unfolding dispose
  dispose-again reason c gone = rw gone refl

  request-disposed :
      (type : ℕ) (fields : List Bytes) (parse : ℕ → ℕ → Reading V) (c : SftpClient V Text)
      → is_disposed c.state ≡ true
      → request type fields parse c ≡ (throw disposed, c)
  unfolding request
  request-disposed type fields parse c gone = rw (disposed-ready c.state gone, gone) refl

  initialize-disposed :
      (c : SftpClient V Text) → is_disposed c.state ≡ true → initialize c ≡ (throw disposed, c)
  unfolding initialize
  initialize-disposed c gone = rw gone refl

module _ {V Text : Type 0} (decode : Bytes → Option Text) (same_text : Text → Text → Bool) where
  feed-disposed :
      (chunk : Bytes) (c : SftpClient V Text)
      → is_disposed c.state ≡ true
      → feed decode same_text chunk c ≡ (throw disposed, c)
  unfolding feed
  feed-disposed chunk c gone = rw gone refl

  -- An error that `feed` throws leaves a client that is disposed of.
  pub feed-throw :
      (chunk : Bytes) (c : SftpClient V Text) (e : SftpError)
      → (feed decode same_text chunk c).0 ≡ throw e
      → is_disposed (feed decode same_text chunk c).1.state ≡ true
  unfolding feed end_feed
  feed-throw chunk c e h = elim (Bool-cases (is_disposed c.state)) [
    | inl gone ↦ rw gone gone
    | inr live ↦ rw live (
        go (feed_loop c.limits (dispatch decode same_text) (length chunk) c.frames chunk c) (
          subst
            (λ b.
              (bind_from (refuse b disposed c) (λ _ c'. end_feed (
                feed_loop c'.limits (dispatch decode same_text) (length chunk) c'.frames chunk
                  c'))).0
              ≡ throw e)
            live h))
  ]
    where
      go :
          (r : Result SftpError Frames × SftpClient V Text)
          → (end_feed r).0 ≡ throw e
          → is_disposed (end_feed r).1.state ≡ true
      go (ok f, c') g = absurd (ground arith)
      go (throw e', c') g = dispose-disposed e' c'

-- Once the client is disposed of, `feed`, `request` and `initialize` throw and change nothing, and a
-- further `dispose` changes nothing; the disposal of a client that was not disposed of leaves no
-- pending request, and rejects with its reason the promise of each that was pending, and that of
-- `initialize` where it was open.
pub dispose-final :
    {V Text : Type 0} (decode : Bytes → Option Text) (same_text : Text → Text → Bool)
    (reason : SftpError) (c : SftpClient V Text)
    → let c' = dispose reason c in
      (is_disposed c.state ≡ false → IsSettledBy reason c c')
      × ((chunk : Bytes) → feed decode same_text chunk c' ≡ (throw disposed, c'))
      × ((type : ℕ) (fields : List Bytes) (parse : ℕ → ℕ → Reading V)
          → request type fields parse c' ≡ (throw disposed, c'))
      × (initialize c' ≡ (throw disposed, c'))
      × ((again : SftpError) → dispose again c' ≡ c')
dispose-final decode same_text reason c =
    let gone = dispose-disposed reason c in
    (
      dispose-IsSettledBy reason c,
      (λ chunk. feed-disposed decode same_text chunk (dispose reason c) gone),
      (λ type fields parse. request-disposed type fields parse (dispose reason c) gone),
      initialize-disposed (dispose reason c) gone,
      (λ again. dispose-again again (dispose reason c) gone),
    )
