-- ===== src/Sftp/Handler/Listing/Ends.antt =====
-- When the loop of `list` in worker/src/webssh/backend/sftp-handler.ts ends.
use cf_workers_vpsmonitor.Common.{
  ℕ, zero, suc, ◌+◌, ◌≤◌, ◌<◌, true, false, List, [], ◌∷◌, Option, none, some, length,
  length-append, ltb, ◌==◌, ◌≡◌, ◌≢◌, refl, sym, subst, Result, ok, throw, if◌then◌else◌,
  Bool-cases, inl, inr, ◌⊎◌, arith,
}
use cf_workers_vpsmonitor.Common.State.{bind_from, ◌>>=◌, pure}
use cf_workers_vpsmonitor.Ssh.Wire.{Bytes}
use cf_workers_vpsmonitor.Sftp.Frames.{SftpError}
use cf_workers_vpsmonitor.Sftp.Parsing.{DirEntry}
use cf_workers_vpsmonitor.Sftp.Handler.Entries.{Text, format_entry}
use cf_workers_vpsmonitor.Sftp.Handler.State.{
  Handler, Method, Server, HandlerError, call, lift, read_dir,
}
use cf_workers_vpsmonitor.Sftp.Handler.Listing.{
  DirectoryListing, max_directory_entries, max_directory_response_bytes, is_dot,
  is_invalid_filename, estimated_bytes, keep_entry, add_entry, add_batch, has_named, batch_of,
  pass_batch, list_step, list_loop, from_result,
}
use cf_workers_vpsmonitor.Sftp.Handler.Listing.Bounds.{
  IsInBounds, AllInBounds, add_batch-bounds, if-both,
}

-- More than so many entries, or truncated.
abbrev IsGrown : ℕ → Result HandlerError DirectoryListing → Type 0
IsGrown n (ok l) = (l.is_truncated ≡ true) ⊎ (n < length l.entries)
IsGrown n (throw e) = Unit

module _ (utf8 : Text → Bytes) where
  keep_entry-IsGrown :
      (n : ℕ) (entry : DirEntry Text) (l : DirectoryListing)
      → n ≤ length l.entries
      → IsGrown n (ok (keep_entry utf8 entry l))
  unfolding keep_entry
  keep_entry-IsGrown n entry l h =
      inr (omega (arith, length-append l.entries (format_entry entry ∷ [])))

  -- An entry that is not skipped.
  add_entry-named :
      (n : ℕ) (entry : DirEntry Text) (l : DirectoryListing)
      → is_dot entry ≡ false
      → n ≤ length l.entries
      → IsGrown n (add_entry utf8 entry l)
  unfolding add_entry
  add_entry-named n entry l named h =
      elim (Bool-cases (length l.entries == max_directory_entries)) [
        | inl full ↦ rw (named, full) (inl refl)
        | inr room ↦ elim (Bool-cases (is_invalid_filename utf8 entry.filename)) [
          | inl bad ↦ rw (named, room, bad) tt
          | inr good ↦
              elim (Bool-cases (
                ltb max_directory_response_bytes (l.response_bytes + estimated_bytes utf8 entry))) [
                  | inl big ↦ rw (named, room, good, big) (inl refl)
                  | inr fits ↦ rw (named, room, good, fits) (keep_entry-IsGrown n entry l h)
                ]
        ]
      ]

  add_entry-IsGrown :
      (n : ℕ) (entry : DirEntry Text) (l : DirectoryListing)
      → n < length l.entries
      → IsGrown n (add_entry utf8 entry l)
  unfolding add_entry
  add_entry-IsGrown n entry l h = elim (Bool-cases (is_dot entry)) [
    | inl dot ↦ rw dot (inr h)
    | inr named ↦ add_entry-named n entry l named (omega arith)
  ]

  add_batch-IsGrown :
      (n : ℕ) (batch : List (DirEntry Text)) (r : Result HandlerError DirectoryListing)
      → IsGrown n r
      → IsGrown n (add_batch utf8 batch r)
  unfolding add_batch
  add_batch-IsGrown n batch (throw e) g = g
  add_batch-IsGrown n [] (ok l) g = g
  add_batch-IsGrown n (entry ∷ batch) (ok l) (inl t) =
      add_batch-IsGrown n batch (if l.is_truncated then ok l else add_entry utf8 entry l)
        (subst (λ b. IsGrown n (if b then ok l else add_entry utf8 entry l)) (sym t) (inl t))
  add_batch-IsGrown n (entry ∷ batch) (ok l) (inr g) =
      add_batch-IsGrown n batch (if l.is_truncated then ok l else add_entry utf8 entry l) (
        if-both (IsGrown n) l.is_truncated (ok l) (add_entry utf8 entry l) (inr g)
          (add_entry-IsGrown n entry l g))

  add_entry-dot :
      (entry : DirEntry Text) (l : DirectoryListing)
      → is_dot entry ≡ true
      → add_entry utf8 entry l ≡ ok l
  unfolding add_entry
  add_entry-dot entry l dot = rw dot refl

  -- A batch that names something.
  add_batch-named :
      (n : ℕ) (batch : List (DirEntry Text)) (l : DirectoryListing)
      → has_named batch ≡ true
      → n ≤ length l.entries
      → IsGrown n (add_batch utf8 batch (ok l))
  unfolding add_batch has_named
  add_batch-named n [] l h m = absurd cc
  add_batch-named n (entry ∷ batch) l h m = elim (Bool-cases l.is_truncated) [
    | inl t ↦
        add_batch-IsGrown n batch (if l.is_truncated then ok l else add_entry utf8 entry l)
          (subst (λ b. IsGrown n (if b then ok l else add_entry utf8 entry l)) (sym t) (inl t))
    | inr f ↦
        subst (λ b. IsGrown n (add_batch utf8 batch (if b then ok l else add_entry utf8 entry l)))
          (sym f)
          (elim (Bool-cases (is_dot entry)) [
            | inl dot ↦
                subst (λ r. IsGrown n (add_batch utf8 batch r)) (sym (add_entry-dot entry l dot))
                  (add_batch-named n batch l (ground arith) m)
            | inr named ↦
                add_batch-IsGrown n batch (add_entry utf8 entry l)
                  (add_entry-named n entry l named m)
          ])
  ]

-- The far side answers with an end, or with a batch that names something.
abbrev pub IsProgressing : {W : Type 0} → Server W → Type 0
IsProgressing {W = W} serve =
    (handle : Bytes) (world : W) (batch : List (DirEntry Text))
    → (serve (read_dir handle) world).0.0 ≡ ok (some batch)
    → (batch ≡ []) ⊎ (has_named batch ≡ true)

-- The loop gave a result, of whichever kind.
abbrev pub HasEnded :
    {W : Type 0} → Result HandlerError (Option DirectoryListing) × Handler W → Type 0
HasEnded q = q.0 ≢ ok none

module _ {W : Type 0} (serve : Server W) (utf8 : Text → Bytes) where
  pass_batch-ends :
      (next : DirectoryListing → Method W (Option DirectoryListing)) (l : DirectoryListing)
      (batch : List (DirEntry Text)) (h : Handler W)
      → ((l' : DirectoryListing) (s : Handler W)
          → IsInBounds utf8 l'
          → length l.entries < length l'.entries
          → HasEnded (next l' s))
      → IsInBounds utf8 l
      → (batch ≡ []) ⊎ (has_named batch ≡ true)
      → HasEnded (pass_batch serve utf8 next l batch h)
  unfolding pass_batch has_named
  pass_batch-ends next l [] h n b p = λ e. cc
  pass_batch-ends next l (entry ∷ entries) h n b (inl e) = absurd cc
  pass_batch-ends next l (entry ∷ entries) h n b (inr named) =
      go (add_batch utf8 (entry ∷ entries) (ok l))
        (add_batch-bounds utf8 (entry ∷ entries) (ok l) b)
        (add_batch-named utf8 (length l.entries) (entry ∷ entries) l named (omega arith))
    where
      go :
          (r : Result HandlerError DirectoryListing)
          → AllInBounds utf8 r
          → IsGrown (length l.entries) r
          → HasEnded
              ((from_result r >>= λ l'. if l'.is_truncated then pure (some l') else next l') h)
      go (throw e) b g = λ e. cc
      go (ok l') b (inl t) =
          subst (λ c. HasEnded ((if c then pure (some l') else next l') h)) (sym t) (λ e. cc)
      go (ok l') b (inr g) =
          if-both (λ m. HasEnded (m h)) l'.is_truncated (pure (some l')) (next l') (λ e. cc)
            (n l' h b g)

  list_loop-ends :
      (fuel : ℕ) (handle : Bytes) (l : DirectoryListing) (h : Handler W)
      → IsProgressing serve
      → IsInBounds utf8 l
      → max_directory_entries < length l.entries + fuel
      → HasEnded (list_loop serve utf8 fuel handle l h)
  unfolding list_loop list_step call
  list_loop-ends zero handle l h p b m = absurd (omega arith)
  list_loop-ends (suc fuel) handle l h p b m =
      if-both (λ k. HasEnded (k h)) (ltb (length l.entries) max_directory_entries)
        (call serve (read_dir handle) >>= later) (pure (some l))
        (go (λ l' s c g. list_loop-ends fuel handle l' s p c (omega arith))
          (serve (read_dir handle) h.world).0.0 _ refl)
        (λ e. cc)
    where
      later : Option (List (DirEntry Text)) → Method W (Option DirectoryListing)
      later batch =
          pass_batch serve utf8 (λ l'. list_loop serve utf8 fuel handle l') l (batch_of batch)

      go :
          ((l' : DirectoryListing) (s : Handler W)
            → IsInBounds utf8 l'
            → length l.entries < length l'.entries
            → HasEnded (list_loop serve utf8 fuel handle l' s))
          → (r : Result SftpError (Option (List (DirEntry Text)))) (s : Handler W)
          → (serve (read_dir handle) h.world).0.0 ≡ r
          → HasEnded (bind_from (lift r, s) later)
      go next (throw x) s e = λ k. cc
      go next (ok none) s e =
          pass_batch-ends (λ l'. list_loop serve utf8 fuel handle l') l [] s next b (inl refl)
      go next (ok (some batch)) s e =
          pass_batch-ends (λ l'. list_loop serve utf8 fuel handle l') l batch s next b
            (p handle h.world batch e)

  -- The loop of `list` ends where each batch of the far side is empty or names something besides
  -- the two dots: 2001 passes are enough then.
  pub list_loop-HasEnded :
      (fuel : ℕ) (handle : Bytes) (h : Handler W)
      → IsProgressing serve
      → max_directory_entries < fuel
      → HasEnded (
          list_loop serve utf8 fuel handle
            (record { entries = []; response_bytes = 0; is_truncated = false })
            h)
  list_loop-HasEnded fuel handle h p m =
      list_loop-ends fuel handle (record { entries = []; response_bytes = 0; is_truncated = false })
        h p (omega arith, omega arith, omega arith) (omega arith)
