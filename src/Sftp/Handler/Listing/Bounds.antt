-- ===== src/Sftp/Handler/Listing/Bounds.antt =====
-- The bounds of `list` in worker/src/webssh/backend/sftp-handler.ts.
use cf_workers_vpsmonitor.Common.{
  ℕ, zero, suc, ◌+◌, ◌*◌, ◌≤◌, Bool, true, false, ◌||◌, List, [], ◌∷◌, ◌++◌, Option, none, some,
  length, length-append, ltb, ltb→le, ◌==◌, ◌≡◌, ◌≢◌, refl, subst, Result, ok, throw, if◌then◌else◌,
  Bool-cases, inl, inr, arith,
}
use cf_workers_vpsmonitor.Common.State.{bind_from, ◌>>=◌, pure}
use cf_workers_vpsmonitor.Ssh.Wire.{Bytes}
use cf_workers_vpsmonitor.Sftp.Parsing.{DirEntry}
use cf_workers_vpsmonitor.Sftp.Handler.Entries.{Text, FormattedEntry, format_entry}
use cf_workers_vpsmonitor.Sftp.Handler.State.{Handler, Method, Server, HandlerError, call, read_dir}
use cf_workers_vpsmonitor.Sftp.Handler.Listing.{
  DirectoryListing, max_directory_entries, max_directory_response_bytes, is_dot,
  is_invalid_filename, estimated_bytes, keep_entry, add_entry, add_batch, has_named, batch_of,
  pass_batch, list_step, list_loop, probe, probe_found, read_listing, from_result,
}

pub if-both {ℓ} :
    {A : Type ℓ} (P : A → Type 0) (b : Bool) (x y : A) → P x → P y → P (if b then x else y)
if-both P true x y p q = p
if-both P false x y p q = q

module _ (utf8 : Text → Bytes) where
  -- The bytes of the names
  abbrev pub name_bytes : List FormattedEntry → ℕ
  name_bytes [] = 0
  name_bytes (e ∷ es) = length (utf8 e.name) + name_bytes es

  name_bytes-snoc :
      (es : List FormattedEntry) (e : FormattedEntry)
      → name_bytes (es ++ (e ∷ [])) ≡ name_bytes es + length (utf8 e.name)
  name_bytes-snoc [] e = omega arith
  name_bytes-snoc (x ∷ es) e = omega (arith, name_bytes-snoc es e)

  -- At most 2000 entries, whose names with 256 bytes for each entry are within 2 MiB.
  abbrev pub IsInBounds : DirectoryListing → Type 0
  IsInBounds l =
      (length l.entries ≤ max_directory_entries)
      × (name_bytes l.entries + 256 * length l.entries ≤ l.response_bytes)
      × (l.response_bytes ≤ max_directory_response_bytes)

  abbrev pub AllInBounds : Result HandlerError DirectoryListing → Type 0
  AllInBounds (ok l) = IsInBounds l
  AllInBounds (throw e) = Unit

  name-estimated :
      (entry : DirEntry Text)
      → length (utf8 (format_entry entry).name) + 256 ≤ estimated_bytes utf8 entry
  unfolding estimated_bytes format_entry
  name-estimated entry = omega arith

  keep_entry-IsInBounds :
      (entry : DirEntry Text) (l : DirectoryListing)
      → IsInBounds l
      → length l.entries ≢ max_directory_entries
      → l.response_bytes + estimated_bytes utf8 entry ≤ max_directory_response_bytes
      → IsInBounds (keep_entry utf8 entry l)
  unfolding keep_entry
  keep_entry-IsInBounds entry l (a, b, c) n m = (
    omega (arith, length-append l.entries (format_entry entry ∷ [])),
    omega (
      arith,
      length-append l.entries (format_entry entry ∷ []),
      name_bytes-snoc l.entries (format_entry entry),
      name-estimated entry,
    ),
    m,
  )

  add_entry-bounds :
      (entry : DirEntry Text) (l : DirectoryListing)
      → IsInBounds l
      → AllInBounds (add_entry utf8 entry l)
  unfolding add_entry
  add_entry-bounds entry l h = elim (Bool-cases (is_dot entry)) [
    | inl dot ↦ rw dot h
    | inr named ↦ elim (Bool-cases (length l.entries == max_directory_entries)) [
      | inl full ↦ rw (named, full) h
      | inr room ↦ elim (Bool-cases (is_invalid_filename utf8 entry.filename)) [
        | inl bad ↦ rw (named, room, bad) tt
        | inr good ↦
            elim (Bool-cases
              (ltb max_directory_response_bytes (l.response_bytes + estimated_bytes utf8 entry))) [
                | inl big ↦ rw (named, room, good, big) h
                | inr fits ↦
                    rw (named, room, good, fits)
                      (keep_entry-IsInBounds entry l h (ground arith) (ltb→le _ _ fits))
              ]
      ]
    ]
  ]

  pub add_batch-bounds :
      (batch : List (DirEntry Text)) (r : Result HandlerError DirectoryListing)
      → AllInBounds r
      → AllInBounds (add_batch utf8 batch r)
  unfolding add_batch
  add_batch-bounds batch (throw e) h = h
  add_batch-bounds [] (ok l) h = h
  add_batch-bounds (entry ∷ batch) (ok l) h =
      add_batch-bounds batch (if l.is_truncated then ok l else add_entry utf8 entry l) (
        if-both AllInBounds l.is_truncated (ok l) (add_entry utf8 entry l) h
          (add_entry-bounds entry l h))

  -- What a part of `list` found.
  abbrev pub AreInBounds :
      {W : Type 0} → Result HandlerError (Option DirectoryListing) × Handler W → Type 0
  AreInBounds (ok none, h) = Unit
  AreInBounds (ok (some l), h) = IsInBounds l
  AreInBounds (throw e, h) = Unit

pub bind-cases :
    {W A B : Type 0} (P : Result HandlerError B × Handler W → Type 0) (m : Method W A)
    (k : A → Method W B) (h : Handler W)
    → ((a : A) (s : Handler W) → m h ≡ (ok a, s) → P (k a s))
    → ((e : HandlerError) (s : Handler W) → P (throw e, s))
    → P ((m >>= k) h)
bind-cases {W = W} {A = A} P m k h f g = go (m h) refl
  where
    go : (q : Result HandlerError A × Handler W) → m h ≡ q → P (bind_from q k)
    go (ok a, s) e = f a s e
    go (throw x, s) e = g x s

module _ {W : Type 0} (serve : Server W) (utf8 : Text → Bytes) where
  abbrev Found : Result HandlerError (Option DirectoryListing) × Handler W → Type 0
  Found = AreInBounds utf8

  pass_batch-bounds :
      (next : DirectoryListing → Method W (Option DirectoryListing)) (l : DirectoryListing)
      (batch : List (DirEntry Text)) (h : Handler W)
      → ((l' : DirectoryListing) (s : Handler W) → IsInBounds utf8 l' → Found (next l' s))
      → IsInBounds utf8 l
      → Found (pass_batch serve utf8 next l batch h)
  unfolding pass_batch
  pass_batch-bounds next l [] h n b = b
  pass_batch-bounds next l (entry ∷ entries) h n b =
      go (add_batch utf8 (entry ∷ entries) (ok l))
        (add_batch-bounds utf8 (entry ∷ entries) (ok l) b)
    where
      go :
          (r : Result HandlerError DirectoryListing)
          → AllInBounds utf8 r
          → Found ((from_result r >>= λ l'. if l'.is_truncated then pure (some l') else next l') h)
      go (throw e) b = tt
      go (ok l') b =
          if-both (λ m. Found (m h)) l'.is_truncated (pure (some l')) (next l') b (n l' h b)

  list_loop-bounds :
      (fuel : ℕ) (handle : Bytes) (l : DirectoryListing) (h : Handler W)
      → IsInBounds utf8 l
      → Found (list_loop serve utf8 fuel handle l h)
  unfolding list_loop list_step
  list_loop-bounds zero handle l h b = tt
  list_loop-bounds (suc fuel) handle l h b =
      elim (Bool-cases (ltb (length l.entries) max_directory_entries)) [
        | inl room ↦ rw room (
            bind-cases Found (call serve (read_dir handle)) _ h
              (λ batch s e.
                pass_batch-bounds _ l (batch_of batch) s
                  (λ l' t c. list_loop-bounds fuel handle l' t c) b)
              (λ e s. tt))
        | inr full ↦ rw full b
      ]

  probe-bounds :
      (handle : Bytes) (l : DirectoryListing) (h : Handler W)
      → IsInBounds utf8 l
      → AllInBounds utf8 (probe serve utf8 handle l h).0
  unfolding probe
  probe-bounds handle l h b =
      let probed : Option (List (DirEntry Text)) → Method W DirectoryListing =
        λ batch. pure (record l { is_truncated = l.is_truncated || has_named (batch_of batch) }) in
      if-both (λ m. AllInBounds utf8 (m h).0) (length l.entries == max_directory_entries)
        (call serve (read_dir handle) >>= probed) (pure l)
        (bind-cases (λ q. AllInBounds utf8 q.0) (call serve (read_dir handle)) probed h
          (λ batch s e. b) (λ e s. tt))
        b

  probe_found-bounds :
      (handle : Bytes) (found : Option DirectoryListing) (h : Handler W)
      → Found (ok found, h)
      → Found (probe_found serve utf8 handle found h)
  unfolding probe_found
  probe_found-bounds handle none h b = tt
  probe_found-bounds handle (some l) h b =
      bind-cases Found (probe serve utf8 handle l) _ h
        (λ l' s e. subst (λ q. AllInBounds utf8 q.0) e (probe-bounds handle l h b)) (λ e s. tt)

  -- Whatever the far side answers: a listing has at most 2000 entries, and their names, with 256
  -- bytes for each entry, are within 2 MiB.
  pub read_listing-bounds :
      (fuel : ℕ) (handle : Bytes) (h : Handler W) → Found (read_listing serve utf8 fuel handle h)
  unfolding read_listing
  read_listing-bounds fuel handle h = kept _ _ (
      bind-cases Found (list_loop serve utf8 fuel handle empty_listing)
        (probe_found serve utf8 handle) h
        (λ found s e. probe_found-bounds handle found s (
          subst Found e
            (list_loop-bounds fuel handle empty_listing h (omega arith, omega arith, omega arith))))
        (λ e s. tt))
    where
      empty_listing : DirectoryListing
      empty_listing = record { entries = []; response_bytes = 0; is_truncated = false }

      kept :
          (q : Result HandlerError (Option DirectoryListing) × Handler W) (s : Handler W)
          → Found q
          → Found (q.0, s)
      kept (ok none, t) s f = f
      kept (ok (some l), t) s f = f
      kept (throw e, t) s f = f
