-- ===== src/Sftp/RequestIds.antt =====
-- `allocateRequestId` of worker/src/webssh/ssh/sftp.ts always finds a number.
use cf_workers_vpsmonitor.Common.{
  ℕ, zero, suc, ◌+◌, ◌-◌, ◌≤◌, ◌<◌, true, false, ◌||◌, List, [], ◌∷◌, some, length, leb, ◌==◌,
  if◌then◌else◌, ◌≡◌, refl, ap, subst, ok, Bool-cases, inl, inr, ==_iff, arith,
}
use cf_workers_vpsmonitor.Sftp.Client.{
  PendingRequest, SftpClient, has_pending, bump, find_id, allocate_request_id,
}

-- The greatest number of a request.
abbrev pub last_id : ℕ
last_id = 0xffffffff

abbrev pub IsId : ℕ → Type 0
IsId n = (0 < n) × (n ≤ last_id)

bump-IsId : (n : ℕ) → IsId n → IsId (bump n)
unfolding bump
bump-IsId n h = (ground arith, ground arith)

-- How many steps of `bump` lead from the start to a number.
distance : ℕ → ℕ → ℕ
distance start n = if leb start n then n - start else (n + last_id) - start

distance-bump :
    (start n : ℕ)
    → IsId start
    → IsId n
    → suc (distance start n) < last_id
    → distance start (bump n) ≡ suc (distance start n)
unfolding distance bump
distance-bump start n h k l = ground arith

distance_start : (start : ℕ) → distance start start ≡ 0
unfolding distance
distance_start start = ground arith

module _ {V : Type 0} where
  -- The pending requests whose numbers lie at a distance or behind it.
  behind : ℕ → ℕ → List (PendingRequest V) → ℕ
  behind start far [] = 0
  behind start far (r ∷ rs) =
      let rest = behind start far rs in if leb far (distance start r.id) then suc rest else rest

  behind_bound : (start far : ℕ) (rs : List (PendingRequest V)) → behind start far rs ≤ length rs
  unfolding behind
  behind_bound start far [] = omega arith
  behind_bound start far (r ∷ rs) = let ih = behind_bound start far rs in ground arith

  behind-suc :
      (start far : ℕ) (rs : List (PendingRequest V))
      → behind start (suc far) rs ≤ behind start far rs
  unfolding behind
  behind-suc start far [] = omega arith
  behind-suc start far (r ∷ rs) = let ih = behind-suc start far rs in ground arith

  behind-has :
      (start n : ℕ) (rs : List (PendingRequest V))
      → has_pending n rs ≡ true
      → suc (behind start (suc (distance start n)) rs) ≤ behind start (distance start n) rs
  unfolding behind has_pending
  behind-has start n [] h = absurd (ground arith)
  behind-has start n (r ∷ rs) h = elim (Bool-cases (r.id == n)) [
    | inl same ↦
        let d : distance start r.id ≡ distance start n =
          ap (distance start) ((==_iff r.id n).0 same) in
        let m = behind-suc start (distance start n) rs in ground arith
    | inr other ↦
        let ih = behind-has start n rs (subst (λ b. (b || has_pending n rs) ≡ true) other h) in
        ground arith
  ]

  -- A number that may be given to a new request.
  abbrev pub IsFree : ℕ → List (PendingRequest V) → Type 0
  IsFree id rs = IsId id × (has_pending id rs ≡ false)

  find_id-IsFree :
      (attempts start n : ℕ) (rs : List (PendingRequest V))
      → IsId start
      → IsId n
      → distance start n + attempts ≤ last_id
      → behind start (distance start n) rs < attempts
      → (id : ℕ) × IsFree id rs × (find_id attempts n rs ≡ some id)
  unfolding find_id
  find_id-IsFree zero start n rs h0 h1 h2 h3 = absurd (omega arith)
  find_id-IsFree (suc attempts) start n rs h0 h1 h2 h3 = elim (Bool-cases (has_pending n rs)) [
    | inr free ↦ let e : (n == 0) ≡ false = ground arith in (n, (h1, free), rw (e, free) refl)
    | inl taken ↦
        let less = behind-has start n rs taken in
        let far = distance-bump start n h0 h1 (omega arith) in
        let (id, free, e) =
          find_id-IsFree attempts start (bump n) rs h0 (bump-IsId n h1) (omega arith)
            (rw far (omega arith)) in
        let z : (n == 0) ≡ false = ground arith in (id, free, rw (z, taken) e)
  ]

-- With fewer pending requests than there are numbers, and a next number in range,
-- `allocateRequestId` gives a number in range that no pending request has, and leaves as the next
-- number one in range, and nothing else changed.
pub allocate_request_id_lem :
    {V Text : Type 0} (c : SftpClient V Text)
    → IsId c.next_request_id
    → length c.pending < last_id
    → (id : ℕ) × IsFree id c.pending
      × IsId (bump id)
      × (allocate_request_id c ≡ (ok id, record c { next_request_id = bump id }))
unfolding allocate_request_id
allocate_request_id_lem c h k =
    let start = distance_start c.next_request_id in
    let (id, free, e) =
      find_id-IsFree (length c.pending + 1) c.next_request_id c.next_request_id c.pending h h
        (omega arith)
        (omega (
          arith,
          behind_bound c.next_request_id (distance c.next_request_id c.next_request_id) c.pending,
        )) in
    (id, free, bump-IsId id (free.0), rw e refl)
