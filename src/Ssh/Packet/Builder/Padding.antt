-- ===== src/Ssh/Packet/Builder/Padding.antt =====
-- The padding that `SSHPacketBuilder` of worker/src/webssh/ssh/packet.ts chooses.
use native.Mathlib.Nat.{add-zero, mod-lt, mod-add-mod, mod_self, add-mod_right}
use cf_workers_vpsmonitor.Common.{
  sym, ap, ◌∙◌, ==_iff, ltb→lt, ltb→le, ℕ, ◌+◌, ◌-◌, ◌%◌, ◌≤◌, ◌<◌, ◌≡◌, Bool, true, false, ltb,
  ◌==◌, if◌then◌else◌, Bool-cases, inl, inr, arith,
}
use cf_workers_vpsmonitor.Ssh.Packet.Builder.{align_base, padding_needed, padding_length}

-- The first amount fills the last block.
needed_lem :
    (n block : ℕ)
    → 0 < block
    → (padding_needed (n % block) block < block)
      × ((n + padding_needed (n % block) block) % block ≡ 0)
unfolding padding_needed
needed_lem n block h = elim (Bool-cases (n % block == 0)) [
  | inl z ↦
      let e : block - block ≡ 0 = omega arith in
      let r : n % block ≡ 0 = (==_iff (n % block) 0).0 z in rw (z, e, add-zero) (h, r)
  | inr z ↦
      let l : n % block < block = mod-lt n h in
      let e : n % block + (block - n % block) ≡ block = omega arith in
      rw z (
        ground (arith, z),
        sym (mod-add-mod n block (block - n % block)) ∙ ap (λ k. k % block) e ∙ mod_self block,
      )
]

-- One more block is added where that is not enough.
raised_lem :
    (n needed block : ℕ)
    → 4 ≤ block
    → needed < block
    → (n + needed) % block ≡ 0
    → (4 ≤ (if ltb needed 4 then needed + block else needed))
      × ((if ltb needed 4 then needed + block else needed) ≤ block + 3)
      × ((n + (if ltb needed 4 then needed + block else needed)) % block ≡ 0)
raised_lem n needed block h k e = elim (Bool-cases (ltb needed 4)) [
  | inl few ↦
      let l = ltb→lt needed 4 few in
      rw few (
        omega arith,
        omega arith,
        ap (λ m. m % block) {x = n + (needed + block)} {y = n + needed + block} (omega arith)
            ∙ add-mod_right (n + needed) block
            ∙ e,
      )
  | inr enough ↦ let l = ltb→le needed 4 enough in rw enough (omega arith, omega arith, e)
]

-- For a block size of at least 4 the padding is at least 4 and at most 3 more than the block size,
-- and it aligns to the block size the encrypted part (with an authentication tag) or the whole
-- packet (without).
pub padding_length_bounds :
    (n block : ℕ) (tagged : Bool)
    → 4 ≤ block
    → (4 ≤ padding_length n block tagged)
      × (padding_length n block tagged ≤ block + 3)
      × (((if tagged then 1 else 5) + n + padding_length n block tagged) % block ≡ 0)
unfolding padding_length align_base
padding_length_bounds n block true h =
    let (below, aligned) = needed_lem (1 + n) block (omega arith) in
    raised_lem (1 + n) _ block h below aligned
padding_length_bounds n block false h =
    let (below, aligned) = needed_lem (4 + (1 + n)) block (omega arith) in
    let e : 5 + n ≡ 4 + (1 + n) = omega arith in
    rw e (raised_lem (4 + (1 + n)) _ block h below aligned)
