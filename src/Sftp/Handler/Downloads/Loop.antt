-- ===== src/Sftp/Handler/Downloads/Loop.antt =====
-- The loop of `download` in worker/src/webssh/backend/sftp-handler.ts ends.
use cf_workers_vpsmonitor.Common.{
  ℕ, zero, suc, ◌+◌, ◌≤◌, ◌<◌, [], ◌∷◌, Option, length, ltb, ltb→le, ◌≡◌, refl, sym, ap, ◌∙◌,
  Result, ok, throw, Bool-cases, inl, inr, arith,
}
use cf_workers_vpsmonitor.Common.State.{bind_from, ◌>>=◌, ◌>>◌}
use cf_workers_vpsmonitor.Ssh.Wire.{Bytes}
use cf_workers_vpsmonitor.Sftp.Handler.Entries.{Text}
use cf_workers_vpsmonitor.Sftp.Handler.State.{
  Handler, Method, Server, HandlerError, call, max_file_size, read_file,
}
use cf_workers_vpsmonitor.Sftp.Handler.Downloads.{
  assert_download_active, pass_chunk, download_step, download_loop, chunk_of, read_length,
  wants_more,
}

-- The loop over a pass that differs in its continuation only.
module _ {W : Type 0} where
  bind-cong :
      {A B : Type 0} (m : Method W A) (k k' : A → Method W B) (h : Handler W)
      → ((a : A) (s : Handler W) → k a s ≡ k' a s)
      → (m >>= k) h ≡ (m >>= k') h
  bind-cong {A = A} m k k' h e = go (m h)
    where
      go : (q : Result HandlerError A × Handler W) → bind_from q k ≡ bind_from q k'
      go (ok a, s) = e a s
      go (throw x, s) = refl

module _ {W : Type 0} (serve : Server W) (utf8 : Text → Bytes) where
  pass_chunk-cong :
      (next next' : ℕ → Method W ℕ) (id : Text) (size : Option ℕ) (offset : ℕ) (chunk : Bytes)
      (h : Handler W)
      → ((o : ℕ) (s : Handler W) → offset < o → o ≤ max_file_size → next o s ≡ next' o s)
      → pass_chunk serve utf8 next id size offset chunk h
        ≡ pass_chunk serve utf8 next' id size offset chunk h
  unfolding pass_chunk
  pass_chunk-cong next next' id size offset [] h e = refl
  pass_chunk-cong next next' id size offset (b ∷ bytes) h e =
      elim (Bool-cases (ltb max_file_size (offset + length (b ∷ bytes)))) [
        | inl big ↦ rw big refl
        | inr fits ↦ rw fits (e _ _ (omega arith) (ltb→le _ _ fits))
      ]

  download_step-cong :
      (next next' : ℕ → Method W ℕ) (number : ℕ) (id : Text) (size : Option ℕ) (handle : Bytes)
      (offset : ℕ) (h : Handler W)
      → ((o : ℕ) (s : Handler W) → offset < o → o ≤ max_file_size → next o s ≡ next' o s)
      → download_step serve utf8 next number id size handle offset h
        ≡ download_step serve utf8 next' number id size handle offset h
  unfolding download_step
  download_step-cong next next' number id size handle offset h e =
      elim (Bool-cases (wants_more size offset)) [
        | inl more ↦ rw more (
            bind-cong
              (assert_download_active serve utf8 number
                >> call serve (read_file handle offset (read_length size offset)))
              _ _ h
              (λ chunk s.
                bind-cong (assert_download_active serve utf8 number) _ _ s
                  (λ a t. pass_chunk-cong next next' id size offset (chunk_of chunk) t e)))
        | inr done ↦ rw done refl
      ]

  download_loop-more :
      (fuel number : ℕ) (id : Text) (size : Option ℕ) (handle : Bytes) (offset : ℕ) (h : Handler W)
      → offset ≤ max_file_size
      → max_file_size < offset + fuel
      → download_loop serve utf8 fuel number id size handle offset h
        ≡ download_loop serve utf8 (suc fuel) number id size handle offset h
  unfolding download_loop
  download_loop-more zero number id size handle offset h l m = absurd (omega arith)
  download_loop-more (suc fuel) number id size handle offset h l m =
      download_step-cong _ _ number id size handle offset h
        (λ o s p q. download_loop-more fuel number id size handle o s q (omega arith))

  -- The fuel that `download` gives the loop is enough: more makes no difference, whatever the far
  -- side answers.
  pub download_loop-enough :
      (extra number : ℕ) (id : Text) (size : Option ℕ) (handle : Bytes) (h : Handler W)
      → download_loop serve utf8 (extra + suc max_file_size) number id size handle 0 h
        ≡ download_loop serve utf8 (suc max_file_size) number id size handle 0 h
  download_loop-enough zero number id size handle h = refl
  download_loop-enough (suc extra) number id size handle h =
      let next : suc extra + suc max_file_size ≡ suc (extra + suc max_file_size) = omega arith in
      ap (λ fuel. download_loop serve utf8 fuel number id size handle 0 h) next
      ∙ sym (
          download_loop-more (extra + suc max_file_size) number id size handle 0 h (omega arith)
            (omega arith))
      ∙ download_loop-enough extra number id size handle h
