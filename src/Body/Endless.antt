-- ===== src/Body/Endless.antt =====
-- proxy.go: a size line on which `sendBodyChunked` does not get on.
use cow.Base.{
  ℕ, zero, suc, ◌+◌, ◌%◌, ◌≡◌, refl, sym, subst, ◌∙◌, false, [], ◌∷◌, ◌++◌, ◌==◌, length, Bytes,
  signed_lt, int64_half, int64_mod,
}
use cow.Util.ParseInt.{ok}
use cow.Body.{
  done, stuck, on_round, copy_rounds, copy_n, BufReader, IsStream, Sink, chunk_copied, chunk_round,
  line_round, send_body_chunked,
}
use cow.Body.Chunked.{line_size, IsLine}

module _ {R : Type 0} (reader : BufReader R) (left : R → Bytes) (size rd_size : ℕ)
    (law : IsStream reader left size) where
  copy_nothing :
      (n : ℕ) (r : R) (w : Sink)
      → signed_lt int64_half 0 n ≡ false
      → copy_n reader w r n rd_size ≡ (done, r, w)
  unfolding copy_n copy_rounds
  copy_nothing n r w e = rw (e, copy_rounds) refl

  -- The size line gives a negative number so large that the chunk as a whole has no bytes, or
  -- fewer: for any number of rounds the loop comes to no end, sends nothing and takes nothing off.
  pub send_body-endless :
      (line rest : Bytes) (n fuel : ℕ) (r : R) (w : Sink)
      → IsLine size line
      → line_size line ≡ ok n
      → (n == 0) ≡ false
      → signed_lt int64_half 0 ((length (line ++ 10 ∷ []) + n + 2) % int64_mod) ≡ false
      → left r ≡ line ++ 10 ∷ rest
      → (r' : R) × (send_body_chunked reader rd_size fuel w r ≡ (stuck, r', w)) × (left r' ≡ left r)
  unfolding send_body_chunked line_round chunk_round chunk_copied
  send_body-endless line rest n zero r w k z nz neg e = (r, refl, refl)
  send_body-endless line rest n (suc fuel) r w k z nz neg e =
      let (r1, f, g) = law.peeks 10 r line rest e k.0 k.1 in
      let (r', h, i) = send_body-endless line rest n fuel r1 w k z nz neg (g ∙ e) in
      (
        r',
        subst
            (λ x.
              on_round (line_round reader rd_size w x)
                (λ m r' w'. send_body_chunked reader rd_size fuel w' r')
              ≡ (stuck, r', w))
            (sym f)
            (rw (z, nz, copy_nothing ((length (line ++ 10 ∷ []) + n + 2) % int64_mod) r1 w neg) h),
        i ∙ g,
      )
