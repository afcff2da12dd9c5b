-- ===== src/Body/Copy.antt =====
-- util.go: `copyN` on a reader that keeps to its stream.
use cow.Base.{
  ℕ, zero, suc, ◌-◌, ◌≤◌, ◌<◌, ◌≡◌, refl, sym, ap, ◌∙◌, inl, inr, [], ◌∷◌, ◌++◌, arith, ◌==◌,
  if◌then◌else◌, Bool-cases, length, take, drop, drop_all, take_all, Bytes, signed_lt, signed_sub,
  int64_half,
}
use mathlib.Core.List.{append_assoc, append-nil}
use cow.Body.{
  Sent, done, on_round, after_write, after_read, copy_rounds, copy_n, send_body_with_cont_len,
  http_buf_size, ReadResult, BufReader, Gives, some_bytes, last_bytes, IsStream, Sink, IsOpen,
  with_sent, write-IsOpen,
}

pub take_split : (n : ℕ) (b t : Bytes) → length b ≤ n → take n (b ++ t) ≡ b ++ take (n - length b) t
take_split n [] t h = ap (λ k. take k t) (omega arith)
take_split zero (c ∷ b) t h = absurd (omega arith)
take_split (suc n) (c ∷ b) t h =
    ap (◌∷◌ c) (take_split n b t (omega arith) ∙ ap (λ k. b ++ take k t) (omega arith))

pub drop_split : (n : ℕ) (b t : Bytes) → length b ≤ n → drop n (b ++ t) ≡ drop (n - length b) t
drop_split n [] t h = ap (λ k. drop k t) (omega arith)
drop_split zero (c ∷ b) t h = absurd (omega arith)
drop_split (suc n) (c ∷ b) t h = drop_split n b t (omega arith) ∙ ap (λ k. drop k t) (omega arith)

module _ {R : Type 0} (left : R → Bytes) where
  -- The first `n` bytes that were to come, or all where there are fewer, went to the sink.
  pub record Copied (n : ℕ) (r : R) (w : Sink) (result : Sent × R × Sink) : Type 0 where
    pub after : R
    pub sink : Sink
    pub returned : result ≡ (done, after, sink)
    pub wrote : sink.sent ≡ w.sent ++ take n (left r)
    pub rest : left after ≡ drop n (left r)
    pub is_open : IsOpen sink

  module _ (reader : BufReader R) (rd_size : ℕ) where
    -- The rest of the loop after a read that kept to the stream.
    after_read-Copied :
        (fuel n m : ℕ) (r : R) (w : Sink) (x : ReadResult × R)
        → 0 < m
        → m ≤ n
        → n < int64_half
        → IsOpen w
        → ((n' : ℕ) (r' : R) (w' : Sink)
            → n' < n
            → IsOpen w'
            → Copied n' r' w' (copy_rounds reader rd_size fuel n' r' w'))
        → Gives left m r x
        → Copied n r w
            (on_round (after_read n w x) (λ n' r' w'. copy_rounds reader rd_size fuel n' r' w'))
    unfolding after_read after_write
    after_read-Copied fuel n m r w x p q h o go (some_bytes [] r' e k l) = absurd (omega arith)
    after_read-Copied fuel n m r w x p q h o go (some_bytes (c ∷ b) r' e k l) =
        rw (write-IsOpen (c ∷ b) w o) (
          let n' = signed_sub int64_half n (length (c ∷ b)) in
          let less : n' ≡ n - length (c ∷ b) = omega arith in
          let g = go n' r' (with_sent w (c ∷ b)) (omega arith) o in
          record {
            after = g.after;
            sink = g.sink;
            returned = g.returned;
            wrote =
                g.wrote
                ∙ append_assoc w.sent (c ∷ b) (take n' (left r'))
                ∙ ap (λ k. w.sent ++ k)
                    (ap (λ k. (c ∷ b) ++ take k (left r')) less
                      ∙ sym (take_split n (c ∷ b) (left r') (omega arith))
                      ∙ ap (take n) (sym e));
            rest =
                g.rest
                ∙ ap (λ k. drop k (left r')) less
                ∙ sym (drop_split n (c ∷ b) (left r') (omega arith))
                ∙ ap (drop n) (sym e);
            is_open = g.is_open;
          })
    after_read-Copied fuel n m r w x p q h o go (last_bytes [] r' e k l) = record {
      after = r';
      sink = w;
      returned = refl;
      wrote =
          sym (
            ap (λ k. w.sent ++ k) (ap (take n) e ∙ take_all n [] (omega arith))
            ∙ append-nil w.sent);
      rest = k ∙ sym (ap (drop n) e ∙ drop_all n [] (omega arith));
      is_open = o;
    }
    after_read-Copied fuel n m r w x p q h o go (last_bytes (c ∷ b) r' e k l) =
        rw (write-IsOpen (c ∷ b) w o) (record {
          after = r';
          sink = with_sent w (c ∷ b);
          returned = refl;
          wrote = ap (λ k. w.sent ++ k) (sym (ap (take n) e ∙ take_all n (c ∷ b) (omega arith)));
          rest = k ∙ sym (ap (drop n) e ∙ drop_all n (c ∷ b) (omega arith));
          is_open = o;
        })

    module _ {size : ℕ} (law : IsStream reader left size) (positive : 0 < rd_size)
        (small : rd_size < int64_half) where
      copy_rounds-Copied :
          (fuel n : ℕ) (r : R) (w : Sink)
          → n < fuel
          → n < int64_half
          → IsOpen w
          → Copied n r w (copy_rounds reader rd_size fuel n r w)
      unfolding copy_rounds
      copy_rounds-Copied zero n r w f h o = absurd (omega arith)
      copy_rounds-Copied (suc fuel) n r w f h o = elim (Bool-cases (signed_lt int64_half 0 n)) [
        | inr e ↦
            let nothing : n ≡ 0 = ground arith in
            rw (e, copy_rounds)
              (record {
                after = r;
                sink = w;
                returned = refl;
                wrote = sym (ap (λ k. w.sent ++ take k (left r)) nothing ∙ append-nil w.sent);
                rest = sym (ap (λ k. drop k (left r)) nothing);
                is_open = o;
              })
        | inl e ↦
            let m = if signed_lt int64_half rd_size n then rd_size else n in
            rw (e, copy_rounds)
              (after_read-Copied fuel n m r w (reader.read_n m r) (ground arith) (ground arith) h o
                (λ n' r' w' l. copy_rounds-Copied fuel n' r' w' (omega arith) (omega arith))
                (law.reads m r (ground arith)))
      ]

      -- `copyN` of an int that is not negative ends, whatever pieces the reader gives.
      pub copy_n-Copied :
          (n : ℕ) (r : R) (w : Sink)
          → n < int64_half
          → IsOpen w
          → Copied n r w (copy_n reader w r n rd_size)
      unfolding copy_n
      copy_n-Copied n r w h o = copy_rounds-Copied (suc n) n r w (omega arith) h o

-- A body with a content length, where the stream has fewer bytes too: the first `n` bytes of the
-- stream, or all that there are, are sent, and no error is returned.
pub send_body-cont_len :
    {R : Type 0} (reader : BufReader R) (left : R → Bytes) {size : ℕ}
    (law : IsStream reader left size) (n : ℕ) (r : R) (w : Sink)
    → n < int64_half
    → IsOpen w
    → Copied left n r w (send_body_with_cont_len reader w r n)
unfolding send_body_with_cont_len
send_body-cont_len reader left law n r w h o = elim (Bool-cases (n == 0)) [
  | inl y ↦
      let none_left : n ≡ 0 = ground arith in
      rw y (record {
        after = r;
        sink = w;
        returned = refl;
        wrote = sym (ap (λ k. w.sent ++ take k (left r)) none_left ∙ append-nil w.sent);
        rest = sym (ap (λ k. drop k (left r)) none_left);
        is_open = o;
      })
  | inr f ↦ rw f (copy_n-Copied left reader http_buf_size law (omega arith) (omega arith) n r w h o)
]
