-- ===== src/Body/Split.antt =====
-- proxy.go: `sendBodySplitIntoChunk` makes a body in the chunked encoding.
use cow.Base.{
  ℕ, zero, suc, ◌^◌, ◌≤◌, ◌<◌, ◌≡◌, refl, sym, ap, subst, ◌∙◌, inl, inr, none, some, List, [], ◌∷◌,
  ◌++◌, arith, length, length-append, All, List-cases, Bytes, index_byte, int64_mod,
}
use mathlib.Core.List.{append_assoc}
use cow.Std.Strconv.{write_hex}
use cow.Util.Space.{trim_space}
use cow.Util.ParseInt.{ok, parse_int_from_bytes}
use cow.Util.ParseInt.Hex.{write_hex-line, length-write_hex}
use cow.Body.{
  Sent, done, again, on_round, crlf, chunk_end, before_extension, eof, BufReader, IsStream, Sink,
  IsOpen, with_sent, write-IsOpen, after_last, last_chunk, and_write, chunk_written, split_round,
  send_body_split_into_chunk,
}
use cow.Body.Chunked.{Chunk, encoded, encoded_all, line_size, IsChunk}

-- The chunk that a piece of the body becomes.
abbrev pub chunk_of : Bytes → Chunk
chunk_of b = record { line = write_hex (length b) ++ 13 ∷ []; payload = b }

abbrev pub payloads : List Chunk → Bytes
payloads [] = []
payloads (c ∷ cs) = c.payload ++ payloads cs

chunk_line : (n : ℕ) → (write_hex n ++ 13 ∷ []) ++ 10 ∷ [] ≡ write_hex n ++ 13 ∷ 10 ∷ []
chunk_line n = append_assoc (write_hex n) (13 ∷ []) (10 ∷ [])

before_none : (s : Bytes) → index_byte 59 s ≡ none → before_extension s ≡ s
unfolding before_extension
before_none s e = rw (e, before_extension) refl

line_size-hex : (n : ℕ) → n < int64_mod → line_size (write_hex n ++ 13 ∷ []) ≡ ok n
line_size-hex n h =
    let (a, b, c) = write_hex-line n h in
    ap (λ s. parse_int_from_bytes (trim_space (before_extension s)) 16) (chunk_line n)
    ∙ ap (λ s. parse_int_from_bytes (trim_space s) 16) (before_none (write_hex n ++ 13 ∷ 10 ∷ []) b)
    ∙ c

chunk_of-IsChunk :
    (size : ℕ) (b : Bytes)
    → 18 ≤ size
    → size < 2 ^ 32
    → 0 < length b
    → length b ≤ size
    → IsChunk size (chunk_of b)
chunk_of-IsChunk size b h k p q =
    let n = length b in
    let short : length (write_hex n ++ 13 ∷ []) ≤ 17 =
      omega (arith, length-append (write_hex n) (13 ∷ []), length-write_hex n) in
    record {
      is_line = ((write_hex-line n (omega arith)).0, omega arith);
      sized = line_size-hex n (omega arith);
      not_last = p;
      small = omega arith;
    }

module _ {R : Type 0} (reader : BufReader R) (left : R → Bytes) (size : ℕ)
    (law : IsStream reader left size) (room : 18 ≤ size) (bounded : size < 2 ^ 32) where
  -- The whole stream was sent, in chunks with a plain end behind them.
  pub record IsCut (r : R) (w : Sink) (result : Sent × R × Sink) : Type 0 where
    pub chunks : List Chunk
    pub after : R
    pub sink : Sink
    pub returned : result ≡ (done, after, sink)
    pub wrote : sink.sent ≡ w.sent ++ (encoded_all chunks ++ chunk_end)
    pub are_chunks : All (IsChunk size) chunks
    pub carried : payloads chunks ≡ left r
    pub canonical : All (λ c. c.line ≡ write_hex (length c.payload) ++ 13 ∷ []) chunks
    pub at_end : left after ≡ []

  abbrev sent_chunk : Sink → Bytes → Sink
  sent_chunk w b = with_sent (with_sent (with_sent w (write_hex (length b) ++ crlf)) b) crlf

  sent_chunk-encoded :
      (w : Sink) (b : Bytes) → (sent_chunk w b).sent ≡ w.sent ++ encoded (chunk_of b)
  sent_chunk-encoded w b =
      let hex = write_hex (length b) in
      ap (λ k. k ++ crlf) (append_assoc w.sent (hex ++ crlf) b)
      ∙ append_assoc w.sent ((hex ++ crlf) ++ b) crlf
      ∙ ap (λ k. w.sent ++ k)
          (append_assoc (hex ++ crlf) b crlf
            ∙ append_assoc hex crlf (b ++ crlf)
            ∙ sym (append_assoc hex (13 ∷ []) (10 ∷ (b ++ crlf))))

  split_round-chunk :
      (b : Bytes) (r : R) (w : Sink)
      → IsOpen w
      → split_round w ((b, none), r) ≡ again 0 r (sent_chunk w b)
  unfolding split_round and_write chunk_written
  split_round-chunk b r w o =
      rw
        (
          write-IsOpen (write_hex (length b) ++ crlf) w o,
          write-IsOpen b (with_sent w (write_hex (length b) ++ crlf)) o,
          write-IsOpen crlf (with_sent (with_sent w (write_hex (length b) ++ crlf)) b) o,
        )
        refl

  end_of_stream :
      (fuel : ℕ) (r r' : R) (w : Sink)
      → IsOpen w
      → left r ≡ []
      → left r' ≡ []
      → IsCut r w (
          on_round
            (split_round w (([], some eof), r'))
            (λ n r' w'. send_body_split_into_chunk reader fuel w' r'))
  unfolding split_round last_chunk after_last
  end_of_stream fuel r r' w o e g = rw (write-IsOpen chunk_end w o) (record {
    chunks = [];
    after = r';
    sink = with_sent w chunk_end;
    returned = refl;
    wrote = refl;
    are_chunks = tt;
    carried = sym e;
    canonical = tt;
    at_end = g;
  })

  -- A body whose length is not known: what is sent is a body in the chunked encoding that
  -- carries the whole stream, cut as the reader gave it; each size line is the payload's length in
  -- hexadecimal with CRLF behind it. As many rounds as there are bytes, and one more, are enough.
  pub split_into_chunk-IsCut :
      (fuel : ℕ) (r : R) (w : Sink)
      → IsOpen w
      → length (left r) < fuel
      → IsCut r w (send_body_split_into_chunk reader fuel w r)
  unfolding send_body_split_into_chunk
  split_into_chunk-IsCut zero r w o h = absurd (omega arith)
  split_into_chunk-IsCut (suc fuel) r w o h = elim (List-cases (left r)) [
    | inl e ↦
        let (r', f, g) = law.ends r e in
        subst
          (λ x.
            IsCut r w (
              on_round (split_round w x) (λ n r' w'. send_body_split_into_chunk reader fuel w' r')))
          (sym f) (end_of_stream fuel r r' w o e g)
    | inr (x, xs, e) ↦
        let (b, r', f, g, p, q) = law.reads_next r (λ z. absurd (cc (z, e))) in
        let rest =
          split_into_chunk-IsCut fuel r' (sent_chunk w b) o
            (omega (arith, ap length g, length-append b (left r'))) in
        subst
          (λ x.
            IsCut r w (
              on_round (split_round w x) (λ n r' w'. send_body_split_into_chunk reader fuel w' r')))
          (sym f)
          (rw (split_round-chunk b r' w o) (record {
            chunks = chunk_of b ∷ rest.chunks;
            after = rest.after;
            sink = rest.sink;
            returned = rest.returned;
            wrote =
                rest.wrote
                ∙ ap (λ k. k ++ (encoded_all rest.chunks ++ chunk_end)) (sent_chunk-encoded w b)
                ∙ append_assoc w.sent (encoded (chunk_of b)) (encoded_all rest.chunks ++ chunk_end)
                ∙ ap (λ k. w.sent ++ k)
                    (sym (append_assoc (encoded (chunk_of b)) (encoded_all rest.chunks) chunk_end));
            are_chunks = (chunk_of-IsChunk size b room bounded p q, rest.are_chunks);
            carried = ap (λ k. b ++ k) rest.carried ∙ sym g;
            canonical = (refl, rest.canonical);
            at_end = rest.at_end;
          }))
  ]
