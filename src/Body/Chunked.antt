-- ===== src/Body/Chunked.antt =====
-- proxy.go: `sendBodyChunked` on a body in the chunked encoding.
use cow.Base.{
  ℕ, zero, suc, ◌+◌, ◌%◌, ◌<◌, ◌≡◌, refl, sym, ap, ap₂, subst, ◌∙◌, false, none, List, [], ◌∷◌,
  ◌++◌, arith, ◌==◌, length, take, drop, length-append, take-append, drop-append, All, Bytes,
  index_byte, int64_half, int64_mod,
}
use mathlib.Core.List.{append_assoc}
use cow.Util.Space.{trim_space}
use cow.Util.ParseInt.{Result, ok, parse_int_from_bytes}
use cow.Body.{
  Sent, done, Round, again, on_round, crlf, chunk_end, before_extension, BufReader, IsStream, Sink,
  IsOpen, with_sent, write-IsOpen, skip_crlf, check_crlf, after_last, end_chunks, chunk_copied,
  last_chunk, chunk_round, line_round, send_body_chunked,
}
use cow.Body.Copy.{copy_n-Copied}

-- The line with the size, its line feed aside, and the data.
pub record Chunk : Type 0 where
  pub line : Bytes
  pub payload : Bytes

abbrev pub encoded : Chunk → Bytes
encoded c = c.line ++ (10 ∷ (c.payload ++ crlf))

abbrev pub encoded_all : List Chunk → Bytes
encoded_all [] = []
encoded_all (c ∷ cs) = encoded c ++ encoded_all cs

-- The int that the line of a chunk gives, extensions aside.
abbrev pub line_size : Bytes → Result ℕ
line_size line = parse_int_from_bytes (trim_space (before_extension (line ++ 10 ∷ []))) 16

-- A line that a buffer of `size` bytes holds.
abbrev pub IsLine : ℕ → Bytes → Type 0
IsLine size line = (index_byte 10 line ≡ none) × (length line < size)

pub record IsChunk (size : ℕ) (c : Chunk) : Type 0 where
  pub is_line : IsLine size c.line
  pub sized : line_size c.line ≡ ok (length c.payload)
  pub not_last : 0 < length c.payload
  pub small : length c.line + length c.payload + 3 < int64_half

length-encoded :
    (c : Chunk) → length (encoded c) ≡ length (c.line ++ 10 ∷ []) + length c.payload + 2
length-encoded c = omega (
  arith,
  length-append c.line (10 ∷ (c.payload ++ crlf)),
  length-append c.payload crlf,
  length-append c.line (10 ∷ []),
)

module _ {R : Type 0} (reader : BufReader R) (left : R → Bytes) (size rd_size : ℕ)
    (law : IsStream reader left size) (positive : 0 < rd_size) (small : rd_size < int64_half) where
  -- A round that passed the bytes `b` on and left `more` in the reader.
  record Passed (b more : Bytes) (w : Sink) (round : Round R) : Type 0 where
    pub after : R
    pub sink : Sink
    pub goes_on : round ≡ again 0 after sink
    pub wrote : sink.sent ≡ w.sent ++ b
    pub rest : left after ≡ more
    pub is_open : IsOpen sink

  chunk_round-Passed :
      (c : Chunk) (more : Bytes) (r : R) (w : Sink)
      → IsChunk size c
      → left r ≡ encoded c ++ more
      → IsOpen w
      → Passed
          (encoded c)
          more
          w
          (chunk_round reader rd_size (c.line ++ 10 ∷ []) r w (ok (length c.payload)))
  unfolding chunk_round chunk_copied
  chunk_round-Passed c more r w k e o =
      let n = (length (c.line ++ 10 ∷ []) + length c.payload + 2) % int64_mod in
      let n_is : n ≡ length (encoded c) =
        omega (arith, length-encoded c, length-append c.line (10 ∷ []), k.small) in
      let g =
        copy_n-Copied left reader rd_size law positive small n r w
          (omega (arith, length-encoded c, length-append c.line (10 ∷ []), k.small)) o in
      let more_chunks : (length c.payload == 0) ≡ false = let p = k.not_last in ground arith in
      rw (more_chunks, g.returned)
        (record {
          after = g.after;
          sink = g.sink;
          goes_on = refl;
          wrote = g.wrote ∙ ap (λ b. w.sent ++ b) (ap₂ take n_is e ∙ take-append (encoded c) more);
          rest = g.rest ∙ ap₂ drop n_is e ∙ drop-append (encoded c) more;
          is_open = g.is_open;
        })

  line_round-Passed :
      (c : Chunk) (more : Bytes) (r : R) (w : Sink)
      → IsChunk size c
      → left r ≡ encoded c ++ more
      → IsOpen w
      → Passed (encoded c) more w (line_round reader rd_size w (reader.peek_slice 10 r))
  unfolding line_round
  line_round-Passed c more r w k e o =
      let (r', f, g) =
        law.peeks 10 r c.line ((c.payload ++ crlf) ++ more)
          (e ∙ append_assoc c.line (10 ∷ (c.payload ++ crlf)) more) k.is_line.0 k.is_line.1 in
      subst (λ x. Passed (encoded c) more w (line_round reader rd_size w x)) (sym f)
        (rw k.sized (chunk_round-Passed c more r' w k (g ∙ e) o))

  -- The end of the body: the line of the last chunk and a line break.
  pub record Ended (b more : Bytes) (w : Sink) (result : Sent × R × Sink) : Type 0 where
    pub after : R
    pub sink : Sink
    pub returned : result ≡ (done, after, sink)
    pub wrote : sink.sent ≡ w.sent ++ b
    pub rest : left after ≡ more

  skip_crlf-reads :
      (r : R) (rest : Bytes)
      → left r ≡ 13 ∷ 10 ∷ rest
      → (r' : R) × (skip_crlf reader r ≡ (none, r')) × (left r' ≡ rest)
  unfolding skip_crlf check_crlf
  skip_crlf-reads r rest e =
      let (r', f, g) = law.fills 2 r (omega (arith, ap length e)) in
      (
        r',
        subst (λ x. check_crlf x ≡ (none, r')) (sym f)
            (subst (λ b. check_crlf ((take 2 b, none), r') ≡ (none, r')) (sym e) refl),
        g ∙ ap (drop 2) e,
      )

  last_round-Ended :
      (line rest : Bytes) (r : R) (w : Sink) (go : ℕ → R → Sink → Sent × R × Sink)
      → IsLine size line
      → line_size line ≡ ok 0
      → left r ≡ line ++ (10 ∷ 13 ∷ 10 ∷ rest)
      → IsOpen w
      → Ended chunk_end rest w (on_round (line_round reader rd_size w (reader.peek_slice 10 r)) go)
  unfolding line_round chunk_round last_chunk end_chunks after_last
  last_round-Ended line rest r w go k z e o =
      let (r', f, g) = law.peeks 10 r line (13 ∷ 10 ∷ rest) e k.0 k.1 in
      let r2 = reader.skip (length (line ++ 10 ∷ [])) r' in
      let at_end : left r2 ≡ 13 ∷ 10 ∷ rest =
        law.skips (length (line ++ 10 ∷ [])) r'
        ∙ ap (drop (length (line ++ 10 ∷ [])))
            (g ∙ e ∙ sym (append_assoc line (10 ∷ []) (13 ∷ 10 ∷ rest)))
        ∙ drop-append (line ++ 10 ∷ []) (13 ∷ 10 ∷ rest) in
      let (r3, h, i) = skip_crlf-reads r2 rest at_end in
      subst (λ x. Ended chunk_end rest w (on_round (line_round reader rd_size w x) go)) (sym f)
        (rw z (
          subst (λ x. Ended chunk_end rest w (on_round (last_chunk (end_chunks w x)) go)) (sym h)
            (rw (write-IsOpen chunk_end w o) (record {
              after = r3;
              sink = with_sent w chunk_end;
              returned = refl;
              wrote = refl;
              rest = i;
            }))))

  -- A body of any chunks, with extensions or not: every chunk goes to the client as it came, the
  -- last one as the plain end of a body, and the reader stands right behind the body. As many
  -- rounds as there are chunks, the last one counted, are enough.
  pub send_body-chunked :
      (cs : List Chunk) (line rest : Bytes) (fuel : ℕ) (r : R) (w : Sink)
      → All (IsChunk size) cs
      → IsLine size line
      → line_size line ≡ ok 0
      → left r ≡ encoded_all cs ++ (line ++ (10 ∷ 13 ∷ 10 ∷ rest))
      → IsOpen w
      → length cs < fuel
      → Ended (encoded_all cs ++ chunk_end) rest w (send_body_chunked reader rd_size fuel w r)
  unfolding send_body_chunked
  send_body-chunked cs line rest zero r w a k z e o h = absurd (omega arith)
  send_body-chunked [] line rest (suc fuel) r w a k z e o h =
      last_round-Ended line rest r w _ k z e o
  send_body-chunked (c ∷ cs) line rest (suc fuel) r w a k z e o h =
      let more = encoded_all cs ++ (line ++ (10 ∷ 13 ∷ 10 ∷ rest)) in
      let p =
        line_round-Passed c more r w a.0
          (e ∙ append_assoc (encoded c) (encoded_all cs) (line ++ (10 ∷ 13 ∷ 10 ∷ rest))) o in
      let q =
        send_body-chunked cs line rest fuel p.after p.sink a.1 k z p.rest p.is_open (omega arith) in
      rw p.goes_on (record {
        after = q.after;
        sink = q.sink;
        returned = q.returned;
        wrote =
            q.wrote
            ∙ ap (λ b. b ++ (encoded_all cs ++ chunk_end)) p.wrote
            ∙ append_assoc w.sent (encoded c) (encoded_all cs ++ chunk_end)
            ∙ ap (λ b. w.sent ++ b) (sym (append_assoc (encoded c) (encoded_all cs) chunk_end));
        rest = q.rest;
      })
