-- ===== src/Body.antt =====
-- proxy.go: the transfer of message bodies; util.go: `copyN`. A loop runs on fuel; `stuck` says
-- that it has run out. Writers of the package `net` return an error when they write less than they
-- were given, so the error `ErrShortWrite` of `copyN` has no case of its own.
mod Reader
pub use Reader.*
pub mod Copy
pub mod Chunked
pub mod Split
pub mod Endless
use cow.Base.{
  ℕ, zero, suc, ◌+◌, ◌*◌, ◌%◌, Bool, true, false, not, ◌||◌, Option, none, some, [], ◌∷◌, ◌++◌,
  ◌==◌, if◌then◌else◌, length, get_or, take, Bytes, index_byte, signed_lt, signed_ge, signed_sub,
  int64_half, int64_mod,
}
use cow.Util.Space.{trim_space}
use cow.Util.ParseInt.{Result, ok, err, parse_int_from_bytes}
use cow.Std.Strconv.{write_hex}

pub data Sent : Type 0 where
  done stuck : Sent
  failed : IoError → Sent

abbrev pub crlf : Bytes
crlf = 13 ∷ 10 ∷ []

abbrev pub chunk_end : Bytes
chunk_end = 48 ∷ 13 ∷ 10 ∷ 13 ∷ 10 ∷ []

abbrev pub http_buf_size : ℕ
http_buf_size = 8192

-- What a round of a loop comes to: an end, or another round with `n` bytes left to copy.
pub data Round (R : Type 0) : Type 0 where
  ends : Sent → R → Sink → Round R
  again : ℕ → R → Sink → Round R

abbrev pub on_round : {R : Type 0} → Round R → (ℕ → R → Sink → Sent × R × Sink) → Sent × R × Sink
on_round (ends e r w) go = (e, r, w)
on_round (again n r w) go = go n r w

-- `if ew != nil` and the lines behind it, with the error of the read.
unfoldable pub after_write : {R : Type 0} → ℕ → Option IoError → R → Bool × Sink → Round R
after_write n er r (false, w) = ends (failed write_error) r w
after_write n none r (true, w) = again n r w
after_write n (some eof) r (true, w) = ends done r w
after_write n (some e) r (true, w) = ends (failed e) r w

unfoldable pub after_read : {R : Type 0} → ℕ → Sink → ReadResult × R → Round R
unfolding after_write
after_read n w (([], er), r) = after_write n er r (true, w)
after_read n w ((c ∷ b, er), r) =
    after_write (signed_sub int64_half n (length (c ∷ b))) er r (write (c ∷ b) w)

check_crlf : {R : Type 0} → ReadResult × R → Option IoError × R
check_crlf ((b, some e), r) = (some e, r)
check_crlf ((b, none), r) =
    if not (get_or b 0 0 == 13) || not (get_or b 1 0 == 10)
    then (some malformed_end, r)
    else (none, r)

after_last : {R : Type 0} → R → Bool × Sink → Sent × R × Sink
after_last r (true, w) = (done, r, w)
after_last r (false, w) = (failed write_error, r, w)

-- The last chunk was read.
end_chunks : {R : Type 0} → Sink → Option IoError × R → Sent × R × Sink
unfolding after_last
end_chunks w (some e, r) = (failed e, r, w)
end_chunks w (none, r) = after_last r (write chunk_end w)

-- The part of the line in front of a chunk extension.
unfoldable pub before_extension : Bytes → Bytes
before_extension s = elim (index_byte b';' s) [ none ↦ s | some smid ↦ take smid s ]

chunk_copied : {R : Type 0} → Sent × R × Sink → Round R
chunk_copied (done, r, w) = again 0 r w
chunk_copied (stuck, r, w) = ends stuck r w
chunk_copied (failed e, r, w) = ends (failed e) r w

last_chunk : {R : Type 0} → Sent × R × Sink → Round R
last_chunk (e, r, w) = ends e r w

and_write : Bool × Sink → Bytes → Bool × Sink
and_write (true, w) b = write b w
and_write (false, w) b = (false, w)

chunk_written : {R : Type 0} → R → Bool × Sink → Round R
chunk_written r (true, w) = again 0 r w
chunk_written r (false, w) = ends (failed write_error) r w

-- The three writes of a chunk, of which each is made only after the one before succeeded.
split_round : {R : Type 0} → Sink → ReadResult × R → Round R
unfolding and_write chunk_written after_last last_chunk
split_round w ((b, some eof), r) = last_chunk (after_last r (write chunk_end w))
split_round w ((b, some e), r) = ends (failed e) r w
split_round w ((b, none), r) =
    chunk_written r (and_write (and_write (write (write_hex (length b) ++ crlf) w) b) crlf)

module _ {R : Type 0} (reader : BufReader R) where
  -- The loop of `copyN`; `n` is an int.
  unfoldable pub copy_rounds : ℕ → ℕ → ℕ → R → Sink → Sent × R × Sink
  unfolding after_read
  copy_rounds rd_size zero n r w = (stuck, r, w)
  copy_rounds rd_size (suc fuel) n r w = elim (signed_lt int64_half 0 n) [
    | false ↦ (done, r, w)
    | true ↦
        on_round
          (after_read n w (reader.read_n (if signed_lt int64_half rd_size n then rd_size else n) r))
          (λ n' r' w'. copy_rounds rd_size fuel n' r' w')
  ]

  -- A round reads a byte at least, so `n + 1` rounds are enough.
  unfoldable pub copy_n : Sink → R → ℕ → ℕ → Sent × R × Sink
  unfolding copy_rounds
  copy_n w r n rd_size = copy_rounds rd_size (suc n) n r w

  unfoldable pub send_body_with_cont_len : Sink → R → ℕ → Sent × R × Sink
  unfolding copy_n
  send_body_with_cont_len w r cont_len =
      if cont_len == 0 then (done, r, w) else copy_n w r cont_len http_buf_size

  -- `skipCRLF`: the error, `none` for nil.
  unfoldable pub skip_crlf : R → Option IoError × R
  unfolding check_crlf
  skip_crlf r = check_crlf (reader.read_full 2 r)

  chunk_round : ℕ → Bytes → R → Sink → Result ℕ → Round R
  unfolding end_chunks skip_crlf copy_n chunk_copied last_chunk
  chunk_round rd_size s r w (err e) = ends (failed (bad_size e)) r w
  chunk_round rd_size s r w (ok size) =
      if size == 0
      then last_chunk (end_chunks w (skip_crlf (reader.skip (length s) r)))
      else chunk_copied (copy_n w r ((length s + size + 2) % int64_mod) rd_size)

  line_round : ℕ → Sink → ReadResult × R → Round R
  unfolding chunk_round before_extension
  line_round rd_size w ((s, some e), r) = ends (failed e) r w
  line_round rd_size w ((s, none), r) =
      chunk_round rd_size s r w (parse_int_from_bytes (trim_space (before_extension s)) 16)

  -- The loop of `sendBodyChunked`.
  unfoldable pub send_body_chunked : ℕ → ℕ → Sink → R → Sent × R × Sink
  unfolding line_round
  send_body_chunked rd_size zero w r = (stuck, r, w)
  send_body_chunked rd_size (suc fuel) w r =
      on_round (line_round rd_size w (reader.peek_slice 10 r))
        (λ n r' w'. send_body_chunked rd_size fuel w' r')

  -- The loop of `sendBodySplitIntoChunk`.
  unfoldable pub send_body_split_into_chunk : ℕ → Sink → R → Sent × R × Sink
  unfolding split_round
  send_body_split_into_chunk zero w r = (stuck, r, w)
  send_body_split_into_chunk (suc fuel) w r =
      on_round (split_round w (reader.read_next r))
        (λ n r' w'. send_body_split_into_chunk fuel w' r')

  unfoldable pub send_body : ℕ → Sink → R → ℕ → Bool → Sent × R × Sink
  unfolding send_body_chunked send_body_with_cont_len send_body_split_into_chunk
  send_body fuel w r cont_len chunk =
      if chunk
      then send_body_chunked http_buf_size fuel w r
      else if signed_ge int64_half cont_len 0
      then send_body_with_cont_len w r cont_len
      else send_body_split_into_chunk fuel w r
