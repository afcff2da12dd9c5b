-- ===== src/Body/Reader.antt =====
-- The buffered reader and the writer that the transfers of bodies use. The package `bufio` is a
-- fork that the repository only requires: its operations are a record, and what the code relies
-- on are the fields of `IsStream`. `left` stands for the bytes that are still to come.
use cow.Base.{
  ℕ, zero, suc, ◌≤◌, ◌<◌, ◌≡◌, ap, ◌≢◌, Bool, true, false, Option, none, some, [], ◌∷◌, ◌++◌,
  length, take, drop, Bytes, index_byte,
}
use cow.Util.ParseInt.{ParseError}

pub data IoError : Type 0 where
  eof read_error write_error malformed_end timed_out : IoError
  bad_size : ParseError → IoError

-- The bytes read and the error, `none` for nil.
abbrev pub ReadResult : Type 0
ReadResult = Bytes × Option IoError

-- `read_full` is `io.ReadFull` on the reader.
pub record BufReader (R : Type 0) : Type 0 where
  pub read_n : ℕ → R → ReadResult × R
  pub read_next : R → ReadResult × R
  pub peek_slice : ℕ → R → ReadResult × R
  pub read_slice : ℕ → R → ReadResult × R
  pub skip : ℕ → R → R
  pub read_full : ℕ → R → ReadResult × R

-- What a read of at most `n` bytes gives: something, or the end.
pub data Gives {R : Type 0} (left : R → Bytes) (n : ℕ) (r : R) : ReadResult × R → Type 0 where
  some_bytes :
      (b : Bytes) (r' : R)
      → left r ≡ b ++ left r'
      → 0 < length b
      → length b ≤ n
      → Gives left n r ((b, none), r')
  last_bytes :
      (b : Bytes) (r' : R)
      → left r ≡ b
      → left r' ≡ []
      → length b ≤ n
      → Gives left n r ((b, some eof), r')

-- The reader gives the bytes of a stream in order: a delimiter within `size` bytes is found, a
-- peek takes nothing off, and only the stream's end is an error.
pub record IsStream {R : Type 0} (reader : BufReader R) (left : R → Bytes) (size : ℕ) : Type 0 where
  pub reads : (n : ℕ) (r : R) → 0 < n → Gives left n r (reader.read_n n r)
  pub reads_next :
      (r : R)
      → left r ≢ []
      → (b : Bytes) × (r' : R) × (reader.read_next r ≡ ((b, none), r'))
        × (left r ≡ b ++ left r')
        × (0 < length b)
        × (length b ≤ size)
  pub ends :
      (r : R)
      → left r ≡ []
      → (r' : R) × (reader.read_next r ≡ (([], some eof), r')) × (left r' ≡ [])
  pub peeks :
      (c : ℕ) (r : R) (s rest : Bytes)
      → left r ≡ s ++ c ∷ rest
      → index_byte c s ≡ none
      → length s < size
      → (r' : R) × (reader.peek_slice c r ≡ ((s ++ c ∷ [], none), r')) × (left r' ≡ left r)
  pub skips : (n : ℕ) (r : R) → left (reader.skip n r) ≡ drop n (left r)
  pub fills :
      (n : ℕ) (r : R)
      → n ≤ length (left r)
      → (r' : R) × (reader.read_full n r ≡ ((take n (left r), none), r'))
        × (left r' ≡ drop n (left r))

-- A `net.Conn` that takes any number of writes, or only so many more.
pub record Sink : Type 0 where
  pub sent : Bytes
  pub limit : Option ℕ

write_within : Option ℕ → Bytes → Sink → Bool × Sink
write_within none b w = (true, record w { sent = w.sent ++ b })
write_within (some zero) b w = (false, w)
write_within (some (suc k)) b w = (true, record w { sent = w.sent ++ b; limit = some k })

-- `Write`: whether it succeeded.
unfoldable pub write : Bytes → Sink → Bool × Sink
unfolding write_within
write b w = write_within w.limit b w

-- A sink that takes everything.
abbrev pub IsOpen : Sink → Type 0
IsOpen w = w.limit ≡ none

abbrev pub with_sent : Sink → Bytes → Sink
with_sent w b = record w { sent = w.sent ++ b }

pub write-IsOpen : (b : Bytes) (w : Sink) → IsOpen w → write b w ≡ (true, with_sent w b)
unfolding write write_within
write-IsOpen b w o = ap (λ l. write_within l b w) o
