-- ===== src/Http/Response/Framing.antt =====
-- http.go: the header that `parseResponse` adds for the body; proxy.go: the encoding in which
-- `sendBody` sends it.
use cow.Base.{
  ℕ, ◌≡◌, refl, ◌⊎◌, inl, inr, true, false, [], arith, ◌==◌, Bool-cases, Bytes, signed_ge,
  int64_half,
}
use cow.Body.{
  BufReader, Sink, Sent, http_buf_size, send_body, send_body_chunked, send_body_with_cont_len,
  send_body_split_into_chunk,
}
use cow.Http.Header.{Header, unknown_len}
use cow.Http.Request.{full_header_transfer_encoding}
use cow.Http.Response.{has_body, framing}

-- How a body is sent, and what is added to the header for it.
pub data Agrees {R : Type 0} (reader : BufReader R) (fuel : ℕ) (w : Sink) (r : R) (h : Header)
    (added : Bytes) (sent : Sent × R × Sink) : Type 0 where
  as_chunked :
      added ≡ full_header_transfer_encoding
      → sent ≡ send_body_chunked reader http_buf_size fuel w r
      → Agrees reader fuel w r h added sent
  as_cut :
      added ≡ full_header_transfer_encoding
      → sent ≡ send_body_split_into_chunk reader fuel w r
      → Agrees reader fuel w r h added sent
  as_given :
      added ≡ []
      → sent ≡ send_body_with_cont_len reader w r h.cont_len
      → Agrees reader fuel w r h added sent

framing-chunked :
    (method : Bytes) (status : ℕ) (h : Header)
    → h.chunking ≡ true
    → framing method status h ≡ full_header_transfer_encoding
unfolding framing
framing-chunked method status h c = rw (c, framing) refl

framing-unknown :
    (method : Bytes) (status : ℕ) (h : Header)
    → h.chunking ≡ false
    → h.cont_len ≡ unknown_len
    → has_body method status ≡ true
    → framing method status h ≡ full_header_transfer_encoding
unfolding framing
framing-unknown method status h c u b = rw (c, framing) (rw (u, framing) (rw (b, framing) refl))

framing-known :
    (method : Bytes) (status : ℕ) (h : Header)
    → h.chunking ≡ false
    → (h.cont_len == unknown_len) ≡ false
    → framing method status h ≡ []
unfolding framing
framing-known method status h c u = rw (c, framing) (rw (u, framing) refl)

known_length : (n : ℕ) → signed_ge int64_half n 0 ≡ true → (n == unknown_len) ≡ false
known_length n h = ground arith

unknown_negative : (n : ℕ) → n ≡ unknown_len → signed_ge int64_half n 0 ≡ false
unknown_negative n h = ground arith

module _ {R : Type 0} (reader : BufReader R) (fuel : ℕ) (w : Sink) (r : R) where
  -- A response with a body whose length is not negative, or is not given at all: the header
  -- announces the chunked encoding exactly when the body is sent in chunks, passed on or cut from
  -- the stream; otherwise nothing is added, and so many bytes are sent as the server announced.
  pub framing-Agrees :
      (method : Bytes) (status : ℕ) (h : Header)
      → has_body method status ≡ true
      → (h.cont_len ≡ unknown_len) ⊎ (signed_ge int64_half h.cont_len 0 ≡ true)
      → Agrees reader fuel w r h
          (framing method status h)
          (send_body reader fuel w r h.cont_len h.chunking)
  unfolding send_body
  framing-Agrees method status h b len = elim (Bool-cases h.chunking) [
    | inl c ↦ as_chunked (framing-chunked method status h c) (rw (c, send_body) refl)
    | inr c ↦ elim len [
      | inl u ↦
          as_cut (framing-unknown method status h c u b)
            (rw (c, unknown_negative h.cont_len u, send_body) refl)
      | inr g ↦
          as_given (framing-known method status h c (known_length h.cont_len g))
            (rw (c, g, send_body) refl)
    ]
  ]
