-- ===== src/Http/Response.antt =====
-- http.go: `Response` and `parseResponse`. Deadlines and the debug output are left out. `none` is
-- the end of the fuel.
pub mod Framing
pub mod First
pub mod Raw
use cow.Base.{
  ℕ, zero, suc, ◌+◌, ◌-◌, ◌/◌, Bool, false, not, ◌&&◌, ◌||◌, Option, none, some, List, [], ◌∷◌,
  ◌++◌, ltb, ◌==◌, if◌then◌else◌, length, get_or, take, Bytes, codes, bytes_eq, signed_lt,
  int64_half, int64_mod,
}
use cow.Std.Strconv.{itoa}
use cow.Util.Fields.{fields_n}
use cow.Util.ParseInt.{ParseError, Result, ok, err, parse_int_from_bytes}
use cow.Body.{IoError, ReadResult, crlf}
use cow.Http.Header.{Header, HeaderError, zero_header, unknown_len}
use cow.Http.Lines.{LineReader, HeaderEnd, header_ok, header_bad, parse_header}
use cow.Http.Request.{
  full_header_transfer_encoding, full_header_connection_keep_alive, full_header_connection_close,
  full_header_upgrade,
}

pub record Response : Type 0 where
  pub status : ℕ
  pub reason : Bytes
  pub header : Header
  pub raw : Bytes

pub data ResponseError : Type 0 where
  malformed_status_line invalid_proto unsupported_proto custom_http_err : ResponseError
  read_failed : IoError → ResponseError
  invalid_status : ParseError → ResponseError
  bad_header : HeaderError → ResponseError

pub data ResponseResult : Type 0 where
  response_ok : Response → ResponseResult
  response_err : ResponseError → ResponseResult
  response_panics : ResponseResult

-- What the parsing reads of the request and of the configuration.
pub record Asked : Type 0 where
  pub method : Bytes
  pub connection_keep_alive : Bool
  pub expect_continue : Bool
  pub http_error_code : ℕ

-- `strconv.Itoa` on the pattern of an int.
unfoldable itoa_signed : ℕ → Bytes
itoa_signed n = if signed_lt int64_half n 0 then b'-' ∷ itoa (int64_mod - n) else itoa n

-- `Response.hasBody`.
unfoldable pub has_body : Bytes → ℕ → Bool
has_body method status = not (
    bytes_eq method (codes "HEAD")
    || (status == 304 || (status == 204 || signed_lt int64_half status 200)))

unfoldable pub gen_status_line : ℕ → Bytes → Bytes
unfolding itoa_signed
gen_status_line status reason =
    codes "HTTP/1.1 "
    ++ (itoa_signed status ++ ((if not (length reason == 0) then b' ' ∷ reason else []) ++ crlf))

pub data StatusLine : Type 0 where
  line_ok : Bytes → StatusLine
  line_bad : ResponseError → StatusLine

-- The status line that goes to the client.
unfoldable pub status_line : Bytes → Bytes → ℕ → Bytes → StatusLine
unfolding gen_status_line
status_line s proto status reason =
    if not (length proto == 8) || not (bytes_eq (take 7 proto) (codes "HTTP/1."))
    then line_bad invalid_proto
    else if get_or proto 7 0 == b'1'
    then line_ok s
    else if get_or proto 7 0 == b'0'
    then line_ok (gen_status_line status reason)
    else line_bad unsupported_proto

-- What is written for a body whose length the server did not give.
unfoldable pub framing : Bytes → ℕ → Header → Bytes
unfolding has_body
framing method status h =
    if h.chunking
    then full_header_transfer_encoding
    else if h.cont_len == unknown_len
    then (if has_body method status
        then full_header_transfer_encoding
        else codes "Content-Length: 0" ++ crlf)
    else []

-- What is written for the connection; it depends on the request but for an upgrade.
unfoldable pub connection_lines : Bool → Header → Bytes
connection_lines keep_alive h =
    if not (bytes_eq h.upgrade [])
    then full_header_upgrade h.upgrade
    else if keep_alive
    then full_header_connection_keep_alive ++ (codes "Keep-Alive: timeout=15" ++ crlf)
    else full_header_connection_close

-- Without a length, the end of the connection is the end of the body.
unfoldable pub close_at_end : Header → Header
close_at_end h =
    if not h.chunking && h.cont_len == unknown_len
    then record h { connection_keep_alive = false }
    else h

finish_response : Asked → ℕ → Bytes → Header → Bytes → ResponseResult
unfolding framing connection_lines close_at_end
finish_response q status reason h raw = response_ok (record {
  status = status;
  reason = reason;
  header = close_at_end h;
  raw = raw ++ (framing q.method status h ++ (connection_lines q.connection_keep_alive h ++ crlf));
})

-- The header was read: an error code that the user set, a 100 that is not passed on, or the end.
-- `again` is the call of `parseResponse` for the next response.
end_response :
    {R : Type 0}
    → Asked
    → ℕ
    → Bytes
    → HeaderEnd × R
    → (R → Option (ResponseResult × R))
    → Option (ResponseResult × R)
unfolding finish_response
end_response q status reason (header_bad e raw, r) again = some (response_err (bad_header e), r)
end_response q status reason (header_ok h raw, r) again =
    if ltb 0 q.http_error_code && status == q.http_error_code
    then some (response_err custom_http_err, r)
    else if status == 100 && not q.expect_continue
    then again r
    else some (finish_response q status reason h raw, r)

-- `if len(f) == 3 { rp.Reason = f[2] }`, given the fields from the third on.
reason_of : List Bytes → Bytes
reason_of (f2 ∷ []) = f2
reason_of f = []

module _ {R : Type 0} (reader : LineReader R) (fuel : ℕ) (q : Asked) where
  with_header :
      ℕ
      → Bytes
      → Option (HeaderEnd × R)
      → (R → Option (ResponseResult × R))
      → Option (ResponseResult × R)
  unfolding end_response
  with_header status reason none again = none
  with_header status reason (some x) again = end_response q status reason x again

  with_status_line :
      ℕ → Bytes → StatusLine → R → (R → Option (ResponseResult × R)) → Option (ResponseResult × R)
  unfolding with_header
  with_status_line status reason (line_bad e) r again = some (response_err e, r)
  with_status_line status reason (line_ok raw) r again =
      with_header status reason (parse_header reader fuel zero_header raw r) again

  with_status :
      Bytes
      → Bytes
      → Bytes
      → Result ℕ
      → R
      → (R → Option (ResponseResult × R))
      → Option (ResponseResult × R)
  unfolding with_status_line status_line
  with_status s proto reason (err e) r again = some (response_err (invalid_status e), r)
  with_status s proto reason (ok status) r again =
      with_status_line status reason (status_line s proto status reason) r again

  with_fields :
      Bytes
      → Option (List Bytes)
      → R
      → (R → Option (ResponseResult × R))
      → Option (ResponseResult × R)
  unfolding with_status reason_of
  with_fields s none r again = some (response_panics, r)
  with_fields s (some (f0 ∷ f1 ∷ f)) r again =
      with_status s f0 (reason_of f) (parse_int_from_bytes f1 10) r again
  with_fields s (some f) r again = some (response_err malformed_status_line, r)

  with_line : ReadResult × R → (R → Option (ResponseResult × R)) → Option (ResponseResult × R)
  unfolding with_fields
  with_line ((s, some e), r) again = some (response_err (read_failed e), r)
  with_line ((s, none), r) again = with_fields s (fields_n s 3) r again

unfoldable pub parse_response :
    {R : Type 0} → LineReader R → ℕ → Asked → R → Option (ResponseResult × R)
unfolding with_line
parse_response reader zero q r = none
parse_response reader (suc fuel) q r =
    with_line reader (suc fuel) q (reader.read_slice r) (λ r'. parse_response reader fuel q r')
