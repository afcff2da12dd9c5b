-- ===== src/Http/Request.antt =====
-- http.go: `Request`, as far as the parsing sets it, and `parseRequest`; the other fields are in
-- Proxy/Retry. Deadlines and the debug output, which would put the request line of a CONNECT into
-- `raw`, are left out. `none` is the end of the fuel.
pub mod Raw
use cow.Base.{
  ℕ, ◌+◌, ◌-◌, ◌/◌, Bool, not, ◌||◌, Option, none, some, List, [], ◌∷◌, ◌++◌, ◌==◌, if◌then◌else◌,
  length, take, drop, Bytes, codes, bytes_eq, signed_lt, int64_half,
}
use cow.Url.{Url}
use cow.Util.Fields.{fields_n}
use cow.Util.Case.{ascii_to_upper_inplace}
use cow.Body.{IoError, ReadResult, timed_out, crlf}
use cow.Http.Uri.{UriError, UriResult, uri_ok, uri_err, parse_request_uri_bytes}
use cow.Http.Header.{Header, HeaderError, zero_header}
use cow.Http.Lines.{LineReader, HeaderEnd, header_ok, header_bad, parse_header}

pub record Request : Type 0 where
  pub method : Bytes
  pub url : Url
  pub raw : Bytes
  pub req_ln_start : ℕ
  pub head_start : ℕ
  pub body_start : ℕ
  pub header : Header
  pub is_connect : Bool

pub data RequestError : Type 0 where
  client_timeout malformed_request_line : RequestError
  read_failed : IoError → RequestError
  bad_uri : UriError → RequestError
  bad_header : HeaderError → RequestError

pub data RequestResult : Type 0 where
  request_ok : Request → RequestResult
  request_err : RequestError → RequestResult
  request_panics : RequestResult

-- `Request.hasBody`.
unfoldable pub has_body : Header → Bool
has_body h = h.chunking || signed_lt int64_half 0 h.cont_len

unfoldable pub raw_request : Request → Bytes
raw_request r = drop r.req_ln_start r.raw

unfoldable pub raw_header_body : Request → Bytes
raw_header_body r = drop r.head_start r.raw

unfoldable pub raw_before_body : Request → Bytes
raw_before_body r = take r.body_start r.raw

unfoldable pub raw_body : Request → Bytes
raw_body r = drop r.body_start r.raw

unfoldable pub proxy_request_line : Request → Bytes
proxy_request_line r = take r.req_ln_start r.raw

-- What `genRequestLine` writes.
unfoldable pub gen_request_line : Bytes → Url → Bytes
gen_request_line method url =
    (method ++ (b' ' ∷ []))
    ++ ((if length url.path == 0 then b'/' ∷ [] else url.path) ++ (codes " HTTP/1.1" ++ crlf))

abbrev pub full_header_transfer_encoding : Bytes
full_header_transfer_encoding = codes "Transfer-Encoding: chunked" ++ crlf

abbrev pub full_header_connection_keep_alive : Bytes
full_header_connection_keep_alive = codes "Connection: keep-alive" ++ crlf

abbrev pub full_header_connection_close : Bytes
full_header_connection_close = codes "Connection: close" ++ crlf

abbrev pub full_header_upgrade : Bytes → Bytes
full_header_upgrade upgrade =
    codes "Connection: Upgrade" ++ (crlf ++ (codes "Upgrade: " ++ (upgrade ++ crlf)))

-- What is written behind the lines of the header.
unfoldable pub request_tail : Header → Bytes
request_tail h =
    (if h.chunking then full_header_transfer_encoding else [])
    ++ ((if not (bytes_eq h.upgrade [])
          then full_header_upgrade h.upgrade
          else if h.connection_keep_alive
          then full_header_connection_keep_alive
          else full_header_connection_close)
        ++ crlf)

-- The header on which `parseRequest` calls `parseHeader`.
request_header : Url → Header
request_header url = record zero_header { host = url.host_port }

abbrev is_connect_method : Bytes → Bool
is_connect_method method = bytes_eq method (codes "CONNECT")

-- What stands in `raw` in front of the header, `saved` being the request line that is kept.
unfoldable pub request_head : Bytes → Bytes → Url → Bytes
unfolding gen_request_line
request_head saved method url =
    saved ++ (if is_connect_method method then [] else gen_request_line method url)

request_of : Bytes → Bytes → Url → Header → Bytes → Request
unfolding request_tail request_head
request_of saved method url h raw = record {
  method = method;
  url = url;
  raw = raw ++ request_tail h;
  req_ln_start = length saved;
  head_start = length (request_head saved method url);
  body_start = length (raw ++ request_tail h);
  header = h;
  is_connect = is_connect_method method;
}

end_request : Bytes → Bytes → Url → HeaderEnd → RequestResult
unfolding request_of
end_request saved method url (header_bad e raw) = request_err (bad_header e)
end_request saved method url (header_ok h raw) = request_ok (request_of saved method url h raw)

with_header :
    {R : Type 0} → Bytes → Bytes → Url → Option (HeaderEnd × R) → Option (RequestResult × R)
unfolding end_request
with_header saved method url none = none
with_header saved method url (some (x, r)) = some (end_request saved method url x, r)

slice_error : IoError → RequestError
slice_error timed_out = client_timeout
slice_error e = read_failed e

module _ {R : Type 0} (reader : LineReader R) where
  with_uri : ℕ → Bytes → Bytes → UriResult → R → Option (RequestResult × R)
  unfolding request_header request_head with_header parse_header
  with_uri fuel saved method (uri_err e) r = some (request_err (bad_uri e), r)
  with_uri fuel saved method (uri_ok url) r =
      with_header saved method url
        (parse_header reader fuel (request_header url) (request_head saved method url) r)

  with_fields : ℕ → Bytes → Option (List Bytes) → R → Option (RequestResult × R)
  unfolding with_uri
  with_fields fuel saved none r = some (request_panics, r)
  with_fields fuel saved (some (f0 ∷ f1 ∷ f2 ∷ [])) r =
      with_uri fuel saved (ascii_to_upper_inplace f0) (parse_request_uri_bytes f1) r
  with_fields fuel saved (some f) r = some (request_err malformed_request_line, r)

  with_line : ℕ → Bool → ReadResult × R → Option (RequestResult × R)
  unfolding with_fields slice_error
  with_line fuel save_req_line ((s, some e), r) = some (request_err (slice_error e), r)
  with_line fuel save_req_line ((s, none), r) =
      with_fields fuel (if save_req_line then s else []) (fields_n s 3) r

  unfoldable pub parse_request : ℕ → Bool → R → Option (RequestResult × R)
  unfolding with_line
  parse_request fuel save_req_line r = with_line fuel save_req_line (reader.read_slice r)
