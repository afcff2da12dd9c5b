-- ===== src/Tests/Transfer.antt =====
-- The theorems on http.go, and those on the transfers and the retries of proxy.go at concrete inputs.
use cow.Base.{
  ℕ, zero, suc, ◌-◌, ◌≤◌, ◌≡◌, refl, ◌≢◌, inl, true, false, none, some, List, [], ◌∷◌, ◌++◌, arith,
  length, replicate, Bytes, codes, bytes_eq, index_byte, int64_mod,
}
use cow.Tests.Stream.{buffer_size, list_reader, all_left, list_reader-IsStream}
use cow.Url.{Url}
use cow.Site.Visit.{VisitCnt}
use cow.Site.Stat.{SiteStat}
use cow.Proxy.Retry.{
  RequestState, Attempt, retry_loop, unfinished, rs_created, rs_sent, sv_connected, timed_out,
  retry_error,
}
use cow.Proxy.Retry.Ends.{AreFair, retry_loop-ends}
use cow.Util.Fields.{fields_n}
use cow.Util.Fields.Count.{fields_n-count}
use cow.Util.ParseInt.{ok}
use cow.Body.{
  Sink, crlf, chunk_end, send_body_with_cont_len, send_body_chunked, send_body_split_into_chunk,
  send_body, stuck,
}
use cow.Body.Copy.{Copied, send_body-cont_len}
use cow.Body.Chunked.{Chunk, Ended, encoded_all, send_body-chunked}
use cow.Body.Split.{IsCut, split_into_chunk-IsCut}
use cow.Body.Endless.{send_body-endless}
use cow.Http.Header.{Header}
use cow.Http.Response.{Asked, framing}
use cow.Http.Response.Framing.{Agrees, framing-Agrees}

abbrev client : Sink
client = record { sent = codes "HTTP/1.1 200 OK"; limit = none }

abbrev stream : Bytes
stream = codes "some bytes of a body"

send_body-cont_len_example :
    Copied all_left 9 stream client (send_body_with_cont_len list_reader client stream 9)
send_body-cont_len_example =
    send_body-cont_len list_reader all_left list_reader-IsStream 9 stream client (omega arith) refl

split_into_chunk-IsCut_example :
    IsCut list_reader all_left buffer_size list_reader-IsStream
      (omega arith)
      (omega arith)
      stream
      client
      (send_body_split_into_chunk list_reader 30 client stream)
split_into_chunk-IsCut_example =
    split_into_chunk-IsCut list_reader all_left buffer_size list_reader-IsStream (omega arith)
      (omega arith) 30 stream client refl (omega arith)

abbrev four_bytes : Chunk
four_bytes = record { line = codes "4;name=x" ++ (13 ∷ []); payload = codes "body" }

abbrev chunked_stream : Bytes
chunked_stream = encoded_all (four_bytes ∷ []) ++ ((48 ∷ 13 ∷ []) ++ (10 ∷ 13 ∷ 10 ∷ codes "next"))

send_body-chunked_example :
    Ended list_reader all_left buffer_size 8 list_reader-IsStream
      (omega arith)
      (omega arith)
      (encoded_all (four_bytes ∷ []) ++ chunk_end)
      (codes "next")
      client
      (send_body_chunked list_reader 8 2 client chunked_stream)
unfolding cow.Util.ParseInt.parse_int_from_bytes cow.Util.Space.trim_space cow.Body.before_extension
    index_byte
send_body-chunked_example =
    send_body-chunked list_reader all_left buffer_size 8 list_reader-IsStream (omega arith)
      (omega arith) (four_bytes ∷ []) (48 ∷ 13 ∷ []) (codes "next") 2 chunked_stream client
      (
        record {
          is_line = (refl, omega arith);
          sized = refl;
          not_last = omega arith;
          small = omega arith;
        },
        tt,
      )
      (refl, omega arith) refl refl refl (omega arith)

abbrev negative_line : Bytes
negative_line = codes "-6" ++ (13 ∷ [])

send_body-endless_example :
    (r' : Bytes) × (send_body_chunked list_reader 8 100 client (negative_line ++ 10 ∷ codes "body")
      ≡ (stuck, r', client))
    × (all_left r' ≡ negative_line ++ 10 ∷ codes "body")
unfolding cow.Util.ParseInt.parse_int_from_bytes cow.Util.Space.trim_space cow.Body.before_extension
    index_byte
send_body-endless_example =
    send_body-endless list_reader all_left buffer_size 8 list_reader-IsStream negative_line
      (codes "body") (int64_mod - 6) 100 (negative_line ++ 10 ∷ codes "body") client
      (refl, omega arith) refl refl refl refl

fields_n-count_example :
    (found : List Bytes) × (fields_n (codes "GET /index.html HTTP/1.1 more") 3 ≡ some found)
    × (length found ≤ 3)
fields_n-count_example = fields_n-count (codes "GET /index.html HTTP/1.1 more") 3

abbrev request_url : Url
request_url = record {
  host_port = codes "www.a.com:8080";
  host = codes "www.a.com";
  port = codes "8080";
  domain = codes "a.com";
  path = codes "/b?c";
}

abbrev request_text : Bytes
request_text =
    codes "get http://a.com/b HTTP/1.1"
    ++ (crlf
        ++ (codes "Host: a.com" ++ (crlf ++ (codes "Proxy-Connection: close" ++ (crlf ++ crlf)))))

abbrev asked : Asked
asked = record {
  method = codes "GET";
  connection_keep_alive = true;
  expect_continue = false;
  http_error_code = 0;
}

abbrev response_text : Bytes
response_text =
    codes "HTTP/1.1 100 Continue"
    ++ (crlf
        ++ (crlf
            ++ (codes "HTTP/1.0 200 OK"
                ++ (crlf ++ (codes "Connection: close" ++ (crlf ++ crlf))))))

abbrev header_of : ℕ → Header
header_of n = record {
  cont_len = n;
  keep_alive = 0;
  content_type = [];
  content_encoding = [];
  proxy_authorization = [];
  chunking = false;
  trailer = false;
  connection_keep_alive = true;
  expect_continue = false;
  host = [];
  upgrade = [];
}

framing-Agrees_example :
    Agrees list_reader 30 client stream
      (header_of (int64_mod - 1))
      (framing (codes "GET") 200 (header_of (int64_mod - 1)))
      (send_body list_reader 30 client stream (int64_mod - 1) false)
unfolding cow.Http.Response.has_body bytes_eq
framing-Agrees_example =
    framing-Agrees list_reader 30 client stream (codes "GET") 200 (header_of (int64_mod - 1)) refl
      (inl refl)

abbrev visited_once : VisitCnt
visited_once = record { direct = 1; blocked = 0; recent = 7; r_updated = true; blocked_on = 0 }

abbrev parent_try : Attempt
parent_try = record {
  now = 7;
  sv = record { state = sv_connected; direct = false; site_info = visited_once; visited = false };
  error = some (retry_error timed_out);
  state = rs_sent;
  partial = false;
  has_raw = true;
  after = λ ss. ss;
}

parent_tries-AreFair :
    (n : ℕ) (r : RequestState) (ss : SiteStat) → AreFair 5 request_url (replicate n parent_try) r ss
unfolding AreFair
parent_tries-AreFair zero r ss = tt
parent_tries-AreFair (suc n) r ss = (
  record { from = omega arith; until = omega arith; routed = λ vc e b. inl refl; keeps = λ b. b },
  λ r' ss' e. parent_tries-AreFair n r' ss',
)

abbrev first_request : RequestState
first_request = record { state = rs_created; partial = false; has_raw = true; try_cnt = 0 }

abbrev one_site : SiteStat
one_site = record {
  update = 0;
  vcnt = (codes "www.a.com", visited_once) ∷ [];
  has_blocked_host = [];
}

retry_loop-ends_example :
    retry_loop request_url (replicate 8 parent_try) first_request one_site ≢ unfinished
retry_loop-ends_example =
    retry_loop-ends 5 request_url (replicate 8 parent_try) first_request one_site
      (parent_tries-AreFair 8 first_request one_site) refl (omega arith)
