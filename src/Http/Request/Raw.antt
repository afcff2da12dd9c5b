-- ===== src/Http/Request/Raw.antt =====
-- http.go: what a parsed request sends to the server.
use cow.Base.{◌≡◌, Option, none, some, List, [], ◌++◌, if◌then◌else◌, All, Bytes}
use cow.Url.{Url}
use cow.Http.Header.{Header}
use cow.Http.Header.Forwarded.{IsForwarded}
use cow.Http.Lines.Ends.{all_of}
use cow.Http.Request.{
  Request, RequestResult, request_ok, request_err, request_panics, raw_request, raw_header_body,
  raw_body, gen_request_line, request_tail,
}

-- What a request holds when its header was read: what goes to a server is its own request line
-- (none for CONNECT), the lines that may be passed on and the proxy's own, with no body yet.
pub record IsRaw (q : Request) : Type 0 where
  pub lines : List Bytes
  pub forwarded : All IsForwarded lines
  pub sends :
      raw_request q
      ≡ (if q.is_connect then [] else gen_request_line q.method q.url)
        ++ (all_of lines ++ request_tail q.header)
  pub heads : raw_header_body q ≡ all_of lines ++ request_tail q.header
  pub no_body : raw_body q ≡ []

pub Parsed : {R : Type 0} → Option (RequestResult × R) → Type 0
Parsed none = ⊥
Parsed (some (request_panics, r)) = ⊥
Parsed (some (request_err e, r)) = Unit
Parsed (some (request_ok q, r)) = IsRaw q
