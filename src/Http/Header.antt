-- ===== src/Http/Header.antt =====
-- http.go: `Header`, the parsers of the header fields and `splitHeader`. A parser gets the value
-- as a part of the line and may rewrite it there: it gives the bytes that it leaves. The content
-- length and the duration are the bit patterns of an int64. After an error nothing reads the
-- header, so it is not given.
pub mod Forwarded
use cow.Base.{
  ℕ, ◌+◌, ◌-◌, ◌*◌, ◌%◌, Bool, true, false, not, ◌&&◌, Option, none, some, [], ◌∷◌, ◌++◌, ◌==◌,
  if◌then◌else◌, length, take, drop, any, Bytes, codes, bytes_eq, index_byte, index, contains, Map,
  lookup, int64_mod,
}
use cow.Util.Case.{ascii_to_lower, ascii_to_lower_inplace}
use cow.Util.Space.{trim_space, trim_start, is_digit}
use cow.Util.ParseInt.{ParseError, ok, err, parse_int_from_bytes}
use cow.Body.{IoError}
use cow.Site.Visit.{second}

pub record Header : Type 0 where
  pub cont_len : ℕ
  pub keep_alive : ℕ
  pub content_type : Bytes
  pub content_encoding : Bytes
  pub proxy_authorization : Bytes
  pub chunking : Bool
  pub trailer : Bool
  pub connection_keep_alive : Bool
  pub expect_continue : Bool
  pub host : Bytes
  pub upgrade : Bytes

-- The header of `zeroRequest` and of `zeroResponse`.
unfoldable pub zero_header : Header
zero_header = record {
  cont_len = 0;
  keep_alive = 0;
  content_type = [];
  content_encoding = [];
  proxy_authorization = [];
  chunking = false;
  trailer = false;
  connection_keep_alive = true;
  expect_continue = false;
  host = [];
  upgrade = [];
}

-- The pattern of -1.
abbrev pub unknown_len : ℕ
unknown_len = int64_mod - 1

pub data HeaderError : Type 0 where
  read_failed : IoError → HeaderError
  malformed_header malformed_end start_with_space invalid_transfer_encoding : HeaderError
  invalid_number : ParseError → HeaderError

-- The header, and the value as the parser leaves it.
pub data Parsed : Type 0 where
  parsed : Header → Bytes → Parsed
  refused : HeaderError → Parsed

unfoldable parse_connection : Header → Bytes → Parsed
parse_connection h s =
    let s' = ascii_to_lower_inplace s in
    parsed (record h { connection_keep_alive = not (contains s' (codes "close")) }) s'

unfoldable parse_content_length : Header → Bytes → Parsed
parse_content_length h s = elim (parse_int_from_bytes s 10) [
  | ok n ↦ parsed (record h { cont_len = n }) s
  | err e ↦ refused (invalid_number e)
]

unfoldable parse_content_type : Header → Bytes → Parsed
parse_content_type h s = parsed (record h { content_type = s }) s

unfoldable parse_content_encoding : Header → Bytes → Parsed
parse_content_encoding h s = parsed (record h { content_encoding = s }) s

unfoldable parse_host : Header → Bytes → Parsed
parse_host h s = parsed (if bytes_eq h.host [] then record h { host = s } else h) s

-- `for ; end < len(s) && IsDigit(s[end]); end++ {}` on the bytes from `id` on.
unfoldable digits_of : Bytes → Bytes
digits_of [] = []
digits_of (c ∷ s) = if is_digit c then c ∷ digits_of s else []

unfoldable parse_keep_alive : Header → Bytes → Parsed
unfolding digits_of
parse_keep_alive h s =
    let s' = ascii_to_lower_inplace s in
    elim (index (codes "timeout=") s') [
      | none ↦ parsed h s'
      | some id ↦ elim (parse_int_from_bytes (digits_of (drop (id + 8) s')) 10) [
        | ok delta ↦ parsed (record h { keep_alive = second * delta % int64_mod }) s'
        | err e ↦ refused (invalid_number e)
      ]
    ]

unfoldable parse_proxy_authorization : Header → Bytes → Parsed
parse_proxy_authorization h s = parsed (record h { proxy_authorization = s }) s

-- `strings.ToLower` on ASCII text.
unfoldable parse_upgrade : Header → Bytes → Parsed
parse_upgrade h s = parsed (record h { upgrade = ascii_to_lower s }) s

unfoldable parse_transfer_encoding : Header → Bytes → Parsed
parse_transfer_encoding h s =
    let s' = ascii_to_lower_inplace s in
    let chunked = contains s' (codes "chunked") in
    if not chunked && not (contains s' (codes "identity"))
    then refused invalid_transfer_encoding
    else parsed (record h { chunking = chunked }) s'

unfoldable parse_trailer : Header → Bytes → Parsed
parse_trailer h s = parsed (if not (length s == 0) then record h { trailer = true } else h) s

unfoldable parse_expect : Header → Bytes → Parsed
parse_expect h s = parsed (record h { expect_continue = true }) (ascii_to_lower_inplace s)

-- The map `headerParser`.
unfoldable pub header_parser : Map (Header → Bytes → Parsed)
unfolding parse_connection parse_content_encoding parse_content_length parse_content_type
    parse_expect parse_host parse_keep_alive parse_proxy_authorization parse_transfer_encoding
    parse_trailer parse_upgrade
header_parser =
    (codes "connection", parse_connection)
    ∷ (codes "content-encoding", parse_content_encoding)
    ∷ (codes "content-length", parse_content_length)
    ∷ (codes "content-type", parse_content_type)
    ∷ (codes "expect", parse_expect)
    ∷ (codes "host", parse_host)
    ∷ (codes "keep-alive", parse_keep_alive)
    ∷ (codes "proxy-authorization", parse_proxy_authorization)
    ∷ (codes "proxy-connection", parse_connection)
    ∷ (codes "transfer-encoding", parse_transfer_encoding)
    ∷ (codes "trailer", parse_trailer)
    ∷ (codes "upgrade", parse_upgrade)
    ∷ []

-- The keys of the map `hopByHopHeader`.
unfoldable pub hop_by_hop_header : Bytes → Bool
hop_by_hop_header kn = any (bytes_eq kn) (
    codes "connection"
    ∷ codes "keep-alive"
    ∷ codes "proxy-authorization"
    ∷ codes "proxy-connection"
    ∷ codes "te"
    ∷ codes "trailer"
    ∷ codes "transfer-encoding"
    ∷ codes "upgrade"
    ∷ [])

-- The name, and the value with the place in the line where it starts.
unfoldable pub split_header : Bytes → Option (Bytes × ℕ × Bytes)
split_header s = elim (index_byte b':' s) [
  | none ↦ none
  | some i ↦
      some (
        ascii_to_lower (take i s),
        i + 1 + trim_start (drop (i + 1) s),
        trim_space (drop (i + 1) s),
      )
]

-- What one header line comes to: the header and the raw bytes, or the end of the parsing.
pub data Taken : Type 0 where
  taken : Header → Bytes → Taken
  rejected : HeaderError → Bytes → Taken

pass_on : Bytes → Header → Bytes → Bytes → Taken
pass_on kn h raw line = if hop_by_hop_header kn then taken h raw else taken h (raw ++ line)

-- The line, with other bytes where the value stood.
value_put : ℕ → Bytes → Bytes → Bytes
value_put start val line = take start line ++ (val ++ drop (start + length val) line)

after_parser : Bytes → ℕ → Bytes → Bytes → Parsed → Taken
unfolding pass_on value_put
after_parser kn start raw line (refused e) = rejected e raw
after_parser kn start raw line (parsed h val) = pass_on kn h raw (value_put start val line)

-- What follows the look into `headerParser`.
with_parser : Bytes → ℕ → Bytes → Header → Bytes → Bytes → Option (Header → Bytes → Parsed) → Taken
unfolding pass_on after_parser
with_parser kn start val h raw line none = pass_on kn h raw line
with_parser kn start val h raw line (some parse_func) =
    if length val == 0 then taken h raw else after_parser kn start raw line (parse_func h val)

with_split : Header → Bytes → Bytes → Option (Bytes × ℕ × Bytes) → Taken
unfolding with_parser
with_split h raw line none = rejected malformed_header raw
with_split h raw line (some (kn, start, val)) =
    with_parser kn start val h raw line (lookup kn header_parser)

-- One round of the loop of `parseHeader`, from `splitHeader` on.
unfoldable pub take_line : Header → Bytes → Bytes → Taken
unfolding with_split
take_line h raw line = with_split h raw line (split_header line)
