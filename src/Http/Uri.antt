-- ===== src/Http/Uri.antt =====
-- http.go: `URL.ParseHostPort` and `ParseRequestURIBytes`. The lower case that the scheme gets in
-- place stays in bytes that nothing reads again.
pub mod Sound
use cow.Base.{
  ◌+◌, ◌-◌, ◌/◌, Bool, not, ◌&&◌, ◌||◌, none, some, [], ◌∷◌, leb, ◌==◌, if◌then◌else◌, length, take,
  drop, Bytes, codes, bytes_eq, index_byte, has_prefix, index,
}
use cow.Std.Net.{split_host_port, join_host_port}
use cow.Util.Case.{ascii_to_lower_inplace}
use cow.Util.Host.{host2domain}
use cow.Url.{Url}

abbrev colon_slashes : Bytes
colon_slashes = codes "://"

-- `strings.TrimPrefix`.
unfoldable trim_prefix : Bytes → Bytes → Bytes
trim_prefix pat s = if has_prefix pat s then drop (length pat) s else s

-- `strings.TrimSuffix`.
unfoldable trim_suffix : Bytes → Bytes → Bytes
trim_suffix pat s =
    if bytes_eq (drop (length s - length pat) s) pat && leb (length pat) (length s)
    then take (length s - length pat) s
    else s

-- The three fields that `ParseHostPort` sets.
with_host : Url → Bytes → Bytes → Bytes → Url
with_host url host port host_port = record url {
  host = host;
  port = port;
  host_port = host_port;
  domain = host2domain host;
}

unfoldable pub parse_host_port : Bytes → Url → Url
unfolding with_host
parse_host_port host_port url =
    if bytes_eq host_port [] then url else elim (split_host_port host_port) [
      | some (host, port) ↦ with_host url host port host_port
      | none ↦ with_host url host_port (codes "80") (join_host_port host_port (codes "80"))
    ]

pub data UriError : Type 0 where
  empty_uri protocol_not_supported : UriError

pub data UriResult : Type 0 where
  uri_ok : Url → UriResult
  uri_err : UriError → UriResult

is_supported : Bytes → Bool
is_supported scheme =
    bytes_eq scheme (codes "http")
    || (bytes_eq scheme (codes "https")
        || (bytes_eq scheme (codes "ws") || bytes_eq scheme (codes "wss")))

unfoldable default_port : Bytes → Bytes
default_port scheme =
    if bytes_eq scheme (codes "http") || bytes_eq scheme (codes "ws")
    then codes "80"
    else codes "443"

-- From `host, port, err := net.SplitHostPort(hostport)` on.
host_and_port : Bytes → Bytes → Bytes × Bytes
unfolding default_port
host_and_port scheme hostport = elim (split_host_port hostport) [
  | some (host, port) ↦ (host, port)
  | none ↦ (hostport, default_port scheme)
]

url_of : Bytes × Bytes → Bytes → Url
unfolding trim_prefix trim_suffix
url_of (host, port) path =
    let host' = trim_suffix (codes "]") (trim_prefix (codes "[::ffff:") host) in
    record {
      host_port = join_host_port host' port;
      host = host';
      port = port;
      domain = host2domain host';
      path = path;
    }

-- The part behind the scheme.
parse_rest : Bytes → Bytes → Url
unfolding host_and_port url_of
parse_rest scheme rest = elim (index_byte b'/' rest) [
  | none ↦ url_of (host_and_port scheme rest) []
  | some id ↦ url_of (host_and_port scheme (take id rest)) (drop id rest)
]

parse_absolute : Bytes → UriResult
unfolding is_supported parse_rest
parse_absolute rawurl = elim (index colon_slashes rawurl) [
  | none ↦ uri_ok (parse_rest (codes "http") rawurl)
  | some id ↦
      let scheme = ascii_to_lower_inplace (take id rawurl) in
      if not (is_supported scheme)
      then uri_err protocol_not_supported
      else uri_ok (parse_rest scheme (drop (id + 3) rawurl))
]

unfoldable pub parse_request_uri_bytes : Bytes → UriResult
unfolding parse_absolute
parse_request_uri_bytes [] = uri_err empty_uri
parse_request_uri_bytes (c ∷ rawurl) =
    if c == b'/'
    then uri_ok (record { host_port = []; host = []; port = []; domain = []; path = c ∷ rawurl })
    else parse_absolute (c ∷ rawurl)
