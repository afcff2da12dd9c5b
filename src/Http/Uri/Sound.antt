-- ===== src/Http/Uri/Sound.antt =====
-- http.go: the fields of a `URL` agree with one another and with the text.
use cow.Base.{◌≡◌, ◌⊎◌, none, some, [], ◌∷◌, ◌++◌, Bytes, codes, index_byte}
use cow.Std.Net.{join_host_port, split_host_port}
use cow.Util.Host.{host2domain}
use cow.Util.Case.{ascii_to_lower}
use cow.Url.{Url}
use cow.Http.Uri.{trim_prefix, trim_suffix}

-- What the text in front of the host says of the port: nothing, or the scheme and `://`, the
-- scheme in any letter case.
pub data IsScheme (front usual_port : Bytes) : Type 0 where
  no_scheme : front ≡ [] → usual_port ≡ codes "80" → IsScheme front usual_port
  plain_scheme :
      (scheme : Bytes)
      → front ≡ scheme ++ codes "://"
      → (ascii_to_lower scheme ≡ codes "http") ⊎ (ascii_to_lower scheme ≡ codes "ws")
      → usual_port ≡ codes "80"
      → IsScheme front usual_port
  secure_scheme :
      (scheme : Bytes)
      → front ≡ scheme ++ codes "://"
      → (ascii_to_lower scheme ≡ codes "https") ⊎ (ascii_to_lower scheme ≡ codes "wss")
      → usual_port ≡ codes "443"
      → IsScheme front usual_port

-- A host without the wrapping of an IPv4 address in an IPv6 one.
abbrev pub bare_host : Bytes → Bytes
bare_host host = trim_suffix (codes "]") (trim_prefix (codes "[::ffff:") host)

-- The host and the port that a text names: both, or a host alone, with the usual port.
pub data IsServer (authority usual_port host port : Bytes) : Type 0 where
  port_given :
      (name : Bytes)
      → split_host_port authority ≡ some (name, port)
      → host ≡ bare_host name
      → IsServer authority usual_port host port
  port_usual :
      split_host_port authority ≡ none
      → host ≡ bare_host authority
      → port ≡ usual_port
      → IsServer authority usual_port host port

-- The text is a scheme or none, then the host and the port up to the first slash, then the path.
pub record AgreesWith (rawurl : Bytes) (url : Url) : Type 0 where
  pub front : Bytes
  pub authority : Bytes
  pub usual_port : Bytes
  pub splits : rawurl ≡ front ++ (authority ++ url.path)
  pub in_scheme : IsScheme front usual_port
  pub no_slash : index_byte b'/' authority ≡ none
  pub server : IsServer authority usual_port url.host url.port
  pub path_start : (url.path ≡ []) ⊎ ((rest : Bytes) × (url.path ≡ b'/' ∷ rest))
  pub key : url.host_port ≡ join_host_port url.host url.port
  pub domain_of : url.domain ≡ host2domain url.host
