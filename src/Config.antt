-- ===== src/Config.antt =====
-- config.go: the option of a SOCKS5 parent; parent_proxy.go: `genConfig`, which prints it.
pub mod RoundTrip
use cow.Base.{
  ℕ, zero, suc, ◌+◌, ◌-◌, ◌*◌, ◌/◌, ◌%◌, ◌^◌, ◌≤◌, ◌<◌, min, max, ◌≡◌, refl, sym, ap, ap₂, subst,
  ◌∙◌, ◌≢◌, ◌↔◌, ◌⊎◌, inl, inr, Bool, true, false, not, ◌&&◌, ◌||◌, Option, none, some, List, [],
  ◌∷◌, ◌++◌, map, arith, dec_lt, dec_le, ltb, leb, ◌==◌, if◌then◌else◌, ==_iff, ==_refl, Bool-cases,
  Option-cases, &&-eq-true, check_below, eq_of_some, check_below_sound, length, get_or, get_elem?,
  set, take, drop, replicate, length-append, take-append-drop, length-take, length-drop,
  take-append, drop-append, all, any, keep, length-keep-le, All, length-map, get_or-append,
  set-append, length-snoc, get_or-drop, get_or-take, take-take, drop-append_le, take-suc, drop_all,
  take_all, all-append, drop_at, take_at, List-cases, All-mono, Bytes, codes, IsByte, bytes_eq,
  bytes_eq_refl, eq_of_bytes_eq, index_byte, last_index, has_prefix, index, contains, onto_first,
  split, join, bytes_eq_sym, Map, lookup, insert, delete, lookup-insert, lookup-insert_self,
  lookup-delete, Distinct, insert-Distinct, lookup_head, lookup_tail, signed_lt, signed_ge,
  signed_sub, signed_neg, int8_half, int64_half, int64_mod,
}
use cow.Std.Net.{IpText, split_host_port, join_host_port}
use cow.Std.Strings.{split_2}
use cow.Std.Strconv.{atoi}
use cow.Parent.SocksParent.{SocksParent, new_socks_parent_auth}

pub data ConfigError : Type 0 where
  invalid_server_address bad_socks_auth long_socks_auth : ConfigError

pub data Parsed (A : Type 0) : Type 0 where
  parsed : A → Parsed A
  refused : ConfigError → Parsed A

-- `strings.TrimPrefix`.
trim_prefix : Bytes → Bytes → Bytes
trim_prefix pat s = if has_prefix pat s then drop (length pat) s else s

-- Whether `net.SplitHostPort` succeeds.
unfoldable pub check_server_addr : Bytes → Bool
check_server_addr addr = elim (split_host_port addr) [ none ↦ false | some p ↦ true ]

-- `err != nil || portNumber < 1 || portNumber > 65535`
bad_port : Option ℕ → Bool
bad_port none = true
bad_port (some n) = signed_lt int64_half n 1 || signed_lt int64_half 65535 n

without_zone : Bytes → Bytes
without_zone host = elim (last_index b'%' host) [ none ↦ host | some zone ↦ take zone host ]

-- An address that is an IPv6 address without brackets, with its port.
normalize_at : IpText → Bytes → Option ℕ → Parsed Bytes
unfolding bad_port without_zone
normalize_at t addr none = refused invalid_server_address
normalize_at t addr (some i) =
    let host = take i addr in
    let port = drop (i + 1) addr in
    if i == 0 || i == length addr - 1
    then refused invalid_server_address
    else if bad_port (atoi port)
    then refused invalid_server_address
    else elim (t.parse_ip (without_zone host)) [
      | none ↦ refused invalid_server_address
      | some ip ↦ parsed (join_host_port host port)
    ]

unfoldable pub normalize_server_addr : IpText → Bytes → Parsed Bytes
unfolding normalize_at check_server_addr
normalize_server_addr t addr =
    if check_server_addr addr then parsed addr else normalize_at t addr (last_index b':' addr)

with_server : Bytes → Bytes → Parsed Bytes → Parsed SocksParent
unfolding new_socks_parent_auth
with_server username password (refused e) = refused e
with_server username password (parsed server) =
    parsed (new_socks_parent_auth server username password)

with_credentials : IpText → Bytes → List Bytes → Parsed SocksParent
unfolding with_server
with_credentials t val (username ∷ password ∷ []) =
    if bytes_eq username [] || bytes_eq password []
    then refused bad_socks_auth
    else if ltb 255 (length username) || ltb 255 (length password)
    then refused long_socks_auth
    else with_server username password (normalize_server_addr t val)
with_credentials t val credentials = refused bad_socks_auth

parse_credentials : IpText → Bytes → Option ℕ → Parsed SocksParent
unfolding with_server with_credentials
parse_credentials t val none = with_server [] [] (normalize_server_addr t val)
parse_credentials t val (some i) = with_credentials t (drop (i + 1) val) (split_2 b':' (take i val))

-- `parseSocksParent`, and the parent that `ProxySocks5` makes of it.
unfoldable pub parse_socks_parent : IpText → Bytes → Parsed SocksParent
unfolding trim_prefix parse_credentials
parse_socks_parent t val =
    let val' = trim_prefix (codes "sock5://") (trim_prefix (codes "socks5://") val) in
    parse_credentials t val' (last_index b'@' val')

-- The value of the option that `genConfig` prints behind `proxy = `.
unfoldable pub gen_config_value : SocksParent → Bytes
gen_config_value sp =
    if not (bytes_eq sp.username [])
    then codes "socks5://" ++ (sp.username ++ b':' ∷ (sp.password ++ b'@' ∷ sp.server))
    else codes "socks5://" ++ sp.server

unfoldable pub gen_config : SocksParent → Bytes
unfolding gen_config_value
gen_config sp = codes "proxy = " ++ gen_config_value sp
