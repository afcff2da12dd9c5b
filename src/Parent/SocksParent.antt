-- ===== src/Parent/SocksParent.antt =====
-- parent_proxy.go: `socksParent`, the client's side of SOCKS5 on a connection to a parent: its
-- `input` is what the parent sends, its `output` what was sent to the parent. A write takes all
-- its bytes or fails. Dialling the parent is left to the caller.
pub mod Reply
pub mod Sent
pub mod Served
use cow.Base.{
  ℕ, zero, suc, ◌+◌, ◌-◌, ◌*◌, ◌/◌, ◌%◌, ◌^◌, ◌≤◌, ◌<◌, min, max, ◌≡◌, refl, sym, ap, ap₂, subst,
  ◌∙◌, ◌≢◌, ◌↔◌, ◌⊎◌, inl, inr, Bool, true, false, not, ◌&&◌, ◌||◌, Option, none, some, List, [],
  ◌∷◌, ◌++◌, map, arith, dec_lt, dec_le, ltb, leb, ◌==◌, if◌then◌else◌, ==_iff, ==_refl, Bool-cases,
  Option-cases, &&-eq-true, check_below, eq_of_some, check_below_sound, length, get_or, get_elem?,
  set, take, drop, replicate, length-append, take-append-drop, length-take, length-drop,
  take-append, drop-append, all, any, keep, length-keep-le, All, length-map, get_or-append,
  set-append, length-snoc, get_or-drop, get_or-take, take-take, drop-append_le, take-suc, drop_all,
  take_all, all-append, drop_at, take_at, List-cases, All-mono, Bytes, codes, IsByte, bytes_eq,
  bytes_eq_refl, eq_of_bytes_eq, index_byte, last_index, has_prefix, index, contains, onto_first,
  split, join, bytes_eq_sym, Map, lookup, insert, delete, lookup-insert, lookup-insert_self,
  lookup-delete, Distinct, insert-Distinct, lookup_head, lookup_tail, signed_lt, signed_ge,
  signed_sub, signed_neg, int8_half, int64_half, int64_mod,
}
use cow.Std.Strconv.{atoi}
use cow.Std.Net.{IpText}
use cow.Url.{Url}
use cow.Socks.Session.{
  Session, ok, M, and_then, ◌>>=◌, ◌>>◌, pure, fail, read_full, write, protocol_error, auth_failed,
  invalid_port, invalid_address,
}
use cow.Socks.Address.{
  socks5_atyp_ipv4, socks5_atyp_domain, socks5_atyp_ipv6, build_socks5_addr_port,
}
use cow.Socks.Method.{
  socks5_version, socks5_auth_none, socks5_auth_user_pass, socks5_user_pass_version,
}
use cow.Socks.Request.{socks5_cmd_connect}

pub record SocksParent : Type 0 where
  pub server : Bytes
  pub username : Bytes
  pub password : Bytes

-- `newSocksParentAuth`, and `newSocksParent` at an empty name and password.
unfoldable pub new_socks_parent_auth : Bytes → Bytes → Bytes → SocksParent
new_socks_parent_auth server username password = record {
  server = server;
  username = username;
  password = password;
}

-- `sp.username != ""`
unfoldable pub has_name : SocksParent → Bool
has_name sp = not (bytes_eq sp.username [])

unfoldable pub credentials : SocksParent → Bytes
credentials sp =
    socks5_user_pass_version
    ∷ (length sp.username % 256)
    ∷ (sp.username ++ (length sp.password % 256) ∷ sp.password)

accepted : Bytes → M (Unit {0})
accepted response =
    if not (get_or response 0 0 == socks5_user_pass_version) || not (get_or response 1 0 == 0)
    then fail auth_failed
    else pure tt

unfoldable pub authenticate : SocksParent → M (Unit {0})
unfolding credentials accepted
authenticate sp = do write (credentials sp); response ← read_full 2; accepted response

skip_bytes : ℕ → M (Unit {0})
skip_bytes n = do addr ← read_full n; pure tt

skip_domain : M (Unit {0})
unfolding skip_bytes
skip_domain = do size ← read_full 1; skip_bytes (get_or size 0 0)

unfoldable pub read_socks5_address : ℕ → M (Unit {0})
unfolding skip_bytes skip_domain
read_socks5_address atyp =
    if atyp == socks5_atyp_ipv4
    then skip_bytes 4
    else if atyp == socks5_atyp_ipv6
    then skip_bytes 16
    else if atyp == socks5_atyp_domain
    then skip_domain
    else fail protocol_error

-- The reply was read up to its end.
reply_status : Bytes → M (Unit {0})
reply_status header = if not (get_or header 1 0 == 0) then fail protocol_error else pure tt

reply_rest : Bytes → M (Unit {0})
unfolding read_socks5_address skip_bytes reply_status
reply_rest header = do read_socks5_address (get_or header 3 0); skip_bytes 2; reply_status header

reply_of : Bytes → M (Unit {0})
unfolding reply_rest
reply_of header =
    if not (get_or header 0 0 == socks5_version) then fail protocol_error else reply_rest header

unfoldable pub read_socks5_connect_reply : M (Unit {0})
unfolding reply_of
read_socks5_connect_reply = do header ← read_full 4; reply_of header

request_to : Option Bytes → M (Unit {0})
unfolding read_socks5_connect_reply
request_to none = fail invalid_address
request_to (some addr_port) = do
  write (socks5_version ∷ socks5_cmd_connect ∷ 0 ∷ addr_port)
  read_socks5_connect_reply

-- The port is an int.
request_at : IpText → Url → Option ℕ → M (Unit {0})
unfolding request_to
request_at t url none = fail invalid_port
request_at t url (some port) =
    if signed_lt int64_half port 0 || signed_lt int64_half 65535 port
    then fail invalid_port
    else request_to (build_socks5_addr_port t url.host (port % 2 ^ 16))

unfoldable pub method_selection : SocksParent → Bytes
unfolding has_name
method_selection sp =
    socks5_version ∷ 1 ∷ (if has_name sp then socks5_auth_user_pass else socks5_auth_none) ∷ []

-- `!=` on bool values.
differs : Bool → Bool → Bool
differs true b = not b
differs false b = b

-- The test of the answer that ends in `socksProtocolErr`.
is_bad_method : SocksParent → Bytes → Bool
unfolding has_name differs
is_bad_method sp rep_buf =
    not (get_or rep_buf 0 0 == socks5_version)
    || ((not (get_or rep_buf 1 0 == socks5_auth_none)
          && not (get_or rep_buf 1 0 == socks5_auth_user_pass))
        || differs (get_or rep_buf 1 0 == socks5_auth_user_pass) (has_name sp))

with_method : IpText → SocksParent → Url → Bytes → M (Unit {0})
unfolding request_at
with_method t sp url rep =
    if get_or rep 1 0 == socks5_auth_user_pass
    then (do authenticate sp; request_at t url (atoi url.port))
    else request_at t url (atoi url.port)

on_method : IpText → SocksParent → Url → Bytes → M (Unit {0})
unfolding is_bad_method with_method
on_method t sp url rep =
    if is_bad_method sp rep then fail protocol_error else with_method t sp url rep

-- `connect`, the connection to the parent being made.
unfoldable pub connect : IpText → SocksParent → Url → M (Unit {0})
unfolding method_selection on_method
connect t sp url = do write (method_selection sp); rep ← read_full 2; on_method t sp url rep
