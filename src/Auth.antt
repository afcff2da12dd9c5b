-- ===== src/Auth.antt =====
-- auth.go: who may use the proxy. The clock, `md5`, base64, the texts of IP addresses and the
-- contents of files are arguments. A call of `Fatal` ends the program: `none`. The template of the
-- 407 page and the writes to the client are not modelled: `Authenticate` returns its verdict.
pub mod Clients
pub mod Digest
use cow.Base.{
  ℕ, ◌/◌, ◌%◌, ◌^◌, Bool, true, false, not, ◌||◌, Option, none, some, List, [], ◌∷◌, ltb, ◌==◌,
  if◌then◌else◌, length, Bytes, bytes_eq, split, Map, lookup, insert, signed_lt, signed_ge,
  int64_half,
}
use cow.Std.Strconv.{atoi}
use cow.Std.Strings.{trim_white}
use cow.Std.Net.{IpText, ip_mask, ip_equal}
use cow.Util.Mask.{new_nbit_ipv4_mask}
use cow.Timeout.{TimeoutSet}

pub record NetAddr : Type 0 where
  pub ip : Bytes
  pub mask : Bytes

-- `port` is 0 for any port.
pub record AuthUser : Type 0 where
  pub passwd : Bytes
  pub ha1 : Bytes
  pub port : ℕ

-- The variable `auth`; `authed` is nil until `initAuth` has made it.
pub record AuthState : Type 0 where
  pub required : Bool
  pub user : Map AuthUser
  pub allowed_client : List NetAddr
  pub authed : Option TimeoutSet

pub data AuthError : Type 0 where
  auth_required bad_request : AuthError

pub data Verdict : Type 0 where
  granted : Verdict
  refused : AuthError → Verdict

pub data UserError : Type 0 where
  wrong_syntax empty_name invalid_port : UserError

pub data UserResult : Type 0 where
  parsed : Bytes → AuthUser → UserResult
  failed : UserError → UserResult

abbrev user_of : Bytes → Bytes → ℕ → UserResult
user_of user passwd port = parsed user (record { passwd = passwd; ha1 = []; port = port })

-- `err != nil || port <= 0 || port > 0xffff`
port_of : Bytes → Bytes → Option ℕ → UserResult
port_of user passwd none = failed invalid_port
port_of user passwd (some p) =
    if signed_ge int64_half 0 p || signed_lt int64_half 0xffff p
    then failed invalid_port
    else user_of user passwd (p % 2 ^ 16)

parse_fields : List Bytes → UserResult
unfolding port_of
parse_fields [] = failed wrong_syntax
parse_fields (user ∷ []) = failed wrong_syntax
parse_fields (user ∷ passwd ∷ []) =
    if bytes_eq user [] || bytes_eq passwd [] then failed empty_name else user_of user passwd 0
parse_fields (user ∷ passwd ∷ port ∷ []) =
    if bytes_eq user [] || bytes_eq passwd []
    then failed empty_name
    else if bytes_eq port []
    then user_of user passwd 0
    else port_of user passwd (atoi port)
parse_fields (user ∷ passwd ∷ port ∷ more ∷ rest) = failed wrong_syntax

unfoldable pub parse_user_passwd : Bytes → UserResult
unfolding parse_fields
parse_user_passwd user_passwd = parse_fields (split b':' user_passwd)

-- A duplicate user is fatal.
add_parsed : UserResult → Map AuthUser → Option (Map AuthUser)
add_parsed (failed e) m = none
add_parsed (parsed user au) m = elim (lookup user m) [
  | some old ↦ none
  | none ↦ some (insert user au m)
]

unfoldable pub add_user_passwd : Bytes → Map AuthUser → Option (Map AuthUser)
unfolding add_parsed parse_user_passwd
add_user_passwd val m = if bytes_eq val [] then some m else add_parsed (parse_user_passwd val) m

-- The lines of the file, one user each.
unfoldable pub load_user_passwd_lines : List Bytes → Map AuthUser → Option (Map AuthUser)
unfolding add_user_passwd
load_user_passwd_lines [] m = some m
load_user_passwd_lines (line ∷ lines) m = elim (add_user_passwd line m) [
  | none ↦ none
  | some m' ↦ load_user_passwd_lines lines m'
]

-- The number of mask bits behind the slash: `nbit > 32` is fatal.
mask_of : Option ℕ → Option Bytes
mask_of none = none
mask_of (some nbit) = if signed_lt int64_half 32 nbit then none else new_nbit_ipv4_mask nbit

-- The parts of `ip/nbitmask`.
mask_part : List Bytes → Option Bytes
unfolding mask_of
mask_part [] = new_nbit_ipv4_mask 32
mask_part (nbit ∷ more) = mask_of (atoi nbit)

unfoldable pub with_mask : Bytes → Option Bytes → Option NetAddr
with_mask ip none = none
with_mask ip (some mask) = some (record { ip = ip_mask ip mask; mask = mask })

module _ (t : IpText) where
  client_parts : List Bytes → Option NetAddr
  unfolding with_mask mask_part
  client_parts [] = none
  client_parts (ip_text ∷ rest) =
      if ltb 1 (length rest)
      then none
      else elim (t.parse_ip ip_text) [ none ↦ none | some ip ↦ with_mask ip (mask_part rest) ]

  allowed_clients : List Bytes → Option (List NetAddr)
  unfolding client_parts
  allowed_clients [] = some []
  allowed_clients (v ∷ arr) = elim (client_parts (split b'/' (trim_white v))) [
    | none ↦ none
    | some na ↦ elim (allowed_clients arr) [ none ↦ none | some l ↦ some (na ∷ l) ]
  ]

  unfoldable pub parse_allowed_client : Bytes → List NetAddr → Option (List NetAddr)
  unfolding allowed_clients
  parse_allowed_client val old =
      if bytes_eq val [] then some old else allowed_clients (split b',' val)

-- The search of `authIP` through the allowed networks.
unfoldable pub ip_allowed : Bytes → List NetAddr → Bool
ip_allowed ip [] = false
ip_allowed ip (na ∷ l) = if ip_equal (ip_mask ip na.mask) na.ip then true else ip_allowed ip l

-- `none` is the panic on a text that is no address.
unfoldable pub auth_ip : IpText → AuthState → Bytes → Option Bool
unfolding ip_allowed
auth_ip t a client_ip = elim (t.parse_ip client_ip) [
  | none ↦ none
  | some ip ↦ some (ip_allowed ip a.allowed_client)
]

-- `local_port` is the port of the connection's own address.
unfoldable pub auth_port : ℕ → AuthUser → Verdict
auth_port local_port au =
    if au.port == 0
    then granted
    else if not (local_port % 2 ^ 16 == au.port)
    then refused auth_required
    else granted

check_passwd : ℕ → Option AuthUser → Bytes → Verdict
unfolding auth_port
check_passwd local_port none passwd = refused auth_required
check_passwd local_port (some au) passwd =
    if not (bytes_eq au.passwd passwd) then refused auth_required else auth_port local_port au

basic_fields : ℕ → AuthState → List Bytes → Verdict
unfolding check_passwd
basic_fields local_port a (user ∷ passwd ∷ []) = check_passwd local_port (lookup user a.user) passwd
basic_fields local_port a _ = refused bad_request

-- `decoded` is the result of base64, `none` for its error.
unfoldable pub auth_basic : ℕ → AuthState → Option Bytes → Verdict
unfolding basic_fields
auth_basic local_port a none = refused bad_request
auth_basic local_port a (some b64) = basic_fields local_port a (split b':' b64)
