-- ===== src/Auth/Digest.antt =====
-- auth.go: digest authentication, the choice of the method and `Authenticate`; http.go:
-- `parseKeyValueList`. `md5_hex` is the MD5 sum in hexadecimal, `decode` is base64, `now` the time
-- in nanoseconds since 1970.
pub mod Safety
use cow.Base.{
  ℕ, ◌-◌, ◌*◌, ◌^◌, Bool, true, false, not, Option, none, some, List, [], ◌∷◌, map, ltb, leb,
  if◌then◌else◌, Bytes, codes, bytes_eq, split, join, Map, lookup, insert, int64_half,
}
use mathlib.Core.Option
use cow.Std.Strconv.{parse_int}
use cow.Std.Strings.{trim_white, trim_byte, split_2}
use cow.Std.Net.{IpText}
use cow.Util.Case.{ascii_to_lower}
use cow.Timeout.{TimeoutSet, add, has}
use cow.Auth.{
  AuthUser, AuthState, auth_required, bad_request, Verdict, granted, refused, auth_port, auth_basic,
  auth_ip,
}

-- One element `key=value` of the list.
key_value : List Bytes → Option (Bytes × Bytes)
key_value (key ∷ val ∷ []) = some (key, trim_byte b'"' val)
key_value _ = none

-- The loop over the elements; `none` is an element with no equal sign.
key_values : List Bytes → Map Bytes → Option (Map Bytes)
unfolding key_value
key_values [] res = some res
key_values (ele ∷ list) res = elim (key_value (split_2 b'=' (trim_white ele))) [
  | none ↦ none
  | some (key, val) ↦ key_values list (insert key val res)
]

-- nil is the empty map.
unfoldable pub parse_key_value_list : Bytes → Map Bytes
unfolding key_values
parse_key_value_list str =
    if bytes_eq str []
    then []
    else elim (key_values (split b',' str) []) [ none ↦ [] | some res ↦ res ]

-- `kv[key]`: the value of a missing key is empty.
unfoldable pub value_of : Bytes → Map Bytes → Bytes
value_of key kv = elim (lookup key kv) [ none ↦ [] | some val ↦ val ]

abbrev pub auth_realm : Bytes
auth_realm = codes "cow proxy"

abbrev pub nanos : ℕ
nanos = 10 ^ 9

-- Seconds from the year 1, where Go's times start, to 1970.
abbrev unix_to_internal : ℕ
unix_to_internal = 62135596800

-- Whether more than a minute has passed since the time of the nonce, an int64 in seconds. The
-- times of negative numbers, and of those that wrap in Go's times, lie long before.
unfoldable pub is_early : ℕ → ℕ → Bool
is_early now nonce_time =
    if leb (int64_half - unix_to_internal) nonce_time
    then true
    else ltb (60 * nanos) (now - nonce_time * nanos)

no_pairs : Map Bytes → Bool
no_pairs [] = true
no_pairs (e ∷ kv) = false

-- `auth.authed.add(clientIP)`.
remember : ℕ → Bytes → Verdict × AuthState → Verdict × AuthState
remember now client_ip (refused e, a) = (refused e, a)
remember now client_ip (granted, a) =
    (granted, record a { authed = Option.map (add now client_ip) a.authed })

-- `auth.authed.has(clientIP)`, on a set that `initAuth` has made.
authed_has : ℕ → Bytes → AuthState → Option TimeoutSet → Bool × AuthState
authed_has now client_ip a none = (false, a)
authed_has now client_ip a (some ts) =
    let (found, ts') = has now client_ip ts in (found, record a { authed = some ts' })

module _ (md5_hex : Bytes → Bytes) where
  unfoldable pub ha1_of : Bytes → AuthUser → Bytes
  ha1_of user au = md5_hex (join b':' (user ∷ auth_realm ∷ au.passwd ∷ []))

  -- `initHA1`.
  unfoldable pub init_ha1 : Bytes → AuthUser → AuthUser
  unfolding ha1_of
  init_ha1 user au = if bytes_eq au.ha1 [] then record au { ha1 = ha1_of user au } else au

  unfoldable pub calc_request_digest : Map Bytes → Bytes → Bytes → Bytes
  unfolding value_of
  calc_request_digest kv ha1 method = md5_hex (
      join b':' (
        ha1
        ∷ value_of (codes "nonce") kv
        ∷ value_of (codes "nc") kv
        ∷ value_of (codes "cnonce") kv
        ∷ codes "auth"
        ∷ md5_hex (join b':' (method ∷ value_of (codes "uri") kv ∷ []))
        ∷ []))

  -- The comparison, with the user as `initHA1` left it.
  check_response :
      AuthState → Bytes → Map Bytes → Bytes → AuthUser → Option Bytes → Verdict × AuthState
  unfolding calc_request_digest
  check_response a method kv user au none = (refused bad_request, a)
  check_response a method kv user au (some response) =
      let au' = init_ha1 user au in
      let a' = record a { user = insert user au' a.user } in
      if not (bytes_eq response (calc_request_digest kv au'.ha1 method))
      then (refused auth_required, a')
      else (granted, a')

  digest_user : ℕ → AuthState → Bytes → Map Bytes → Bytes → Option AuthUser → Verdict × AuthState
  unfolding check_response
  digest_user local_port a method kv user none = (refused auth_required, a)
  digest_user local_port a method kv user (some au) = elim (auth_port local_port au) [
    | refused e ↦ (refused e, a)
    | granted ↦
        if not (bytes_eq (value_of (codes "qop") kv) (codes "auth"))
        then (refused bad_request, a)
        else check_response a method kv user au (lookup (codes "response") kv)
  ]

  digest_time : ℕ → ℕ → AuthState → Bytes → Map Bytes → Option ℕ → Verdict × AuthState
  unfolding digest_user
  digest_time now local_port a method kv none = (refused bad_request, a)
  digest_time now local_port a method kv (some nonce_time) =
      if is_early now nonce_time
      then (refused auth_required, a)
      else digest_user local_port a method kv (value_of (codes "username") kv)
          (lookup (value_of (codes "username") kv) a.user)

  unfoldable pub auth_digest : ℕ → ℕ → AuthState → Bytes → Bytes → Verdict × AuthState
  unfolding digest_time no_pairs
  auth_digest now local_port a method key_val =
      let kv = parse_key_value_list key_val in
      if no_pairs kv
      then (refused bad_request, a)
      else digest_time now local_port a method kv (parse_int 16 (value_of (codes "nonce") kv))

  module _ (decode : Bytes → Option Bytes) where
    check_method : ℕ → ℕ → AuthState → Bytes → List Bytes → Verdict × AuthState
    check_method now local_port a method (scheme ∷ rest ∷ []) =
        let name = ascii_to_lower (trim_white scheme) in
        if bytes_eq name (codes "digest")
        then auth_digest now local_port a method rest
        else if bytes_eq name (codes "basic")
        then (auth_basic local_port a (decode rest), a)
        else (refused bad_request, a)
    check_method now local_port a method _ = (refused bad_request, a)

    unfoldable pub check_proxy_authorization :
        ℕ → ℕ → AuthState → Bytes → Bytes → Verdict × AuthState
    unfolding check_method
    check_proxy_authorization now local_port a method authorization =
        check_method now local_port a method (split_2 b' ' authorization)

    -- A request with no credentials gets the 407 page, as one with wrong ones does.
    unfoldable pub auth_user_passwd : ℕ → ℕ → AuthState → Bytes → Bytes → Verdict × AuthState
    unfolding check_proxy_authorization
    auth_user_passwd now local_port a method authorization =
        if not (bytes_eq authorization [])
        then check_proxy_authorization now local_port a method authorization
        else (refused auth_required, a)

    -- `allowed` is the answer of `authIP`, `none` its panic.
    unremembered :
        ℕ → ℕ → AuthState → Bytes → Bytes → Bytes → Option Bool → Option (Verdict × AuthState)
    unfolding remember auth_user_passwd
    unremembered now local_port a client_ip method authorization none = none
    unremembered now local_port a client_ip method authorization (some true) = some (granted, a)
    unremembered now local_port a client_ip method authorization (some false) =
        some (remember now client_ip (auth_user_passwd now local_port a method authorization))

    unfoldable pub authenticate :
        IpText → ℕ → ℕ → AuthState → Bytes → Bytes → Bytes → Option (Verdict × AuthState)
    unfolding authed_has unremembered
    authenticate t now local_port a client_ip method authorization =
        let (found, b) = authed_has now client_ip a a.authed in
        if found
        then some (granted, b)
        else unremembered now local_port b client_ip method authorization (auth_ip t b client_ip)
