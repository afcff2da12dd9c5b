-- ===== src/Socks/Method.antt =====
-- socks.go: the negotiation of the authentication method. `client_ip` is the address of the
-- client's end, empty if there is none, `local_port` the port of the proxy's end.
pub mod Access
pub mod Accepts
use cow.Base.{
  ℕ, Bool, true, false, not, ◌&&◌, Option, none, some, [], ◌∷◌, ◌==◌, if◌then◌else◌, get_or, Bytes,
  bytes_eq, Map, lookup,
}
use cow.Socks.Session.{
  auth_needed, panic, request_error, ok, M, and_then, ◌>>=◌, ◌>>◌, pure, fail, read_full, write,
}
use mathlib.Core.Option
use cow.Std.Net.{IpText, has_byte}
use cow.Timeout.{TimeoutSet, add, has}
use cow.Auth.{AuthUser, auth_ip, auth_port, granted, refused}

abbrev pub socks5_version : ℕ
socks5_version = 5

abbrev pub socks5_auth_none : ℕ
socks5_auth_none = 0

abbrev pub socks5_auth_user_pass : ℕ
socks5_auth_user_pass = 2

abbrev pub socks5_auth_no_acceptable : ℕ
socks5_auth_no_acceptable = 0xff

abbrev pub socks5_user_pass_version : ℕ
socks5_user_pass_version = 1

abbrev pub socks5_status_general_error : ℕ
socks5_status_general_error = 1

unfoldable pub write_socks5_method : ℕ → M (Unit {0})
write_socks5_method method = write (socks5_version ∷ method ∷ [])

unfoldable pub write_socks5_user_pass_status : ℕ → M (Unit {0})
write_socks5_user_pass_status status = write (socks5_user_pass_version ∷ status ∷ [])

-- A refusal is told to the client first.
reject : M (Unit {0})
unfolding write_socks5_user_pass_status
reject = do write_socks5_user_pass_status 1; fail auth_needed

-- `auth.authed.add(clientIP)`, where there is an address and a set.
unfoldable pub remember_client : ℕ → Bytes → M (Unit {0})
remember_client now client_ip s = if bytes_eq client_ip [] then (ok tt, s) else (
  ok tt,
  record s { auth = record s.auth { authed = Option.map (add now client_ip) s.auth.authed } },
)

-- The name and password were right; the port is checked, and the client told.
check_port : ℕ → ℕ → Bytes → AuthUser → M (Unit {0})
unfolding write_socks5_user_pass_status remember_client reject
check_port now local_port client_ip au = elim (auth_port local_port au) [
  | refused e ↦ reject
  | granted ↦ do write_socks5_user_pass_status 0; remember_client now client_ip
]

check_user : ℕ → ℕ → Bytes → Bytes → Option AuthUser → M (Unit {0})
unfolding check_port reject
check_user now local_port client_ip passwd none = reject
check_user now local_port client_ip passwd (some au) =
    if not (bytes_eq au.passwd passwd) then reject else check_port now local_port client_ip au

-- `auth.user[string(user)]` with the table as it is then.
with_user : ℕ → ℕ → Bytes → Bytes → Bytes → M (Unit {0})
unfolding check_user
with_user now local_port client_ip user passwd s =
    check_user now local_port client_ip passwd (lookup user s.auth.user) s

read_user_pass : ℕ → ℕ → Bytes → Bytes → M (Unit {0})
unfolding with_user
read_user_pass now local_port client_ip header = do
  user ← read_full (get_or header 1 0)
  plen ← read_full 1
  passwd ← read_full (get_or plen 0 0)
  with_user now local_port client_ip user passwd

unfoldable pub auth_socks_user_pass : ℕ → ℕ → Bytes → M (Unit {0})
unfolding read_user_pass reject
auth_socks_user_pass now local_port client_ip = do
  header ← read_full 2
  if not (get_or header 0 0 == socks5_user_pass_version)
      then reject
      else read_user_pass now local_port client_ip header

-- The answer of `authIP`, or its panic.
answer : Option Bool → M Bool
answer none = fail panic
answer (some allowed) = pure allowed

-- `auth.authed != nil && auth.authed.has(clientIP)`
authed_client : ℕ → Bytes → Option TimeoutSet → M Bool
authed_client now client_ip none s = (ok false, s)
authed_client now client_ip (some ts) s =
    let (found, ts') = has now client_ip ts in
    (ok found, record s { auth = record s.auth { authed = some ts' } })

client_allowed : IpText → ℕ → Bytes → M Bool
unfolding answer authed_client
client_allowed t now client_ip s =
    and_then (authed_client now client_ip s.auth.authed s)
      (λ found s'. if found then (ok true, s') else answer (auth_ip t s'.auth client_ip) s')

unfoldable pub socks_no_auth_allowed : IpText → ℕ → Bytes → M Bool
unfolding client_allowed
socks_no_auth_allowed t now client_ip s =
    if not s.auth.required
    then (ok true, s)
    else if bytes_eq client_ip []
    then (ok false, s)
    else client_allowed t now client_ip s

no_users : Map AuthUser → Bool
no_users [] = true
no_users (e ∷ m) = false

-- The choice among the methods that the client offers.
choose_method : ℕ → ℕ → Bytes → Bytes → Bool → M (Unit {0})
unfolding write_socks5_method no_users
choose_method now local_port client_ip methods no_auth s =
    let with_password =
      (do write_socks5_method socks5_auth_user_pass; auth_socks_user_pass now local_port client_ip)
        s in
    let none_acceptable = (do write_socks5_method socks5_auth_no_acceptable; fail auth_needed) s in
    if no_auth && has_byte socks5_auth_none methods
    then write_socks5_method socks5_auth_none s
    else if not (no_users s.auth.user) && has_byte socks5_auth_user_pass methods
    then with_password
    else none_acceptable

offered : IpText → ℕ → ℕ → Bytes → Bytes → M (Unit {0})
unfolding choose_method socks_no_auth_allowed
offered t now local_port client_ip header = do
  methods ← read_full (get_or header 1 0)
  no_auth ← socks_no_auth_allowed t now client_ip
  choose_method now local_port client_ip methods no_auth

unfoldable pub negotiate_socks5 : IpText → ℕ → ℕ → Bytes → M (Unit {0})
unfolding offered
negotiate_socks5 t now local_port client_ip = do
  header ← read_full 2
  if not (get_or header 0 0 == socks5_version)
      then fail (request_error socks5_status_general_error)
      else offered t now local_port client_ip header
