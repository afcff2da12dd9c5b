-- ===== src/Auth/Digest/Safety.antt =====
-- auth.go: whom `Authenticate` lets in.
use cow.Base.{
  ℕ, ◌%◌, ◌^◌, ◌≡◌, refl, ap, ◌∙◌, ◌⊎◌, inl, inr, Bool, true, false, Option, none, some, List, [],
  ◌∷◌, arith, if◌then◌else◌, Bool-cases, eq_of_some, Bytes, codes, bytes_eq, bytes_eq_refl,
  eq_of_bytes_eq, split, Map, lookup,
}
use cow.Std.Strconv.{parse_int}
use cow.Std.Strings.{split_2, trim_white}
use cow.Std.Net.{IpText}
use cow.Util.Case.{ascii_to_lower}
use cow.Timeout.{TimeoutSet, has}
use cow.Auth.Clients.{IsAdmitted, auth_ip-IsAdmitted}
use cow.Auth.{
  AuthUser, AuthState, AuthError, Verdict, granted, refused, auth_port, check_passwd, basic_fields,
  auth_basic, auth_ip,
}
use cow.Auth.Digest.{
  parse_key_value_list, value_of, is_early, ha1_of, init_ha1, calc_request_digest, check_response,
  digest_user, digest_time, no_pairs, auth_digest, check_method, check_proxy_authorization,
  auth_user_passwd, remember, authed_has, unremembered, authenticate,
}

Verdict-cases : (v : Verdict) → (v ≡ granted) ⊎ ((e : AuthError) × (v ≡ refused e))
Verdict-cases granted = inl refl
Verdict-cases (refused e) = inr (e, refl)

-- The user may use the port that the client connected to.
abbrev pub MayUsePort : ℕ → AuthUser → Type 0
MayUsePort local_port au = (au.port ≡ 0) ⊎ (local_port % 2 ^ 16 ≡ au.port)

auth_port-MayUsePort :
    (local_port : ℕ) (au : AuthUser) → auth_port local_port au ≡ granted → MayUsePort local_port au
unfolding auth_port
auth_port-MayUsePort local_port au h = ground arith

-- A user of the proxy, named with its password in the clear.
pub record KnowsPasswd (local_port : ℕ) (users : Map AuthUser) (user passwd : Bytes) : Type 0 where
  pub account : AuthUser
  pub known : lookup user users ≡ some account
  pub same_passwd : account.passwd ≡ passwd
  pub may_use_port : MayUsePort local_port account

check_passwd_granted :
    (local_port : ℕ) (users : Map AuthUser) (user passwd : Bytes) (o : Option AuthUser)
    → lookup user users ≡ o
    → check_passwd local_port o passwd ≡ granted
    → KnowsPasswd local_port users user passwd
unfolding check_passwd
check_passwd_granted local_port users user passwd none e h = cc
check_passwd_granted local_port users user passwd (some au) e h =
    elim (Bool-cases (bytes_eq au.passwd passwd)) [
      | inr n ↦ absurd (cc (rw (n, check_passwd) at h))
      | inl y ↦ record {
        account = au;
        known = e;
        same_passwd = eq_of_bytes_eq au.passwd passwd y;
        may_use_port = auth_port-MayUsePort local_port au (rw (y, check_passwd) at h);
      }
    ]

-- `user:passwd` that base64 gave.
pub record BasicCredentials (local_port : ℕ) (users : Map AuthUser) (decoded : Option Bytes)
    : Type 0 where
  pub text : Bytes
  pub user : Bytes
  pub passwd : Bytes
  pub decodes : decoded ≡ some text
  pub splits : split b':' text ≡ user ∷ passwd ∷ []
  pub knows : KnowsPasswd local_port users user passwd

basic_granted :
    (local_port : ℕ) (a : AuthState) (text : Bytes) (l : List Bytes)
    → split b':' text ≡ l
    → basic_fields local_port a l ≡ granted
    → BasicCredentials local_port a.user (some text)
unfolding basic_fields
basic_granted local_port a text [] e h = cc
basic_granted local_port a text (u ∷ []) e h = cc
basic_granted local_port a text (u ∷ p ∷ []) e h = record {
  text = text;
  user = u;
  passwd = p;
  decodes = refl;
  splits = e;
  knows = check_passwd_granted local_port a.user u p (lookup u a.user) refl h;
}
basic_granted local_port a text (u ∷ p ∷ q ∷ l) e h = cc

auth_basic_granted :
    (local_port : ℕ) (a : AuthState) (decoded : Option Bytes)
    → auth_basic local_port a decoded ≡ granted
    → BasicCredentials local_port a.user decoded
unfolding auth_basic
auth_basic_granted local_port a none h = cc
auth_basic_granted local_port a (some text) h =
    basic_granted local_port a text (split b':' text) refl h

module _ (md5_hex : Bytes → Bytes) where
  -- A digest made with the password of a user, for this request and a nonce of the last minute.
  pub record DigestCredentials (now local_port : ℕ) (users : Map AuthUser) (method : Bytes)
      (kv : Map Bytes) : Type 0 where
    pub account : AuthUser
    pub nonce_time : ℕ
    pub known : lookup (value_of (codes "username") kv) users ≡ some account
    pub may_use_port : MayUsePort local_port account
    pub nonce : parse_int 16 (value_of (codes "nonce") kv) ≡ some nonce_time
    pub recent : is_early now nonce_time ≡ false
    pub response :
        lookup (codes "response") kv
        ≡ some (
            calc_request_digest md5_hex kv
              (ha1_of md5_hex (value_of (codes "username") kv) account)
              method)

  -- A hash that is stored is the one of the user's password.
  pub record HashesAreRight (users : Map AuthUser) : Type 0 where
    pub right :
        (user : Bytes) (au : AuthUser)
        → lookup user users ≡ some au
        → (au.ha1 ≡ []) ⊎ (au.ha1 ≡ ha1_of md5_hex user au)

  init_ha1_lem :
      (user : Bytes) (au : AuthUser)
      → (au.ha1 ≡ []) ⊎ (au.ha1 ≡ ha1_of md5_hex user au)
      → (init_ha1 md5_hex user au).ha1 ≡ ha1_of md5_hex user au
  unfolding init_ha1
  init_ha1_lem user au (inl e) = rw (ap (λ h. bytes_eq h []) e, bytes_eq_refl []) refl
  init_ha1_lem user au (inr e) = elim (Bool-cases (bytes_eq au.ha1 [])) [
    | inl y ↦ rw y refl
    | inr n ↦ rw n e
  ]

  check_response_granted :
      (a : AuthState) (method user : Bytes) (kv : Map Bytes) (au : AuthUser) (o : Option Bytes)
      → (au.ha1 ≡ []) ⊎ (au.ha1 ≡ ha1_of md5_hex user au)
      → (check_response md5_hex a method kv user au o).0 ≡ granted
      → o ≡ some (calc_request_digest md5_hex kv (ha1_of md5_hex user au) method)
  unfolding check_response
  check_response_granted a method user kv au none r h = cc
  check_response_granted a method user kv au (some response) r h =
      let digest = calc_request_digest md5_hex kv (init_ha1 md5_hex user au).ha1 method in
      elim (Bool-cases (bytes_eq response digest)) [
        | inr n ↦ absurd (cc (rw (n, check_response) at h))
        | inl y ↦ ap some (
            eq_of_bytes_eq response digest y
            ∙ ap (λ k. calc_request_digest md5_hex kv k method) (init_ha1_lem user au r))
      ]

  module _ (now local_port : ℕ) (a : AuthState) (method : Bytes) (kv : Map Bytes)
      (r : HashesAreRight a.user) where
    digest_user_granted :
        (nonce_time : ℕ) (o : Option AuthUser)
        → lookup (value_of (codes "username") kv) a.user ≡ o
        → parse_int 16 (value_of (codes "nonce") kv) ≡ some nonce_time
        → is_early now nonce_time ≡ false
        → (digest_user md5_hex local_port a method kv (value_of (codes "username") kv) o).0
          ≡ granted
        → DigestCredentials now local_port a.user method kv
    unfolding digest_user
    digest_user_granted nonce_time none e n t h = cc
    digest_user_granted nonce_time (some au) e n t h =
        elim (Verdict-cases (auth_port local_port au)) [
          | inr (x, f) ↦ absurd (cc (rw (f, digest_user) at h))
          | inl f ↦ elim (Bool-cases (bytes_eq (value_of (codes "qop") kv) (codes "auth"))) [
            | inr q ↦ absurd (cc (rw (f, digest_user, q) at h))
            | inl q ↦ record {
              account = au;
              nonce_time = nonce_time;
              known = e;
              may_use_port = auth_port-MayUsePort local_port au f;
              nonce = n;
              recent = t;
              response =
                  check_response_granted a method (value_of (codes "username") kv) kv au
                    (lookup (codes "response") kv) (r.right _ au e) (rw (f, digest_user, q) at h);
            }
          ]
        ]

    digest_time_granted :
        (o : Option ℕ)
        → parse_int 16 (value_of (codes "nonce") kv) ≡ o
        → (digest_time md5_hex now local_port a method kv o).0 ≡ granted
        → DigestCredentials now local_port a.user method kv
    unfolding digest_time
    digest_time_granted none n h = cc
    digest_time_granted (some nonce_time) n h = elim (Bool-cases (is_early now nonce_time)) [
      | inl y ↦ absurd (cc (rw y at h))
      | inr f ↦ digest_user_granted nonce_time _ refl n f (rw f at h)
    ]

  module _ (decode : Bytes → Option Bytes) (now local_port : ℕ) (users : Map AuthUser)
      (method : Bytes) where
    -- The header field names a method and carries credentials for it.
    pub record HasCredentials (authorization : Bytes) : Type 0 where
      pub scheme : Bytes
      pub text : Bytes
      pub fields : split_2 b' ' authorization ≡ scheme ∷ text ∷ []
      pub proof :
          ((ascii_to_lower (trim_white scheme) ≡ codes "basic")
            × BasicCredentials local_port users (decode text))
          ⊎ ((ascii_to_lower (trim_white scheme) ≡ codes "digest")
              × DigestCredentials now local_port users method (parse_key_value_list text))

  module _ (decode : Bytes → Option Bytes) (now local_port : ℕ) (a : AuthState) (method : Bytes)
      (r : HashesAreRight a.user) where
    auth_digest_granted :
        (text : Bytes)
        → (auth_digest md5_hex now local_port a method text).0 ≡ granted
        → DigestCredentials now local_port a.user method (parse_key_value_list text)
    unfolding auth_digest
    auth_digest_granted text h = elim (Bool-cases (no_pairs (parse_key_value_list text))) [
      | inl y ↦ absurd (cc (rw y at h))
      | inr f ↦
          digest_time_granted now local_port a method (parse_key_value_list text) r _ refl
            (rw f at h)
    ]

    check_method_granted :
        (authorization : Bytes) (l : List Bytes)
        → split_2 b' ' authorization ≡ l
        → (check_method md5_hex decode now local_port a method l).0 ≡ granted
        → HasCredentials decode now local_port a.user method authorization
    unfolding check_method
    check_method_granted z [] e h = cc
    check_method_granted z (scheme ∷ []) e h = cc
    check_method_granted z (scheme ∷ text ∷ more ∷ l) e h = cc
    check_method_granted z (scheme ∷ text ∷ []) e h =
        let name = ascii_to_lower (trim_white scheme) in
        elim (Bool-cases (bytes_eq name (codes "digest"))) [
          | inl d ↦ record {
            scheme = scheme;
            text = text;
            fields = e;
            proof = inr (eq_of_bytes_eq name _ d, auth_digest_granted text (rw d at h));
          }
          | inr n ↦ elim (Bool-cases (bytes_eq name (codes "basic"))) [
            | inr m ↦ absurd (cc (rw (n, m) at h))
            | inl b ↦ record {
              scheme = scheme;
              text = text;
              fields = e;
              proof = inl (
                eq_of_bytes_eq name _ b,
                auth_basic_granted local_port a (decode text) (rw (n, b) at h),
              );
            }
          ]
        ]

    auth_user_passwd_granted :
        (authorization : Bytes)
        → (auth_user_passwd md5_hex decode now local_port a method authorization).0 ≡ granted
        → HasCredentials decode now local_port a.user method authorization
    unfolding auth_user_passwd check_proxy_authorization
    auth_user_passwd_granted z h = elim (Bool-cases (bytes_eq z [])) [
      | inl y ↦ absurd (cc (rw y at h))
      | inr n ↦ check_method_granted z (split_2 b' ' z) refl (rw n at h)
    ]

  abbrev pub IsRemembered : ℕ → Bytes → Option TimeoutSet → Type 0
  IsRemembered now client_ip none = ⊥
  IsRemembered now client_ip (some ts) = (has now client_ip ts).0 ≡ true

  remember_granted :
      (now : ℕ) (client_ip : Bytes) (v : Verdict × AuthState)
      → (remember now client_ip v).0 ≡ granted
      → v.0 ≡ granted
  unfolding remember
  remember_granted now client_ip (granted, a) h = refl
  remember_granted now client_ip (refused e, a) h = h

  module _ (decode : Bytes → Option Bytes) (t : IpText) (now local_port : ℕ) (b : AuthState)
      (client_ip method authorization : Bytes) (r : HashesAreRight b.user) where
    -- `Authenticate` behind its look into the set of the clients that authenticated before.
    not_remembered :
        (a' : AuthState) (o : Option Bool)
        → auth_ip t b client_ip ≡ o
        → unremembered md5_hex decode now local_port b client_ip method authorization o
          ≡ some (granted, a')
        → (auth_ip t b client_ip ≡ some true)
          ⊎ HasCredentials decode now local_port b.user method authorization
    unfolding unremembered
    not_remembered a' none e h = cc
    not_remembered a' (some true) e h = inl e
    not_remembered a' (some false) e h = inr (
        auth_user_passwd_granted decode now local_port b method r authorization
          (remember_granted now client_ip _ (ap (λ v. v.0) (eq_of_some h))))

  through_set :
      (decode : Bytes → Option Bytes) (t : IpText) (now local_port : ℕ) (a a' : AuthState)
      (client_ip method authorization : Bytes)
      → HashesAreRight a.user
      → (o : Option TimeoutSet)
      → (let (found, b) = authed_has now client_ip a o in
          if found
          then some (granted, b)
          else unremembered md5_hex decode now local_port b client_ip method authorization
              (auth_ip t b client_ip))
        ≡ some (granted, a')
      → IsRemembered now client_ip o
        ⊎ (auth_ip t a client_ip ≡ some true)
        ⊎ HasCredentials decode now local_port a.user method authorization
  unfolding authed_has auth_ip
  through_set decode t now local_port a a' client_ip method authorization r none h =
      inr (not_remembered decode t now local_port a client_ip method authorization r a' _ refl h)
  through_set decode t now local_port a a' client_ip method authorization r (some ts) h =
      elim (Bool-cases (has now client_ip ts).0) [
        | inl y ↦ inl y
        | inr f ↦ inr (
            not_remembered decode t now local_port
              (record a { authed = some (has now client_ip ts).1 }) client_ip method authorization r
              a' _ refl (rw f at h))
      ]

  -- What `Authenticate` lets in, at one of three doors: the client's address authenticated before
  -- and has not timed out; or the address under the mask of an entry of the allowed clients is the
  -- address of that entry (where the mask of an IPv6 address is nil, as is such an entry); or the
  -- request carries valid credentials, a user's password for basic authentication, or for digest
  -- authentication a response that was made with a user's password for this method and a nonce at
  -- most a minute old, in either case of a user that may use the port.
  pub authenticate_granted :
      (decode : Bytes → Option Bytes) (t : IpText) (now local_port : ℕ) (a a' : AuthState)
      (client_ip method authorization : Bytes)
      → HashesAreRight a.user
      → authenticate md5_hex decode t now local_port a client_ip method authorization
        ≡ some (granted, a')
      → IsRemembered now client_ip a.authed
        ⊎ IsAdmitted t a client_ip
        ⊎ HasCredentials decode now local_port a.user method authorization
  unfolding authenticate
  authenticate_granted decode t now local_port a a' client_ip method authorization r h =
      elim (through_set decode t now local_port a a' client_ip method authorization r a.authed h) [
        | inl y ↦ inl y
        | inr (inl y) ↦ inr (inl (auth_ip-IsAdmitted t a client_ip y))
        | inr (inr y) ↦ inr (inr y)
      ]
