-- ===== src/Tests/Network.antt =====
-- The theorems on conn_pool.go, proxy.go, parent_proxy.go and socks.go at concrete inputs.
use cow.Base.{
  inl, ℕ, ◌+◌, ◌*◌, ◌%◌, ◌^◌, ◌≡◌, refl, ◌≢◌, ◌⊎◌, Bool, true, false, Option, none, some, [], ◌∷◌,
  ◌++◌, arith, ◌==◌, All, Bytes, codes, bytes_eq, index_byte, last_index, lookup, insert,
}
use cow.Std.Net.{IpText, split_host_port, join_host_port}
use cow.Std.Strconv.{atoi, itoa}
use cow.Url.{Url}
use cow.Util.Host.{host2domain}
use cow.ConnPool.{
  ServerConn, ConnPool, mux, site, buffered, new_conn_pool, put, get, close_server_conn, close_all,
  final_drain, cow_conn, socks_conn, direct_conn,
}
use cow.ConnPool.Sound.{IsSound, IsMux, IsOf, new_conn_pool-IsSound}
use cow.ConnPool.Sound.Put.{put-IsSound}
use cow.ConnPool.Sound.Steps.{step-IsSound}
use cow.ConnPool.Kind.{get_kind, IsSound-HasChans}
use cow.ConnPool.Conserve.{total, amount, amount_of, put-total, get-total}
use cow.Site.Visit.{VisitCnt, as_blocked}
use cow.Site.Stat.{SiteStat, at_host, get_direct_list, get_visit_cnt}
use cow.Proxy.Connect.{ConnectConfig, Dialled, dialled, dial_error, parent_conn, connect_server}
use cow.Proxy.Connect.Routed.{IsRouted, connect_server-IsRouted}
use cow.Proxy.Connect.Learned.{connect_server-returns, connect_server-learns}
use cow.Socks.Address.{host_meant, build_socks5_addr_port, IsAddrPort}
use cow.Socks.Session.{Session, ok}
use cow.Socks.Address.{domain}
use cow.Auth.{AuthUser}
use cow.Socks.Method.{auth_socks_user_pass}
use cow.Socks.Method.Access.{sent_credentials, MayEnter, auth_user_pass-MayEnter}
use cow.Socks.Request.{parse_socks5_request, with_target}
use cow.Socks.Request.Reads.{parse_request-reads}
use cow.Socks.Datagram.{
  parse_socks5_udp_datagram, datagram, out_of_range, build_socks5_udp_datagram,
}
use cow.Socks.Datagram.Bounds.{parse_datagram_bounds}
use cow.Socks.Datagram.RoundTrip.{parse-build_datagram}

abbrev to_site : ServerConn
to_site = record { number = 1; kind = socks_conn; host_port = codes "a.com:80"; will_close_on = 9 }

abbrev to_parent : ServerConn
to_parent = record { number = 2; kind = cow_conn; host_port = codes "b.com:80"; will_close_on = 9 }

abbrev pool : ConnPool
pool = put to_site (put to_parent new_conn_pool)

pool-IsSound : IsSound pool
pool-IsSound =
    put-IsSound to_site (put to_parent new_conn_pool)
      (put-IsSound to_parent new_conn_pool new_conn_pool-IsSound)

abbrev never_closed : ServerConn → Bool
never_closed sv = false

get_kind_example :
    (never_closed to_site ≡ false)
    × (IsOf (codes "a.com:80") to_site ⊎ (IsMux to_site × ((true ≡ false) ⊎ (false ≡ true))))
unfolding get put bytes_eq new_conn_pool lookup insert cow.ConnPool.buffered
get_kind_example =
    get_kind never_closed false (codes "a.com:80") true pool to_site pool-IsSound refl

step-IsSound_example :
    IsSound (put to_parent pool)
    × IsSound (get never_closed false (codes "a.com:80") true pool).1
    × IsSound (close_server_conn never_closed true mux (codes "a.com:80") pool).1
    × IsSound (close_all never_closed pool)
    × IsSound (final_drain mux pool)
step-IsSound_example =
    step-IsSound never_closed pool to_parent (codes "a.com:80") mux false true true pool-IsSound

put-total_example : total 2 (put to_parent pool) ≡ total 2 pool + amount 2 (to_parent ∷ [])
put-total_example = put-total 2 to_parent pool (IsSound-HasChans pool pool-IsSound)

get-total_example :
    total 1 (get never_closed false (codes "a.com:80") true pool).1
      + amount_of 1 (get never_closed false (codes "a.com:80") true pool).0
    ≡ total 1 pool
get-total_example = get-total 1 never_closed false (codes "a.com:80") true pool

abbrev seen : VisitCnt
seen = record { direct = 3; blocked = 0; recent = 3; r_updated = true; blocked_on = 0 }

abbrev page : Url
page = record {
  host_port = codes "www.a.com:80";
  host = codes "www.a.com";
  port = codes "80";
  domain = codes "a.com";
  path = codes "/";
}

abbrev table : SiteStat
table = record { update = 0; vcnt = (codes "www.a.com", seen) ∷ []; has_blocked_host = [] }

abbrev table_after : SiteStat
table_after = record {
  update = 0;
  vcnt = (codes "www.a.com", record seen { blocked_on = 10 ^ 12 }) ∷ [];
  has_blocked_host = (codes "a.com", true) ∷ [];
}

abbrev config : ConnectConfig
config = record { always_proxy = false; no_parent = false; dial_timeout = 5 * 10 ^ 9 }

abbrev open_fd : ℕ → Bool
open_fd e = e == 24

-- No direct connection is made.
abbrev refuse : Bool → Option ℕ → Dialled ℕ ℕ
refuse again timeout = dial_error 110

abbrev by_parent : Dialled ℕ ℕ
by_parent = dialled 8

connect_server-IsRouted_example : IsRouted {Conn = ℕ} config (10 ^ 12) 1 seen (parent_conn 8)
unfolding connect_server as_blocked cow.Site.Stat.temp_blocked_site lookup bytes_eq insert
    cow.Site.Visit.temp_blocked
connect_server-IsRouted_example =
    connect_server-IsRouted open_fd refuse by_parent config true (10 ^ 12) 1 table table_after page
      seen (parent_conn 8) refl

connect_server-returns_example :
    connect_server open_fd refuse by_parent config true (10 ^ 12) 1 table page seen ≢ none
unfolding get_visit_cnt lookup bytes_eq
connect_server-returns_example =
    connect_server-returns open_fd refuse by_parent config true 0 7 (10 ^ 12) 1 table table page
      (at_host (codes "www.a.com")) seen refl refl

connect_server-learns_example :
    All (λ site. bytes_eq (host2domain site) (codes "a.com") ≡ false) (get_direct_list table_after)
unfolding connect_server as_blocked cow.Site.Stat.temp_blocked_site lookup bytes_eq insert
    cow.Site.Visit.temp_blocked
connect_server-learns_example =
    connect_server-learns open_fd refuse by_parent config true (10 ^ 12) 1 table table_after page
      seen 8 refl refl refl

abbrev no_http : ℕ → Bool
no_http id = false

abbrev dead : ℕ → Dialled ℕ ℕ
dead id = dial_error id

abbrev draw_one : ℕ → ℕ → ℕ
draw_one id n = 1

abbrev names_only : IpText
names_only = record { parse_ip = λ s. none; ip_string = λ b. b }

parse_datagram_bounds_example :
    parse_socks5_udp_datagram names_only (0 ∷ 0 ∷ 0 ∷ 3 ∷ 200 ∷ 1 ∷ []) ≢ out_of_range
parse_datagram_bounds_example = parse_datagram_bounds names_only (0 ∷ 0 ∷ 0 ∷ 3 ∷ 200 ∷ 1 ∷ [])

parse-build_datagram_example :
    (host : Bytes) × (digits : Bytes) × (port : ℕ) × (split_host_port (codes "ab:80")
      ≡ some (host, digits))
    × (atoi digits ≡ some port)
    × (parse_socks5_udp_datagram names_only (0 ∷ 0 ∷ 0 ∷ 3 ∷ 2 ∷ (codes "ab" ++ 0 ∷ 80 ∷ 7 ∷ []))
        ≡ datagram (join_host_port (host_meant names_only host) (itoa (port % 2 ^ 16))) (7 ∷ []))
unfolding build_socks5_udp_datagram cow.Std.Net.split_host_port last_index index_byte
    cow.Std.Strconv.atoi build_socks5_addr_port cow.Std.Strings.trim_prefix_byte
    cow.Std.Strings.trim_suffix_byte
parse-build_datagram_example =
    parse-build_datagram names_only (codes "ab:80") (7 ∷ [])
      (0 ∷ 0 ∷ 0 ∷ 3 ∷ 2 ∷ (codes "ab" ++ 0 ∷ 80 ∷ 7 ∷ [])) refl

abbrev to_name : IsAddrPort (3 ∷ 2 ∷ (codes "ab" ++ 0 ∷ 80 ∷ []))
to_name =
    domain (codes "ab") 80 (3 ∷ 2 ∷ (codes "ab" ++ 0 ∷ 80 ∷ [])) (omega arith) (omega arith) refl

abbrev client : Session
client = record {
  input = 5 ∷ 1 ∷ 0 ∷ 3 ∷ 2 ∷ (codes "ab" ++ 0 ∷ 80 ∷ codes "GET");
  output = [];
  writes = 3;
  auth = record { required = false; user = []; allowed_client = []; authed = none };
}

parse_request-reads_example :
    parse_socks5_request names_only client
    ≡ (ok (with_target 1 (codes "ab", 80)), record client { input = codes "GET" })
parse_request-reads_example =
    parse_request-reads names_only client 1 (3 ∷ 2 ∷ (codes "ab" ++ 0 ∷ 80 ∷ [])) (codes "GET")
      to_name (inl refl) refl

abbrev joe : AuthUser
joe = record { passwd = codes "pw"; ha1 = []; port = 0 }

abbrev joining : Session
joining = record {
  input = 1 ∷ 3 ∷ (codes "joe" ++ 2 ∷ codes "pwX");
  output = [];
  writes = 3;
  auth = record {
    required = true;
    user = (codes "joe", joe) ∷ [];
    allowed_client = [];
    authed = none;
  };
}

auth_user_pass-MayEnter_example :
    (user : Bytes) × (passwd : Bytes) × (joining.input ≡ sent_credentials user passwd ++ codes "X")
    × MayEnter joining.auth.user 7777 user passwd
unfolding auth_socks_user_pass cow.Socks.Session.read_full lookup bytes_eq cow.Auth.auth_port
    cow.Socks.Session.write
auth_user_pass-MayEnter_example =
    auth_user_pass-MayEnter 5 7777 [] joining
      (record joining { input = codes "X"; output = 1 ∷ 0 ∷ []; writes = 2 }) refl
