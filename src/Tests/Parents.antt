-- ===== src/Tests/Parents.antt =====
-- The theorems on the parents of parent_proxy.go and on their options at concrete inputs.
use cow.Base.{
  ℕ, ◌≡◌, refl, ◌⊎◌, Bool, true, false, none, some, [], ◌∷◌, ◌++◌, arith, ◌==◌, codes, bytes_eq,
  index_byte, last_index, has_prefix, lookup,
}
use cow.Std.Net.{IpText}
use cow.Url.{Url}
use cow.Auth.{AuthUser, AuthState}
use cow.Socks.Session.{Session, ok}
use cow.Socks.Address.{build_socks5_addr_port, host_meant}
use cow.Socks.Method.{auth_socks_user_pass}
use cow.Socks.Method.Access.{MayEnter}
use cow.Socks.Request.{with_target, parse_socks5_request}
use cow.Socks.Request.Reads.{request_with}
use cow.Parent.SocksParent.{SocksParent, credentials, connect}
use cow.Parent.SocksParent.Sent.{IsConnected, connect-IsConnected}
use cow.Parent.SocksParent.Served.{credentials-served}
use cow.Parent.HttpPool.{
  HttpParentPool, connected, refreshed, latency_of, no_parent, none_available,
}
use cow.Parent.HttpPool
use cow.Parent.HttpPool.Fastest.{Sorted, IsOrdered, Picks, connect-Picks}
use cow.Parent.HttpPool.Ordered.{connect-IsOrdered}
use cow.Config.{parsed, parse_socks_parent, gen_config_value}
use cow.Config.RoundTrip.{with_login, parse-gen_config}

abbrev names_only : IpText
names_only = record { parse_ip = λ s. none; ip_string = λ b. b }

abbrev of_joe : SocksParent
of_joe = record { server = codes "c.org:1080"; username = codes "joe"; password = codes "pw" }

abbrev target_url : Url
target_url = record {
  host_port = codes "ab:80";
  host = codes "ab";
  port = codes "80";
  domain = [];
  path = [];
}

abbrev nobody : AuthState
nobody = record { required = false; user = []; allowed_client = []; authed = none }

abbrev dialled : Session
dialled = record {
  input = 5 ∷ 2 ∷ 1 ∷ 0 ∷ 5 ∷ 0 ∷ 0 ∷ 1 ∷ 10 ∷ 0 ∷ 0 ∷ 1 ∷ 4 ∷ 56 ∷ codes "hello";
  output = [];
  writes = 5;
  auth = nobody;
}

abbrev tunnelled : Session
tunnelled = record {
  input = codes "hello";
  output =
      5
      ∷ 1
      ∷ 2
      ∷ 1
      ∷ 3
      ∷ (codes "joe" ++ 2 ∷ (codes "pw" ++ 5 ∷ 1 ∷ 0 ∷ 3 ∷ 2 ∷ (codes "ab" ++ 0 ∷ 80 ∷ [])));
  writes = 2;
  auth = nobody;
}

connect-IsConnected_example : IsConnected names_only of_joe target_url dialled tunnelled
unfolding connect cow.Socks.Session.read_full cow.Socks.Session.write bytes_eq
    cow.Parent.SocksParent.authenticate cow.Std.Strconv.atoi build_socks5_addr_port
    cow.Std.Strings.trim_prefix_byte cow.Std.Strings.trim_suffix_byte last_index
connect-IsConnected_example =
    connect-IsConnected names_only of_joe target_url dialled tunnelled refl

abbrev joe : AuthUser
joe = record { passwd = codes "pw"; ha1 = []; port = 0 }

abbrev asking : Session
asking = record {
  input =
      credentials of_joe ++ (request_with 1 (3 ∷ 2 ∷ (codes "ab" ++ 0 ∷ 80 ∷ [])) ++ codes "GET");
  output = [];
  writes = 3;
  auth = record {
    required = true;
    user = (codes "joe", joe) ∷ [];
    allowed_client = [];
    authed = none;
  };
}

encoded :
    build_socks5_addr_port names_only (codes "ab") 80 ≡ some (3 ∷ 2 ∷ (codes "ab" ++ 0 ∷ 80 ∷ []))
unfolding build_socks5_addr_port last_index cow.Std.Strings.trim_prefix_byte
    cow.Std.Strings.trim_suffix_byte
encoded = refl

joe_may : MayEnter asking.auth.user 7777 (codes "joe") (codes "pw")
unfolding lookup bytes_eq cow.Auth.auth_port
joe_may = record { au = joe; found = refl; right = refl; port_ok = refl }

credentials-served_example :
    (v1 : Session) × (v2 : Session) × (auth_socks_user_pass 5 7777 [] asking ≡ (ok tt, v1))
    × (parse_socks5_request names_only v1
        ≡ (ok (with_target 1 (host_meant names_only (codes "ab"), 80)), v2))
    × (v2.input ≡ codes "GET")
credentials-served_example =
    credentials-served names_only 5 7777 [] of_joe (codes "ab") 80
      (3 ∷ 2 ∷ (codes "ab" ++ 0 ∷ 80 ∷ [])) (codes "GET") asking encoded refl (omega arith)
      (omega arith) joe_may (omega arith)

parse-gen_config_example : parse_socks_parent names_only (gen_config_value of_joe) ≡ parsed of_joe
unfolding cow.Config.check_server_addr last_index bytes_eq index_byte has_prefix
    cow.Std.Net.split_host_port
parse-gen_config_example =
    parse-gen_config names_only of_joe refl refl
      (with_login refl refl (omega arith) (omega arith) refl refl)

-- Two parents of which the slower one answers.
abbrev two_parents : HttpParentPool
two_parents = record {
  nodes =
      record { parent = codes "p1"; latency = 9; available = true }
      ∷ record { parent = codes "p2"; latency = 4; available = true }
      ∷ [];
  available = 1 ∷ 0 ∷ [];
}

abbrev answers : ℕ → Bool
answers i = i == 0

two_parents-IsOrdered : IsOrdered two_parents
unfolding IsOrdered Sorted latency_of
two_parents-IsOrdered = ((omega arith, tt), (tt, tt))

connect-IsOrdered_example : IsOrdered ((HttpPool.connect [] answers two_parents).1)
connect-IsOrdered_example = connect-IsOrdered [] answers two_parents two_parents-IsOrdered

connect-Picks_example :
    (let used = refreshed [] two_parents.available two_parents in
      IsOrdered used
      × (((HttpPool.size two_parents ≡ 0)
            × (HttpPool.connect [] answers two_parents ≡ (no_parent, two_parents)))
          ⊎ (((used.available ≡ [])
                × (HttpPool.connect [] answers two_parents ≡ (none_available, used)))
              ⊎ Picks
                  (latency_of used.nodes)
                  answers
                  used.available
                  (HttpPool.connect [] answers two_parents))))
connect-Picks_example = connect-Picks [] answers two_parents two_parents-IsOrdered
