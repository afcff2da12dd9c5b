-- ===== src/Tests/Access.antt =====
-- The theorems on auth.go, sitestat.go and timeoutset.go at concrete inputs.
use cow.Base.{
  ◌^◌, ◌≡◌, refl, ◌⊎◌, inl, inr, true, false, none, some, [], ◌∷◌, arith, Bool-cases, eq_of_some,
  replicate, All, Bytes, codes, bytes_eq, index_byte, split, Map, lookup, insert, Distinct,
}
use cow.Std.Net.{IpText}
use cow.Url.{Url}
use cow.Util.Host.{host2domain}
use cow.Auth.{AuthUser, AuthState, NetAddr, granted, auth_ip, with_mask}
use cow.Auth.Digest.{authenticate}
use cow.Auth.Digest.Safety.{HashesAreRight, HasCredentials, IsRemembered, authenticate_granted}
use cow.Auth.Clients.{IsAdmitted, auth_ip_any_v6}
use cow.Timeout.{has}
use cow.Timeout.Log.{History, run, last_add, is_fresh, has-run, adds, asks, dels}
use cow.Site.Visit.{
  VisitCnt, direct_visit, blocked_visit, temp_blocked, as_direct, as_blocked, as_temp_blocked,
  max_cnt,
}
use cow.Site.Visit.Count.{IsCounted, visit-IsCounted}
use cow.Site.Stat.{
  SiteStat, SiteLists, filter_sites, load, temp_blocked_site, get_direct_list, get_visit_cnt,
}
use cow.Site.Stat.Direct.{temp_blocked-direct_list}
use cow.Site.Stat.Filter.{IsFiltered, lookup-filter_sites}
use cow.Site.Stat.Load.{load-listing}
use cow.Site.Stat.Entry.{Serves, get_visit_cnt-Serves}

abbrev joe : AuthUser
joe = record { passwd = codes "pw"; ha1 = []; port = 0 }

abbrev users : Map AuthUser
users = (codes "joe", joe) ∷ []

abbrev door : AuthState
door = record { required = true; user = users; allowed_client = []; authed = none }

-- Any text is an address.
abbrev any_address : IpText
any_address = record { parse_ip = λ s. some (replicate 16 1); ip_string = λ b. b }

users-HashesAreRight : HashesAreRight (λ b. b) users
unfolding lookup
users-HashesAreRight = record {
  right = λ user au e. inl (elim (Bool-cases (bytes_eq (codes "joe") user)) [
    | inl y ↦ rw (← eq_of_some (rw y at e)) refl
    | inr n ↦ cc (rw n at e)
  ]);
}

authenticate_granted_example :
    IsRemembered (λ b. b) 5 (codes "1.2.3.4") none
    ⊎ IsAdmitted any_address door (codes "1.2.3.4")
    ⊎ HasCredentials
        (λ (b : Bytes). b)
        (λ (b : Bytes). some b)
        5
        7777
        users
        (codes "GET")
        (codes "Basic joe:pw")
unfolding authenticate auth_ip bytes_eq cow.Std.Strings.split_2 index_byte
    cow.Util.Case.ascii_to_lower cow.Std.Strings.trim_white cow.Auth.auth_basic split lookup
authenticate_granted_example =
    authenticate_granted (λ b. b) (λ b. some b) any_address 5 7777 door door (codes "1.2.3.4")
      (codes "GET") (codes "Basic joe:pw") users-HashesAreRight refl

abbrev v6_entry : NetAddr
v6_entry = record { ip = []; mask = 255 ∷ 255 ∷ 0 ∷ 0 ∷ [] }

auth_ip_any_v6_example :
    auth_ip any_address (record door { allowed_client = v6_entry ∷ [] }) (codes "2001:db8::1")
    ≡ some true
unfolding with_mask cow.Std.Net.ip_mask bytes_eq
auth_ip_any_v6_example =
    auth_ip_any_v6 any_address (record door { allowed_client = v6_entry ∷ [] })
      (codes "2001:db8::1") (replicate 16 1) (replicate 16 2) (255 ∷ 255 ∷ 0 ∷ 0 ∷ []) v6_entry []
      [] refl (refl, refl) (refl, refl) refl refl refl

abbrev calls : History
calls =
    (9, asks (codes "k"))
    ∷ (7, adds (codes "k"))
    ∷ (4, dels (codes "k"))
    ∷ (2, adds (codes "j"))
    ∷ []

has-run_example : (has 11 (codes "k") (run 5 calls)).0 ≡ is_fresh 5 11 (last_add (codes "k") calls)
has-run_example =
    has-run 5 11 (codes "k") calls (omega arith, (omega arith, (omega arith, (omega arith, tt))))

abbrev seen : VisitCnt
seen = record { direct = 7; blocked = 0; recent = 3; r_updated = false; blocked_on = 0 }

visit-IsCounted_example :
    IsCounted (direct_visit false 9 seen)
    × IsCounted (blocked_visit false 9 seen)
    × IsCounted (temp_blocked 9 seen)
visit-IsCounted_example = visit-IsCounted false 9 seen (inr (omega arith, omega arith, inr refl))

abbrev page : Url
page = record {
  host_port = codes "www.a.com:80";
  host = codes "www.a.com";
  port = codes "80";
  domain = codes "a.com";
  path = codes "/";
}

abbrev table : SiteStat
table = record {
  update = 0;
  vcnt = (codes "www.a.com", seen) ∷ (codes "b.a.com", seen) ∷ (codes "c.org", seen) ∷ [];
  has_blocked_host = [];
}

abbrev table_after : SiteStat
table_after = record {
  update = 0;
  vcnt =
      (codes "www.a.com", temp_blocked 50 seen)
      ∷ (codes "b.a.com", seen)
      ∷ (codes "c.org", seen)
      ∷ [];
  has_blocked_host = (codes "a.com", true) ∷ [];
}

temp_blocked-direct_list_example :
    All (λ site. bytes_eq (host2domain site) (codes "a.com") ≡ false) (get_direct_list table_after)
unfolding temp_blocked_site lookup bytes_eq insert
temp_blocked-direct_list_example = temp_blocked-direct_list 50 table table_after page refl

table-Distinct : Distinct table.vcnt
unfolding lookup bytes_eq
table-Distinct = (refl, (refl, (refl, tt)))

lookup-filter_sites_example :
    IsFiltered
      (10 ^ 18)
      table
      (codes "c.org")
      (lookup (codes "c.org") table.vcnt)
      (lookup (codes "c.org") (filter_sites (10 ^ 18) table).vcnt)
lookup-filter_sites_example = lookup-filter_sites (10 ^ 18) table (codes "c.org") table-Distinct

abbrev lists : SiteLists
lists = record {
  blocked_domain_list = codes "x.com" ∷ [];
  direct_domain_list = codes "c.org" ∷ [];
  direct_file = none;
  blocked_file = some (codes "c.org" ∷ []);
}

abbrev listed : VisitCnt
listed = record { direct = 0; blocked = 255; recent = 0; r_updated = true; blocked_on = 0 }

load-listing_example : lookup (codes "c.org") (load 77 lists table).vcnt ≡ some listed
unfolding bytes_eq cow.Site.Visit.new_visit_cnt_with_time
load-listing_example = load-listing 77 lists table (codes "c.org") listed table-Distinct refl

get_visit_cnt-Serves_example :
    Serves 0 table (get_visit_cnt false 9 table page).0 (get_visit_cnt false 9 table page).1
get_visit_cnt-Serves_example = get_visit_cnt-Serves 0 9 false table page
