-- ===== src/Proxy/Retry.antt =====
-- proxy.go: errors of a server connection and the retries of a request; http.go: the state of a
-- request. A step that another goroutine may interrupt gets what the others do as `after`. `none`
-- is a panic. Error pages are only named by the result.
pub mod Ends
use cow.Base.{
  ℕ, ◌+◌, ◌%◌, Bool, true, false, not, ◌&&◌, ◌||◌, Option, none, some, List, [], ◌∷◌, map, ltb,
  if◌then◌else◌,
}
use mathlib.Core.Option
use cow.Url.{Url}
use cow.Site.Visit.{VisitCnt, always_direct, direct_visit, blocked_visit}
use cow.Site.Stat.{SiteStat, temp_blocked_site}

pub data RqState : Type 0 where
  rs_created rs_sent rs_recv_body rs_done : RqState

pub data SvState : Type 0 where
  sv_connected sv_send_recv_response sv_stopped : SvState

-- What the code asks of an error of the network.
pub data NetError : Type 0 where
  eof timed_out conn_reset custom_http_err other_error : NetError

-- An error of serving a request; `retry_error` is a `RetryError`.
pub data ServeError : Type 0 where
  retry_error plain_error : NetError → ServeError
  page_sent : ServeError

-- `has_raw` says that the buffer was not released.
pub record RequestState : Type 0 where
  pub state : RqState
  pub partial : Bool
  pub has_raw : Bool
  pub try_cnt : ℕ

-- `site_info` is the count behind the pointer.
pub record ServerConn : Type 0 where
  pub state : SvState
  pub direct : Bool
  pub site_info : VisitCnt
  pub visited : Bool

unfoldable pub try_once : RequestState → RequestState
try_once r = record r { try_cnt = (r.try_cnt + 1) % 256 }

unfoldable pub is_retry : RequestState → Bool
is_retry r = ltb 1 r.try_cnt

unfoldable pub too_many_retry : RequestState → Bool
too_many_retry r = ltb 3 r.try_cnt

unfoldable pub response_not_sent : RequestState → Bool
response_not_sent r = elim r.state [
  | rs_created ↦ true
  | rs_sent ↦ true
  | rs_recv_body ↦ false
  | rs_done ↦ false
]

unfoldable pub has_sent : RequestState → Bool
has_sent r = elim r.state [ rs_created ↦ false | other ↦ true ]

is_connected : SvState → Bool
is_connected sv_connected = true
is_connected sv_send_recv_response = false
is_connected sv_stopped = false

unfoldable pub maybe_fake : ServerConn → Bool
unfolding is_connected
maybe_fake sv = is_connected sv.state && (sv.direct && not (always_direct sv.site_info))

unfoldable pub update_visit : Bool → ℕ → ServerConn → ServerConn
update_visit network_bad now sv =
    if sv.visited
    then sv
    else if sv.direct
    then record sv { visited = true; site_info = direct_visit network_bad now sv.site_info }
    else record sv { visited = true; site_info = blocked_visit network_bad now sv.site_info }

unfoldable pub is_err_retry : Option ServeError → Bool
is_err_retry none = false
is_err_retry (some (retry_error e)) = true
is_err_retry (some (plain_error e)) = false
is_err_retry (some page_sent) = false

-- `http_error_code` is the configured code, 0 for none.
unfoldable pub is_http_err_code : ℕ → NetError → Bool
is_http_err_code http_error_code custom_http_err = ltb 0 http_error_code
is_http_err_code http_error_code e = false

is_err_timeout : NetError → Bool
is_err_timeout timed_out = true
is_err_timeout e = false

is_err_conn_reset : NetError → Bool
is_err_conn_reset conn_reset = true
is_err_conn_reset e = false

unfoldable pub maybe_blocked : Bool → ℕ → NetError → Bool
unfolding is_err_timeout is_err_conn_reset is_http_err_code
maybe_blocked no_parent http_error_code e =
    if no_parent
    then false
    else is_err_timeout e || (is_err_conn_reset e || is_http_err_code http_error_code e)

is_eof : NetError → Bool
is_eof eof = true
is_eof e = false

module _ (now : ℕ) (url : Url) where
  unfoldable pub handle_blocked_request : SiteStat → NetError → Option (ServeError × SiteStat)
  handle_blocked_request ss e =
      Option.map (λ ss'. (retry_error e, ss')) (temp_blocked_site now ss url)

  unfoldable pub handle_server_read_error :
      Bool → ℕ → SiteStat → RequestState → ServerConn → NetError → Option (ServeError × SiteStat)
  unfolding is_eof handle_blocked_request
  handle_server_read_error no_parent http_error_code ss r sv e =
      if is_eof e
      then some (retry_error e, ss)
      else if maybe_fake sv && maybe_blocked no_parent http_error_code e
      then handle_blocked_request ss e
      else if response_not_sent r
      then some (page_sent, ss)
      else some (plain_error e, ss)

  unfoldable pub handle_server_write_error :
      SiteStat → ServerConn → NetError → Option (ServeError × SiteStat)
  unfolding is_err_conn_reset
  handle_server_write_error ss sv e =
      if maybe_fake sv && is_err_conn_reset e
      then Option.map (λ ss'. (retry_error e, ss')) (temp_blocked_site now ss url)
      else some (retry_error e, ss)

  unfoldable pub should_retry :
      SiteStat
      → RequestState
      → ServerConn
      → Option ServeError
      → Option (Bool × RequestState × SiteStat)
  unfolding maybe_fake
  should_retry ss r sv re =
      if not (is_err_retry re)
      then some (false, r, ss)
      else if not (response_not_sent r)
      then some (false, r, ss)
      else if r.partial
      then some (false, r, ss)
      else if not r.has_raw
      then none
      else if not (too_many_retry r)
      then some (true, r, ss)
      else if maybe_fake sv
      then Option.map (λ ss'. (true, record r { try_cnt = 0 }, ss')) (temp_blocked_site now ss url)
      else some (false, r, ss)

-- One try: the connection that it was given and the error that it came to, with what it left of
-- the request, and what happened to the table of sites since the try before.
pub record Attempt : Type 0 where
  pub now : ℕ
  pub sv : ServerConn
  pub error : Option ServeError
  pub state : RqState
  pub partial : Bool
  pub has_raw : Bool
  pub after : SiteStat → SiteStat

pub data Tries : Type 0 where
  finished : RequestState → SiteStat → Tries
  panicked unfinished : Tries

unfoldable pub attempted : Attempt → RequestState → RequestState
unfolding try_once
attempted a r = record (try_once r) { state = a.state; partial = a.partial; has_raw = a.has_raw }

abbrev pub on_decision :
    Option (Bool × RequestState × SiteStat) → (RequestState → SiteStat → Tries) → Tries
on_decision none go = panicked
on_decision (some (false, r, ss)) go = finished r ss
on_decision (some (true, r, ss)) go = go r ss

-- `retry:` of `serve`, given what each try will come to. A try that gets no connection ends the
-- loop at once, and is none of these.
unfoldable pub retry_loop : Url → List Attempt → RequestState → SiteStat → Tries
unfolding should_retry attempted
retry_loop url [] r ss = unfinished
retry_loop url (a ∷ later) r ss =
    on_decision (should_retry a.now url (a.after ss) (attempted a r) a.sv a.error)
      (λ r' ss'. retry_loop url later r' ss')
