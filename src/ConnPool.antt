-- ===== src/ConnPool.antt =====
-- conn_pool.go: idle server connections, shared between clients. A channel is the list of the
-- connections in its buffer, the next to be received first; a channel that was taken out of the
-- map lives on in `chans`, for the goroutines that still hold it. `closed` lists what was closed.
-- Each function is one step that no other goroutine interrupts. The argument `may_be_closed` is
-- the answer of `serverConn.mayBeClosed` at that time, `may_be_closed_at now`.
pub mod Sound
pub mod Kind
pub mod Conserve
pub mod Closing
use cow.Base.{
  ℕ, zero, suc, ◌+◌, ◌*◌, max, Bool, true, false, not, ◌&&◌, ◌||◌, Option, none, some, List, [],
  ◌∷◌, ◌++◌, ltb, ◌==◌, if◌then◌else◌, length, get_elem?, Bytes, codes, bytes_eq, Map, lookup,
  insert, delete,
}

abbrev pub max_server_conn_cnt : ℕ
max_server_conn_cnt = 5

-- The dynamic type of `serverConn.Conn`.
pub data ConnKind : Type 0 where
  direct_conn http_conn cow_conn shadowsocks_conn socks_conn : ConnKind

-- `number` tells connections apart.
pub record ServerConn : Type 0 where
  pub number : ℕ
  pub kind : ConnKind
  pub host_port : Bytes
  pub will_close_on : ℕ

-- `serverConn.mayBeClosed` at a time.
unfoldable pub may_be_closed_at : ℕ → ServerConn → Bool
may_be_closed_at now sv = elim sv.kind [ cow_conn ↦ false | _ ↦ ltb sv.will_close_on now ]

-- `case httpConn, cowConn`.
unfoldable pub supports_mux : ConnKind → Bool
supports_mux http_conn = true
supports_mux cow_conn = true
supports_mux direct_conn = false
supports_mux shadowsocks_conn = false
supports_mux socks_conn = false

pub record SiteChan : Type 0 where
  pub name : Bytes
  pub conns : List ServerConn

pub record ConnPool : Type 0 where
  pub idle_conn : Map ℕ
  pub chans : List SiteChan
  pub mux_conn : List ServerConn
  pub closed : List ServerConn

unfoldable pub new_conn_pool : ConnPool
new_conn_pool = record { idle_conn = []; chans = []; mux_conn = []; closed = [] }

pub data ChanRef : Type 0 where
  mux : ChanRef
  site : ℕ → ChanRef

unfoldable pub conns_of : Option SiteChan → List ServerConn
conns_of none = []
conns_of (some c) = c.conns

unfoldable pub buffered : ConnPool → ChanRef → List ServerConn
unfolding conns_of
buffered p mux = p.mux_conn
buffered p (site i) = conns_of (get_elem? p.chans i)

unfoldable pub with_conns : List SiteChan → ℕ → List ServerConn → List SiteChan
with_conns [] i l = []
with_conns (c ∷ cs) zero l = record c { conns = l } ∷ cs
with_conns (c ∷ cs) (suc i) l = c ∷ with_conns cs i l

unfoldable pub set_buffered : ConnPool → ChanRef → List ServerConn → ConnPool
unfolding with_conns
set_buffered p mux l = record p { mux_conn = l }
set_buffered p (site i) l = record p { chans = with_conns p.chans i l }

abbrev pub chan_cap : ChanRef → ℕ
chan_cap mux = max_server_conn_cnt * 2
chan_cap (site i) = max_server_conn_cnt

abbrev pub close_conn : ServerConn → ConnPool → ConnPool
close_conn sv p = record p { closed = sv ∷ p.closed }

module _ (may_be_closed : ServerConn → Bool) where
  -- The loop of `getConnFromChan` over the buffer of the channel.
  unfoldable pub receive : ChanRef → List ServerConn → ConnPool → Option ServerConn × ConnPool
  unfolding set_buffered
  receive ch [] p = (none, p)
  receive ch (sv ∷ rest) p = elim (may_be_closed sv) [
    | true ↦ receive ch rest (close_conn sv (set_buffered p ch rest))
    | false ↦ (some sv, set_buffered p ch rest)
  ]

  unfoldable pub get_conn_from_chan : ChanRef → ConnPool → Option ServerConn × ConnPool
  unfolding receive buffered
  get_conn_from_chan ch p = receive ch (buffered p ch) p

  -- `if ch != nil { sv = getConnFromChan(ch) }`
  unfoldable pub get_from_site : Option ℕ → ConnPool → Option ServerConn × ConnPool
  unfolding get_conn_from_chan
  get_from_site none p = (none, p)
  get_from_site (some i) p = get_conn_from_chan (site i) p

  unfoldable pub get : Bool → Bytes → Bool → ConnPool → Option ServerConn × ConnPool
  unfolding get_from_site get_conn_from_chan
  get always_proxy host_port as_direct p =
      let (found, q) = get_from_site (lookup host_port p.idle_conn) p in
      elim found [
        | some sv ↦ (some sv, q)
        | none ↦ if as_direct && not always_proxy then (none, q) else get_conn_from_chan mux q
      ]

-- The channel takes the connection if its buffer has room; otherwise the connection is closed.
unfoldable pub put_conn_to_chan : ServerConn → ChanRef → ConnPool → ConnPool
unfolding buffered set_buffered
put_conn_to_chan sv ch p =
    if ltb (length (buffered p ch)) (chan_cap ch)
    then set_buffered p ch (buffered p ch ++ sv ∷ [])
    else close_conn sv p

-- The channel of a site, made if there is none.
unfoldable pub site_chan : Bytes → Option ℕ → ConnPool → ChanRef × ConnPool
site_chan host_port (some i) p = (site i, p)
site_chan host_port none p = (
  site (length p.chans),
  record p {
    idle_conn = insert host_port (length p.chans) p.idle_conn;
    chans = p.chans ++ record { name = host_port; conns = [] } ∷ [];
  },
)

unfoldable pub put : ServerConn → ConnPool → ConnPool
unfolding supports_mux put_conn_to_chan site_chan
put sv p =
    let (ch, q) = site_chan sv.host_port (lookup sv.host_port p.idle_conn) p in
    if supports_mux sv.kind then put_conn_to_chan sv mux p else put_conn_to_chan sv ch q

same_chan : ChanRef → Option ℕ → Bool
same_chan mux o = false
same_chan (site i) none = false
same_chan (site i) (some j) = i == j

-- `if hostPort != muxConnHostPort { … }`: the channel leaves the map, if it is still there.
unfoldable pub remove_chan : ChanRef → Bytes → ConnPool → ConnPool
unfolding same_chan
remove_chan ch host_port p =
    if not (bytes_eq host_port (codes "@muxConn")) && same_chan ch (lookup host_port p.idle_conn)
    then record p { idle_conn = delete host_port p.idle_conn }
    else p

module _ (may_be_closed : ServerConn → Bool) (force : Bool) where
  -- A round that received a connection.
  unfoldable pub close_or_put_back : ChanRef → ServerConn → List ServerConn → ConnPool → ConnPool
  unfolding set_buffered
  close_or_put_back ch sv rest p =
      if force || may_be_closed sv
      then close_conn sv (set_buffered p ch rest)
      else set_buffered p ch (rest ++ sv ∷ [])

  -- The rounds left of the loop of `closeServerConn`.
  unfoldable pub close_rounds : ℕ → ChanRef → Bytes → ConnPool → Bool × ConnPool
  unfolding close_or_put_back buffered remove_chan
  close_rounds zero ch host_port p = (false, p)
  close_rounds (suc lcnt) ch host_port p = elim (buffered p ch) [
    | [] ↦ (true, remove_chan ch host_port p)
    | sv ∷ rest ↦ close_rounds lcnt ch host_port (close_or_put_back ch sv rest p)
  ]

  unfoldable pub close_server_conn : ChanRef → Bytes → ConnPool → Bool × ConnPool
  unfolding close_rounds
  close_server_conn ch host_port p = close_rounds (max (length (buffered p ch)) 1) ch host_port p

-- The loop of `CloseAll` over the channels that were in the map when it began.
unfoldable pub close_sites : (ServerConn → Bool) → List (Bytes × ℕ) → ConnPool → ConnPool
unfolding close_server_conn
close_sites may_be_closed [] p = p
close_sites may_be_closed ((host_port, i) ∷ conn_ch) p =
    close_sites may_be_closed conn_ch (close_server_conn may_be_closed true (site i) host_port p).1

unfoldable pub close_all : (ServerConn → Bool) → ConnPool → ConnPool
unfolding close_sites close_server_conn
close_all may_be_closed p =
    (close_server_conn may_be_closed true mux (codes "@muxConn")
      (close_sites may_be_closed p.idle_conn p)).1

-- The last loop of `closeStaleServerConn`, on a channel that is no longer in the map.
unfoldable pub drain : List ServerConn → ChanRef → ConnPool → ConnPool
unfolding set_buffered
drain [] ch p = p
drain (sv ∷ rest) ch p = drain rest ch (close_conn sv (set_buffered p ch rest))

unfoldable pub final_drain : ChanRef → ConnPool → ConnPool
unfolding drain buffered
final_drain ch p = drain (buffered p ch) ch p
