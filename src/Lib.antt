-- ===== src/Lib.antt =====
-- COW is an HTTP and SOCKS5 proxy that learns which sites are blocked and sends their requests
-- through parent proxies. This library models its core and proves what makes it correct.
--
-- Parts of the program, and the files that model them:
--   * auth.go, who may use the proxy: Auth (users, allowed clients, the address and basic checks),
--     Auth/Digest (digest authentication, `Authenticate`; `parseKeyValueList` of http.go). The
--     state is `AuthState` for the variable `auth`.
--   * timeoutset.go, the addresses that authenticated lately: Timeout.
--   * sitestat.go, what is known of the sites: Site/Visit (`VisitCnt`) and Site/Stat (`SiteStat`).
--     A pointer to a count is the host under which the table holds it.
--   * proxy.go, how a request gets its server connection: Proxy/Connect (`connectDirect`,
--     `connectServer`), which asks a site's count, dials, and marks a site as blocked.
--   * proxy.go, errors of a server connection and retries: Proxy/Retry (`handleServerReadError`,
--     `handleServerWriteError`, `shouldRetry`, the retries of `serve`, what happens elsewhere
--     between two tries being an argument).
--   * proxy.go and util.go, the transfer of bodies: Body (`sendBody` and what it calls, `copyN`).
--     Body/Reader has the buffered reader as a record of operations with laws, and the writer.
--   * http.go: Url (`URL`), Http/Uri (`ParseRequestURIBytes`), Http/Header (the header fields),
--     Http/Lines (continued lines, `parseHeader`), Http/Request (`parseRequest`), Http/Response
--     (`parseResponse`). Its header is what Body reads to choose the encoding.
--   * parent_proxy.go, the parents: Parent/InOrder (`connectInOrder`), Parent/HttpPool
--     (`httpParentPool`: a node is its place in the list) and Parent/SocksParent (`socksParent`,
--     the client's side of the messages that Socks reads).
--   * config.go, the option of a SOCKS5 parent: Config (`parseSocksParent`).
--   * conn_pool.go, idle server connections: ConnPool. A channel is the list in its buffer, and
--     each function is a step that no other goroutine interrupts; timers are the order of steps.
--   * socks.go, the SOCKS5 server: Socks/Session (a connection's reads and writes), Socks/Method
--     (`negotiateSocks5`), Socks/Request (`parseSocks5Request`), Socks/Address
--     (`buildSocks5AddrPort`) and Socks/Datagram (the packets of the UDP relay).
--   * util.go, helpers on bytes and names: Util/Case, Util/Space, Util/Fields,
--     Util/ParseInt, Util/Mask, Util/Host. Util/OneLine says what a line is and which of these
--     keep it one.
-- Base holds lists, texts, maps and machine integers. Std has the functions of Go's `strconv`,
-- `strings` and `net` that the code calls.
--
-- Names follow the source in snake case (`GetVisitCnt` is `get_visit_cnt`). A byte is a number
-- below 256, a text a list of bytes. A machine integer is its bit pattern: int8 below 2 ^ 8, int64
-- below 2 ^ 64, with the comparisons and subtractions of Base/Words. Times are nanoseconds. The
-- clock, random draws, the state of the network, MD5, base64, the texts of IP addresses, and what
-- dialling and reading files give are arguments. A panic is a result of its own.
--
-- Bounds: loops over a text, a list or a buffer recur on it. The counted loops recur on their
-- number of rounds: `NewNbitIPv4Mask` on the four bytes, the in-place case conversions on the
-- length, `closeServerConn` on the length of the buffer as the source reads it, `connectInOrder`
-- on the number of parents. `Itoa` prints with 20 rounds, which every int64 fits. The loops that
-- read from a buffered reader run on fuel; a round takes a byte at least (for chunks: a chunk), so
-- one more than are still to come is enough.
--
-- Not modelled: the rest of the loop of a client connection and the tunnels in proxy.go, the
-- deadlines and the debug output of http.go, the latency and hash pools of parents and the other
-- kinds of parents, the UDP relay's sockets, the other options of the configuration, logging,
-- error pages, the PAC text, traffic capture and plugins: sockets, files and texts for people.
pub mod Base
pub mod Std
pub mod Util
pub mod Timeout
pub mod Url
pub mod Site
pub mod ConnPool
pub mod Auth
pub mod Socks
pub mod Proxy
pub mod Body
pub mod Http
pub mod Parent
pub mod Config
mod Tests
