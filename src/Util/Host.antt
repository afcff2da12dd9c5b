-- ===== src/Util/Host.antt =====
-- util.go: `hostIsIP`, `trimLastDot` and `host2Domain`.
pub mod Suffix
use cow.Std.Strconv.{atoi}
use cow.Base.{
  ℕ, ◌+◌, ◌-◌, Bool, true, false, not, ◌&&◌, ◌||◌, Option, none, some, [], ◌∷◌, ltb, ◌==◌,
  if◌then◌else◌, length, get_or, take, drop, all, any, Bytes, codes, bytes_eq, last_index, split,
  signed_lt, signed_ge, int64_half,
}

-- `n < 0 || n > 255` on the int that was read.
byte_range : Option ℕ → Bool
byte_range none = false
byte_range (some n) = not (signed_lt int64_half n 0 || signed_lt int64_half 255 n)

-- One round of the loop over the parts.
ip_part : Bytes → Bool
ip_part i = if length i == 0 || ltb 3 (length i) then false else byte_range (atoi i)

-- `n, _ := strconv.Atoi(part[1])`, then `16 <= n && n <= 31`; an error leaves n at 0.
private_172 : Option ℕ → Bool
private_172 none = false
private_172 (some n) = signed_ge int64_half n 16 && signed_ge int64_half 31 n

unfoldable pub host_is_ip : Bytes → Bool × Bool
unfolding ip_part byte_range private_172 atoi
host_is_ip host =
    let part = split b'.' host in
    let part0 = get_or part 0 [] in
    let part1 = get_or part 1 [] in
    if not (length part == 4)
    then (false, false)
    else if not (all ip_part part)
    then (false, false)
    else if bytes_eq part0 (codes "127")
        || (bytes_eq part0 (codes "10")
            || (bytes_eq part0 (codes "192") && bytes_eq part1 (codes "168")))
    then (true, true)
    else if bytes_eq part0 (codes "172") && private_172 (atoi part1)
    then (true, true)
    else (true, false)

-- The keys of the map `topLevelDomain`.
unfoldable pub top_level_domain : Bytes → Bool
top_level_domain s = any (bytes_eq s) (
    codes "ac"
    ∷ codes "co"
    ∷ codes "com"
    ∷ codes "edu"
    ∷ codes "gov"
    ∷ codes "net"
    ∷ codes "org"
    ∷ [])

unfoldable pub trim_last_dot : Bytes → Bytes
trim_last_dot s =
    if ltb 0 (length s) && get_or s (length s - 1) 0 == b'.' then take (length s - 1) s else s

-- Behind the third dot from the right, if there is one.
third_last : Bytes → ℕ → Bytes
third_last host dot2nd_last = elim (last_index b'.' (take dot2nd_last host)) [
  | none ↦ host
  | some dot3rd_last ↦ drop (dot3rd_last + 1) host
]

second_last : Bytes → ℕ → ℕ → Bytes
unfolding third_last
second_last host last_dot dot2nd_last =
    if top_level_domain (drop (dot2nd_last + 1) (take last_dot host))
    then third_last host dot2nd_last
    else drop (dot2nd_last + 1) host

domain_below : Bytes → ℕ → Bytes
unfolding second_last
domain_below host last_dot = elim (last_index b'.' (take last_dot host)) [
  | none ↦ host
  | some dot2nd_last ↦ second_last host last_dot dot2nd_last
]

-- The domain of a host that is no IPv4 address.
domain_of_name : Bytes → Bytes
unfolding domain_below
domain_of_name host = elim (last_index b'.' host) [
  | none ↦ []
  | some last_dot ↦ domain_below host last_dot
]

unfoldable pub host2domain : Bytes → Bytes
unfolding domain_of_name
host2domain host =
    let (is_ip, is_private) = host_is_ip host in
    if is_private then [] else if is_ip then host else domain_of_name (trim_last_dot host)
