-- ===== src/Std/Net.antt =====
-- Go's `net`: addresses as bytes and as `host:port` texts. `net.ParseIP` and `IP.String` are
-- parameters of what uses them.
use Prim.Native.Nat.{bit_and}
use cow.Base.{
  ℕ, ◌+◌, ◌-◌, Bool, true, false, ◌&&◌, Option, none, some, [], ◌∷◌, ◌++◌, ◌==◌, if◌then◌else◌,
  length, get_or, take, drop, replicate, Bytes, bytes_eq, index_byte, last_index,
}

-- The two texts forms of an IP address. `parse_ip` gives 16 bytes.
pub record IpText : Type 0 where
  pub parse_ip : Bytes → Option Bytes
  pub ip_string : Bytes → Bytes

-- The first 12 bytes of an IPv4 address in its 16-byte form.
abbrev pub v4_in_v6_prefix : Bytes
v4_in_v6_prefix = replicate 10 0 ++ 255 ∷ 255 ∷ []

-- `IP.To4`: `none` for nil.
unfoldable pub to4 : Bytes → Option Bytes
to4 ip =
    if length ip == 4
    then some ip
    else if length ip == 16 && bytes_eq (take 12 ip) v4_in_v6_prefix
    then some (drop 12 ip)
    else none

and_bytes : Bytes → Bytes → Bytes
and_bytes [] m = []
and_bytes (a ∷ ip) [] = []
and_bytes (a ∷ ip) (b ∷ m) = bit_and a b ∷ and_bytes ip m

unfoldable pub mask_same : Bytes → Bytes → Bytes
unfolding and_bytes
mask_same ip mask = if length ip == length mask then and_bytes ip mask else []

-- `IP.Mask` at a mask of four bytes; nil is the empty list.
unfoldable pub ip_mask : Bytes → Bytes → Bytes
unfolding mask_same
ip_mask ip mask =
    if length mask == 4 && (length ip == 16 && bytes_eq (take 12 ip) v4_in_v6_prefix)
    then mask_same (drop 12 ip) mask
    else mask_same ip mask

-- `IP.Equal`: the two forms of an IPv4 address are equal, and so are two nils.
unfoldable pub ip_equal : Bytes → Bytes → Bool
ip_equal ip x =
    if length ip == length x
    then bytes_eq ip x
    else if length ip == 4 && length x == 16
    then bytes_eq (take 12 x) v4_in_v6_prefix && bytes_eq ip (drop 12 x)
    else if length ip == 16 && length x == 4
    then bytes_eq (take 12 ip) v4_in_v6_prefix && bytes_eq (drop 12 ip) x
    else false

-- Whether a byte stands in a text.
abbrev pub has_byte : ℕ → Bytes → Bool
has_byte b s = elim (index_byte b s) [ none ↦ false | some i ↦ true ]

-- `net.JoinHostPort`.
unfoldable pub join_host_port : Bytes → Bytes → Bytes
join_host_port host port =
    if has_byte b':' host then b'[' ∷ (host ++ b']' ∷ b':' ∷ port) else host ++ b':' ∷ port

-- The last checks of `net.SplitHostPort`.
no_brackets : Bytes → ℕ → ℕ → Bytes → Bytes → Option (Bytes × Bytes)
no_brackets hostport j k host port =
    if has_byte b'[' (drop j hostport)
    then none
    else if has_byte b']' (drop k hostport)
    then none
    else some (host, port)

split_bracketed : Bytes → ℕ → Option ℕ → Option (Bytes × Bytes)
unfolding no_brackets
split_bracketed hostport i none = none
split_bracketed hostport i (some end) =
    if end + 1 == i
    then no_brackets hostport 1 (end + 1) (take (end - 1) (drop 1 hostport)) (drop (i + 1) hostport)
    else none

split_plain : Bytes → ℕ → Option (Bytes × Bytes)
unfolding no_brackets
split_plain hostport i =
    if has_byte b':' (take i hostport)
    then none
    else no_brackets hostport 0 0 (take i hostport) (drop (i + 1) hostport)

-- `net.SplitHostPort`: `none` for its error.
unfoldable pub split_host_port : Bytes → Option (Bytes × Bytes)
unfolding split_bracketed split_plain
split_host_port hostport = elim (last_index b':' hostport) [
  | none ↦ none
  | some i ↦
      if get_or hostport 0 0 == b'['
      then split_bracketed hostport i (index_byte b']' hostport)
      else split_plain hostport i
]
