-- ===== src/Auth/Clients.antt =====
-- auth.go: which clients the allowed networks match.
use cow.Base.{
  ◌≡◌, refl, ap, subst, ◌∙◌, inl, inr, true, false, some, List, [], ◌∷◌, ◌++◌, arith, Bool-cases,
  Option-cases, eq_of_some, length, take, Bytes, bytes_eq,
}
use cow.Std.Net.{IpText, ip_mask, ip_equal, mask_same, v4_in_v6_prefix}
use cow.Auth.{NetAddr, AuthState, ip_allowed, with_mask, auth_ip}

-- A 16-byte address that is not an IPv4 address in its 16-byte form.
abbrev pub IsV6 : Bytes → Type 0
IsV6 ip = (length ip ≡ 16) × (bytes_eq (take 12 ip) v4_in_v6_prefix ≡ false)

-- The masks of `NewNbitIPv4Mask` have four bytes: they mask an IPv6 address to nil.
ip_mask_v6 : (ip mask : Bytes) → IsV6 ip → length mask ≡ 4 → ip_mask ip mask ≡ []
unfolding ip_mask mask_same
ip_mask_v6 ip mask v m = ground arith

ip_allowed_here :
    (ip : Bytes) (before : List NetAddr) (na : NetAddr) (after : List NetAddr)
    → ip_equal (ip_mask ip na.mask) na.ip ≡ true
    → ip_allowed ip (before ++ na ∷ after) ≡ true
unfolding ip_allowed
ip_allowed_here ip [] na after e = rw e
ip_allowed_here ip (b ∷ before) na after e = elim (Bool-cases (ip_equal (ip_mask ip b.mask) b.ip)) [
  | inl y ↦ rw y
  | inr n ↦ rw n (ip_allowed_here ip before na after e)
]

-- An entry of the list of allowed clients is the client's address under the entry's mask.
pub record IsAdmitted (t : IpText) (a : AuthState) (client_ip : Bytes) : Type 0 where
  pub ip : Bytes
  pub parsed : t.parse_ip client_ip ≡ some ip
  pub before : List NetAddr
  pub entry : NetAddr
  pub after : List NetAddr
  pub listed : a.allowed_client ≡ before ++ entry ∷ after
  pub matches : ip_equal (ip_mask ip entry.mask) entry.ip ≡ true

allowed_entry :
    (ip : Bytes) (l : List NetAddr)
    → ip_allowed ip l ≡ true
    → (before : List NetAddr) × (entry : NetAddr) × (after : List NetAddr) × (l
        ≡ before ++ entry ∷ after)
      × (ip_equal (ip_mask ip entry.mask) entry.ip ≡ true)
unfolding ip_allowed
allowed_entry ip [] e = absurd (cc e)
allowed_entry ip (na ∷ l) e = elim (Bool-cases (ip_equal (ip_mask ip na.mask) na.ip)) [
  | inl y ↦ ([], na, l, refl, y)
  | inr n ↦
      let (before, entry, after, f, m) = allowed_entry ip l (rw (n, ip_allowed) at e) in
      (na ∷ before, entry, after, ap (λ k. na ∷ k) f, m)
]

pub auth_ip-IsAdmitted :
    (t : IpText) (a : AuthState) (client_ip : Bytes)
    → auth_ip t a client_ip ≡ some true
    → IsAdmitted t a client_ip
unfolding auth_ip
auth_ip-IsAdmitted t a client_ip e = elim (Option-cases (t.parse_ip client_ip)) [
  | inl f ↦ absurd (cc (rw (f, auth_ip) at e))
  | inr (ip, f) ↦
      let (before, entry, after, g, m) =
        allowed_entry ip a.allowed_client (eq_of_some (rw (f, auth_ip) at e)) in
      record {
        ip = ip;
        parsed = f;
        before = before;
        entry = entry;
        after = after;
        listed = g;
        matches = m;
      }
]

-- Once the list of allowed clients has an entry for an IPv6 address, with any number of mask bits,
-- `authIP` accepts every client with an IPv6 address, whatever the two addresses are.
pub auth_ip_any_v6 :
    (t : IpText) (a : AuthState) (client_ip ip allowed mask : Bytes) (na : NetAddr)
    (before after : List NetAddr)
    → t.parse_ip client_ip ≡ some ip
    → IsV6 ip
    → IsV6 allowed
    → length mask ≡ 4
    → with_mask allowed (some mask) ≡ some na
    → a.allowed_client ≡ before ++ na ∷ after
    → auth_ip t a client_ip ≡ some true
unfolding auth_ip with_mask ip_equal bytes_eq
auth_ip_any_v6 t a client_ip ip allowed mask na before after p v w m e l =
    rw (p, auth_ip) (ap some (ap (ip_allowed ip) l ∙ ip_allowed_here ip before na after matches))
  where
    made : NetAddr
    made = record { ip = ip_mask allowed mask; mask = mask }

    same : made ≡ na
    same = eq_of_some e

    matches : ip_equal (ip_mask ip na.mask) na.ip ≡ true
    matches =
        subst (λ (x : NetAddr). ip_equal (ip_mask ip x.mask) x.ip ≡ true) same
          (rw (ip_mask_v6 ip mask v m, ip_mask_v6 allowed mask w m) refl)
