-- ===== src/Util/Host/Suffix.antt =====
-- util.go: which labels of a host make the domain that `host2Domain` finds.
use cow.Base.{
  ℕ, suc, ◌+◌, ◌≡◌, refl, sym, ap, ap₂, subst, ◌∙◌, ◌≢◌, ◌⊎◌, inl, inr, true, false, none, some,
  List, [], ◌∷◌, ◌++◌, arith, ◌==◌, ==_iff, Bool-cases, Option-cases, eq_of_some, length, take,
  drop, any, All, take_at, Bytes, codes, bytes_eq, eq_of_bytes_eq, last_index,
}
use mathlib.Core.List.{append_assoc}
use cow.Util.Host.{
  host_is_ip, trim_last_dot, third_last, second_last, domain_below, domain_of_name, host2domain,
  top_level_domain,
}

-- One of the labels below which a country gives out domains.
pub data IsTopLevel (s : Bytes) : Type 0 where
  is_ac : s ≡ codes "ac" → IsTopLevel s
  is_co : s ≡ codes "co" → IsTopLevel s
  is_com : s ≡ codes "com" → IsTopLevel s
  is_edu : s ≡ codes "edu" → IsTopLevel s
  is_gov : s ≡ codes "gov" → IsTopLevel s
  is_net : s ≡ codes "net" → IsTopLevel s
  is_org : s ≡ codes "org" → IsTopLevel s

Among : Bytes → List Bytes → Type 0
Among s [] = ⊥
Among s (x ∷ l) = (s ≡ x) ⊎ Among s l

any-Among : (s : Bytes) (l : List Bytes) → any (bytes_eq s) l ≡ true → Among s l
unfolding Among
any-Among s [] e = absurd (cc e)
any-Among s (x ∷ l) e = elim (Bool-cases (bytes_eq s x)) [
  | inl y ↦ inl (eq_of_bytes_eq s x y)
  | inr n ↦ inr (any-Among s l (rw n at e))
]

abbrev top_level_labels : List Bytes
top_level_labels =
    codes "ac"
    ∷ codes "co"
    ∷ codes "com"
    ∷ codes "edu"
    ∷ codes "gov"
    ∷ codes "net"
    ∷ codes "org"
    ∷ []

top_level_domain-IsTopLevel : (s : Bytes) → top_level_domain s ≡ true → IsTopLevel s
unfolding top_level_domain Among
top_level_domain-IsTopLevel s e = elim (any-Among s top_level_labels e) [
  | inl a ↦ is_ac a
  | inr (inl a) ↦ is_co a
  | inr (inr (inl a)) ↦ is_com a
  | inr (inr (inr (inl a))) ↦ is_edu a
  | inr (inr (inr (inr (inl a)))) ↦ is_gov a
  | inr (inr (inr (inr (inr (inl a))))) ↦ is_net a
  | inr (inr (inr (inr (inr (inr (inl a)))))) ↦ is_org a
  | inr (inr (inr (inr (inr (inr (inr a)))))) ↦ elim a [ ]
]

IsTopLevel-true : (s : Bytes) → IsTopLevel s → top_level_domain s ≡ true
unfolding top_level_domain bytes_eq
IsTopLevel-true s (is_ac e) = ap top_level_domain e
IsTopLevel-true s (is_co e) = ap top_level_domain e
IsTopLevel-true s (is_com e) = ap top_level_domain e
IsTopLevel-true s (is_edu e) = ap top_level_domain e
IsTopLevel-true s (is_gov e) = ap top_level_domain e
IsTopLevel-true s (is_net e) = ap top_level_domain e
IsTopLevel-true s (is_org e) = ap top_level_domain e

not-IsTopLevel : (s : Bytes) → top_level_domain s ≡ false → ¬ IsTopLevel s
not-IsTopLevel s e t = absurd (cc (e, IsTopLevel-true s t))

-- No dot is among the bytes.
abbrev pub IsLabel : Bytes → Type 0
IsLabel s = All (λ x. x ≢ b'.') s

no_dot : (s : Bytes) → last_index b'.' s ≡ none → IsLabel s
unfolding last_index
no_dot [] e = tt
no_dot (x ∷ xs) e = elim (Option-cases (last_index b'.' xs)) [
  | inr (i, f) ↦ absurd (cc (rw (f, last_index) at e))
  | inl f ↦ elim (Bool-cases (x == b'.')) [
    | inl y ↦ absurd (cc (rw (f, last_index, y) at e))
    | inr n ↦ (ground arith, no_dot xs f)
  ]
]

-- A text around its last dot.
record IsCutAt (s : Bytes) (i : ℕ) : Type 0 where
  pub splits : s ≡ take i s ++ b'.' ∷ drop (i + 1) s
  pub label : IsLabel (drop (i + 1) s)
  pub size : length (take i s) ≡ i

drop_next : (k x : ℕ) (xs : Bytes) → drop (suc k + 1) (x ∷ xs) ≡ drop (k + 1) xs
drop_next k x xs = let e : suc k + 1 ≡ suc (k + 1) = omega arith in ap (λ j. drop j (x ∷ xs)) e

last_index-IsCutAt : (s : Bytes) (i : ℕ) → last_index b'.' s ≡ some i → IsCutAt s i
unfolding last_index
last_index-IsCutAt [] i e = absurd (cc e)
last_index-IsCutAt (x ∷ xs) i e = elim (Option-cases (last_index b'.' xs)) [
  | inr (k, f) ↦
      let rest = last_index-IsCutAt xs k f in
      subst (IsCutAt (x ∷ xs)) (eq_of_some (rw (f, last_index) at e)) (record {
        splits =
            ap (λ l. x ∷ l) rest.splits
            ∙ ap (λ l. x ∷ (take k xs ++ b'.' ∷ l)) (sym (drop_next k x xs));
        label = subst IsLabel (sym (drop_next k x xs)) rest.label;
        size = ap suc rest.size;
      })
  | inl f ↦ elim (Bool-cases (x == b'.')) [
    | inr n ↦ absurd (cc (rw (f, last_index, n) at e))
    | inl y ↦ subst (IsCutAt (x ∷ xs)) (eq_of_some (rw (f, last_index, y) at e)) (record {
      splits = ap (λ k. k ∷ xs) ((==_iff x b'.').0 y);
      label = no_dot xs f;
      size = refl;
    })
  ]
]

drop_behind : (p q : Bytes) (c : ℕ) → drop (length p + 1) (p ++ c ∷ q) ≡ q
drop_behind [] q c = refl
drop_behind (x ∷ p) q c = drop_next (length p) x (p ++ c ∷ q) ∙ drop_behind p q c

-- What stands behind a part of known length and a dot.
rest_behind : (s p q : Bytes) (i : ℕ) → s ≡ p ++ b'.' ∷ q → length p ≡ i → drop (i + 1) s ≡ q
rest_behind s p q i e l = ap₂ (λ j k. drop (j + 1) k) (sym l) e ∙ drop_behind p q b'.'

-- The domain of a name by its labels, the last ones being `b` and `c` with an `a` before them: it
-- is `b.c`, or `a.b.c` if `b` is one of these labels, or the whole name if it has no
-- more labels.
pub data DomainOfName (name d : Bytes) : Type 0 where
  one_label : IsLabel name → d ≡ [] → DomainOfName name d
  two_labels :
      (b c : Bytes) → IsLabel b → IsLabel c → name ≡ b ++ b'.' ∷ c → d ≡ name → DomainOfName name d
  below_two :
      (front b c : Bytes)
      → IsLabel b
      → IsLabel c
      → name ≡ front ++ b'.' ∷ (b ++ b'.' ∷ c)
      → (¬ IsTopLevel b)
      → d ≡ b ++ b'.' ∷ c
      → DomainOfName name d
  three_labels :
      (a b c : Bytes)
      → IsLabel a
      → IsLabel b
      → IsLabel c
      → name ≡ a ++ b'.' ∷ (b ++ b'.' ∷ c)
      → IsTopLevel b
      → d ≡ name
      → DomainOfName name d
  below_three :
      (front a b c : Bytes)
      → IsLabel a
      → IsLabel b
      → IsLabel c
      → name ≡ front ++ b'.' ∷ (a ++ b'.' ∷ (b ++ b'.' ∷ c))
      → IsTopLevel b
      → d ≡ a ++ b'.' ∷ (b ++ b'.' ∷ c)
      → DomainOfName name d

-- A name with the labels `b` and `c` at its end, and bytes in front of them.
module _ (name front b c : Bytes) (i : ℕ) (e : name ≡ front ++ b'.' ∷ (b ++ b'.' ∷ c))
    (l : length front ≡ i) (is_b : IsLabel b) (is_c : IsLabel c) where
  third_last-DomainOfName : IsTopLevel b → DomainOfName name (third_last name i)
  unfolding third_last
  third_last-DomainOfName t =
      let same : take i name ≡ front = take_at i name front (b'.' ∷ (b ++ b'.' ∷ c)) e l in
      elim (Option-cases (last_index b'.' front)) [
        | inl f ↦
            rw (same, third_last, f) (three_labels front b c (no_dot front f) is_b is_c e t refl)
        | inr (j, f) ↦
            let cut = last_index-IsCutAt front j f in
            let a : Bytes = drop (j + 1) front in
            let whole : name ≡ take j front ++ b'.' ∷ (a ++ b'.' ∷ (b ++ b'.' ∷ c)) =
              e
              ∙ ap (λ k. k ++ b'.' ∷ (b ++ b'.' ∷ c)) cut.splits
              ∙ append_assoc (take j front) (b'.' ∷ a) (b'.' ∷ (b ++ b'.' ∷ c)) in
            rw (same, third_last, f)
              (below_three (take j front) a b c cut.label is_b is_c whole t
                (rest_behind name (take j front) (a ++ b'.' ∷ (b ++ b'.' ∷ c)) j whole cut.size))
      ]

  second_last-DomainOfName :
      (k : ℕ) → drop (i + 1) (take k name) ≡ b → DomainOfName name (second_last name k i)
  unfolding second_last
  second_last-DomainOfName k f = elim (Bool-cases (top_level_domain b)) [
    | inl t ↦ rw (f, second_last, t) (third_last-DomainOfName (top_level_domain-IsTopLevel b t))
    | inr t ↦
        rw (f, second_last, t)
          (below_two front b c is_b is_c e (not-IsTopLevel b t)
            (rest_behind name front (b ++ b'.' ∷ c) i e l))
  ]

domain_below-DomainOfName :
    (name : Bytes) (k : ℕ) → last_index b'.' name ≡ some k → DomainOfName name (domain_below name k)
unfolding domain_below
domain_below-DomainOfName name k e =
    let cut = last_index-IsCutAt name k e in
    let c : Bytes = drop (k + 1) name in
    elim (Option-cases (last_index b'.' (take k name))) [
      | inl f ↦
          rw (f, domain_below)
            (two_labels (take k name) c (no_dot (take k name) f) cut.label cut.splits refl)
      | inr (i, f) ↦
          let cut' = last_index-IsCutAt (take k name) i f in
          let front : Bytes = take i (take k name) in
          let b : Bytes = drop (i + 1) (take k name) in
          let whole : name ≡ front ++ b'.' ∷ (b ++ b'.' ∷ c) =
            cut.splits
            ∙ ap (λ t. t ++ b'.' ∷ c) cut'.splits
            ∙ append_assoc front (b'.' ∷ b) (b'.' ∷ c) in
          rw (f, domain_below)
            (second_last-DomainOfName name front b c i whole cut'.size cut'.label cut.label k refl)
    ]

pub data DomainOf (host d : Bytes) : Type 0 where
  private_ip : (host_is_ip host).1 ≡ true → d ≡ [] → DomainOf host d
  public_ip : (host_is_ip host).0 ≡ true → (host_is_ip host).1 ≡ false → d ≡ host → DomainOf host d
  named : (host_is_ip host).0 ≡ false → DomainOfName (trim_last_dot host) d → DomainOf host d

domain_of_name-DomainOfName : (name : Bytes) → DomainOfName name (domain_of_name name)
unfolding domain_of_name
domain_of_name-DomainOfName name = elim (Option-cases (last_index b'.' name)) [
  | inl e ↦ rw (e, domain_of_name) (one_label (no_dot name e) refl)
  | inr (k, e) ↦ rw (e, domain_of_name) (domain_below-DomainOfName name k e)
]

-- `host2Domain` gives no domain to a private IPv4 address or to a name with no dot (one at its
-- end aside), and a public address itself. Of any other name it gives the last two labels, or the
-- last three if the second last is ac, co, com, edu, gov, net or org; a name of two labels, or of three
-- with such a second last one, is its own domain.
pub host2domain-DomainOf : (host : Bytes) → DomainOf host (host2domain host)
unfolding host2domain
host2domain-DomainOf host = elim (Bool-cases (host_is_ip host).1) [
  | inl e ↦ private_ip e (rw e)
  | inr e ↦ elim (Bool-cases (host_is_ip host).0) [
    | inl f ↦ public_ip f e (rw (e, f))
    | inr f ↦ named f (rw (e, f) (domain_of_name-DomainOfName (trim_last_dot host)))
  ]
]
