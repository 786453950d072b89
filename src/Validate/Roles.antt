-- ===== src/Validate/Roles.antt =====
-- The ports that a configuration uses, and what the check of roles says of them.
use nfvis.Prelude.{
  ℕ, suc, String, Bool, true, false, not, ◌&&◌, ◌||◌, List, [], ◌∷◌, ◌++◌, ◌≡◌, str_eq, map, any,
  flat_map, if◌then◌else◌, Bool-cases, refl, inl, inr, sym, ap, subst, ◌∙◌, arith,
}
use nfvis.Model.{Config, Bond, L3Interface, PortMirroring, VirtualSwitch, VswitchPort, Vrf}
use nfvis.Orchestrator.Steps.{has_name}
use nfvis.Orchestrator.Planned.Names.{IsUnique}
use nfvis.Validate.Tables.{Texts, errf, mem_str, dup_from, is_iface, any_iface, l3_iface_exists}
use nfvis.Validate.Ports.{
  RoleClaim, conflict, counted, claim_all, each, bond_claims, switch_claims, vrf_claims,
  mirror_claims, role_claims, check_port_role_exclusivity,
}
use nfvis.Validate.Duplicates.{dup_from-IsUnique}

abbrev claim_name : RoleClaim → String
claim_name k = k.name

module _ (seen : List String) (k : RoleClaim) (ks : List RoleClaim) where
  claim_all-passed :
      (not (str_eq k.name "") && k.exists) ≡ false → claim_all seen (k ∷ ks) ≡ claim_all seen ks
  unfolding claim_all
  claim_all-passed b = rw b refl

  claim_all-new :
      (not (str_eq k.name "") && k.exists) ≡ true
      → mem_str k.name seen ≡ false
      → claim_all seen (k ∷ ks) ≡ claim_all (k.name ∷ seen) ks
  unfolding claim_all
  claim_all-new b t = rw b (rw t refl)

  claim_all-taken :
      (not (str_eq k.name "") && k.exists) ≡ true
      → mem_str k.name seen ≡ true
      → claim_all seen (k ∷ ks) ≡ errf k.path conflict ++ claim_all seen ks
  unfolding claim_all
  claim_all-taken b t = rw b (rw t refl)

claim_all-counted :
    (seen : List String) (ks : List RoleClaim)
    → claim_all seen ks ≡ []
    → dup_from claim_name "" "" seen (counted ks) ≡ []
unfolding claim_all counted dup_from
claim_all-counted seen [] h = refl
claim_all-counted seen (k ∷ ks) h = elim (Bool-cases (not (str_eq k.name "") && k.exists)) [
  | inl b ↦ elim (Bool-cases (mem_str k.name seen)) [
    | inl t ↦ cc (sym (claim_all-taken seen k ks b t) ∙ h)
    | inr t ↦
        rw b (rw t (claim_all-counted (k.name ∷ seen) ks (sym (claim_all-new seen k ks b t) ∙ h)))
  ]
  | inr b ↦ rw b (claim_all-counted seen ks (sym (claim_all-passed seen k ks b) ∙ h))
]

-- The names of `ns` that are given and stand for a port.
abbrev present : (String → Bool) → List String → List String
present f [] = []
present f (n ∷ ns) = let rest = present f ns in if not (str_eq n "") && f n then n ∷ rest else rest

module _ (texts : Texts) (c : Config) where
  abbrev bond_ports : Bond → List String
  bond_ports b = present (is_iface c) b.members

  abbrev switch_ports : VirtualSwitch → List String
  switch_ports s = present (any_iface c) (map (λ (q : VswitchPort). q.interface) s.ports)

  abbrev table_ports : Vrf → List String
  table_ports r =
      present (l3_iface_exists texts c) (map (λ (l : L3Interface). l.interface) r.l3_interfaces)

  abbrev mirror_ports : PortMirroring → List String
  mirror_ports m =
      present (any_iface c) (m.source.interface ∷ []) ++ present (is_iface c) (m.analyzer ∷ [])

  -- The ports that a configuration uses and that are there, one entry for each use: by a bond, a
  -- switch, a routing table, and as the source or the analyzer of a mirror.
  abbrev pub used_ports : List String
  used_ports =
      flat_map bond_ports c.bonds
      ++ flat_map switch_ports c.virtual_switches
      ++ flat_map table_ports c.vrfs
      ++ flat_map mirror_ports c.port_mirroring

abbrev names : List RoleClaim → List String
names ks = map claim_name (counted ks)

names-cons :
    (k : RoleClaim) (ks : List RoleClaim)
    → names (k ∷ ks) ≡ (if not (str_eq k.name "") && k.exists then k.name ∷ names ks else names ks)
unfolding counted
names-cons k ks = ground arith

names-append : (ks ls : List RoleClaim) → names (ks ++ ls) ≡ names ks ++ names ls
unfolding counted
names-append [] ls = refl
names-append (k ∷ ks) ls = elim (Bool-cases (not (str_eq k.name "") && k.exists)) [
  | inl b ↦ rw b (ap (λ l. k.name ∷ l) (names-append ks ls))
  | inr b ↦ rw b (names-append ks ls)
]

names-flat_map :
    {A : Type 0} (f : A → List RoleClaim) (g : A → List String)
    → ((x : A) → names (f x) ≡ g x)
    → (xs : List A) → names (flat_map f xs) ≡ flat_map g xs
unfolding counted
names-flat_map f g e [] = refl
names-flat_map f g e (x ∷ xs) =
    names-append (f x) (flat_map f xs)
    ∙ ap (λ l. l ++ names (flat_map f xs)) (e x)
    ∙ ap (λ l. g x ++ l) (names-flat_map f g e xs)

-- One claim for each element of a list.
names-each :
    {A : Type 0} (f : ℕ → A → RoleClaim) (n : A → String) (here : String → Bool)
    → ((i : ℕ) (x : A) → (f i x).name ≡ n x)
    → ((i : ℕ) (x : A) → (f i x).exists ≡ here (n x))
    → (i : ℕ) (xs : List A) → names (each (λ j x. f j x ∷ []) i xs) ≡ present here (map n xs)
unfolding counted
names-each f n here p q i [] = refl
names-each f n here p q i (x ∷ xs) =
    names-cons (f i x) (each (λ j y. f j y ∷ []) (suc i) xs)
    ∙ rw (p i x, q i x, names-each f n here p q (suc i) xs) refl

names-loop :
    {A : Type 0} (f : A → RoleClaim) (n : A → String) (here : String → Bool)
    → ((x : A) → (f x).name ≡ n x)
    → ((x : A) → (f x).exists ≡ here (n x))
    → (xs : List A) → names (flat_map (λ x. f x ∷ []) xs) ≡ present here (map n xs)
unfolding counted
names-loop f n here p q [] = refl
names-loop f n here p q (x ∷ xs) =
    names-cons (f x) (flat_map (λ y. f y ∷ []) xs) ∙ rw (p x, q x, names-loop f n here p q xs) refl

has_name-map :
    {A : Type 0} (name : A → String) (n : String) (xs : List A)
    → has_name (λ m. m) n (map name xs) ≡ has_name name n xs
unfolding any
has_name-map name n [] = refl
has_name-map name n (x ∷ xs) = ap (λ b. str_eq (name x) n || b) (has_name-map name n xs)

map-IsUnique :
    {A : Type 0} (name : A → String) (xs : List A)
    → IsUnique name xs
    → IsUnique (λ m. m) (map name xs)
map-IsUnique name [] h = tt
map-IsUnique name (x ∷ xs) (e, h) = (has_name-map name (name x) xs ∙ e, map-IsUnique name xs h)

map-same : (ns : List String) → map (λ n. n) ns ≡ ns
map-same [] = refl
map-same (n ∷ ns) = ap (λ l. n ∷ l) (map-same ns)

ap2 : {A : Type 0} (f : A → A → A) {x y u v : A} → x ≡ y → u ≡ v → f x u ≡ f y v
ap2 f p q = rw (p, q) refl

module _ (texts : Texts) (c : Config) where
  bond_claims-names : (b : Bond) → names (bond_claims texts c b) ≡ bond_ports texts c b
  bond_claims-names b =
      names-each _ (λ m. m) (is_iface c) (λ i m. refl) (λ i m. refl) 0 b.members
      ∙ ap (present (is_iface c)) (map-same b.members)

  switch_claims-names :
      (s : VirtualSwitch) → names (switch_claims texts c s) ≡ switch_ports texts c s
  switch_claims-names s =
      names-loop _ (λ (q : VswitchPort). q.interface) (any_iface c) (λ q. refl) (λ q. refl) s.ports

  vrf_claims-names : (r : Vrf) → names (vrf_claims texts c r) ≡ table_ports texts c r
  vrf_claims-names r =
      names-loop _ (λ (l : L3Interface). l.interface) (l3_iface_exists texts c) (λ l. refl)
        (λ l. refl) r.l3_interfaces

  mirror_claims-names :
      (m : PortMirroring) → names (mirror_claims texts c m) ≡ mirror_ports texts c m
  unfolding counted
  mirror_claims-names m = ground arith

  role_claims-names : names (role_claims texts c) ≡ used_ports texts c
  role_claims-names =
      names-append _ (flat_map (mirror_claims texts c) c.port_mirroring)
      ∙ ap2 (λ k l. k ++ l)
          (names-append _ (flat_map (vrf_claims texts c) c.vrfs)
            ∙ ap2 (λ k l. k ++ l)
                (names-append _ (flat_map (switch_claims texts c) c.virtual_switches)
                  ∙ ap2 (λ k l. k ++ l)
                      (names-flat_map (bond_claims texts c) (bond_ports texts c) bond_claims-names
                        c.bonds)
                      (names-flat_map (switch_claims texts c) (switch_ports texts c)
                        switch_claims-names c.virtual_switches))
                (names-flat_map (vrf_claims texts c) (table_ports texts c) vrf_claims-names c.vrfs))
          (names-flat_map (mirror_claims texts c) (mirror_ports texts c) mirror_claims-names
            c.port_mirroring)

  pub check_port_role_exclusivity-IsUnique :
      check_port_role_exclusivity texts c ≡ [] → IsUnique (λ n. n) (used_ports texts c)
  unfolding check_port_role_exclusivity
  check_port_role_exclusivity-IsUnique h = subst (IsUnique (λ n. n)) role_claims-names (
      map-IsUnique claim_name (counted (role_claims texts c)) (
        dup_from-IsUnique claim_name "" "" [] (counted (role_claims texts c))
          (claim_all-counted [] (role_claims texts c) h)))
