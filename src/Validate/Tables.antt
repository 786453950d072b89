-- ===== src/Validate/Tables.antt =====
-- `validator` (internal/model/validate.go): the names that the checks refer to, and the checks of names
-- and references. A message is its format, without the arguments.
use nfvis.Prelude.{
  ℕ, String, ◌+++◌, Bool, false, not, ◌&&◌, ◌||◌, Option, none, some, List, [], ◌∷◌, ◌++◌, any, leb,
  str_eq, if◌then◌else◌,
}
use nfvis.Model.{
  Config, Acl, Bond, ContainerFunction, InterfaceConfig, QosPolicy, VmFunction, VnfInterface, Vrf,
  ValidateError, other,
}

-- The functions of other code: `nameRe` and `portSpecRe`, `net.ParseCIDR`, `net.ParseIP`, the
-- trimmed texts on both sides of the first ` to `,
-- `strconv.Itoa`, the part before the first dot, and the names of ports (ifacename.go).
pub record Texts : Type 0 where
  pub name_matches : String → Bool
  pub port_matches : String → Bool
  pub is_cidr : String → Bool
  pub is_ip : String → Bool
  pub cut_to : String → Option (String × String)
  pub show : ℕ → String
  pub before_dot : String → Option String
  pub vnf_name : String → String → String
  pub memif_name : String → String → String

-- `errf`.
abbrev pub errf : String → String → List ValidateError
errf path format = record { path = path; message = other format } ∷ []

abbrev pub error_if : Bool → String → String → List ValidateError
error_if b path format = if b then errf path format else []

-- The errors of one check after the other.
abbrev pub all_of : List (List ValidateError) → List ValidateError
all_of [] = []
all_of (e ∷ es) = e ++ all_of es

-- A name is in a map that `collect` fills.
abbrev pub is_name : {T : Type 0} → (T → String) → List T → String → Bool
is_name name xs n = any (λ x. str_eq (name x) n) xs

abbrev pub mem_str : String → List String → Bool
mem_str n [] = false
mem_str n (m ∷ ms) = str_eq m n || mem_str n ms

unfoldable pub is_iface : Config → String → Bool
unfolding any
is_iface c = is_name (λ (i : InterfaceConfig). i.name) c.interfaces

unfoldable pub is_vrf : Config → String → Bool
unfolding any
is_vrf c = is_name (λ (r : Vrf). r.name) c.vrfs

unfoldable pub is_acl : Config → String → Bool
unfolding any
is_acl c = is_name (λ (a : Acl). a.name) c.acls

unfoldable pub is_qos : Config → String → Bool
unfolding any
is_qos c = is_name (λ (q : QosPolicy). q.name) c.qos_policies

-- `anyIface`.
unfoldable pub any_iface : Config → String → Bool
unfolding is_iface any
any_iface c n = is_iface c n || is_name (λ (b : Bond). b.name) c.bonds n

-- `vmVnics` and `ctVnics`.
unfoldable pub is_vm_vnic : Config → String → Bool
unfolding any
is_vm_vnic c key =
    any
      (λ (m : VmFunction).
        any (λ (nic : VnfInterface). str_eq (m.name +++ "/" +++ nic.name) key) m.interfaces)
      c.virtual_machine_functions

unfoldable pub is_ct_vnic : Config → String → Bool
unfolding any
is_ct_vnic c key =
    any
      (λ (m : ContainerFunction).
        any (λ (nic : VnfInterface). str_eq (m.name +++ "/" +++ nic.name) key) m.interfaces)
      c.container_functions

-- `checkVlan`.
abbrev pub check_vlan : ℕ → Bool
check_vlan n = leb 1 n && leb n 4094

-- `checkACLRef`.
unfoldable pub check_acl_ref : Config → String → String → List ValidateError
unfolding is_acl
check_acl_ref c path acl = error_if (not (str_eq acl "") && not (is_acl c acl)) path "ACL %q 不存在"

-- `dupCheck`, with the names seen so far.
unfoldable pub dup_from :
    {T : Type 0} → (T → String) → String → String → List String → List T → List ValidateError
dup_from name base what seen [] = []
dup_from name base what seen (x ∷ xs) =
    error_if (mem_str (name x) seen) (base +++ "[" +++ name x +++ "]") (what +++ " %q 重复定义")
    ++ dup_from name base what (name x ∷ seen) xs

abbrev pub dup_check : {T : Type 0} → (T → String) → String → String → List T → List ValidateError
dup_check name base what xs = dup_from name base what [] xs

module _ (texts : Texts) where
  -- `vnicNames`.
  unfoldable pub is_vnic_name : Config → String → Bool
  unfolding any
  is_vnic_name c n =
      any
        (λ (m : VmFunction).
          any
            (λ (nic : VnfInterface).
              str_eq nic.type "vhost-user" && str_eq (texts.vnf_name m.name nic.name) n)
            m.interfaces)
        c.virtual_machine_functions
      || any
          (λ (m : ContainerFunction).
            any
              (λ (nic : VnfInterface).
                str_eq nic.type "memif" && str_eq (texts.memif_name m.name nic.name) n)
              m.interfaces)
          c.container_functions

  abbrev parent_exists : Config → Option String → Bool
  parent_exists c none = false
  parent_exists c (some p) = any_iface c p

  -- `l3IfaceExists`.
  unfoldable pub l3_iface_exists : Config → String → Bool
  unfolding any_iface is_vnic_name
  l3_iface_exists c n = (any_iface c n || is_vnic_name c n) || parent_exists c (texts.before_dot n)

  -- `checkName`, and what is checked only under a good name.
  abbrev pub under_name : String → String → String → List ValidateError → List ValidateError
  under_name path name what rest =
      if str_eq name ""
      then errf path (what +++ "名称缺失")
      else if not (texts.name_matches name)
      then errf path (what +++ "名称 %q 不合法（字母数字-_.，≤64 字符）")
      else rest
