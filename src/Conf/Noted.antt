-- ===== src/Conf/Noted.antt =====
-- What LoadNetworkStatus (types/conf.go) reports of a result.
use multus_ext_cni.Prelude.{
  ◌≡◌, refl, ap, ◌∙◌, sym, Bool, true, false, not, ◌||◌, List, [], ◌∷◌, ◌++◌, append_assoc,
  append-nil, map, Option, none, some, if◌then◌else◌, Text, codes, text_eq_iff, is_empty, arith,
  Bool-cases, inl, inr,
}
use multus_ext_cni.Conf.Status.{
  Interface, IpConfig, Dns, PluginResult, NetworkStatus, note_interfaces, is_v4, is_v6, Converter,
  note_ips, load_network_status,
}

-- The specification: the last interface that has a sandbox,
abbrev pub last_in_sandbox : List Interface → Option Interface
last_in_sandbox [] = none
last_in_sandbox (i ∷ is) =
    let later = last_in_sandbox is in
    elim later [ some j ↦ some j | none ↦ if is_empty i.sandbox then none else some i ]

abbrev pub name_of : Option Interface → Text
name_of none = []
name_of (some i) = i.name

abbrev pub mac_of : Option Interface → Text
mac_of none = []
mac_of (some i) = i.mac

-- and the addresses of version 4 that are IPv4 addresses, and those of version 6.
abbrev pub listed : List IpConfig → List IpConfig
listed [] = []
listed (c ∷ cs) = let rest = listed cs in if is_v4 c || is_v6 c then c ∷ rest else rest

abbrev noted : Option Interface → NetworkStatus → NetworkStatus
noted none status = status
noted (some i) status = record status { interface = i.name; mac = i.mac }

noted-cons :
    (later : Option Interface) (i : Interface) (status : NetworkStatus)
    → noted later (
        if not (is_empty i.sandbox)
        then record status { interface = i.name; mac = i.mac }
        else status)
      ≡ noted
          (elim later [ some j ↦ some j | none ↦ if is_empty i.sandbox then none else some i ])
          status
noted-cons (some j) i status = elim (Bool-cases (is_empty i.sandbox)) [
  | inl is ↦ rw is refl
  | inr is ↦ rw is refl
]
noted-cons none i status = elim (Bool-cases (is_empty i.sandbox)) [
  | inl is ↦ rw is refl
  | inr is ↦ rw is refl
]

note_interfaces-last :
    (is : List Interface) (status : NetworkStatus)
    → note_interfaces is status ≡ noted (last_in_sandbox is) status
unfolding note_interfaces
note_interfaces-last [] status = refl
note_interfaces-last (i ∷ is) status =
    let next =
      if not (is_empty i.sandbox)
      then record status { interface = i.name; mac = i.mac }
      else status in
    note_interfaces-last is next ∙ noted-cons (last_in_sandbox is) i status

v4-not_v6 : (c : IpConfig) → is_v4 c ≡ true → is_v6 c ≡ false
unfolding is_v4 is_v6
v4-not_v6 c h = ground (arith, text_eq_iff c.version (codes "4"), text_eq_iff c.version (codes "6"))

abbrev with_ips : NetworkStatus → List Text → NetworkStatus
with_ips status ts = record status { ips = status.ips ++ ts }

with_ips-nil : (status : NetworkStatus) → with_ips status [] ≡ status
with_ips-nil status = ap (λ l. record status { ips = l }) (append-nil status.ips)

with_ips-append :
    (status : NetworkStatus) (a b : List Text)
    → with_ips (with_ips status a) b ≡ with_ips status (a ++ b)
with_ips-append status a b = ap (λ l. record status { ips = l }) (append_assoc status.ips a b)

abbrev empty_status : Text → Bool → NetworkStatus
empty_status name default = record {
  name = name;
  interface = [];
  ips = [];
  mac = [];
  default = default;
  dns = record { nameservers = []; domain = []; search = []; options = [] };
}

noted-empty :
    (last : Option Interface) (name : Text) (default : Bool) (ts : List Text) (dns : Dns)
    → record (with_ips (noted last (empty_status name default)) ts) { dns = dns } ≡ record {
      name = name;
      interface = name_of last;
      ips = ts;
      mac = mac_of last;
      default = default;
      dns = dns;
    }
noted-empty none name default ts dns = refl
noted-empty (some i) name default ts dns = refl

module _ {R : Type 0} (converter : Converter R) where
  abbrev text_of : IpConfig → Text
  text_of c = converter.ip_to_string c.ip

  abbrev one : IpConfig → List Text
  one c = if is_v4 c || is_v6 c then text_of c ∷ [] else []

  note_ips-cons :
      (c : IpConfig) (cs : List IpConfig) (status : NetworkStatus)
      → note_ips converter (c ∷ cs) status ≡ note_ips converter cs (with_ips status (one c))
  unfolding note_ips
  note_ips-cons c cs status = elim (Bool-cases (is_v4 c)) [
    | inl v4 ↦ let no_v6 = v4-not_v6 c v4 in rw v4 (rw no_v6 refl)
    | inr no_v4 ↦ elim (Bool-cases (is_v6 c)) [
      | inl v6 ↦ rw no_v4 (rw v6 refl)
      | inr no_v6 ↦ rw no_v4 (rw no_v6 (ap (note_ips converter cs) (sym (with_ips-nil status))))
    ]
  ]

  map-listed :
      (c : IpConfig) (cs : List IpConfig)
      → map text_of (listed (c ∷ cs)) ≡ one c ++ map text_of (listed cs)
  map-listed c cs = elim (Bool-cases (is_v4 c || is_v6 c)) [
    | inl is ↦ rw is refl
    | inr is ↦ rw is refl
  ]

  note_ips-listed :
      (cs : List IpConfig) (status : NetworkStatus)
      → note_ips converter cs status ≡ with_ips status (map text_of (listed cs))
  unfolding note_ips
  note_ips-listed [] status = sym (with_ips-nil status)
  note_ips-listed (c ∷ cs) status =
      note_ips-cons c cs status
      ∙ note_ips-listed cs (with_ips status (one c))
      ∙ with_ips-append status (one c) (map text_of (listed cs))
      ∙ ap (with_ips status) (sym (map-listed c cs))

  -- On a result that is converted to the current version, LoadNetworkStatus reports the name and
  -- MAC address of the last interface that has a sandbox, empty where there is none, and in order
  -- the texts of the addresses of version 4 that are IPv4 addresses and of those of version 6,
  -- with the given name and default and the DNS of the result.
  pub load_network_status-reports :
      (r : R) (name : Text) (default : Bool) (result : PluginResult)
      → converter.new_result_from_result r ≡ some result
      → let last = last_in_sandbox result.interfaces in
        load_network_status converter r name default
        ≡ some (record {
          name = name;
          interface = name_of last;
          ips = map (λ c. converter.ip_to_string c.ip) (listed result.ips);
          mac = mac_of last;
          default = default;
          dns = result.dns;
        })
  unfolding load_network_status
  load_network_status-reports r name default result h =
      let last = last_in_sandbox result.interfaces in
      let start = empty_status name default in
      let filled =
        ap (note_ips converter result.ips) (note_interfaces-last result.interfaces start)
        ∙ note_ips-listed result.ips (noted last start) in
      rw (load_network_status, h)
        (ap (λ (x : NetworkStatus). some (record x { dns = result.dns })) filled
          ∙ ap some (noted-empty last name default (map text_of (listed result.ips)) result.dns))
