-- ===== src/Kube/Handout.antt =====
-- The devices of a pod, handed out to its networks in order: getKubernetesDelegate and
-- GetNetworkDelegates of k8sclient/k8sclient.go against the list of the earlier requests.
use Prim.Native.Nat.{min}
use multus_ext_cni.Prelude.{
  ℕ, ◌⊎◌, zero, suc, ◌+◌, ◌≤◌, ◌<◌, ◌≡◌, refl, sym, ◌∙◌, ap, List, [], ◌∷◌, Option, none, some,
  if◌then◌else◌, Text, text_eq, text_eq_iff, get_elem?, get_elem?-some, length, ltb, ltb→lt, arith,
  Bool-cases, inl, inr,
}
use multus_ext_cni.Devices.{ResourceMap, find}
use multus_ext_cni.Kube.Attachments.{ResourceInfo, InfoMap, infos, next_device}

-- The specification: the device at a position in the list of the resource, or the empty string.
abbrev pub device_at : ℕ → Option (List Text) → Text
device_at n none = []
device_at n (some ids) = elim (get_elem? ids n) [ none ↦ [] | some id ↦ id ]

-- How often a resource was asked for.
abbrev pub requests : Text → List Text → ℕ
requests k [] = 0
requests k (e ∷ es) = requests k es + (if text_eq e k then 1 else 0)

abbrev pub and_wanted : Option Text → List Text → List Text
and_wanted none earlier = earlier
and_wanted (some k) earlier = k ∷ earlier

-- The implementation's map at a resource
unfoldable pub find_info : Text → InfoMap → Option ResourceInfo
find_info k [] = none
find_info k ((key, info) ∷ m) = if text_eq key k then some info else find_info k m

abbrev pub info_at : ℕ → Option (List Text) → Option ResourceInfo
info_at n none = none
info_at n (some ids) = some (record { index = min n (length ids); device_ids = ids })

abbrev device_of : Option ResourceInfo → Text
device_of none = []
device_of (some info) = elim (get_elem? info.device_ids info.index) [ none ↦ [] | some id ↦ id ]

abbrev advance : Option ResourceInfo → Option ResourceInfo
advance none = none
advance (some info) = elim (get_elem? info.device_ids info.index) [
  | none ↦ some info
  | some _ ↦ some (record info { index = info.index + 1 })
]

min-zero : (ids : List Text) → 0 ≡ min 0 (length ids)
min-zero ids = omega arith

find_info-infos : (k : Text) (m : ResourceMap) → find_info k (infos m) ≡ info_at 0 (find k m)
unfolding find_info find
find_info-infos k [] = refl
find_info-infos k ((key, ids) ∷ m) = elim (Bool-cases (text_eq key k)) [
  | inl same ↦ rw same (ap (λ i. some (record { index = i; device_ids = ids })) (min-zero ids))
  | inr other ↦ rw other (find_info-infos k m)
]

next_device-device : (k : Text) (m : InfoMap) → (next_device k m).0 ≡ device_of (find_info k m)
unfolding find_info next_device
next_device-device k [] = refl
next_device-device k ((key, info) ∷ m) = ground (arith, next_device-device k m)

find_info-next_device :
    (k l : Text) (m : InfoMap)
    → find_info l (next_device k m).1
      ≡ (if text_eq k l then advance (find_info l m) else find_info l m)
unfolding find_info next_device
find_info-next_device k l [] = ground arith
find_info-next_device k l ((key, info) ∷ m) =
    ground
      (arith, find_info-next_device k l m, text_eq_iff k l, text_eq_iff key l, text_eq_iff key k)

get_elem?-none : (ids : List Text) (n : ℕ) → length ids ≤ n → get_elem? ids n ≡ none
get_elem?-none [] n h = refl
get_elem?-none (x ∷ ids) zero h = absurd (omega arith)
get_elem?-none (x ∷ ids) (suc n) h = get_elem?-none ids n (omega arith)

-- Beyond the end the index stays at the end.
end-cases :
    (ids : List Text) (n : ℕ)
    → ((n < length ids) × (min n (length ids) ≡ n))
      ⊎ ((length ids ≤ n) × (min n (length ids) ≡ length ids))
end-cases ids n = elim (Bool-cases (ltb n (length ids))) [
  | inl before ↦ inl (ground arith, omega (arith, ltb→lt n (length ids) before))
  | inr behind ↦ inr (ground arith, ground arith)
]

get_elem?-min : (ids : List Text) (n : ℕ) → get_elem? ids (min n (length ids)) ≡ get_elem? ids n
get_elem?-min ids n = elim (end-cases ids n) [
  | inl (before, is) ↦ ap (get_elem? ids) is
  | inr (behind, is) ↦
      ap (get_elem? ids) is
      ∙ get_elem?-none ids (length ids) (omega arith)
      ∙ sym (get_elem?-none ids n behind)
]

device_of-info_at : (n : ℕ) (o : Option (List Text)) → device_of (info_at n o) ≡ device_at n o
device_of-info_at n none = refl
device_of-info_at n (some ids) = ap (λ x. elim x [ none ↦ [] | some id ↦ id ]) (get_elem?-min ids n)

advance-info_at : (n : ℕ) (o : Option (List Text)) → advance (info_at n o) ≡ info_at (n + 1) o
advance-info_at n none = refl
advance-info_at n (some ids) = elim (end-cases ids n) [
  | inl (before, is) ↦
      let (x, there) = get_elem?-some ids n before in ground (arith, get_elem?-min ids n, there)
  | inr (behind, is) ↦ ground (arith, get_elem?-min ids n, get_elem?-none ids n behind)
]

-- The map of the implementation, after the earlier requests.
abbrev pub IsAfter : ResourceMap → List Text → InfoMap → Type 0
IsAfter devices earlier m =
    (k : Text) → find_info k m ≡ info_at (requests k earlier) (find k devices)

pub infos-IsAfter : (devices : ResourceMap) → IsAfter devices [] (infos devices)
infos-IsAfter devices k = find_info-infos k devices

pub next_device-IsAfter :
    (devices : ResourceMap) (earlier : List Text) (m : InfoMap) (k : Text)
    → IsAfter devices earlier m
    → IsAfter devices (k ∷ earlier) (next_device k m).1
next_device-IsAfter devices earlier m k after l =
    let found = find_info-next_device k l m in
    elim (Bool-cases (text_eq k l)) [
      | inl same ↦ rw same (
          found
          ∙ ap (λ b. if b then advance (find_info l m) else find_info l m) same
          ∙ ap advance (after l)
          ∙ advance-info_at (requests l earlier) (find l devices))
      | inr other ↦ rw other (
          found
          ∙ ap (λ b. if b then advance (find_info l m) else find_info l m) other
          ∙ after l
          ∙ ap (λ n. info_at n (find l devices)) (omega arith))
    ]

pub next_device-IsNext :
    (devices : ResourceMap) (earlier : List Text) (m : InfoMap) (k : Text)
    → IsAfter devices earlier m
    → (next_device k m).0 ≡ device_at (requests k earlier) (find k devices)
next_device-IsNext devices earlier m k after =
    next_device-device k m
    ∙ ap device_of (after k)
    ∙ device_of-info_at (requests k earlier) (find k devices)
