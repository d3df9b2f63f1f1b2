-- ===== src/Conf/Json.antt =====
-- The values of encoding/json that the program reads into `interface{}`, and the operations of Go
-- on the maps and slices among them.
use multus_ext_cni.Prelude.{
  ◌≡◌, refl, Bool, Option, none, some, if◌then◌else◌, Text, text_eq, text_eq_iff, arith,
}

-- A number is its literal. `Items` is a slice, and `Members` a map whose keys stand in some order.
mutual
  pub data Json : Type 0 where
    null : Json
    boolean : Bool → Json
    number : Text → Json
    string : Text → Json
    array : Items → Json
    object : Members → Json

  pub data Items : Type 0 where
    no_items : Items
    item : Json → Items → Items

  pub data Members : Type 0 where
    no_members : Members
    member : Text → Json → Members → Members

-- `value, ok := m[key]`
unfoldable pub lookup : Text → Members → Option Json
lookup k no_members = none
lookup k (member key v m) = if text_eq key k then some v else lookup k m

-- `m[key] = value`
unfoldable pub set : Text → Json → Members → Members
set k v no_members = member k v no_members
set k v (member key w m) =
    let rest = set k v m in if text_eq key k then member key v m else member key w rest

-- A lookup after an assignment.
pub lookup-set :
    (k l : Text) (v : Json) (m : Members)
    → lookup l (set k v m) ≡ (if text_eq k l then some v else lookup l m)
unfolding lookup set
lookup-set k l v no_members = refl
lookup-set k l v (member key w m) =
    ground (arith, lookup-set k l v m, text_eq_iff key k, text_eq_iff key l, text_eq_iff k l)
