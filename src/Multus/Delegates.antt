-- ===== src/Multus/Delegates.antt =====
-- The types of multus.go: delegates (types/types.go), the environment of the plugins, and what the
-- code calls.
use multus_ext_cni.Prelude.{Bool, Option, none, List, [], Text}

-- NetConfList of the CNI library: its plugins, which may be nil, by their types; a plugin may
-- be nil itself.
pub record ConfList : Type 0 where
  pub name : Text
  pub cni_version : Text
  pub plugins : Option (List (Option Text))

abbrev pub no_list : ConfList
no_list = record { name = []; cni_version = []; plugins = none }

-- DelegateNetConf, as far as the delegates are called with it.
pub record Delegate : Type 0 where
  pub name : Text
  pub type_name : Text
  pub bytes : Text
  pub ifname_request : Text
  pub mac_request : Text
  pub ip_request : Text
  pub conf_list : ConfList
  pub conf_list_plugin : Bool
  pub master_plugin : Bool

-- The variables CNI_IFNAME, CNI_COMMAND and CNI_ARGS of the process, which a plugin inherits.
pub record Env : Type 0 where
  pub ifname : Text
  pub command : Text
  pub args : Text

-- netlink.LinkByName in the namespace of the pod
pub data Link : Type 0 where
  found not_found failed : Link

-- The calls of multus.go to what is not its own. A plugin answers with its result, or fails (`none`);
-- libcni calls a list of plugins with the RuntimeConf: it sets CNI_IFNAME from the name that is given here,
-- CNI_COMMAND, and CNI_ARGS from the arguments of the pod, in place of the environment's.
pub record Cni (W R N : Type 0) : Type 0 where
  pub has_netns : W → Bool
  pub link_by_name : Text → W → Link
  pub parse_mac : Text → Bool
  pub parse_cidr : Text → Bool
  pub parse_ip : Text → Bool
  pub add_list : Text → Text → W → Option R × W
  pub add_plugin : Text → Text → Env → W → Option R × W
  pub del_list : Text → Text → W → Bool × W
  pub del_plugin : Text → Text → Env → W → Bool × W
  -- LoadNetworkStatus, SetNetworkStatus and saveDelegates: statuses of networks are an `N`
  pub load_status : R → Delegate → Option N
  pub set_status : List N → W → Bool × W
  pub save_delegates : List Delegate → W → Bool × W

pub record State (W : Type 0) : Type 0 where
  pub env : Env
  pub world : W
