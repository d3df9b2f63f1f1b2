-- ===== src/Lib.antt =====
-- Verification of multus-ext-cni, a set of CNI plugins that attach several networks to a pod.
--
-- The program's parts. multus (multus/multus.go) is the plugin that the kubelet calls: it reads the
-- networks of a pod (k8sclient/, types/) and its devices (checkpoint/, kubeletclient/), and calls the
-- plugin of each network. multus-vxlan is one of them; it and multus ask multus-ipam for
-- addresses. multus-ipam takes the ranges of a network from its configuration, or leases a range from
-- etcd (multus-ipam/backend/etcdv3cli), and allocates addresses of the ranges in a store, a
-- directory with one file for each address (multus-ipam/backend/disk). multus-controller and multus-daemon
-- clean up. This library models the allocation of addresses, the networks of a pod and the calls
-- of their plugins, the checks of fixed addresses, and the devices of a pod.
--
-- Files, and the code that they model:
--   Prelude         lists, texts, strings and results of Go that the others share
--   Net             net.IP, net.IPNet and masks of Go's standard library; Net.Number: the number of an
--                   address; Net.IpPackage, Net.NetText: parameters, see below
--   Ipam.Address    canonicalizeIP (multus-ipam/backend/allocator/range.go)
--   Ipam.Range      Range (config.go, range.go beside it); Ipam.SimpleRange: SimpleRange;
--                   Ipam.SimpleRange.Rounded: its canonical form
--   Ipam.RangeSet   RangeSet (range_set.go)
--   Ipam.Store      the interface Store (multus-ipam/backend/store.go), and its contract
--   Ipam.Iter       RangeIter (allocator.go): `advance` is one activation of Next, `next` is Next; the
--                   children follow the iterator through the ranges
--   Ipam.Allocator  GetIter, Get and Release (allocator.go): `get`, with its parts `get_requested` and
--                   `get_any`
--   Ipam.Disk       the Store of multus-ipam/backend/disk/backend.go, and that it keeps the contract;
--                   Ipam.Disk.Cache: the cache of leased ranges in it, LoadCache to DeleteCache
--   Ipam.Config     LoadIPAMConfig (config.go); Ipam.Config.EnvArgs: the arguments of the environment;
--                   Ipam.Config.Apart: the ranges of an accepted configuration
--   Ipam.Command    formRangeSets and allocateIP (multus-ipam/main.go); Ipam.Command.Whole: cmdAdd,
--                   cmdDel and cmdCheck; Ipam.Command.Granted, Ipam.Command.Reserved,
--                   Ipam.Command.Outcome: how allocateIP ends
--   Ipam.Lease      ipamGetFreeIPRange (multus-ipam/backend/etcdv3cli/cli.go) on the keys that etcd
--                   returns: `gap` is its loop; Ipam.Lease.Search, Ipam.Lease.Reading: what it finds;
--                   Ipam.Lease.Fixed: IPAMApplyFixIP, `scan` being its loops
--   Conf            types/conf.go: Conf.Delegates: LoadDelegateNetConf; Conf.Loading: LoadNetConf;
--                   Conf.Status: LoadNetworkStatus; Conf.Json: the maps of encoding/json;
--                   Conf.Decoder: the types, and the decoder, a parameter; Conf.Injection, Conf.Ready,
--                   Conf.Noted: proofs
--   Kube            k8sclient/k8sclient.go: Kube.Names, Kube.Annotation: the annotation of a pod;
--                   Kube.Sources: where a configuration comes from; Kube.Attachments:
--                   GetNetworkDelegates; Kube.Defaults: GetDefaultNetworks and TryLoadPodDelegates;
--                   Kube.Status: SetNetworkStatus; Kube.Cluster: the types, and what is called, a
--                   parameter. Kube.Labels, Kube.Grammar and Kube.Listing read names that are written
--                   out, Kube.Handout and Kube.Refinement follow the devices, Kube.Chosen the files,
--                   Kube.Plain and Kube.Masters the master plugin, Kube.Conflicts an update
--   Multus          multus/multus.go: Multus.Command: cmdAdd, cmdGet and cmdDel; `add_pod` and `del_pod`
--                   are their parts from the loading of the delegates on, with delegateAdd,
--                   delegateDel and delPlugins; Multus.Calls: the record of the plugins' calls;
--                   Multus.Rollback: how cmdAdd ends; Multus.FirstResult, Multus.Masters: its
--                   result; Multus.Arguments: the environment of the plugins
--   Controller      CheckFixIP and handleNodeDelEvent (multus-controller/controller.go)
--   Devices         GetPodResourceMap (checkpoint/checkpoint.go, kubeletclient/kubeletclient.go)
--   Etcd            TransPutKey, TransDelKey and TransDelKeys (etcdv3/etcdv3.go); Etcd.Paths: path/filepath;
--                   Etcd.Laws: what etcd holds after them
--   Vxlan           RecVxlan, ParseVxlan and CacheToEtcd (multus-vxlan/backend/etcdv3cli/cli.go);
--                   Vxlan.Recorded, Vxlan.Flushed, Vxlan.Always: where records are kept
--   Daemon          the events of a watch (multus-daemon/daemon.go): watchedAddSubnet, watchedDelSubnet
--                   and procHistoryRecord; Daemon.Forwarded: a name that waits
--   Examples        concrete inputs
--
-- State. The allocator has none of its own besides the iterator, a record that is passed on. The store is
-- a state `S` with operations that return a new state; Get holds the lock of the store from its start
-- to its end, so a call is a function on that state. The disk is the list of the files of a directory with
-- a list that says which of the next calls fail; the code reads them in the order of their names, of
-- which nothing depends here. Multus has the environment of the process, which a single
-- plugin inherits; the CNI library sets that of the plugins of a list.
--
-- Errors. An error is a value of an error type of its component, such as AllocError or KubeError, which
-- names the message of the code. An index out of range is `panicked` in the allocator; the loading of
-- the networks has a value `panics`, `panics_here` or `panics_there` for one, for a nil pointer
-- and for an assignment to a nil map, which passes every handler of errors. Loops that the code does not bound have fuel, and `out_of_fuel` says
-- that the call has not returned yet: the loop of Get, and the calls of Next of itself. One more
-- than the number of the addresses of the set is enough, except where Get does not return at all.
-- The fuel of watchedAddSubnet bounds the calls of procHistoryRecord inside each other; two are enough
-- for a name that waits.
--
-- Parameters. Cmp and NextIP of the containernetworking plugins are an IpPackage with the
-- laws IpLaws; the printing and parsing of addresses is a NetText with the laws NetTextLaws.
-- Package ipaddr of archichris/netools is an IpAddr, with the laws IpAddrLaws where
-- SimpleRange.Canonicalize is proved to round. The plugins
-- that multus calls, netlink and the Kubernetes API are a Cni, on a state `W` of which nothing is assumed;
-- saveDelegates (multus/multus.go) and the calls of LoadNetworkStatus and SetNetworkStatus are fields of
-- it as well. encoding/json is a Decoder, of which one theorem assumes that it leaves out a field whose
-- tag says so. The API server, the files of the node and the kubelet are a Cluster while the
-- networks are loaded, and an Api while a status is written; retry.RetryOnConflict of client-go is a
-- Retry with the laws RetryLaws. The scratch file of the delegates is a Scratches.
-- The decoding of the configuration of the IPAM plugin is a Loader, and the cache of leased ranges and the
-- leases of etcd, while addresses are allocated, are a Host; Keeps says that they leave what is taken
-- taken. The client of etcd is an EtcdClient with the
-- laws EtcdLaws; netlink and etcd are a Kernel for the daemon, whose links stay the same during a call.
--
-- Not modelled: the other parts named above. Logging and the text of messages are left out, but for the
-- word `exists`, which RecVxlan looks for.
pub mod Prelude
pub mod Net
pub mod Ipam
pub mod Multus
pub mod Conf
pub mod Kube
pub mod Controller
pub mod Devices
pub mod Etcd
pub mod Vxlan
pub mod Daemon
pub mod Examples
