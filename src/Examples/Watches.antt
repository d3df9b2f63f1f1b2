-- ===== src/Examples/Watches.antt =====
-- The theorem on the daemon, at an interface that waits for three records.
use multus_ext_cni.Prelude.{ℕ, ◌≡◌, refl, true, false, List, [], ◌∷◌, some, Text, codes}
use multus_ext_cni.Daemon.{
  missing, vxlan, Kernel, Multusd, put_key, delete_key, watched_add_subnet, watching,
}
use multus_ext_cni.Daemon.Forwarded.{forward_each, watched_add_subnet-forwards}

-- The state is the list of the addresses that are forwarded.
abbrev records : List Text
records =
    codes "multus/vxlan/vx1/10.0.0.1"
    ∷ codes "multus/vxlan/vx2/10.0.0.2"
    ∷ codes "multus/vxlan/vx1/10.0.0.3"
    ∷ []

abbrev kernel : Kernel (List Text)
kernel = record {
  link_by_name = λ name. vxlan 7 (codes "10.0.0.1");
  record_keys = some (some records);
  add_fdb = λ index src w. (true, src ∷ w);
  del_fdb = λ index src w. (false, w);
}

abbrev waiting : Multusd (List Text)
waiting = record { buf = codes "vx1" ∷ []; world = [] }

abbrev forwarded : Multusd (List Text)
forwarded = record { buf = []; world = codes "10.0.0.3" ∷ [] }

is_forwarded : forward_each kernel (codes "vx1") records (record waiting { buf = [] }) ≡ forwarded
unfolding multus_ext_cni.Prelude.text_eq multus_ext_cni.Vxlan.parse_vxlan
    multus_ext_cni.Prelude.split multus_ext_cni.Daemon.forward
is_forwarded = refl

-- The first record of an interface that is not there makes its name wait.
abbrev absent : Kernel (List Text)
absent = record kernel { link_by_name = λ name. missing }

is_watched :
    watching absent 1
      (put_key (codes "multus/vxlan/vx1/10.0.0.3")
        ∷ delete_key (codes "multus/vxlan/vx1/10.0.0.3")
        ∷ [])
      (record waiting { buf = [] })
    ≡ some waiting
unfolding watching multus_ext_cni.Vxlan.parse_vxlan multus_ext_cni.Prelude.split
    multus_ext_cni.Prelude.text_eq
is_watched = refl

watched_add_subnet-forwards_example :
    watched_add_subnet kernel 2 (codes "vx1") (codes "10.0.0.3") waiting ≡ some (true, forwarded)
unfolding multus_ext_cni.Prelude.text_eq multus_ext_cni.Vxlan.parse_vxlan
    multus_ext_cni.Prelude.split multus_ext_cni.Daemon.forward multus_ext_cni.Daemon.without
watched_add_subnet-forwards_example =
    watched_add_subnet-forwards kernel 0 (codes "vx1") (codes "10.0.0.3") 7 (codes "10.0.0.1")
      records waiting refl refl refl refl
