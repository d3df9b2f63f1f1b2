-- ===== src/Ipam/Disk/Contract.antt =====
-- Reserve of the disk store (multus-ipam/backend/disk/backend.go) and the contract of the interface.
use multus_ext_cni.Prelude.{
  ◌≡◌, true, false, [], none, some, if◌then◌else◌, Text, text_eq, text_eq_iff, arith, ok,
  Option-cases, inl, inr, Bool-cases,
}
use multus_ext_cni.Net.{Ip}
use multus_ext_cni.Net.NetText.{NetText}
use multus_ext_cni.Ipam.Store.{StoreContract}
use multus_ext_cni.Ipam.Disk.Files.{lookup, write_file, lookup-write}
use multus_ext_cni.Ipam.Disk.{Dir, reserve, disk_store, last_ip_file, key_of, fails, later, write}

module _ (t : NetText) where
  open t use {to_string}

  -- The address has a file.
  abbrev pub HasFile : Dir → Ip → Type 0
  HasFile d ip = (content : Text) × (lookup (to_string ip) d.files ≡ some content)

  pub reserve-refused :
      (id ifname : Text) (ip : Ip) (range_id : Text) (d d' : Dir)
      → reserve t id ifname ip range_id d ≡ (ok false, d')
      → (d' ≡ d) × HasFile d ip
  unfolding reserve
  reserve-refused id ifname ip range_id d d' e =
      elim (Option-cases (lookup (to_string ip) d.files)) [
        | inl free ↦ absurd (ground arith)
        | inr (content, there) ↦ (ground arith, (content, there))
      ]

  -- Where Reserve of the disk store succeeds, the address had no file, and the directory differs
  -- by three writes: the file of the address is created, the key of the container is written to
  -- it, and the address is written to the file of the last address of the range.
  pub reserve-granted :
      (id ifname : Text) (ip : Ip) (range_id : Text) (d d' : Dir)
      → reserve t id ifname ip range_id d ≡ (ok true, d')
      → (lookup (to_string ip) d.files ≡ none)
        × (d'.files
            ≡ write_file (last_ip_file range_id) (to_string ip) (
                write_file
                  (to_string ip)
                  (key_of id ifname)
                  (write_file (to_string ip) [] d.files)))
  unfolding reserve write
  reserve-granted id ifname ip range_id d d' e =
      elim (Option-cases (lookup (to_string ip) d.files)) [
        | inr (content, there) ↦ absurd (ground arith)
        | inl free ↦ elim (Bool-cases (fails d.faults)) [
          | inl b0 ↦ absurd (ground arith)
          | inr b0 ↦ elim (Bool-cases (fails (later d.faults))) [
            | inl b1 ↦ absurd (ground arith)
            | inr b1 ↦ elim (Bool-cases (fails (later (later d.faults)))) [
              | inl b2 ↦ absurd (ground arith)
              | inr b2 ↦ elim (Bool-cases (fails (later (later (later d.faults))))) [
                | inl b3 ↦ absurd (ground arith)
                | inr b3 ↦ (free, ground arith)
              ]
            ]
          ]
        ]
      ]

  -- A reserved address was free, and has a file now.
  pub reserve-HasFile :
      (id ifname : Text) (ip : Ip) (range_id : Text) (d d' : Dir)
      → reserve t id ifname ip range_id d ≡ (ok true, d')
      → (¬ HasFile d ip) × HasFile d' ip
  reserve-HasFile id ifname ip range_id d d' e =
      let (free, files) = reserve-granted id ifname ip range_id d d' e in
      let created = write_file (to_string ip) [] d.files in
      (
        λ (content, there). absurd (ground arith),
        (
          if text_eq (last_ip_file range_id) (to_string ip) then to_string ip else key_of id ifname,
          rw files (
              ground (
                arith,
                lookup-write (last_ip_file range_id) (to_string ip) (to_string ip)
                    (write_file (to_string ip) (key_of id ifname) created),
                lookup-write (to_string ip) (to_string ip) (key_of id ifname) created,
                text_eq_iff (to_string ip) (to_string ip),
              )),
        ),
      )

  -- The disk store keeps the contract, an address being taken where it has a file.
  abbrev pub disk_contract : StoreContract (disk_store t)
  disk_contract = record { Taken = HasFile; refused = reserve-refused; granted = reserve-HasFile }
