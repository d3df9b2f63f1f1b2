-- ===== src/Ipam/Disk.antt =====
-- multus-ipam/backend/disk/backend.go: the store that keeps one file for each address. The files of
-- the directory are a list; a call that changes the disk may fail, as the list of faults says.
pub mod Files
pub mod Contract
pub mod Keys
pub mod Cache
use multus_ext_cni.Prelude.{
  ℕ, Bool, true, false, not, ◌&&◌, ◌||◌, List, [], ◌∷◌, ◌++◌, Option, none, some, if◌then◌else◌,
  any, Text, text_eq, codes, is_empty, trim_space, has_prefix, Result, ok, err,
}
use multus_ext_cni.Net.{Ip, is_nil}
use multus_ext_cni.Net.NetText.{NetText, last_ip_file_prefix}
use multus_ext_cni.Ipam.Store.{Store, StoreError, io_error, not_exist}
use Files.{File, lookup, write_file, remove_file}

pub record Dir : Type 0 where
  pub files : List File
  -- whether the next calls that write, create or remove a file fail; none does after the last
  pub faults : List Bool

abbrev pub line_break : Text
line_break = b'\r' ∷ b'\n' ∷ []

-- The content of the file of an address: `strings.TrimSpace(id) + LineBreak + ifname`.
abbrev pub key_of : Text → Text → Text
key_of id ifname = trim_space id ++ (line_break ++ ifname)

abbrev pub last_ip_file : Text → Text
last_ip_file range_id = last_ip_file_prefix ++ range_id

abbrev pub fails : List Bool → Bool
fails [] = false
fails (b ∷ bs) = b

abbrev pub later : List Bool → List Bool
later [] = []
later (b ∷ bs) = bs

-- os.Remove, where its error is ignored.
unfoldable pub remove : Text → Dir → Dir
remove name d = record d {
  files = if fails d.faults then d.files else remove_file name d.files;
  faults = later d.faults;
}

-- A write of a file: the new state, or that it failed.
unfoldable pub write : Text → Text → Dir → Bool × Dir
write name content d =
    if fails d.faults
    then (false, record d { faults = later d.faults })
    else (true, record { files = write_file name content d.files; faults = later d.faults })

module _ (t : NetText) where
  open t use {to_string, parse}

  -- (*Store).Reserve. The file is created empty, written and closed; then the last address of the
  -- range is written.
  unfoldable pub reserve : Text → Text → Ip → Text → Dir → Result StoreError Bool × Dir
  unfolding write remove
  reserve id ifname ip range_id d =
      let name = to_string ip in
      let (created, d1) = write name [] d in
      let (written, d2) = write name (key_of id ifname) d1 in
      let closed = not (fails d2.faults) in
      let d3 : Dir = record d2 { faults = later d2.faults } in
      let (kept, d4) = write (last_ip_file range_id) (to_string ip) d3 in
      elim (lookup name d.files) [
        | some content ↦ (ok false, d)
        | none ↦
            if not created
            then (err io_error, d1)
            else if not written
            then (err io_error, remove name d2)
            else if not closed
            then (err io_error, remove name d3)
            else if not kept
            then (err io_error, d4)
            else (ok true, d4)
      ]

  -- (*Store).LastReservedIP, for a caller that takes every error as nil
  unfoldable pub last_reserved_ip : Text → Dir → Ip
  last_reserved_ip range_id d = elim (lookup (last_ip_file range_id) d.files) [
    | none ↦ []
    | some content ↦ parse content
  ]

  -- (*Store).Release
  unfoldable pub release : Ip → Dir → Result StoreError (Unit {0}) × Dir
  release ip d = elim (lookup (to_string ip) d.files) [
    | none ↦ (err not_exist, d)
    | some content ↦
        if fails d.faults
        then (err io_error, record d { faults = later d.faults })
        else (ok tt, record { files = remove_file (to_string ip) d.files; faults = later d.faults })
  ]

  -- (*Store).FindByKey
  unfoldable pub find_by_key : Text → Dir → Bool
  find_by_key key d = any (λ f. text_eq (trim_space f.content) key) d.files

  -- (*Store).FindByID
  unfoldable pub find_by_id : Text → Text → Dir → Bool
  unfolding find_by_key
  find_by_id id ifname d = find_by_key (key_of id ifname) d || find_by_key (trim_space id) d

  -- The walk of ReleaseByKey: whether a file was removed, and what is left.
  unfoldable pub release_walk : Text → List File → List Bool → Bool × List File × List Bool
  release_walk key [] faults = (false, [], faults)
  release_walk key (f ∷ fs) faults =
      let hit = has_prefix (trim_space f.content) key in
      let (found, rest, faults') = release_walk key fs (if hit then later faults else faults) in
      if hit && not (fails faults) then (true, rest, faults') else (found, f ∷ rest, faults')

  -- (*Store).ReleaseByKey
  unfoldable pub release_by_key : Text → Dir → Bool × Dir
  unfolding release_walk
  release_by_key key d =
      let (found, rest, faults) = release_walk key d.files d.faults in
      (found, record { files = rest; faults = faults })

  -- (*Store).ReleaseByID
  unfoldable pub release_by_id : Text → Text → Dir → Result StoreError (Unit {0}) × Dir
  unfolding release_by_key
  release_by_id id ifname d =
      let (found, d') = release_by_key (key_of id ifname) d in
      (ok tt, if not found then (release_by_key (trim_space id) d').1 else d')

  -- The walk of GetByID.
  unfoldable pub collect : Text → Text → List File → List Ip
  collect key old [] = []
  collect key old (f ∷ fs) =
      let rest = collect key old fs in
      let body = trim_space f.content in
      if (has_prefix body key || text_eq body old) && not (is_nil (parse f.name))
      then parse f.name ∷ rest
      else rest

  -- (*Store).GetByID
  unfoldable pub get_by_id : Text → Text → Dir → List Ip
  unfolding collect
  get_by_id id ifname d = collect (key_of id ifname) (trim_space id) d.files

  -- The disk store as the allocator sees it.
  abbrev pub disk_store : Store Dir
  disk_store = record {
    reserve = reserve;
    last_reserved_ip = last_reserved_ip;
    release_by_id = release_by_id;
    get_by_id = get_by_id;
  }
