-- ===== src/Etcd/Paths.antt =====
-- path/filepath of Go's standard library on a Unix system, as etcdv3/etcdv3.go and multus-vxlan call it.
use multus_ext_cni.Prelude.{
  ℕ, Bool, not, ◌&&◌, ◌||◌, ◌==◌, List, [], ◌∷◌, ◌++◌, if◌then◌else◌, Text, codes, text_eq,
  is_empty, split, trim_right,
}

abbrev pub is_slash : ℕ → Bool
is_slash c = c == b'/'

-- The parts, with slashes between them
unfoldable pub join_parts : List Text → Text
join_parts [] = []
join_parts (part ∷ []) = part
join_parts (part ∷ more ∷ parts) = part ++ (b'/' ∷ join_parts (more ∷ parts))

abbrev turned : List Text → List Text → List Text
turned [] back = back
turned (part ∷ parts) back = turned parts (part ∷ back)

-- `..` behind other parts
abbrev climb : Bool → List Text → List Text
climb rooted [] = if rooted then [] else codes ".." ∷ []
climb rooted (last ∷ before) =
    if text_eq last (codes "..") then codes ".." ∷ last ∷ before else before

-- The parts of a path without `.`, and without `..` and the part before it; `back` are the parts so far,
-- the last one first.
unfoldable pub clean_parts : Bool → List Text → List Text → List Text
clean_parts rooted back [] = turned back []
clean_parts rooted back (part ∷ parts) =
    let skipped = clean_parts rooted back parts in
    let climbed = clean_parts rooted (climb rooted back) parts in
    let kept = clean_parts rooted (part ∷ back) parts in
    if is_empty part || text_eq part (codes ".")
    then skipped
    else if text_eq part (codes "..")
    then climbed
    else kept

-- filepath.Clean
unfoldable pub clean : Text → Text
unfolding clean_parts join_parts
clean [] = codes "."
clean (c ∷ path) =
    let parts = join_parts (clean_parts (is_slash c) [] (split b'/' (c ∷ path))) in
    if is_slash c then b'/' ∷ parts else if is_empty parts then codes "." else parts

-- filepath.Join: the empty texts are left out at the front, and Clean drops the others.
unfoldable pub join : List Text → Text
unfolding clean join_parts
join [] = []
join (part ∷ parts) =
    let rest = join parts in if is_empty part then rest else clean (join_parts (part ∷ parts))

-- What is behind the last slash
unfoldable pub after_slash : Text → Text → Text
after_slash last [] = last
after_slash last (c ∷ path) =
    let next = after_slash path path in
    let same = after_slash last path in if is_slash c then next else same

-- filepath.Base
unfoldable pub path_base : Text → Text
unfolding trim_right after_slash
path_base [] = codes "."
path_base (c ∷ path) =
    let stripped = trim_right is_slash (c ∷ path) in
    if is_empty stripped then codes "/" else after_slash stripped stripped

-- The path up to its last slash, with it
unfoldable pub up_to_slash : Text → Text
up_to_slash [] = []
up_to_slash (c ∷ path) =
    let rest = up_to_slash path in if is_empty rest && not (is_slash c) then [] else c ∷ rest

-- filepath.Dir
unfoldable pub path_dir : Text → Text
unfolding clean up_to_slash
path_dir path = clean (up_to_slash path)
