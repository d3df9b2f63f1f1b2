-- ===== src/Ipam/Disk/Files.antt =====
-- The files of a directory, by name.
use multus_ext_cni.Prelude.{
  ◌≡◌, refl, List, [], ◌∷◌, Option, none, some, if◌then◌else◌, Text, text_eq, text_eq_iff, arith,
}

pub record File : Type 0 where
  pub name : Text
  pub content : Text

unfoldable pub lookup : Text → List File → Option Text
lookup n [] = none
lookup n (f ∷ fs) = if text_eq f.name n then some f.content else lookup n fs

-- Creates the file or overwrites it.
unfoldable pub write_file : Text → Text → List File → List File
write_file n c [] = record { name = n; content = c } ∷ []
write_file n c (f ∷ fs) =
    if text_eq f.name n then record f { content = c } ∷ fs else f ∷ write_file n c fs

unfoldable pub remove_file : Text → List File → List File
remove_file n [] = []
remove_file n (f ∷ fs) = let rest = remove_file n fs in if text_eq f.name n then rest else f ∷ rest

pub lookup-write :
    (n m c : Text) (fs : List File)
    → lookup m (write_file n c fs) ≡ (if text_eq n m then some c else lookup m fs)
unfolding lookup write_file
lookup-write n m c [] = refl
lookup-write n m c (f ∷ fs) =
    ground
      (arith, lookup-write n m c fs, text_eq_iff n m, text_eq_iff f.name n, text_eq_iff f.name m)

pub lookup-remove :
    (n m : Text) (fs : List File)
    → lookup m (remove_file n fs) ≡ (if text_eq n m then none else lookup m fs)
unfolding lookup remove_file
lookup-remove n m [] = ground arith
lookup-remove n m (f ∷ fs) =
    ground
      (arith, lookup-remove n m fs, text_eq_iff n m, text_eq_iff f.name n, text_eq_iff f.name m)
