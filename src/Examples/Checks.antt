-- ===== src/Examples/Checks.antt =====
-- The theorems on the controller's checks: the pod web/b is gone since time 100, the pod web/a is there.
use multus_ext_cni.Prelude.{
  ℕ, ◌-◌, ◌<◌, ◌≡◌, ◌⊎◌, refl, Bool, true, false, List, [], ◌∷◌, some, none, Text, codes, text_eq,
  ◌&&◌, split, trim,
}
use multus_ext_cni.Ipam.Lease.Fixed.{Entry}
use multus_ext_cni.Controller.{Waits, check_fix_ip, since, among}
use multus_ext_cni.Controller.Waiting.Sound.{SomeEntry}
use multus_ext_cni.Controller.Waiting.{check_fix_ip-doomed, check_fix_ip-waits}

abbrev exists : Text → Text → Bool
exists ns name = text_eq ns (codes "web") && text_eq name (codes "a")

abbrev entry : Text → Text → Entry
entry key value = record { key = key; value = value }

abbrev entries : List Entry
entries = entry (codes "1") (codes "web/a") ∷ entry (codes "2") (codes "web/b") ∷ []

abbrev waits : Waits
waits = (codes "1", 90) ∷ (codes "2", 100) ∷ []

-- Since when the pod web/b is gone, and the time of a check.
abbrev gone_at : ℕ
gone_at = 100

abbrev checked_at : ℕ
checked_at = 120

doomed-2 : among (codes "2") (check_fix_ip exists 200 60 entries waits).0 ≡ true
unfolding check_fix_ip text_eq split trim
doomed-2 = refl

waits-2 : since (codes "2") (check_fix_ip exists 120 60 entries waits).1 ≡ some 100
unfolding since check_fix_ip text_eq split trim
waits-2 = refl

check_fix_ip-doomed_example :
    SomeEntry exists 200 60 (codes "2") entries
    × (t : ℕ) × (since (codes "2") waits ≡ some t)
    × (60 < 200 - t)
check_fix_ip-doomed_example = check_fix_ip-doomed exists 200 60 entries waits (codes "2") doomed-2

check_fix_ip-waits_example :
    SomeEntry exists 120 60 (codes "2") entries
    × (among (codes "2") (check_fix_ip exists 120 60 entries waits).0 ≡ false)
    × ((since (codes "2") waits ≡ some 100)
        ⊎ ((since (codes "2") waits ≡ none) × (gone_at ≡ checked_at)))
check_fix_ip-waits_example = check_fix_ip-waits exists 120 60 entries waits (codes "2") 100 waits-2
