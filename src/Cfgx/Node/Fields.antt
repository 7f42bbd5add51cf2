-- ===== src/Cfgx/Node/Fields.antt =====
-- The entries of an object: what a write and an erasure do to every key.
use toolx_cpp.Prelude.{
  ◌≡◌, ◌≢◌, refl, arith, Bytes, bytes_eq, bytes_eq_iff, bytes_eq_refl, none, some, if◌then◌else◌,
  Bool-cases, inl, inr,
}
use toolx_cpp.Cfgx.Node.{Node, Entries, end, entry, find, put, erase_entry, IsWf, AreWf}

pub find-end : (k : Bytes) → find k end ≡ none
unfolding find
find-end k = refl

pub find-entry :
    (j k : Bytes) (v : Node) (fs : Entries)
    → find j (entry k v fs) ≡ (if bytes_eq k j then some v else find j fs)
unfolding find
find-entry j k v fs = refl

pub find-put :
    (j k : Bytes) (v : Node) (fs : Entries)
    → find j (put k v fs) ≡ (if bytes_eq k j then some v else find j fs)
unfolding find put
find-put j k v end = refl
find-put j k v (entry i n fs) =
    ground (arith, bytes_eq_iff k j, bytes_eq_iff i k, bytes_eq_iff i j, find-put j k v fs)

pub find-put_self : (k : Bytes) (v : Node) (fs : Entries) → find k (put k v fs) ≡ some v
find-put_self k v fs = rw (find-put, bytes_eq_refl k)

pub find-put_ne : (j k : Bytes) (v : Node) (fs : Entries) → k ≢ j → find j (put k v fs) ≡ find j fs
find-put_ne j k v fs h = ground (arith, find-put j k v fs, bytes_eq_iff k j)

-- Writing back what is there changes nothing.
pub put_same : (k : Bytes) (v : Node) (fs : Entries) → find k fs ≡ some v → put k v fs ≡ fs
unfolding find put
put_same k v end h = ground arith
put_same k v (entry j n fs) h = ground (arith, put_same k v fs)

pub find-erase_self : (k : Bytes) (fs : Entries) → AreWf fs → find k (erase_entry k fs) ≡ none
unfolding find erase_entry AreWf
find-erase_self k end w = refl
find-erase_self k (entry j n fs) w = ground (arith, bytes_eq_iff j k, find-erase_self k fs w.2)

pub find-erase_ne : (j k : Bytes) (fs : Entries) → k ≢ j → find j (erase_entry k fs) ≡ find j fs
unfolding find erase_entry
find-erase_ne j k end h = refl
find-erase_ne j k (entry i n fs) h =
    ground (arith, bytes_eq_iff i k, bytes_eq_iff i j, find-erase_ne j k fs h)

pub find-AreWf : (k : Bytes) (fs : Entries) {v : Node} → AreWf fs → find k fs ≡ some v → IsWf v
unfolding find AreWf
find-AreWf k end w h = absurd (ground arith)
find-AreWf k (entry j n fs) {v} w h = elim (Bool-cases (bytes_eq j k)) [
  | inl same ↦ let e : n ≡ v = ground arith in rw (← e) w.1
  | inr other ↦ find-AreWf k fs w.2 (rw other at h)
]

pub put-AreWf : (k : Bytes) (v : Node) (fs : Entries) → IsWf v → AreWf fs → AreWf (put k v fs)
unfolding put AreWf
put-AreWf k v end h w = (unfold find in refl, h, tt)
put-AreWf k v (entry j n fs) h w = elim (Bool-cases (bytes_eq j k)) [
  | inl same ↦ rw same (w.0, h, w.2)
  | inr other ↦ rw other (
    ground (arith, find-put j k v fs, bytes_eq_iff k j, bytes_eq_iff j k, w.0),
    w.1,
    put-AreWf k v fs h w.2,
  )
]

find-erase_none : (j k : Bytes) (fs : Entries) → find j fs ≡ none → find j (erase_entry k fs) ≡ none
unfolding find erase_entry
find-erase_none j k end h = refl
find-erase_none j k (entry i n fs) h = ground (arith, find-erase_none j k fs)

pub erase-AreWf : (k : Bytes) (fs : Entries) → AreWf fs → AreWf (erase_entry k fs)
unfolding erase_entry AreWf
erase-AreWf k end w = w
erase-AreWf k (entry j n fs) w = elim (Bool-cases (bytes_eq j k)) [
  | inl same ↦ rw same w.2
  | inr other ↦ rw other (find-erase_none j k fs w.0, w.1, erase-AreWf k fs w.2)
]
