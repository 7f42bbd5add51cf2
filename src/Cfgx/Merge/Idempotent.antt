-- ===== src/Cfgx/Merge/Idempotent.antt =====
-- Merging an overlay a second time changes nothing, where arrays are replaced.
use toolx_cpp.Prelude.{
  ◌≡◌, refl, ap, arith, false, Bytes, bytes_eq, bytes_eq_iff, bytes_eq_refl, none, some,
  Option-cases, Bool-cases, inl, inr,
}
use toolx_cpp.Cfgx.Node.{
  Node, null, boolean, integer, double, string, object, array, Entries, end, entry, find, IsWf,
  AreWf,
}
use toolx_cpp.Cfgx.Node.Fields.{find-entry, put_same}
use toolx_cpp.Cfgx.Access.{try_object, try_array}
use toolx_cpp.Cfgx.Merge.{merge_into, merge_entries}
use toolx_cpp.Cfgx.Merge.Lookup.{over, over-layered, merge-entry, merge-end, find-merge_entries}

-- Every entry of the overlay finds in the object a value that merging it in leaves alone.
abbrev Absorbed : Entries → Entries → Type 0
Absorbed end dst = Unit {0}
Absorbed (entry k v src) dst =
    ((n : Node) × (find k dst ≡ some n) × (merge_into false v n ≡ n)) × Absorbed src dst

merge-Absorbed : (src dst : Entries) → Absorbed src dst → merge_entries false src dst ≡ dst
merge-Absorbed end dst h = merge-end false dst
merge-Absorbed (entry k v src) dst ((n, there, e), rest) =
    rw (merge-entry false k v src dst, there, e, put_same k n dst there)
      (merge-Absorbed src dst rest)

-- Every entry of the first list is found in the second.
abbrev Found : Entries → Entries → Type 0
Found end dst = Unit {0}
Found (entry k v src) dst = (find k dst ≡ some v) × Found src dst

Found-entry :
    (src dst : Entries) (k : Bytes) (v : Node)
    → Found src dst
    → find k src ≡ none
    → Found src (entry k v dst)
Found-entry end dst k v h gone = tt
Found-entry (entry j w src) dst k v h gone = elim (Bool-cases (bytes_eq j k)) [
  | inl same ↦ absurd (ground (arith, find-entry k j w src))
  | inr other ↦
      let apart : bytes_eq k j ≡ false = ground (arith, bytes_eq_iff k j, bytes_eq_iff j k) in
      (
        rw (find-entry j k v dst, apart) h.0,
        Found-entry src dst k v h.1 (rw (find-entry k j w src, other) at gone),
      )
]

Found-self : (fs : Entries) → AreWf fs → Found fs fs
unfolding AreWf
Found-self end w = tt
Found-self (entry k v fs) w =
    (rw (find-entry k k v fs, bytes_eq_refl k), Found-entry fs fs k v (Found-self fs w.2) w.0)

mutual
  unfolding IsWf merge_into try_object try_array

  merge_self : (v : Node) → IsWf v → merge_into false v v ≡ v
  merge_self (object fs) w =
      ap object (merge-Absorbed fs fs (Absorbed-self fs fs w (Found-self fs w)))
  merge_self (array xs) w = refl
  merge_self null w = refl
  merge_self (boolean b) w = refl
  merge_self (integer b) w = refl
  merge_self (double b) w = refl
  merge_self (string b) w = refl

  Absorbed-self : (src dst : Entries) → AreWf src → Found src dst → Absorbed src dst
  Absorbed-self end dst w f = tt
  Absorbed-self (entry k v src) dst w f =
      ((v, f.0, merge_self v w.1), Absorbed-self src dst w.2 f.1)

over_again :
    (k : Bytes) (v : Node) (dst : Entries)
    → merge_into false v v ≡ v
    → ((n : Node) → merge_into false v (merge_into false v n) ≡ merge_into false v n)
    → merge_into false v (over false v (find k dst)) ≡ over false v (find k dst)
over_again k v dst self again = elim (Option-cases (find k dst)) [
  | inl gone ↦ rw gone self
  | inr (n, there) ↦ rw there (again n)
]

mutual
  unfolding IsWf merge_into try_object try_array

  merge_again :
      (v n : Node) → IsWf v → merge_into false v (merge_into false v n) ≡ merge_into false v n
  merge_again (object fs) (object dst) w =
      ap object (merge-Absorbed fs _ (Absorbed-again fs fs dst w w (Found-self fs w)))
  merge_again (object fs) _ w = merge_self (object fs) w
  merge_again (array xs) (array ys) w = refl
  merge_again (array xs) _ w = refl
  merge_again null n w = refl
  merge_again (boolean b) n w = refl
  merge_again (integer b) n w = refl
  merge_again (double b) n w = refl
  merge_again (string b) n w = refl

  Absorbed-again :
      (src all dst : Entries)
      → AreWf src
      → AreWf all
      → Found src all
      → Absorbed src (merge_entries false all dst)
  Absorbed-again end all dst w u f = tt
  Absorbed-again (entry k v src) all dst w u f = (
    (
      over false v (find k dst),
      rw (find-merge_entries false k all dst u, f.0) (over-layered false v (find k dst)),
      over_again k v dst (merge_self v w.1) (λ n. merge_again v n w.1),
    ),
    Absorbed-again src all dst w.2 u f.1,
  )

-- Merging an overlay a second time changes nothing, at every depth, where arrays are replaced and the
-- keys of the overlay's objects are different.
pub merge_into_idem :
    (v n : Node) → IsWf v → merge_into false v (merge_into false v n) ≡ merge_into false v n
merge_into_idem v n w = merge_again v n w
