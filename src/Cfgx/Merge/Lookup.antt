-- ===== src/Cfgx/Merge/Lookup.antt =====
-- What a merge does to every key of an object.
use toolx_cpp.Prelude.{
  ◌≡◌, refl, sym, Bool, true, false, Bytes, bytes_eq, bytes_eq_iff, Option, none, some,
  Option-cases, Bool-cases, inl, inr,
}
use toolx_cpp.Cfgx.Node.{
  Node, null, boolean, integer, double, string, object, array, Entries, end, entry, Elements, nil,
  element, find, put, IsWf, AreWf, AllWf,
}
use toolx_cpp.Cfgx.Node.Fields.{find-end, find-entry, find-put, find-AreWf, put-AreWf}
use toolx_cpp.Cfgx.Access.{try_object, try_array}
use toolx_cpp.Cfgx.Merge.{append_elements, merge_into, merge_entries}

-- The value at a key, from those of the overlay and of the base.
abbrev pub layered : Bool → Option Node → Option Node → Option Node
layered append_arrays none o = o
layered append_arrays (some v) none = some v
layered append_arrays (some v) (some n) = some (merge_into append_arrays v n)

module _ (a : Bool) where
  -- The value that a round of the loop writes at its key.
  abbrev pub over : Node → Option Node → Node
  over v none = v
  over v (some n) = merge_into a v n

  pub merge-entry :
      (k : Bytes) (v : Node) (src dst : Entries)
      → merge_entries a (entry k v src) dst ≡ merge_entries a src (put k (over v (find k dst)) dst)
  unfolding merge_entries
  merge-entry k v src dst = elim (Option-cases (find k dst)) [
    | inl gone ↦ rw (gone, merge_entries)
    | inr (n, there) ↦ rw (there, merge_entries)
  ]

  pub merge-end : (dst : Entries) → merge_entries a end dst ≡ dst
  unfolding merge_entries
  merge-end dst = refl

  pub over-layered : (v : Node) (o : Option Node) → layered a (some v) o ≡ some (over v o)
  over-layered v none = refl
  over-layered v (some n) = refl

-- A merge of an object with different keys acts at each key by itself: a key of the base alone keeps its value, a key of the
-- overlay alone is added, and at a key of both the value of the overlay is merged into the other.
pub find-merge_entries :
    (a : Bool) (j : Bytes) (src dst : Entries)
    → AreWf src
    → find j (merge_entries a src dst) ≡ layered a (find j src) (find j dst)
unfolding AreWf
find-merge_entries a j end dst w = rw (merge-end a dst, find-end j)
find-merge_entries a j (entry k v src) dst w =
    let x = over a v (find k dst) in
    elim (Bool-cases (bytes_eq k j)) [
      | inl same ↦
          let e : k ≡ j = (bytes_eq_iff k j).0 same in
          rw
            (
              merge-entry a k v src dst,
              find-merge_entries a j src (put k x dst) w.2,
              find-put j k x dst,
              find-entry j k v src,
              same,
              ← e,
              w.0,
            )
            (sym (over-layered a v (find k dst)))
      | inr other ↦ rw (
        merge-entry a k v src dst,
        find-merge_entries a j src (put k x dst) w.2,
        find-put j k x dst,
        find-entry j k v src,
        other,
      )
    ]

append-AllWf : (dst src : Elements) → AllWf dst → AllWf src → AllWf (append_elements dst src)
unfolding append_elements AllWf
append-AllWf nil src h w = w
append-AllWf (element n dst) src h w = (h.0, append-AllWf dst src h.1 w)

over-IsWf :
    (a : Bool) (v : Node) (k : Bytes) (dst : Entries)
    → IsWf v
    → ((n : Node) → IsWf n → IsWf (merge_into a v n))
    → AreWf dst
    → IsWf (over a v (find k dst))
over-IsWf a v k dst hv keeps w = elim (Option-cases (find k dst)) [
  | inl gone ↦ rw gone hv
  | inr (n, there) ↦ rw there (keeps n (find-AreWf k dst w there))
]

mutual
  unfolding IsWf merge_into try_object try_array

  merge_into-keeps_IsWf : (a : Bool) (v n : Node) → IsWf v → IsWf n → IsWf (merge_into a v n)
  merge_into-keeps_IsWf a (object src) (object dst) hv hn = merge_entries-keeps_wf a src dst hv hn
  merge_into-keeps_IsWf a (object src) _ hv hn = hv
  merge_into-keeps_IsWf true (array src) (array dst) hv hn = append-AllWf dst src hn hv
  merge_into-keeps_IsWf false (array src) (array dst) hv hn = hv
  merge_into-keeps_IsWf a (array src) _ hv hn = hv
  merge_into-keeps_IsWf a null n hv hn = tt
  merge_into-keeps_IsWf a (boolean b) n hv hn = tt
  merge_into-keeps_IsWf a (integer b) n hv hn = tt
  merge_into-keeps_IsWf a (double b) n hv hn = tt
  merge_into-keeps_IsWf a (string b) n hv hn = tt

  merge_entries-keeps_wf :
      (a : Bool) (src dst : Entries) → AreWf src → AreWf dst → AreWf (merge_entries a src dst)
  merge_entries-keeps_wf a end dst hs hd = hd
  merge_entries-keeps_wf a (entry k v src) dst hs hd = rw (merge-entry a k v src dst) (
      merge_entries-keeps_wf a src _ hs.2 (
        put-AreWf k _ dst
          (over-IsWf a v k dst hs.1 (λ n hn. merge_into-keeps_IsWf a v n hs.1 hn) hd) hd))

-- A merge of two values with different keys in every object gives another such value.
pub merge_into-IsWf : (a : Bool) (v n : Node) → IsWf v → IsWf n → IsWf (merge_into a v n)
merge_into-IsWf a v n = merge_into-keeps_IsWf a v n
