-- ===== src/Cfgx/Json/Fuel.antt =====
-- The recursion of `JsonParser` of src/cfgx.cpp, on every text.
use toolx_cpp.Prelude.{ℕ, zero, suc, ◌+◌, ◌-◌, ◌*◌, ◌≤◌, arith, [], ◌∷◌, Bytes, Option, length}
use toolx_cpp.Cfgx.Node.{Node}
use toolx_cpp.Cfgx.Json.Cursor.{Place, first_place, skip_space, Parsed}
use toolx_cpp.Cfgx.Json.Parser.{
  Start, start_at, scalar, opens_array, opens_object, separator, parse_key, read_array, read_object,
  parse_value, parse_elements, parse_entries, at_end, parse_json,
}
use toolx_cpp.Cfgx.Json.Within.{Within, Within-bind, Within-weaken, skip_space-length}
use toolx_cpp.Cfgx.Json.Progress.{
  StartWithin, separator-Within, parse_key-Within, read_array-Within, read_object-Within,
  more_elements-Within, more_entries-Within, start_at-Within,
}

module _ (read_double : Bytes → Option ℕ) where
  -- `parse_value` with what its start is.
  from_start : ℕ → Start → Parsed Node
  from_start fuel start = elim start [
    | scalar r ↦ r
    | opens_array t q ↦ read_array (parse_elements read_double fuel) (skip_space t q)
    | opens_object t q ↦ read_object (parse_entries read_double fuel) (skip_space t q)
  ]

  from_start-Within :
      (fuel n : ℕ) (start : Start)
      → StartWithin n start
      → 2 * n ≤ fuel
      → ((t : Bytes) (q : Place)
          → 2 * length t + 2 ≤ fuel
          → Within (length t) (parse_elements read_double fuel (t, q))
            × Within (length t) (parse_entries read_double fuel (t, q)))
      → Within (n - 1) (from_start fuel start)
  unfolding from_start
  from_start-Within fuel n (scalar r) w h again = w
  from_start-Within fuel n (opens_array t q) w h again =
      let l = skip_space-length t q in
      let (u, r) = skip_space t q in
      read_array-Within _ u r (n - 1) (omega arith)
        (Within-weaken (length u) _ _ (omega arith) (again u r (omega arith)).0)
  from_start-Within fuel n (opens_object t q) w h again =
      let l = skip_space-length t q in
      let (u, r) = skip_space t q in
      read_object-Within _ u r (n - 1) (omega arith)
        (Within-weaken (length u) _ _ (omega arith) (again u r (omega arith)).1)

  mutual
    unfolding parse_value from_start

    parse_value-Within :
        (fuel : ℕ) (s : Bytes) (p : Place)
        → 2 * length s + 1 ≤ fuel
        → Within (length s - 1) (parse_value read_double fuel (s, p))
    parse_value-Within zero s p h = absurd (omega arith)
    parse_value-Within (suc fuel) s p h =
        let l = skip_space-length s p in
        let (t, q) = skip_space s p in
        Within-weaken (length t - 1) _ _ (omega arith) (
          from_start-Within fuel (length t) (start_at read_double (t, q))
            (start_at-Within read_double t q) (omega arith)
            (λ u r k. (parse_elements-Within fuel u r k, parse_entries-Within fuel u r k)))

    parse_elements-Within :
        (fuel : ℕ) (s : Bytes) (p : Place)
        → 2 * length s + 2 ≤ fuel
        → Within (length s) (parse_elements read_double fuel (s, p))
    parse_elements-Within zero s p h = absurd (omega arith)
    parse_elements-Within (suc fuel) [] p h = tt
    parse_elements-Within (suc fuel) (c ∷ s) p h =
        let l = skip_space-length (c ∷ s) p in
        let (t, q) = skip_space (c ∷ s) p in
        Within-bind (length t - 1) _ (parse_value read_double fuel (t, q)) _
          (parse_value-Within fuel t q (omega arith))
          (λ v u r k.
            let m = skip_space-length u r in
            let (w, o) = skip_space u r in
            more_elements-Within _ v (separator b']' (w, o)) (length w) _
              (separator-Within b']' w o) (omega arith)
              (λ x y i.
                Within-weaken (length x) _ _ (omega arith)
                  (parse_elements-Within fuel x y (omega arith))))

    parse_entries-Within :
        (fuel : ℕ) (s : Bytes) (p : Place)
        → 2 * length s + 2 ≤ fuel
        → Within (length s) (parse_entries read_double fuel (s, p))
    parse_entries-Within zero s p h = absurd (omega arith)
    parse_entries-Within (suc fuel) [] p h = tt
    parse_entries-Within (suc fuel) (c ∷ s) p h =
        let l = skip_space-length (c ∷ s) p in
        let (t, q) = skip_space (c ∷ s) p in
        Within-bind (length t - 1) _ (parse_key (t, q)) _ (parse_key-Within t q) (λ key a b j.
          Within-bind (length a - 1) _ (parse_value read_double fuel (a, b)) _
            (parse_value-Within fuel a b (omega arith))
            (λ v u r k.
              let m = skip_space-length u r in
              let (w, o) = skip_space u r in
              more_entries-Within _ key v (separator b'}' (w, o)) (length w) _
                (separator-Within b'}' w o) (omega arith)
                (λ x y i.
                  Within-weaken (length x) _ _ (omega arith)
                    (parse_entries-Within fuel x y (omega arith)))))

  at_end-Within : (v : Node) (s : Bytes) (p : Place) → Within 0 (at_end read_double v (s, p))
  at_end-Within v [] p = omega arith
  at_end-Within v (c ∷ s) p = tt

  -- Every text is read to its end or refused with a reason and a place.
  pub parse_json-total : (text : Bytes) → Within 0 (parse_json read_double text)
  unfolding parse_json
  parse_json-total text =
      let l = skip_space-length text first_place in
      let (t, q) = skip_space text first_place in
      Within-bind (length t - 1) 0 (parse_value read_double (2 * length text + 1) (t, q)) _
        (parse_value-Within (2 * length text + 1) t q (omega arith))
        (λ v u r k. at_end-Within v (skip_space u r).0 (skip_space u r).1)
