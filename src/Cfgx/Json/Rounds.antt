-- ===== src/Cfgx/Json/Rounds.antt =====
-- The parts of `JsonParser` of src/cfgx.cpp at the text that `AppendJson` writes.
use toolx_cpp.Prelude.{
  ℕ, suc, ◌≡◌, refl, ap, ◌∙◌, true, false, [], ◌∷◌, ◌++◌, append_assoc, Bytes, All, Option, none,
  ◌==◌, codes,
}
use toolx_cpp.Cfgx.Node.{
  Node, null, boolean, string, object, array, Entries, end, entry, Elements, nil, element,
}
use toolx_cpp.Cfgx.Json.Cursor.{Place, move, is_space, skip_space, Parsed, parsed, ◌>>=◌}
use toolx_cpp.Cfgx.Json.Text.{escape_json}
use toolx_cpp.Cfgx.Json.Text.RoundTrip.{parse_string-quoted}
use toolx_cpp.Cfgx.Json.Parser.{
  start_at, literal, parse_literal, separator, is_closed, parse_key, read_array, read_object,
  more_elements, more_entries, parse_value, parse_elements, parse_entries,
}
use toolx_cpp.Cfgx.Json.Printer.{quoted}
use toolx_cpp.Cfgx.Json.Spaces.{IsSpace, Starts, skip_space-Starts, skip_space-append}
use toolx_cpp.Cfgx.Json.Values.{parse_value-scalar}

-- A value starts with no space and no bracket that closes.
pub record Opens (s : Bytes) : Type 0 where
  pub starts : Starts s
  pub no_close : (starts.head == b']') ≡ false

-- What follows the last element, and the comma.
pub last_element :
    (again : Bytes × Place → Parsed Elements) (v : Node) (b rest : Bytes) (p : Place)
    → All IsSpace b
    → (q : Place) × (more_elements again v (separator b']' (skip_space (b ++ b']' ∷ rest) p))
        ≡ parsed (element v nil) rest q)
unfolding more_elements separator is_space
last_element again v b rest p h =
    let w : Starts (b']' ∷ rest) = record {
      head = b']';
      tail = rest;
      is_cons = refl;
      no_space = refl;
    } in
    let (q, e) = skip_space-append b (b']' ∷ rest) p h w in (move q b']', rw e)

pub comma_element :
    (again : Bytes × Place → Parsed Elements) (v : Node) (s : Bytes) (p : Place)
    → more_elements again v (separator b']' (skip_space (b',' ∷ s) p))
      ≡ (again (s, move p b',') >>= (λ xs w o. parsed (element v xs) w o))
unfolding more_elements separator is_space skip_space
comma_element again v s p = refl

-- A key with its colon, behind which the value stands.
pub key_read :
    (k b s : Bytes) (p : Place)
    → All IsSpace b
    → Starts s
    → (q : Place) × (parse_key (quoted k ++ (b':' ∷ (b ++ s)), p) ≡ parsed k s q)
unfolding parse_key quoted is_space
key_read k b s p h w =
    let text : quoted k ++ (b':' ∷ (b ++ s)) ≡ b'"' ∷ (escape_json k ++ b'"' ∷ b':' ∷ (b ++ s)) =
      ap (λ u. b'"' ∷ u) (append_assoc (escape_json k) (b'"' ∷ []) (b':' ∷ (b ++ s))) in
    let (q, e) = parse_string-quoted k (b':' ∷ (b ++ s)) p in
    let colon : Starts (b':' ∷ (b ++ s)) = record {
      head = b':';
      tail = b ++ s;
      is_cons = refl;
      no_space = refl;
    } in
    let (o, f) = skip_space-append b s (move q b':') h w in
    (o, rw (text, e, skip_space-Starts (b':' ∷ (b ++ s)) q colon, f))

pub quoted-Starts : (k s : Bytes) → Starts (quoted k ++ s)
unfolding quoted is_space
quoted-Starts k s = record { head = b'"'; tail = _; is_cons = refl; no_space = refl }

pub last_entry :
    (again : Bytes × Place → Parsed Entries) (k : Bytes) (v : Node) (b rest : Bytes) (p : Place)
    → All IsSpace b
    → (q : Place) × (more_entries again k v (separator b'}' (skip_space (b ++ b'}' ∷ rest) p))
        ≡ parsed (entry k v end) rest q)
unfolding more_entries separator is_space
last_entry again k v b rest p h =
    let w : Starts (b'}' ∷ rest) = record {
      head = b'}';
      tail = rest;
      is_cons = refl;
      no_space = refl;
    } in
    let (q, e) = skip_space-append b (b'}' ∷ rest) p h w in (move q b'}', rw e)

pub comma_entry :
    (again : Bytes × Place → Parsed Entries) (k : Bytes) (v : Node) (s : Bytes) (p : Place)
    → more_entries again k v (separator b'}' (skip_space (b',' ∷ s) p))
      ≡ (again (s, move p b',') >>= (λ fs w o. parsed (entry k v fs) w o))
unfolding more_entries separator is_space skip_space
comma_entry again k v s p = refl

pub is_closed-Opens : (s : Bytes) (p : Place) → Opens s → is_closed b']' (s, p) ≡ none
unfolding is_closed
is_closed-Opens s p w = rw (w.starts.is_cons, is_closed, w.no_close)

-- The bracket does not stand where an item does.
pub read_array-filled :
    (items : Bytes × Place → Parsed Elements) (s : Bytes) (p : Place) {xs : Elements} {rest : Bytes}
    {q : Place}
    → Opens s
    → items (s, p) ≡ parsed xs rest q
    → read_array items (s, p) ≡ parsed (array xs) rest q
unfolding read_array
read_array-filled items s p w h = rw (is_closed-Opens s p w, read_array, h)

pub read_object-filled :
    (items : Bytes × Place → Parsed Entries) (k t : Bytes) (p : Place) {fs : Entries} {rest : Bytes}
    {q : Place}
    → items (quoted k ++ t, p) ≡ parsed fs rest q
    → read_object items (quoted k ++ t, p) ≡ parsed (object fs) rest q
unfolding read_object is_closed quoted
read_object-filled items k t p h = rw h

module _ (read_double : Bytes → Option ℕ) where
  -- A value that is read leaves the rest of the text.
  abbrev pub Reads : ℕ → Bytes → Place → Node → Bytes → Type 0
  Reads fuel s p n rest = (q : Place) × (parse_value read_double fuel (s, p) ≡ parsed n rest q)

  pub read_string :
      (fuel : ℕ) (s rest : Bytes) (p : Place)
      → Reads (suc fuel) (quoted s ++ rest) p (string s) rest
  unfolding quoted is_space start_at
  read_string fuel s rest p =
      let (q, e) = parse_string-quoted s rest p in
      let text : quoted s ++ rest ≡ b'"' ∷ (escape_json s ++ b'"' ∷ rest) =
        ap (λ u. b'"' ∷ u) (append_assoc (escape_json s) (b'"' ∷ []) rest) in
      let w : Starts (b'"' ∷ (escape_json s ++ b'"' ∷ rest)) = record {
        head = b'"';
        tail = _;
        is_cons = refl;
        no_space = refl;
      } in
      (q, rw text (parse_value-scalar read_double fuel _ p w refl ∙ rw e))

  -- A round of the loop over the elements, behind white space.
  pub elements_round :
      (fuel : ℕ) (b s : Bytes) (p : Place)
      → All IsSpace b
      → Starts s
      → (q : Place) × (parse_elements read_double (suc fuel) (b ++ s, p) ≡ (
          parse_value read_double fuel (s, q) >>= (λ v t o.
            more_elements (parse_elements read_double fuel) v (separator b']' (skip_space t o)))))
  unfolding parse_elements
  elements_round fuel [] s p h w =
      (p, rw (w.is_cons, parse_elements) (rw (← w.is_cons, skip_space-Starts s p w)))
  elements_round fuel (c ∷ b) s p h w =
      let (q, e) = skip_space-append (c ∷ b) s p h w in (q, rw (parse_elements, e))

  pub entries_round :
      (fuel : ℕ) (b k sp s : Bytes) (p : Place)
      → All IsSpace b
      → All IsSpace sp
      → Starts s
      → (q : Place) × (parse_entries read_double
            (suc fuel)
            (b ++ (quoted k ++ (b':' ∷ (sp ++ s))), p)
          ≡ (parse_value read_double fuel (s, q) >>= (λ v u r.
              more_entries (parse_entries read_double fuel) k v (separator b'}' (skip_space u r)))))
  unfolding parse_entries
  entries_round fuel [] k sp s p h hsp w =
      let w' = quoted-Starts k (b':' ∷ (sp ++ s)) in
      let (q, e) = key_read k sp s p hsp w in
      (q, rw (w'.is_cons, parse_entries) (rw (← w'.is_cons, skip_space-Starts _ p w', e)))
  entries_round fuel (c ∷ b) k sp s p h hsp w =
      let w' = quoted-Starts k (b':' ∷ (sp ++ s)) in
      let (o, f) = skip_space-append (c ∷ b) _ p h w' in
      let (q, e) = key_read k sp s o hsp w in (q, rw (parse_entries, f, e))

  pub read_word :
      (fuel : ℕ) (rest : Bytes) (p : Place)
      → Reads (suc fuel) (codes "null" ++ rest) p null rest
        × Reads (suc fuel) (codes "true" ++ rest) p (boolean true) rest
        × Reads (suc fuel) (codes "false" ++ rest) p (boolean false) rest
  unfolding parse_value start_at skip_space is_space parse_literal literal
  read_word fuel rest p = ((_, refl), (_, refl), (_, refl))

  pub open_array :
      (fuel : ℕ) (s : Bytes) (p : Place)
      → parse_value read_double (suc fuel) (b'[' ∷ s, p)
        ≡ read_array (parse_elements read_double fuel) (skip_space s (move p b'['))
  unfolding parse_value start_at skip_space is_space
  open_array fuel s p = refl

  pub open_object :
      (fuel : ℕ) (s : Bytes) (p : Place)
      → parse_value read_double (suc fuel) (b'{' ∷ s, p)
        ≡ read_object (parse_entries read_double fuel) (skip_space s (move p b'{'))
  unfolding parse_value start_at skip_space is_space
  open_object fuel s p = refl

  pub read_empty_array :
      (fuel : ℕ) (rest : Bytes) (p : Place)
      → Reads (suc fuel) (b'[' ∷ b']' ∷ rest) p (array nil) rest
  unfolding parse_value start_at skip_space is_space read_array is_closed
  read_empty_array fuel rest p = (_, refl)

  pub read_empty_object :
      (fuel : ℕ) (rest : Bytes) (p : Place)
      → Reads (suc fuel) (b'{' ∷ b'}' ∷ rest) p (object end) rest
  unfolding parse_value start_at skip_space is_space read_object is_closed
  read_empty_object fuel rest p = (_, refl)
