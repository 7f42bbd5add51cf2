-- ===== src/Cfgx/Node.antt =====
-- `cfgx::Node`: the values of a configuration and the member functions that read and change one
-- node. An object is the vector of its entries in order, and nothing keeps its keys apart.
pub mod Fields
pub mod Items
use toolx_cpp.Prelude.{
  ℕ, zero, suc, ◌+◌, ◌≡◌, Bool, true, false, List, [], ◌∷◌, Bytes, bytes_eq, Option, none, some,
  if◌then◌else◌, ltb, length,
}
use toolx_cpp.Prelude.Int.{ℤ}
use toolx_cpp.Cfgx.Error.{Error, Result, ok, err, Status, done}

-- A double is its 64 bits.
mutual
  pub data Node : Type 0 where
    null : Node
    boolean : Bool → Node
    integer : ℤ → Node
    double : ℕ → Node
    string : Bytes → Node
    object : Entries → Node
    array : Elements → Node

  pub data Entries : Type 0 where
    end : Entries
    entry : Bytes → Node → Entries → Entries

  pub data Elements : Type 0 where
    nil : Elements
    element : Node → Elements → Elements

pub data NodeKind : Type 0 where
  null_kind bool_kind integer_kind double_kind string_kind object_kind array_kind : NodeKind

pub kind : Node → NodeKind
kind null = null_kind
kind (boolean b) = bool_kind
kind (integer n) = integer_kind
kind (double d) = double_kind
kind (string s) = string_kind
kind (object fs) = object_kind
kind (array xs) = array_kind

unfoldable pub is_object : Node → Bool
is_object (object fs) = true
is_object _ = false

pub is_array : Node → Bool
is_array (array xs) = true
is_array _ = false

pub is_empty : Node → Bool
is_empty null = true
is_empty (string []) = true
is_empty (object end) = true
is_empty (array nil) = true
is_empty _ = false

abbrev pub entry_count : Entries → ℕ
entry_count end = 0
entry_count (entry k n fs) = suc (entry_count fs)

abbrev pub element_count : Elements → ℕ
element_count nil = 0
element_count (element n xs) = suc (element_count xs)

pub size : Node → ℕ
size (object fs) = entry_count fs
size (array xs) = element_count xs
size (string s) = length s
size _ = 0

-- The value at `FindObjectIndex`, the first entry with the key.
unfoldable pub find : Bytes → Entries → Option Node
find k end = none
find k (entry j n fs) = if bytes_eq j k then some n else find k fs

-- A write to the value at `FindObjectIndex`, where an entry is pushed at the back if there is none.
unfoldable pub put : Bytes → Node → Entries → Entries
put k v end = entry k v end
put k v (entry j n fs) = if bytes_eq j k then entry j v fs else entry j n (put k v fs)

-- `erase(begin() + index)` at `FindObjectIndex`.
unfoldable pub erase_entry : Bytes → Entries → Entries
erase_entry k end = end
erase_entry k (entry j n fs) = if bytes_eq j k then fs else entry j n (erase_entry k fs)

-- The element at an index below the size.
unfoldable pub at? : ℕ → Elements → Option Node
at? i nil = none
at? zero (element n xs) = some n
at? (suc i) (element n xs) = at? i xs

-- A write at an index, where the array is resized to hold it.
unfoldable pub put_at : ℕ → Node → Elements → Elements
put_at zero v nil = element v nil
put_at (suc i) v nil = element null (put_at i v nil)
put_at zero v (element n xs) = element v xs
put_at (suc i) v (element n xs) = element n (put_at i v xs)

unfoldable pub erase_element : ℕ → Elements → Elements
erase_element i nil = nil
erase_element zero (element n xs) = xs
erase_element (suc i) (element n xs) = element n (erase_element i xs)

pub push_element : Node → Elements → Elements
push_element v nil = element v nil
push_element v (element n xs) = element n (push_element v xs)

-- The entries have different keys, at every depth.
unfoldable mutual
  pub IsWf : Node → Type 0
  IsWf null = Unit {0}
  IsWf (boolean b) = Unit {0}
  IsWf (integer n) = Unit {0}
  IsWf (double d) = Unit {0}
  IsWf (string s) = Unit {0}
  IsWf (object fs) = AreWf fs
  IsWf (array xs) = AllWf xs

  pub AreWf : Entries → Type 0
  AreWf end = Unit {0}
  AreWf (entry k n fs) = (find k fs ≡ none) × IsWf n × AreWf fs

  pub AllWf : Elements → Type 0
  AllWf nil = Unit {0}
  AllWf (element n xs) = IsWf n × AllWf xs
