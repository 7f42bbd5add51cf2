-- ===== src/Schemax/Numbers.antt =====
-- The numbers of src/schemax.cpp: integers and doubles.
use toolx_cpp.Prelude.{
  ℕ, zero, suc, ◌+◌, ◌-◌, ◌*◌, ◌/◌, ◌%◌, ◌^◌, Bool, true, false, not, ◌&&◌, ◌||◌, ltb, leb, ◌==◌,
  if◌then◌else◌, Option, none, some,
}
use toolx_cpp.Prelude.Int.{ℤ, pos, negsuc}
use toolx_cpp.Cfgx.Node.{Node, integer, double}

-- `std::partial_ordering`.
pub data PartialOrdering : Type 0 where
  less equivalent greater unordered : PartialOrdering

-- `o < 0`, `o > 0` and `o == 0`.
abbrev pub is_below : PartialOrdering → Bool
is_below less = true
is_below o = false

abbrev pub is_above : PartialOrdering → Bool
is_above greater = true
is_above o = false

abbrev pub is_same : PartialOrdering → Bool
is_same equivalent = true
is_same o = false

-- `0 <=> o`.
unfoldable pub reverse : PartialOrdering → PartialOrdering
reverse less = greater
reverse equivalent = equivalent
reverse greater = less
reverse unordered = unordered

unfoldable pub compare_nat : ℕ → ℕ → PartialOrdering
compare_nat a b = if ltb a b then less else if ltb b a then greater else equivalent

unfoldable pub compare_int : ℤ → ℤ → PartialOrdering
compare_int (pos a) (pos b) = compare_nat a b
compare_int (pos a) (negsuc b) = greater
compare_int (negsuc a) (pos b) = less
compare_int (negsuc a) (negsuc b) = compare_nat b a

abbrev pub negate_nat : ℕ → ℤ
negate_nat zero = pos 0
negate_nat (suc n) = negsuc n

-- The parts of a double: its sign, its exponent, and its bits without the sign, which rise with its size.
abbrev pub is_negative : ℕ → Bool
is_negative d = not (d / 2 ^ 63 == 0)

abbrev pub magnitude : ℕ → ℕ
magnitude d = d % 2 ^ 63

abbrev pub exponent : ℕ → ℕ
exponent d = magnitude d / 2 ^ 52

abbrev pub infinity : ℕ
infinity = 2047 * 2 ^ 52

unfoldable pub is_nan : ℕ → Bool
is_nan d = ltb infinity (magnitude d)

abbrev pub signed : Bool → ℕ → ℤ
signed negative n = if negative then negate_nat n else pos n

-- `<=>` on two doubles.
unfoldable pub compare_double : ℕ → ℕ → PartialOrdering
compare_double a b =
    if is_nan a || is_nan b
    then unordered
    else compare_int (signed (is_negative a) (magnitude a)) (signed (is_negative b) (magnitude b))

-- The size of a finite double, rounded down to an integer.
unfoldable pub whole_part : ℕ → ℕ
whole_part d =
    let m = 2 ^ 52 + magnitude d % 2 ^ 52 in
    if ltb (exponent d) 1023
    then 0
    else if leb 1075 (exponent d)
    then m * 2 ^ (exponent d - 1075)
    else m / 2 ^ (1075 - exponent d)

-- `std::floor(d) == d`.
unfoldable pub is_whole_double : ℕ → Bool
is_whole_double d =
    if is_nan d
    then false
    else if leb 1075 (exponent d)
    then true
    else if ltb (exponent d) 1023
    then magnitude d == 0
    else (2 ^ 52 + magnitude d % 2 ^ 52) % 2 ^ (1075 - exponent d) == 0

-- The number of binary digits, for at most `fuel` of them.
unfoldable pub bit_count : ℕ → ℕ → ℕ
bit_count zero n = 0
bit_count (suc fuel) n = let rest = bit_count fuel (n / 2) in if n == 0 then 0 else suc rest

-- `static_cast<double>` of an int64_t: to the nearest double, to the even one of two.
unfoldable pub double_of_nat : ℕ → ℕ
double_of_nat n =
    let l = bit_count 64 n in
    let s = l - 53 in
    let up = ltb (2 ^ s) (2 * (n % 2 ^ s)) || (2 * (n % 2 ^ s) == 2 ^ s && n / 2 ^ s % 2 == 1) in
    if n == 0
    then 0
    else if leb l 53
    then (1022 + l) * 2 ^ 52 + (n * 2 ^ (53 - l) - 2 ^ 52)
    else (1022 + l) * 2 ^ 52 + (n / 2 ^ s + (if up then 1 else 0) - 2 ^ 52)

unfoldable pub double_of_int : ℤ → ℕ
double_of_int (pos n) = double_of_nat n
double_of_int (negsuc n) = 2 ^ 63 + double_of_nat (suc n)

abbrev pub double_of_limit : ℕ
double_of_limit = 1086 * 2 ^ 52

unfoldable pub compare_integer_to_double : ℤ → ℕ → PartialOrdering
compare_integer_to_double z d =
    if is_nan d
    then unordered
    else if is_below (compare_double d (2 ^ 63 + double_of_limit))
    then greater
    else if not (is_below (compare_double d double_of_limit))
    then less
    else elim (compare_int z (signed (is_negative d) (whole_part d))) [
      | equivalent ↦ compare_double (double_of_int z) d
      | o ↦ o
    ]

unfoldable pub is_number : Node → Bool
is_number (integer z) = true
is_number (double d) = true
is_number _ = false

unfoldable pub is_integer_number : Node → Bool
is_integer_number (integer z) = true
is_integer_number (double d) = is_whole_double d
is_integer_number _ = false

-- `AsDouble` and `AsInt` with their fallbacks.
unfoldable pub as_double : Node → ℕ
as_double (double d) = d
as_double (integer z) = double_of_int z
as_double _ = 0

-- `IsIntegralDouble`.
unfoldable pub to_int64 : ℕ → Option ℤ
to_int64 d =
    if leb infinity (magnitude d) || not (is_whole_double d)
    then none
    else if is_below (compare_double d (2 ^ 63 + double_of_limit))
        || not (is_below (compare_double d double_of_limit))
    then none
    else some (signed (is_negative d) (whole_part d))

unfoldable pub as_int : Node → ℤ
as_int (integer z) = z
as_int (double d) = elim (to_int64 d) [ none ↦ pos 0 | some z ↦ z ]
as_int _ = pos 0

-- `static_cast<std::size_t>` of an int64_t.
unfoldable pub as_size : ℤ → ℕ
as_size (pos n) = n
as_size (negsuc n) = 2 ^ 64 - suc n
