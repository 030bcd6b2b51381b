-- ===== src/Driver/Version.antt =====
-- `SemVer` and `VersionConstraint` of src/Driver/ProjectConfig.cpp.
use Prim.Native.Nat.{ℕ, zero, suc, ◌+◌, ◌-◌, ◌%◌, ◌^◌}
use liva_lang.Base.{
  Bool, true, false, ◌&&◌, ◌||◌, not, List, [], ◌∷◌, ◌++◌, Option, none, some, Bytes, codes, ltb,
  leb, ◌==◌, if◌then◌else◌,
}
use liva_lang.Base.Decimal.{ℤ, pos, negsuc, print_ℤ, value_from, is_digit}
pub mod Order
pub mod RoundTrip
pub mod Ranges
pub mod Constraint
pub mod Solid
pub mod ReadBack
mod Tests

-- `<` and `==` of `int`
abbrev pub less_ℤ : ℤ → ℤ → Bool
less_ℤ (pos a) (pos b) = ltb a b
less_ℤ (pos a) (negsuc b) = false
less_ℤ (negsuc a) (pos b) = true
less_ℤ (negsuc a) (negsuc b) = ltb b a

abbrev pub eq_ℤ : ℤ → ℤ → Bool
eq_ℤ (pos a) (pos b) = a == b
eq_ℤ (negsuc a) (negsuc b) = a == b
eq_ℤ _ _ = false

-- `int` of 32 bits
pub record SemVer : Type 0 where
  pub major : ℤ
  pub minor : ℤ
  pub patch : ℤ

-- `operator==` and `operator<`
unfoldable pub equals : SemVer → SemVer → Bool
equals v o = eq_ℤ v.major o.major && (eq_ℤ v.minor o.minor && eq_ℤ v.patch o.patch)

unfoldable pub less : SemVer → SemVer → Bool
less v o =
    if not (eq_ℤ v.major o.major)
    then less_ℤ v.major o.major
    else if not (eq_ℤ v.minor o.minor)
    then less_ℤ v.minor o.minor
    else less_ℤ v.patch o.patch

-- `operator>=`
abbrev pub at_least : SemVer → SemVer → Bool
at_least v o = not (less v o)

-- `toString`
unfoldable pub to_string : SemVer → Bytes
unfolding print_ℤ
to_string v = print_ℤ v.major ++ b'.' ∷ (print_ℤ v.minor ++ b'.' ∷ print_ℤ v.patch)

-- `isspace`
abbrev pub is_c_space : ℕ → Bool
is_c_space b = b == b' ' || (leb 9 b && leb b 13)

unfoldable pub skip_spaces : Bytes → Bytes
skip_spaces [] = []
skip_spaces (b ∷ bs) = let rest = skip_spaces bs in if is_c_space b then rest else b ∷ bs

-- The digits in front, and what follows them
unfoldable pub split_digits : Bytes → Bytes × Bytes
split_digits [] = ([], [])
split_digits (b ∷ bs) =
    let r = split_digits bs in if is_digit b then (b ∷ r.0, r.1) else ([], b ∷ bs)

-- A magnitude with its sign, kept within a `long` of 64 bits
abbrev pub clamp : Bool → ℕ → ℤ
clamp false n = pos (if ltb (2 ^ 63 - 1) n then 2 ^ 63 - 1 else n)
clamp true zero = pos 0
clamp true (suc n) = negsuc (if ltb (2 ^ 63 - 1) n then 2 ^ 63 - 1 else n)

abbrev pub read_digits : Bool → Bytes × Bytes → Option (ℤ × Bytes)
read_digits minus ([], r) = none
read_digits minus (d ∷ ds, r) = some (clamp minus (value_from 0 (d ∷ ds)), r)

abbrev pub read_signed : Bytes → Option (ℤ × Bytes)
read_signed [] = none
read_signed (b ∷ bs) =
    if b == b'-'
    then read_digits true (split_digits bs)
    else if b == b'+'
    then read_digits false (split_digits bs)
    else read_digits false (split_digits (b ∷ bs))

-- `strtol` in base 10, as the C standard has it; none if it reads no number
unfoldable pub strtol : Bytes → Option (ℤ × Bytes)
unfolding skip_spaces split_digits value_from
strtol bs = read_signed (skip_spaces bs)

-- The cast of a `long` that is not negative to `int`
unfoldable pub to_int : ℕ → ℤ
to_int n = if ltb (n % 2 ^ 32) (2 ^ 31) then pos (n % 2 ^ 32) else negsuc (2 ^ 32 - 1 - n % 2 ^ 32)

pub data VersionError : Type 0 where
  empty_string bad_major bad_minor bad_patch : VersionError

pub data VersionResult : Type 0 where
  ok : SemVer → VersionResult
  err : VersionError → VersionResult

-- A number that is not negative, behind which a dot stands
abbrev pub dotted : Option (ℤ × Bytes) → Option (ℕ × Bytes)
dotted (some (pos n, b ∷ r)) = if b == b'.' then some (n, r) else none
dotted _ = none

-- A number that is not negative, at the end
abbrev pub last_part : Option (ℤ × Bytes) → Option ℕ
last_part (some (pos n, [])) = some n
last_part _ = none

abbrev pub finish : ℕ → ℕ → Option ℕ → VersionResult
finish a b none = VersionResult.err VersionError.bad_patch
finish a b (some c) =
    VersionResult.ok (record { major = to_int a; minor = to_int b; patch = to_int c })

abbrev pub with_minor : ℕ → Option (ℕ × Bytes) → VersionResult
with_minor a none = VersionResult.err VersionError.bad_minor
with_minor a (some (b, r)) = finish a b (last_part (strtol r))

abbrev pub with_major : Option (ℕ × Bytes) → VersionResult
with_major none = VersionResult.err VersionError.bad_major
with_major (some (a, r)) = with_minor a (dotted (strtol r))

-- `c_str`: the text ends at its first NUL.
unfoldable pub c_str : Bytes → Bytes
c_str [] = []
c_str (b ∷ bs) = let rest = c_str bs in if b == 0 then [] else b ∷ rest

-- `parseSemVer`
unfoldable pub parse_sem_ver : Bytes → VersionResult
unfolding strtol to_int c_str
parse_sem_ver [] = VersionResult.err VersionError.empty_string
parse_sem_ver (b ∷ bs) = with_major (dotted (strtol (c_str (b ∷ bs))))

-- `VersionConstraint`; the maximum stands in a range only.
pub data VersionConstraint : Type 0 where
  exact : SemVer → VersionConstraint
  minimum : SemVer → VersionConstraint
  range : SemVer → SemVer → VersionConstraint

-- `satisfiedBy`
unfoldable pub satisfied_by : VersionConstraint → SemVer → Bool
unfolding equals less
satisfied_by (VersionConstraint.exact m) v = equals v m
satisfied_by (VersionConstraint.minimum m) v = at_least v m
satisfied_by (VersionConstraint.range m x) v = at_least v m && less v x

-- `+ 1` on an `int`. Behind the greatest one the addition overflows, which C++ leaves undefined; here
-- it wraps around to the least one.
abbrev pub next : ℤ → ℤ
next (pos n) = if ltb n (2 ^ 31 - 1) then pos (n + 1) else negsuc (2 ^ 31 - 1)
next (negsuc zero) = pos 0
next (negsuc (suc n)) = negsuc n

abbrev pub is_positive : ℤ → Bool
is_positive (pos n) = ltb 0 n
is_positive (negsuc n) = false

-- The range of `^v` and that of `~v`
unfoldable pub caret : SemVer → VersionConstraint
caret v = VersionConstraint.range v (
    if is_positive v.major
    then record { major = next v.major; minor = pos 0; patch = pos 0 }
    else if is_positive v.minor
    then record { major = pos 0; minor = next v.minor; patch = pos 0 }
    else record { major = pos 0; minor = pos 0; patch = next v.patch })

unfoldable pub tilde : SemVer → VersionConstraint
tilde v =
    VersionConstraint.range v (record { major = v.major; minor = next v.minor; patch = pos 0 })
