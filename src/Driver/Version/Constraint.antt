-- ===== src/Driver/Version/Constraint.antt =====
-- `parseVersionConstraint` and `VersionConstraint::toString` of src/Driver/ProjectConfig.cpp.
use Prim.Native.Nat.{ℕ}
use liva_lang.Base.{Bool, ◌&&◌, ◌||◌, [], ◌∷◌, ◌++◌, Option, none, some, Bytes, ◌==◌, if◌then◌else◌}
use liva_lang.Driver.Version.{
  SemVer, to_string, VersionError, VersionResult, parse_sem_ver, VersionConstraint, caret, tilde,
}

pub data ConstraintError : Type 0 where
  empty_constraint no_minimum no_maximum unsupported : ConstraintError
  in_minimum in_maximum in_version after_caret after_tilde in_exact : VersionError → ConstraintError

pub data ConstraintResult : Type 0 where
  ok : VersionConstraint → ConstraintResult
  err : ConstraintError → ConstraintResult

-- `toString`
unfoldable pub print_constraint : VersionConstraint → Bytes
unfolding to_string
print_constraint (VersionConstraint.exact m) = to_string m
print_constraint (VersionConstraint.minimum m) = b'>' ∷ b'=' ∷ to_string m
print_constraint (VersionConstraint.range m x) =
    b'>' ∷ b'=' ∷ (to_string m ++ b',' ∷ b'<' ∷ to_string x)

abbrev pub is_blank : ℕ → Bool
is_blank b = b == b' ' || b == 9

unfoldable pub trim_front : Bytes → Bytes
trim_front [] = []
trim_front (b ∷ bs) = let rest = trim_front bs in if is_blank b then rest else b ∷ bs

abbrev pub keep_blank : ℕ → Bytes → Bytes
keep_blank b [] = if is_blank b then [] else b ∷ []
keep_blank b (c ∷ cs) = b ∷ c ∷ cs

unfoldable pub trim_back : Bytes → Bytes
trim_back [] = []
trim_back (b ∷ bs) = keep_blank b (trim_back bs)

-- `trimStr`
unfoldable pub trim_str : Bytes → Bytes
unfolding trim_front trim_back
trim_str s = trim_back (trim_front s)

abbrev pub put_before : ℕ → Option (Bytes × Bytes) → Option (Bytes × Bytes)
put_before b none = none
put_before b (some (l, r)) = some (b ∷ l, r)

-- What stands before and behind the first comma
unfoldable pub split_comma : Bytes → Option (Bytes × Bytes)
split_comma [] = none
split_comma (b ∷ bs) =
    let rest = split_comma bs in if b == b',' then some ([], bs) else put_before b rest

-- What follows `>=`, which is at least a byte
unfoldable pub after_minimum : Bytes → Option Bytes
after_minimum (a ∷ b ∷ c ∷ r) = if a == b'>' && b == b'=' then some (c ∷ r) else none
after_minimum _ = none

-- What follows `<`, which is at least a byte
unfoldable pub after_maximum : Bytes → Option Bytes
after_maximum (a ∷ b ∷ r) = if a == b'<' then some (b ∷ r) else none
after_maximum _ = none

-- The version that is read, or the error
abbrev pub then_version :
    VersionResult
    → (VersionError → ConstraintError)
    → (SemVer → ConstraintResult)
    → ConstraintResult
then_version (VersionResult.err e) f k = ConstraintResult.err (f e)
then_version (VersionResult.ok v) f k = k v

abbrev pub read_range : Option Bytes → Option Bytes → ConstraintResult
read_range none r = ConstraintResult.err ConstraintError.no_minimum
read_range (some l) none = ConstraintResult.err ConstraintError.no_maximum
read_range (some l) (some r) =
    then_version (parse_sem_ver (trim_str l)) ConstraintError.in_minimum (λ (m : SemVer).
      then_version (parse_sem_ver (trim_str r)) ConstraintError.in_maximum
        (λ (x : SemVer). ConstraintResult.ok (VersionConstraint.range m x)))

-- By the first byte, where there is no `>=`
abbrev pub read_operator : Bytes → ConstraintResult
read_operator [] = ConstraintResult.err ConstraintError.empty_constraint
read_operator (b ∷ bs) =
    if b == b'^'
    then then_version (parse_sem_ver (trim_str bs)) ConstraintError.after_caret
        (λ (v : SemVer). ConstraintResult.ok (caret v))
    else if b == b'~'
    then then_version (parse_sem_ver (trim_str bs)) ConstraintError.after_tilde
        (λ (v : SemVer). ConstraintResult.ok (tilde v))
    else if b == b'>' || (b == b'<' || b == b'!')
    then ConstraintResult.err ConstraintError.unsupported
    else then_version (parse_sem_ver (b ∷ bs)) ConstraintError.in_exact
        (λ (v : SemVer). ConstraintResult.ok (VersionConstraint.exact v))

abbrev pub read_single : Option Bytes → Bytes → ConstraintResult
read_single (some r) s =
    then_version (parse_sem_ver (trim_str r)) ConstraintError.in_version
      (λ (v : SemVer). ConstraintResult.ok (VersionConstraint.minimum v))
read_single none s = read_operator s

abbrev pub read_split : Option (Bytes × Bytes) → Bytes → ConstraintResult
read_split (some (l, r)) s = read_range (after_minimum (trim_str l)) (after_maximum (trim_str r))
read_split none s = read_single (after_minimum s) s

abbrev pub read_trimmed : Bytes → ConstraintResult
read_trimmed [] = ConstraintResult.err ConstraintError.empty_constraint
read_trimmed (b ∷ bs) = read_split (split_comma (b ∷ bs)) (b ∷ bs)

-- `parseVersionConstraint`
unfoldable pub parse_version_constraint : Bytes → ConstraintResult
unfolding trim_str split_comma after_minimum after_maximum parse_sem_ver caret tilde
parse_version_constraint s = read_trimmed (trim_str s)
