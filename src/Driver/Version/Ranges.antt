-- ===== src/Driver/Version/Ranges.antt =====
-- The versions that `^` and `~` allow.
use Prim.Native.Nat.{ℕ, ◌<◌, ◌-◌, ◌^◌}
use liva_lang.Base.{Bool, ◌&&◌, ltb, ◌==◌, if◌then◌else◌, ◌≡◌, arith}
use liva_lang.Base.Decimal.{pos}
use liva_lang.Driver.Version.{SemVer, eq_ℤ, less, at_least, satisfied_by, caret, tilde}

-- A version of three numbers
abbrev pub version : ℕ → ℕ → ℕ → SemVer
version a b c = record { major = pos a; minor = pos b; patch = pos c }

-- The same up to the first part of the first version that is not 0
abbrev pub is_compatible : ℕ → ℕ → ℕ → SemVer → Bool
is_compatible a b c w =
    if ltb 0 a
    then eq_ℤ w.major (pos a)
    else if ltb 0 b
    then eq_ℤ w.major (pos 0) && eq_ℤ w.minor (pos b)
    else eq_ℤ w.major (pos 0) && (eq_ℤ w.minor (pos 0) && eq_ℤ w.patch (pos c))

-- Parts to which 1 can be added in an `int`
abbrev pub HasNext : ℕ → ℕ → ℕ → Type 0
HasNext a b c = (a < 2 ^ 31 - 1) × (b < 2 ^ 31 - 1) × (c < 2 ^ 31 - 1)

-- Where each of `a`, `b` and `c` is below the greatest `int`, a version of which no part is negative
-- satisfies `^a.b.c` exactly if it is not below `a.b.c` and is the same up to the first part of that
-- which is not 0, and it satisfies `~a.b.c` exactly if it is not below it and has its first two parts.
pub caret-tilde :
    (a b c x y z : ℕ)
    → HasNext a b c
    → (satisfied_by (caret (version a b c)) (version x y z)
        ≡ (at_least (version x y z) (version a b c) && is_compatible a b c (version x y z)))
      × (satisfied_by (tilde (version a b c)) (version x y z)
          ≡ (at_least (version x y z) (version a b c) && (x == a && y == b)))
unfolding satisfied_by caret tilde less
caret-tilde a b c x y z h = (ground (arith, h.0, h.1, h.2), ground (arith, h.1))
