-- ===== src/Driver/Version/Tests.antt =====
-- Some versions.
use liva_lang.Base.{true, false, ◌&&◌, not, ◌==◌, ◌≡◌, ◌↔◌, arith, refl, codes, ◌∷◌}
use liva_lang.Driver.Version.{
  VersionConstraint, equals, less, at_least, satisfied_by, caret, tilde, parse_sem_ver, to_string,
  VersionResult,
}
use liva_lang.Driver.Version.Order.{less-equals}
use liva_lang.Driver.Version.Ranges.{version, is_compatible, caret-tilde}
use liva_lang.Driver.Version.Constraint.{
  ConstraintResult, print_constraint, parse_version_constraint,
}
use liva_lang.Driver.Version.ReadBack.{parse_version_constraint-print_constraint}
use liva_lang.Driver.Version.RoundTrip.{parse_sem_ver-to_string}

less-equals_example :
    (less (version 1 2 3) (version 1 2 3) ≡ false)
    × (less (version 1 2 3) (version 1 3 0) ≡ true
        → less (version 1 3 0) (version 2 0 0) ≡ true
        → less (version 1 2 3) (version 2 0 0) ≡ true)
    × (equals (version 1 2 3) (version 1 3 0) ≡ false
        → less (version 1 3 0) (version 1 2 3) ≡ not (less (version 1 2 3) (version 1 3 0)))
    × ((equals (version 1 2 3) (version 1 3 0) ≡ true) ↔ (version 1 2 3 ≡ version 1 3 0))
less-equals_example = less-equals (version 1 2 3) (version 1 3 0) (version 2 0 0)

caret-tilde_example :
    (satisfied_by (caret (version 0 2 3)) (version 0 2 9)
      ≡ (at_least (version 0 2 9) (version 0 2 3) && is_compatible 0 2 3 (version 0 2 9)))
    × (satisfied_by (tilde (version 0 2 3)) (version 0 2 9)
        ≡ (at_least (version 0 2 9) (version 0 2 3) && (0 == 0 && 2 == 2)))
caret-tilde_example = caret-tilde 0 2 3 0 2 9 (omega arith, omega arith, omega arith)

parse_sem_ver-to_string_example :
    parse_sem_ver (to_string (version 1 20 300)) ≡ VersionResult.ok (version 1 20 300)
parse_sem_ver-to_string_example =
    parse_sem_ver-to_string 1 20 300 (omega arith) (omega arith) (omega arith)

parse_version_constraint-print_constraint_example :
    (parse_version_constraint (print_constraint (VersionConstraint.exact (version 1 2 3)))
      ≡ ConstraintResult.ok (VersionConstraint.exact (version 1 2 3)))
    × (parse_version_constraint (print_constraint (VersionConstraint.minimum (version 1 2 3)))
        ≡ ConstraintResult.ok (VersionConstraint.minimum (version 1 2 3)))
    × (parse_version_constraint
          (print_constraint (VersionConstraint.range (version 1 2 3) (version 2 0 0)))
        ≡ ConstraintResult.ok (VersionConstraint.range (version 1 2 3) (version 2 0 0)))
    × (parse_version_constraint (b'^' ∷ to_string (version 0 4 1))
        ≡ ConstraintResult.ok (caret (version 0 4 1)))
    × (parse_version_constraint (b'~' ∷ to_string (version 0 4 1))
        ≡ ConstraintResult.ok (tilde (version 0 4 1)))
parse_version_constraint-print_constraint_example =
    parse_version_constraint-print_constraint 1 2 3 2 0 0 0 4 1
      (omega arith, omega arith, omega arith) (omega arith, omega arith, omega arith)
      (omega arith, omega arith, omega arith)

-- The parts are cut to 32 bits.
wrapped_part : parse_sem_ver (codes "4294967297.0.0") ≡ VersionResult.ok (version 1 0 0)
unfolding parse_sem_ver codes
wrapped_part = refl

-- Blanks and signs stand before the parts.
loose_parts : parse_sem_ver (codes "1. 2.+3") ≡ VersionResult.ok (version 1 2 3)
unfolding parse_sem_ver codes
loose_parts = refl

-- With wrap-around the range of `^` on the greatest `int` is empty.
caret_of_greatest : satisfied_by (caret (version 2147483647 0 0)) (version 2147483647 0 0) ≡ false
unfolding satisfied_by caret less
caret_of_greatest = refl
