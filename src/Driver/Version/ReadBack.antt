-- ===== src/Driver/Version/ReadBack.antt =====
-- The text of a constraint is read back.
use Prim.Native.Nat.{ℕ, ◌<◌, ◌^◌}
use liva_lang.Base.{
  true, false, [], ◌∷◌, ◌++◌, Option, none, Bytes, ◌==◌, ◌≡◌, refl, ap, ◌∙◌, arith,
}
use liva_lang.Base.Decimal.{is_digit}
use liva_lang.Driver.Version.{
  SemVer, to_string, VersionResult, parse_sem_ver, VersionConstraint, caret, tilde,
}
use liva_lang.Driver.Version.Constraint.{
  ConstraintResult, print_constraint, trim_str, after_minimum, after_maximum, read_single,
  read_split, read_trimmed, parse_version_constraint,
}
use liva_lang.Driver.Version.Ranges.{version, HasNext}
use liva_lang.Driver.Version.RoundTrip.{parse_sem_ver-to_string}
use liva_lang.Driver.Version.Solid.{
  IsSolid, IsTight, IsSolid-IsTight, IsTight-append, trim_str-IsTight, split_comma-IsSolid,
  split_comma-append, to_string-IsSolid, to_string-cons,
}

-- The text `d ∷ r` is that of the version `v`.
record Reads (d : ℕ) (r : Bytes) (v : SemVer) : Type 0 where
  pub solid : IsSolid (d ∷ r)
  pub digit : is_digit d ≡ true
  pub read : parse_sem_ver (d ∷ r) ≡ VersionResult.ok v

Reads-IsTight : (d : ℕ) (r : Bytes) (v : SemVer) → Reads d r v → IsTight (d ∷ r)
Reads-IsTight d r v h = IsSolid-IsTight (d ∷ r) h.solid

Reads-trimmed :
    (d : ℕ) (r : Bytes) (v : SemVer)
    → Reads d r v
    → parse_sem_ver (trim_str (d ∷ r)) ≡ VersionResult.ok v
Reads-trimmed d r v h = ap parse_sem_ver (trim_str-IsTight (d ∷ r) (Reads-IsTight d r v h)) ∙ h.read

-- A text without blanks and commas is read by its first bytes.
read_tight :
    (b : ℕ) (s : Bytes)
    → IsSolid (b ∷ s)
    → parse_version_constraint (b ∷ s) ≡ read_single (after_minimum (b ∷ s)) (b ∷ s)
unfolding parse_version_constraint
read_tight b s h =
    ap read_trimmed (trim_str-IsTight (b ∷ s) (IsSolid-IsTight (b ∷ s) h))
    ∙ ap (λ (o : Option (Bytes × Bytes)). read_split o (b ∷ s)) (split_comma-IsSolid (b ∷ s) h)

after_minimum-first : (b : ℕ) (s : Bytes) → (b == b'>') ≡ false → after_minimum (b ∷ s) ≡ none
unfolding after_minimum
after_minimum-first b [] h = refl
after_minimum-first b (c ∷ []) h = refl
after_minimum-first b (c ∷ d ∷ s) h = rw h refl

not_operator :
    (d : ℕ)
    → is_digit d ≡ true
    → ((d == b'>') ≡ false)
      × ((d == b'<') ≡ false)
      × ((d == b'!') ≡ false)
      × ((d == b'^') ≡ false)
      × ((d == b'~') ≡ false)
not_operator d h =
    (ground (arith, h), ground (arith, h), ground (arith, h), ground (arith, h), ground (arith, h))

read_exact :
    (d : ℕ) (r : Bytes) (v : SemVer)
    → Reads d r v
    → parse_version_constraint (d ∷ r) ≡ ConstraintResult.ok (VersionConstraint.exact v)
read_exact d r v h =
    let n = not_operator d h.digit in
    read_tight d r h.solid
    ∙ ap (λ (o : Option Bytes). read_single o (d ∷ r)) (after_minimum-first d r n.0)
    ∙ rw (n.0, n.1, n.2, n.3, n.4, h.read) refl

read_minimum :
    (d : ℕ) (r : Bytes) (v : SemVer)
    → Reads d r v
    → parse_version_constraint (b'>' ∷ b'=' ∷ d ∷ r)
      ≡ ConstraintResult.ok (VersionConstraint.minimum v)
read_minimum d r v h =
    read_tight b'>' (b'=' ∷ d ∷ r) (refl, (refl, h.solid))
    ∙ (unfold after_minimum in rw (Reads-trimmed d r v h) refl)

read_caret :
    (d : ℕ) (r : Bytes) (v : SemVer)
    → Reads d r v
    → parse_version_constraint (b'^' ∷ d ∷ r) ≡ ConstraintResult.ok (caret v)
read_caret d r v h =
    read_tight b'^' (d ∷ r) (refl, h.solid)
    ∙ ap (λ (o : Option Bytes). read_single o (b'^' ∷ d ∷ r))
        (after_minimum-first b'^' (d ∷ r) refl)
    ∙ rw (Reads-trimmed d r v h) refl

read_tilde :
    (d : ℕ) (r : Bytes) (v : SemVer)
    → Reads d r v
    → parse_version_constraint (b'~' ∷ d ∷ r) ≡ ConstraintResult.ok (tilde v)
read_tilde d r v h =
    read_tight b'~' (d ∷ r) (refl, h.solid)
    ∙ ap (λ (o : Option Bytes). read_single o (b'~' ∷ d ∷ r))
        (after_minimum-first b'~' (d ∷ r) refl)
    ∙ rw (Reads-trimmed d r v h) refl

abbrev range_text : ℕ → Bytes → ℕ → Bytes → Bytes
range_text d r f q = b'>' ∷ b'=' ∷ ((d ∷ r) ++ b',' ∷ b'<' ∷ f ∷ q)

range_text-IsTight :
    (d : ℕ) (r : Bytes) (f : ℕ) (q : Bytes) (v w : SemVer)
    → Reads d r v
    → Reads f q w
    → IsTight (range_text d r f q)
range_text-IsTight d r f q v w h k = (
  refl,
  (
    refl,
    IsTight-append (d ∷ r) (b',' ∷ b'<' ∷ f ∷ q) (Reads-IsTight d r v h)
        (refl, (refl, Reads-IsTight f q w k)),
  ),
)

read_range_text :
    (d : ℕ) (r : Bytes) (f : ℕ) (q : Bytes) (v w : SemVer)
    → Reads d r v
    → Reads f q w
    → parse_version_constraint (range_text d r f q)
      ≡ ConstraintResult.ok (VersionConstraint.range v w)
unfolding parse_version_constraint after_minimum after_maximum
read_range_text d r f q v w h k =
    ap read_trimmed (trim_str-IsTight (range_text d r f q) (range_text-IsTight d r f q v w h k))
    ∙ ap (λ (o : Option (Bytes × Bytes)). read_split o (range_text d r f q))
        (split_comma-append (b'>' ∷ b'=' ∷ d ∷ r) (b'<' ∷ f ∷ q) (refl, (refl, h.solid)))
    ∙ rw
        (
          trim_str-IsTight (b'>' ∷ b'=' ∷ d ∷ r) (refl, (refl, Reads-IsTight d r v h)),
          trim_str-IsTight (b'<' ∷ f ∷ q) (refl, Reads-IsTight f q w k),
          Reads-trimmed d r v h,
          Reads-trimmed f q w k,
        )
        refl

-- `int` parts that are not negative
abbrev pub IsInt : ℕ → ℕ → ℕ → Type 0
IsInt a b c = (a < 2 ^ 31) × (b < 2 ^ 31) × (c < 2 ^ 31)

to_string-Reads :
    (a b c : ℕ)
    → IsInt a b c
    → (d : ℕ) × (r : Bytes) × (to_string (version a b c) ≡ d ∷ r) × Reads d r (version a b c)
to_string-Reads a b c h =
    let (d, r, e, g) = to_string-cons a b c in
    (
      d,
      r,
      e,
      record {
        solid = rw e at (to_string-IsSolid a b c);
        digit = g;
        read = rw e at (parse_sem_ver-to_string a b c h.0 h.1 h.2);
      },
    )

HasNext-IsInt : (a b c : ℕ) → HasNext a b c → IsInt a b c
HasNext-IsInt a b c h = (omega (arith, h.0), omega (arith, h.1), omega (arith, h.2))

-- `parseVersionConstraint` reads back every constraint that `toString` writes of versions whose parts
-- are numbers of an `int` that are not negative; and `^` and `~` before the text of a version are read
-- as the ranges of that version, where its parts are below the greatest `int`.
pub parse_version_constraint-print_constraint :
    (a b c x y z u v w : ℕ)
    → IsInt a b c
    → IsInt x y z
    → HasNext u v w
    → (parse_version_constraint (print_constraint (VersionConstraint.exact (version a b c)))
        ≡ ConstraintResult.ok (VersionConstraint.exact (version a b c)))
      × (parse_version_constraint (print_constraint (VersionConstraint.minimum (version a b c)))
          ≡ ConstraintResult.ok (VersionConstraint.minimum (version a b c)))
      × (parse_version_constraint
            (print_constraint (VersionConstraint.range (version a b c) (version x y z)))
          ≡ ConstraintResult.ok (VersionConstraint.range (version a b c) (version x y z)))
      × (parse_version_constraint (b'^' ∷ to_string (version u v w))
          ≡ ConstraintResult.ok (caret (version u v w)))
      × (parse_version_constraint (b'~' ∷ to_string (version u v w))
          ≡ ConstraintResult.ok (tilde (version u v w)))
parse_version_constraint-print_constraint a b c x y z u v w h k l =
    let (d, r, e, g) = to_string-Reads a b c h in
    let (f, q, i, j) = to_string-Reads x y z k in
    let (m, t, n, o) = to_string-Reads u v w (HasNext-IsInt u v w l) in
    unfold print_constraint in
    (
      ap parse_version_constraint e ∙ read_exact d r _ g,
      ap (λ (t : Bytes). parse_version_constraint (b'>' ∷ b'=' ∷ t)) e ∙ read_minimum d r _ g,
      ap
            (λ (t : Bytes).
              parse_version_constraint
                (b'>' ∷ b'=' ∷ (t ++ b',' ∷ b'<' ∷ to_string (version x y z))))
            e
          ∙ ap
              (λ (t : Bytes). parse_version_constraint (b'>' ∷ b'=' ∷ ((d ∷ r) ++ b',' ∷ b'<' ∷ t)))
              i
          ∙ read_range_text d r f q _ _ g j,
      ap (λ (t : Bytes). parse_version_constraint (b'^' ∷ t)) n ∙ read_caret m t _ o,
      ap (λ (t : Bytes). parse_version_constraint (b'~' ∷ t)) n ∙ read_tilde m t _ o,
    )
