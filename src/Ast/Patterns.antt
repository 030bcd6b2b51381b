-- ===== src/Ast/Patterns.antt =====
-- The patterns of include/liva/AST/Pattern.h, and `Pattern::toString` of src/AST/Pattern.cpp.
use liva_lang.Base.{Bool, [], ◌∷◌, ◌++◌, Bytes, codes, if◌then◌else◌}
use liva_lang.Base.Decimal.{ℤ}

-- The ends of a range are literal patterns, of which the texts are kept with the values.
mutual
  pub data Pattern : Type 0 where
    wildcard : Pattern
    identifier : Bytes → Pattern
    enum_case : Bytes → Bytes → Bool → Patterns → Pattern
    int_literal : ℤ → Bytes → Pattern
    bool_literal : Bool → Pattern
    string_literal : Bytes → Bytes → Pattern
    float_literal : Bytes → Pattern
    range : ℤ → Bytes → ℤ → Bytes → Bool → Pattern
    or : Patterns → Pattern
    binding : Bytes → Pattern → Pattern
    tuple : Patterns → Pattern

  pub data Patterns : Type 0 where
    nil : Patterns
    cons : Pattern → Patterns → Patterns

-- The name of the enum and a dot, unless it is empty
abbrev qualified : Bytes → Bytes
qualified [] = []
qualified (b ∷ bs) = (b ∷ bs) ++ codes "."

-- The separator stands before all but the first.
unfoldable mutual
  unfolding codes

  pub to_string : Pattern → Bytes
  to_string Pattern.wildcard = codes "_"
  to_string (Pattern.identifier n) = n
  to_string (Pattern.int_literal v t) = t
  to_string (Pattern.bool_literal b) = if b then codes "true" else codes "false"
  to_string (Pattern.string_literal v t) = t
  to_string (Pattern.float_literal t) = t
  to_string (Pattern.range lo l hi h inclusive) =
      l ++ ((if inclusive then codes "..=" else codes "..") ++ h)
  to_string (Pattern.enum_case e c parens ps) =
      qualified e ++ (c ++ (if parens then codes "(" ++ (join (codes ",") ps ++ codes ")") else []))
  to_string (Pattern.or ps) = join (codes "|") ps
  to_string (Pattern.binding n p) = n ++ (codes "@" ++ to_string p)
  to_string (Pattern.tuple ps) = codes "(" ++ (join (codes ",") ps ++ codes ")")

  pub join : Bytes → Patterns → Bytes
  join sep nil = []
  join sep (cons p ps) = to_string p ++ join_more sep ps

  pub join_more : Bytes → Patterns → Bytes
  join_more sep nil = []
  join_more sep (cons p ps) = sep ++ (to_string p ++ join_more sep ps)
