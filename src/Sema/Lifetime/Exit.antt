-- ===== src/Sema/Lifetime/Exit.antt =====
-- What `visitVarDecl` reports.
use mathlib.Core.List.{append-nil}
use liva_lang.Base.{
  ℕ, Bool, false, [], ◌∷◌, ◌++◌, Bytes, bytes_eq, ◌≡◌, refl, ap, ◌∙◌, arith, inl, inr, Bool-cases,
}
use liva_lang.Base.Dict.{Dict, lookup_key, modify_key}
use liva_lang.Lexer.State.{SourceLocation}
use liva_lang.Ast.Nodes.{Info, Maybe}
use liva_lang.Sema.Ownership.Scopes.{is_empty}
use liva_lang.Sema.Lifetime.{
  VarInfo, Analysis, init_target, is_deeper, report_if, set_target, put_variable, link,
  visit_var_decl,
}
use liva_lang.Sema.Lifetime.Within.{AllWithin, AllWithin-put_key, AllWithin-modify_key}

-- A variable that is found is not deeper.
is_deeper-within :
    (d : ℕ) (k : Bytes) (vs : Dict VarInfo) → AllWithin d vs → is_deeper (lookup_key k vs) d ≡ false
unfolding lookup_key
is_deeper-within d k [] h = refl
is_deeper-within d k ((j, v) ∷ vs) h = elim (Bool-cases (bytes_eq j k)) [
  | inl t ↦ rw t (ground (arith, h.0))
  | inr t ↦ rw t (is_deeper-within d k vs h.1)
]

link_quiet :
    (name target : Bytes) (loc : SourceLocation) (s : Analysis)
    → AllWithin s.depth s.variables
    → (link name target loc s).reports ≡ s.reports
link_quiet name target loc s h =
    ap (λ (b : Bool). s.reports ++ report_if b loc target)
      (is_deeper-within s.depth target (modify_key name (set_target target) s.variables)
        (AllWithin-modify_key s.depth name target s.variables h))
    ∙ append-nil s.reports

-- While no variable is deeper than the current depth, a declaration reports nothing.
pub visit_var_decl-reports :
    (i : Info) (name : Bytes) (e : Maybe) (s : Analysis)
    → AllWithin s.depth s.variables
    → (visit_var_decl i name e s).reports ≡ s.reports
unfolding visit_var_decl
visit_var_decl-reports i name e s h = elim (Bool-cases (is_empty (init_target e))) [
  | inl t ↦ rw t refl
  | inr t ↦ rw t (
      link_quiet name (init_target e) i.start (put_variable name i.start s)
        (AllWithin-put_key s.depth name _ s.variables (omega arith) h))
]
