-- ===== src/Sema/Ownership/Keeps/Steps.antt =====
-- The steps of declarations, loops and blocks: lemmas on the scopes, the pointers and the claims.
use liva_lang.Base.{ℕ, Bool, List, [], ◌∷◌, Option, none, some, Bytes, ◌==◌}
use liva_lang.Lexer.State.{SourceLocation}
use liva_lang.Ast.Types.Repr.{TypeRepr}
use liva_lang.Ast.Patterns.{Pattern, Patterns}
use liva_lang.Ast.Nodes.{Node, Info, Maybe, absent, present, Params, no_params, param, ClosureParam}
use liva_lang.Sema.Ownership.Info.{OwnershipInfo, mark_moved, check_use}
use liva_lang.Sema.Ownership.Types.{Setting}
use liva_lang.Sema.Ownership.Scopes.{
  Checker, get_info, move, use_variable, track_pattern, track_patterns, track_optional,
  pattern_flags, push_scope,
}
use liva_lang.Sema.Ownership.Steps.{
  track_params, track_closure_params, drops, identifier_name, is_ref_init, consume_name, consume,
  consume_maybe, bind_ref, hold, clear, declare, enter_loop, enter_let, Pending, settle, end_borrow,
}
use liva_lang.Sema.Ownership.Shown.{
  Shown, mark_moved-Shown, check_use-info, hold-Shown, clear-Shown,
}
use liva_lang.Sema.Ownership.Keeps.{
  Keeps, Keeps-refl, Keeps-trans, Keeps-if, change-Keeps, act-Keeps, track_variable-Keeps,
}
use liva_lang.Sema.Ownership.Keeps.Leave.{release_one-Keeps}
use mathlib.Core.Path.{subst}
use liva_lang.Base.{sym}

pub move-Keeps : (name : Bytes) (loc : SourceLocation) (c : Checker) → Keeps c (move name loc c)
unfolding move
move-Keeps name loc c = act-Keeps name (mark_moved name loc) c (mark_moved-Shown name loc)

pub use_variable-Keeps :
    (name : Bytes) (loc : SourceLocation) (c : Checker) → Keeps c (use_variable name loc c)
unfolding use_variable
use_variable-Keeps name loc c =
    act-Keeps name (check_use name loc) c (λ i h. subst Shown (sym (check_use-info name loc i)) h)

pub track_params-Keeps : (s : Setting) (ps : Params) (c : Checker) → Keeps c (track_params s ps c)
unfolding track_params
track_params-Keeps s no_params c = Keeps-refl c
track_params-Keeps s (param p d ps) c =
    Keeps-trans (track_variable-Keeps p.name _ p.location c) (track_params-Keeps s ps _)

pub track_closure_params-Keeps :
    (s : Setting) (loc : SourceLocation) (ps : List ClosureParam) (c : Checker)
    → Keeps c (track_closure_params s loc ps c)
unfolding track_closure_params
track_closure_params-Keeps s loc [] c = Keeps-refl c
track_closure_params-Keeps s loc (p ∷ ps) c =
    Keeps-trans (track_variable-Keeps p.name _ loc c) (track_closure_params-Keeps s loc ps _)

mutual
  unfolding track_pattern

  track_pattern-Keeps :
      (p : Pattern) (loc : SourceLocation) (c : Checker) → Keeps c (track_pattern p loc c)
  track_pattern-Keeps (Pattern.identifier n) loc c = track_variable-Keeps n pattern_flags loc c
  track_pattern-Keeps (Pattern.binding n p) loc c =
      Keeps-trans (track_variable-Keeps n pattern_flags loc c) (track_pattern-Keeps p loc _)
  track_pattern-Keeps (Pattern.enum_case e n b ps) loc c = track_patterns-Keeps ps loc c
  track_pattern-Keeps (Pattern.tuple ps) loc c = track_patterns-Keeps ps loc c
  track_pattern-Keeps (Pattern.or ps) loc c = track_patterns-Keeps ps loc c
  track_pattern-Keeps Pattern.wildcard loc c = Keeps-refl c
  track_pattern-Keeps (Pattern.int_literal v t) loc c = Keeps-refl c
  track_pattern-Keeps (Pattern.bool_literal b) loc c = Keeps-refl c
  track_pattern-Keeps (Pattern.string_literal v t) loc c = Keeps-refl c
  track_pattern-Keeps (Pattern.float_literal t) loc c = Keeps-refl c
  track_pattern-Keeps (Pattern.range a b d e f) loc c = Keeps-refl c

  track_patterns-Keeps :
      (ps : Patterns) (loc : SourceLocation) (c : Checker) → Keeps c (track_patterns ps loc c)
  track_patterns-Keeps Patterns.nil loc c = Keeps-refl c
  track_patterns-Keeps (Patterns.cons p ps) loc c =
      Keeps-trans (track_pattern-Keeps p loc c) (track_patterns-Keeps ps loc _)

pub track_optional-Keeps :
    (p : Option Pattern) (loc : SourceLocation) (c : Checker) → Keeps c (track_optional p loc c)
track_optional-Keeps none loc c = Keeps-refl c
track_optional-Keeps (some p) loc c = track_pattern-Keeps p loc c

consume_name-Keeps :
    (o : Option Bytes) (loc : SourceLocation) (c : Checker) → Keeps c (consume_name o loc c)
consume_name-Keeps none loc c = Keeps-refl c
consume_name-Keeps (some n) loc c =
    Keeps-if (drops (get_info n c)) (move-Keeps n loc c) (Keeps-refl c)

pub consume-Keeps : (e : Node) (loc : SourceLocation) (c : Checker) → Keeps c (consume e loc c)
unfolding consume
consume-Keeps e loc c = consume_name-Keeps (identifier_name e) loc c

consume_maybe-Keeps :
    (e : Maybe) (loc : SourceLocation) (c : Checker) → Keeps c (consume_maybe e loc c)
consume_maybe-Keeps absent loc c = Keeps-refl c
consume_maybe-Keeps (present e) loc c = consume-Keeps e loc c

bind_ref-Keeps : (e : Maybe) (name : Bytes) (c : Checker) → Keeps c (bind_ref e name c)
unfolding bind_ref
bind_ref-Keeps e name c =
    Keeps-if (is_ref_init e)
      (change-Keeps name (hold c.last_ref_borrow) c (hold-Shown c.last_ref_borrow)) (Keeps-refl c)

pub declare-Keeps :
    (s : Setting) (i : Info) (name : Bytes) (t : Option TypeRepr) (m : Bool) (e : Maybe)
    (c : Checker)
    → Keeps c (declare s i name t m e c)
unfolding declare
declare-Keeps s i name t m e c =
    Keeps-trans (consume_maybe-Keeps e i.start c)
      (Keeps-trans (track_variable-Keeps name _ i.start _) (bind_ref-Keeps e name _))

pub enter_loop-Keeps :
    (s : Setting) (i : Info) (name : Bytes) (e : Node) (c : Checker)
    → Keeps (push_scope c) (enter_loop s i name e c)
unfolding enter_loop
enter_loop-Keeps s i name e c = track_variable-Keeps name _ i.start (push_scope c)

pub enter_let-Keeps :
    (s : Setting) (i : Info) (name : Bytes) (e : Node) (c : Checker)
    → Keeps (push_scope (consume e i.start c)) (enter_let s i name e c)
unfolding enter_let
enter_let-Keeps s i name e c =
    track_variable-Keeps name _ i.start (push_scope (consume e i.start c))

end_borrow-Keeps :
    (o : Option OwnershipInfo) (name : Bytes) (c : Checker) → Keeps c (end_borrow o name c)
end_borrow-Keeps none name c = Keeps-refl c
end_borrow-Keeps (some i) name c =
    Keeps-trans (release_one-Keeps i.borrows_name i.borrows_mutable c)
      (change-Keeps name clear _ clear-Shown)

pub settle-Keeps : (i : ℕ) (ps : Pending) (c : Checker) → Keeps c (settle i ps c)
unfolding settle
settle-Keeps i [] c = Keeps-refl c
settle-Keeps i ((k, name) ∷ ps) c =
    Keeps-trans (Keeps-if (k == i) (end_borrow-Keeps (get_info name c) name c) (Keeps-refl c))
      (settle-Keeps i ps _)
