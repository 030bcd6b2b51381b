-- ===== src/Sema/Ownership/Keeps/Scoped.antt =====
-- A scope, or a list of type parameters, that is entered and left again.
use mathlib.Core.Path.{subst}
use liva_lang.Base.{ℕ, List, [], ◌∷◌, Bytes, ◌≡◌, refl, sym, ap, ◌∙◌}
use liva_lang.Base.Dict.{Dict, keys}
use liva_lang.Sema.Ownership.Types.{contains}
use liva_lang.Sema.Ownership.Scopes.{
  Checker, push_scope, pop_scope, drop_scope_variables, innermost, drop_each,
}
use liva_lang.Sema.Ownership.Live.{scope_names, Live, LiveIn, push-LiveIn, pop-LiveIn}
use liva_lang.Sema.Ownership.Shown.{AllShown}
use liva_lang.Sema.Ownership.Keeps.{Keeps, Keeps-trans, outer}
use liva_lang.Sema.Ownership.Keeps.Leave.{
  drop_each-Keeps, leave-names, leave-Live, pop_names, pop-Shown,
}
use liva_lang.Sema.Ownership.Visit.{leave, push_type_params, pop_type_params, rest_params}

push-names : (c : Checker) → outer (scope_names (push_scope c).scopes) ≡ scope_names c.scopes
unfolding push_scope scope_names
push-names c = refl

pub push-Live : (c : Checker) → Live c → Live (push_scope c)
unfolding push_scope scope_names
push-Live c h = push-LiveIn (scope_names c.scopes) c.flat h

pub push-Shown : (c : Checker) → AllShown c.scopes → AllShown (push_scope c).scopes
unfolding push_scope
push-Shown c h = (tt, h)

leave-Shown : (d : Checker) → AllShown d.scopes → AllShown (leave d).scopes
unfolding leave pop_scope drop_scope_variables
leave-Shown d h =
    pop-Shown (drop_scope_variables d).scopes
      ((drop_each-Keeps (keys (innermost d.scopes)) d).shown h)

-- The scopes outside have the same names.
pub scope-names :
    (c d : Checker) → Keeps (push_scope c) d → scope_names (leave d).scopes ≡ scope_names c.scopes
scope-names c d h = leave-names d ∙ h.names ∙ push-names c

pub scope-Keeps : (c d : Checker) → Keeps (push_scope c) d → Keeps c (leave d)
scope-Keeps c d h = record {
  names = ap outer (scope-names c d h);
  params = unfold leave pop_scope drop_scope_variables push_scope in (dropped.params ∙ h.params);
  live = λ x. leave-Live d (h.live (push-Live c x));
  shown = λ x. leave-Shown d (h.shown (push-Shown c x));
  log = unfold leave pop_scope drop_scope_variables push_scope in (Keeps-trans h dropped).log;
}
  where
    dropped : Keeps d (drop_each (keys (innermost d.scopes)) d)
    dropped = drop_each-Keeps (keys (innermost d.scopes)) d

push_scope-names : (c : Checker) → scope_names (push_scope c).scopes ≡ [] ∷ scope_names c.scopes
unfolding push_scope scope_names
push_scope-names c = refl

-- A scope in which nothing was declared needs no drop.
empty-Live : (kss : List (List Bytes)) (flat : Dict ℕ) → LiveIn ([] ∷ kss) flat → LiveIn kss flat
empty-Live kss flat h = pop-LiveIn [] kss flat flat h (λ n l e. unfold contains in (e, refl))

pop_scope-names : (d : Checker) → scope_names (pop_scope d).scopes ≡ outer (scope_names d.scopes)
unfolding pop_scope
pop_scope-names d = pop_names d.scopes

pub empty_scope-Keeps :
    (c d : Checker)
    → Keeps (push_scope c) d
    → scope_names d.scopes ≡ scope_names (push_scope c).scopes
    → Keeps c (pop_scope d)
empty_scope-Keeps c d h e = record {
  names = ap outer back;
  params = unfold pop_scope push_scope in h.params;
  live = λ x.
      subst (λ (kss : List (List Bytes)). LiveIn kss (pop_scope d).flat) (sym back)
        (empty-Live (scope_names c.scopes) (pop_scope d).flat (
          unfold pop_scope in
          subst (λ (kss : List (List Bytes)). LiveIn kss d.flat) (e ∙ push_scope-names c)
            (h.live (push-Live c x))));
  shown = λ x. unfold pop_scope in pop-Shown d.scopes (h.shown (push-Shown c x));
  log = unfold pop_scope push_scope in h.log;
}
  where
    back : scope_names (pop_scope d).scopes ≡ scope_names c.scopes
    back = pop_scope-names d ∙ ap outer e ∙ push-names c

-- The type parameters of a declaration.
pub type_params-Keeps :
    (ts : List Bytes) (c d : Checker)
    → Keeps (push_type_params ts c) d
    → Keeps c (pop_type_params d)
unfolding push_type_params pop_type_params
type_params-Keeps ts c d h = record {
  names = h.names;
  params = ap rest_params h.params;
  live = h.live;
  shown = h.shown;
  log = h.log;
}
