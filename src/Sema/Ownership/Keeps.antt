-- ===== src/Sema/Ownership/Keeps.antt =====
-- The relation of two states of `OwnershipChecker` of which the second comes from the first.
use mathlib.Core.List.{append-nil, append_assoc}
use liva_lang.Base.{
  ℕ, Bool, true, false, ◌&&◌, not, List, [], ◌∷◌, ◌++◌, Option, none, some, Bytes, bytes_eq,
  if◌then◌else◌, ◌≡◌, refl, sym, ap, ◌∙◌, arith, ◌⊎◌, inl, inr, Bool-cases, length,
}
use mathlib.Core.Path.{subst}
use liva_lang.Base.Dict.{Dict, lookup_key, put_key, modify_key, erase_key, keys}
use liva_lang.Base.Dict.Laws.{lookup_erase_same, lookup_erase_other, keys-modify}
use liva_lang.Lexer.State.{SourceLocation}
use liva_lang.Sema.Ownership.Info.{
  OwnershipInfo, Outcome, Report, drop_info, release_borrows, release_borrow,
}
use liva_lang.Sema.Ownership.Scopes.{
  Scopes, Checker, assign_at, get_info, change, change_at, report, act, act_on, insert_in, Flags,
  new_info, track_variable, push_scope, pop_scope,
}
use liva_lang.Sema.Ownership.Live.{
  scope_names, is_live, Live, LiveIn, assign_at-scope_names, insert_in-Live,
}
use liva_lang.Sema.Ownership.Shown.{
  Shown, AllShown, EntriesShown, assign_at-Shown, put_key-Shown, new_info-Shown,
}
pub mod Leave
pub mod Scoped
pub mod Steps
pub mod Targets
pub mod Visit

abbrev pub outer : List (List Bytes) → List (List Bytes)
outer [] = []
outer (ks ∷ kss) = kss

-- From `c` to `d`: the names of the enclosing scopes and the type parameters are the same, what
-- holds of the pointers and of the variables still holds, and reports are only added.
pub record Keeps (c d : Checker) : Type 0 where
  pub names : outer (scope_names d.scopes) ≡ outer (scope_names c.scopes)
  pub params : d.type_params ≡ c.type_params
  pub live : Live c → Live d
  pub shown : AllShown c.scopes → AllShown d.scopes
  pub log : (rs : List Report) × (d.reports ≡ c.reports ++ rs)

pub Keeps-refl : (c : Checker) → Keeps c c
Keeps-refl c = record {
  names = refl;
  params = refl;
  live = λ h. h;
  shown = λ h. h;
  log = ([], sym (append-nil c.reports));
}

pub Keeps-trans : {b c d : Checker} → Keeps b c → Keeps c d → Keeps b d
Keeps-trans {b} {c} {d} h k = record {
  names = k.names ∙ h.names;
  params = k.params ∙ h.params;
  live = λ x. k.live (h.live x);
  shown = λ x. k.shown (h.shown x);
  log = (
    h.log.0 ++ k.log.0,
    k.log.1
        ∙ ap (λ (rs : List Report). rs ++ k.log.0) h.log.1
        ∙ append_assoc b.reports h.log.0 k.log.0,
  );
}

pub Keeps-if : {c d e : Checker} (b : Bool) → Keeps c d → Keeps c e → Keeps c (if b then d else e)
Keeps-if true h k = h
Keeps-if false h k = k

abbrev pub KeepsShown : (OwnershipInfo → OwnershipInfo) → Type 0
KeepsShown f = (i : OwnershipInfo) → Shown i → Shown (f i)

change_at-Keeps :
    (p : Option ℕ) (name : Bytes) (f : OwnershipInfo → OwnershipInfo) (c : Checker)
    → KeepsShown f
    → Keeps c (change_at p name f c)
change_at-Keeps none name f c g = Keeps-refl c
change_at-Keeps (some l) name f c g = record {
  names = ap outer (assign_at-scope_names name l f c.scopes);
  params = refl;
  live = λ h.
      subst (λ (kss : List (List Bytes)). LiveIn kss c.flat)
        (sym (assign_at-scope_names name l f c.scopes)) h;
  shown = assign_at-Shown name l f c.scopes g;
  log = ([], sym (append-nil c.reports));
}

pub change-Keeps :
    (name : Bytes) (f : OwnershipInfo → OwnershipInfo) (c : Checker)
    → KeepsShown f
    → Keeps c (change name f c)
unfolding change
change-Keeps name f c g = change_at-Keeps (lookup_key name c.flat) name f c g

pub report-Keeps : (rs : List Report) (c : Checker) → Keeps c (report rs c)
unfolding report
report-Keeps rs c = record {
  names = refl;
  params = refl;
  live = λ h. h;
  shown = λ h. h;
  log = (rs, refl);
}

act_on-Keeps :
    (o : Option OwnershipInfo) (name : Bytes) (f : OwnershipInfo → Outcome) (c : Checker)
    → KeepsShown (λ (i : OwnershipInfo). (f i).info)
    → Keeps c (act_on o name f c).0
act_on-Keeps none name f c g = Keeps-refl c
act_on-Keeps (some i) name f c g =
    Keeps-trans (change-Keeps name (λ (j : OwnershipInfo). (f j).info) c g)
      (report-Keeps (f i).reports _)

pub act-Keeps :
    (name : Bytes) (f : OwnershipInfo → Outcome) (c : Checker)
    → KeepsShown (λ (i : OwnershipInfo). (f i).info)
    → Keeps c (act name f c).0
unfolding act
act-Keeps name f c g = act_on-Keeps (get_info name c) name f c g

insert_in-Keeps :
    (ds : Scopes) (name : Bytes) (i : OwnershipInfo) (c : Checker)
    → c.scopes ≡ ds
    → Shown i
    → Keeps c (insert_in ds name i c)
insert_in-Keeps [] name i c e g = Keeps-refl c
insert_in-Keeps (d ∷ ds) name i c e g = record {
  names = unfold scope_names in ap (λ (es : Scopes). outer (scope_names es)) (sym e);
  params = refl;
  live = λ h.
      insert_in-Live (d ∷ ds) name i c (subst (λ (es : Scopes). LiveIn (scope_names es) c.flat) e h)
        h;
  shown = λ h. shown_in (subst AllShown e h);
  log = ([], sym (append-nil c.reports));
}
  where
    shown_in : AllShown (d ∷ ds) → AllShown (put_key name i d ∷ ds)
    shown_in h = (put_key-Shown name i d g h.0, h.1)

pub track_variable-Keeps :
    (name : Bytes) (fl : Flags) (loc : SourceLocation) (c : Checker)
    → Keeps c (track_variable name fl loc c)
unfolding track_variable
track_variable-Keeps name fl loc c =
    insert_in-Keeps c.scopes name (new_info name fl loc) c refl (new_info-Shown name fl loc)
