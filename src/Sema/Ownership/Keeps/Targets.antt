-- ===== src/Sema/Ownership/Keeps/Targets.antt =====
-- The steps of assignments, references and calls: lemmas on the scopes, the pointers and the claims.
use mathlib.Core.List.{append-nil}
use mathlib.Core.Path.{subst}
use liva_lang.Base.{
  ℕ, Bool, true, false, ◌&&◌, ◌||◌, not, [], ◌∷◌, Option, none, some, Bytes, sym, refl,
}
use liva_lang.Lexer.State.{SourceLocation}
use liva_lang.Ast.Nodes.{Node, Info, AssignOp, info_of}
use liva_lang.Sema.Ownership.Info.{OwnershipInfo, check_mutation, add_borrow}
use liva_lang.Sema.Ownership.Types.{Setting}
use liva_lang.Sema.Ownership.Scopes.{Checker, get_info, mutate, borrow_variable, release_one}
use liva_lang.Sema.Ownership.Steps.{identifier_name}
use liva_lang.Sema.Ownership.Targets.{
  root_identifier, assign_move, is_plain, is_some, writes_through, exempt, shows_borrow,
  check_unborrowed, check_allowed, check_root, check_target, assign_checks, no_borrow, note_borrow,
  registered, borrow_name, take_borrow, dyn_borrow, is_movable, Borrows, pass_name, after_arg,
  release_args,
}
use liva_lang.Sema.Ownership.Shown.{Shown, check_mutation-info, add_borrow-Shown}
use liva_lang.Sema.Ownership.Keeps.{
  Keeps, Keeps-refl, Keeps-trans, Keeps-if, act-Keeps, report-Keeps,
}
use liva_lang.Sema.Ownership.Keeps.Leave.{release_one-Keeps}
use liva_lang.Sema.Ownership.Keeps.Steps.{move-Keeps, consume-Keeps}

assign_move-Keeps :
    (op : AssignOp) (t v : Node) (loc : SourceLocation) (c : Checker)
    → Keeps c (assign_move op t v loc c)
unfolding assign_move
assign_move-Keeps op t v loc c =
    Keeps-if (is_plain op && is_some (identifier_name t)) (consume-Keeps v loc c) (Keeps-refl c)

check_unborrowed-Keeps :
    (name : Bytes) (loc : SourceLocation) (c : Checker) → Keeps c (check_unborrowed name loc c)
unfolding check_unborrowed
check_unborrowed-Keeps name loc c =
    Keeps-if (shows_borrow (get_info name c)) (report-Keeps _ c) (Keeps-refl c)

check_allowed-Keeps :
    (name : Bytes) (loc : SourceLocation) (c : Checker) (r : Checker × Bool)
    → Keeps c r.0
    → Keeps c (check_allowed name loc r)
check_allowed-Keeps name loc c (d, b) h =
    Keeps-if b (Keeps-trans h (check_unborrowed-Keeps name loc d)) h

mutate-Keeps : (name : Bytes) (loc : SourceLocation) (c : Checker) → Keeps c (mutate name loc c).0
unfolding mutate
mutate-Keeps name loc c =
    act-Keeps name (check_mutation name loc) c
      (λ i h. subst Shown (sym (check_mutation-info name loc i)) h)

check_root-Keeps :
    (s : Setting) (loc : SourceLocation) (name : Bytes) (t v : Node) (c : Checker)
    → Keeps c (check_root s loc name t v c)
unfolding check_root
check_root-Keeps s loc name t v c =
    Keeps-if (writes_through (get_info name c) v || exempt s (get_info name c) t)
      (check_unborrowed-Keeps name loc c)
      (check_allowed-Keeps name loc c (mutate name loc c) (mutate-Keeps name loc c))

check_target-Keeps :
    (o : Option Bytes) (s : Setting) (loc : SourceLocation) (t v : Node) (c : Checker)
    → Keeps c (check_target o s loc t v c)
check_target-Keeps none s loc t v c = Keeps-refl c
check_target-Keeps (some name) s loc t v c = check_root-Keeps s loc name t v c

pub assign_checks-Keeps :
    (s : Setting) (i : Info) (op : AssignOp) (t v : Node) (c : Checker)
    → Keeps c (assign_checks s i op t v c)
unfolding assign_checks
assign_checks-Keeps s i op t v c =
    Keeps-trans (assign_move-Keeps op t v i.start c)
      (check_target-Keeps (root_identifier t) s i.start t v _)

-- A register of the checker that is not a variable.
set_borrow-Keeps : (b : Bytes × Bool) (c : Checker) → Keeps c (record c { last_ref_borrow = b })
set_borrow-Keeps b c = record {
  names = refl;
  params = refl;
  live = λ h. h;
  shown = λ h. h;
  log = ([], sym (append-nil c.reports));
}

note_borrow-Keeps :
    (o : Option OwnershipInfo) (n : Bytes) (m : Bool) (loc : SourceLocation) (c : Checker)
    → Keeps c (note_borrow o n m loc c)
note_borrow-Keeps none n m loc c = Keeps-refl c
note_borrow-Keeps (some i) n m loc c =
    Keeps-trans (set_borrow-Keeps (n, m) c)
      (Keeps-if (m && not i.is_mutable) (report-Keeps _ _) (Keeps-refl _))

registered-Keeps :
    (n : Bytes) (m : Bool) (loc : SourceLocation) (c : Checker) (r : Checker × Bool)
    → Keeps c r.0
    → Keeps c (registered n m loc r).0
registered-Keeps n m loc c (d, true) h = Keeps-trans h (note_borrow-Keeps (get_info n d) n m loc d)
registered-Keeps n m loc c (d, false) h = h

borrow_variable-Keeps :
    (n : Bytes) (m : Bool) (loc : SourceLocation) (c : Checker)
    → Keeps c (borrow_variable n m loc c).0
unfolding borrow_variable
borrow_variable-Keeps n m loc c = act-Keeps n (add_borrow n m loc) c (add_borrow-Shown n m loc)

borrow_name-Keeps :
    (loc : SourceLocation) (o : Option Bytes) (m : Bool) (c : Checker)
    → Keeps c (borrow_name loc o m c).0
borrow_name-Keeps loc none m c = Keeps-refl c
borrow_name-Keeps loc (some n) m c =
    registered-Keeps n m loc c (borrow_variable n m loc c) (borrow_variable-Keeps n m loc c)

pub take_borrow-Keeps :
    (i : Info) (e : Node) (m : Bool) (c : Checker) → Keeps c (take_borrow i e m c).0
unfolding take_borrow
take_borrow-Keeps i e m c =
    Keeps-trans (set_borrow-Keeps ([], false) c)
      (borrow_name-Keeps i.start (identifier_name e) m (no_borrow c))

pass_name-Keeps :
    (o : Option Bytes) (dyn : Bool) (loc : SourceLocation) (c : Checker)
    → Keeps c (pass_name o dyn loc c)
pass_name-Keeps none dyn loc c = Keeps-refl c
pass_name-Keeps (some n) dyn loc c =
    Keeps-if (is_movable (get_info n c) && not dyn) (move-Keeps n loc c) (Keeps-refl c)

pub after_arg-Keeps :
    (s : Setting) (f : Node) (k : ℕ) (a : Node) (c : Checker) → Keeps c (after_arg s f k a c)
unfolding after_arg
after_arg-Keeps s f k a c =
    pass_name-Keeps (identifier_name a) (dyn_borrow s f k) (info_of a).start c

pub release_args-Keeps : (bs : Borrows) (c : Checker) → Keeps c (release_args bs c)
unfolding release_args
release_args-Keeps [] c = Keeps-refl c
release_args-Keeps ((n, m) ∷ bs) c =
    Keeps-trans (release_one-Keeps n m c) (release_args-Keeps bs (release_one n m c))
