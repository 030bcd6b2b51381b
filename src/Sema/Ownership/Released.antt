-- ===== src/Sema/Ownership/Released.antt =====
-- The borrows that `visitBlockStmt` ends early, each behind one of its statements.
use liva_lang.Base.{ℕ, suc, ◌≤◌, ◌<◌, false, Bytes, ◌≡◌}
use liva_lang.Ast.Nodes.{Node, Nodes, nil, cons}
use liva_lang.Sema.Borrow.{LastUseResult}
use liva_lang.Sema.Ownership.Scopes.{Checker, get_info}
use liva_lang.Sema.Ownership.Types.{Setting}
use liva_lang.Sema.Ownership.Steps.{Pending, holds, note_pending, settle, remaining}
use liva_lang.Sema.Ownership.Visit.{visit, visit_stmts}

-- How many statements there are.
abbrev pub count : Nodes → ℕ
count nil = 0
count (cons n ns) = suc (count ns)

abbrev InRange : ℕ → ℕ → LastUseResult → Type 0
InRange lo hi r = (lo ≤ r.stmt_index) × (r.stmt_index < hi)

-- The loop of `visitBlockStmt` before a round: the number of the next statement, the statements that
-- are left, `pendingRelease`, and the checker.
pub record Loop : Type 0 where
  pub number : ℕ
  pub left : Nodes
  pub pending : Pending
  pub checker : Checker

abbrev pub loop : ℕ → Nodes → Pending → Checker → Loop
loop i ns ps c = record { number = i; left = ns; pending = ps; checker = c }

-- What the loop still has to do
abbrev pub finish : Setting → Loop → Checker
finish s l = visit_stmts s l.number l.left l.pending l.checker

abbrev after_round : Setting → ℕ → Node → Nodes → Pending → Checker → Loop
after_round s i n ns ps c =
    let d = visit s n c in
    let qs = note_pending ns i n d ps in loop (suc i) ns (remaining i qs) (settle i qs d)

-- From one state of the loop to a later one.
pub data Runs (s : Setting) : Loop → Loop → Type 0 where
  stop : (l : Loop) → Runs s l l
  round :
      (i : ℕ) (n : Node) (ns : Nodes) (ps : Pending) (c : Checker) (m : Loop)
      → Runs s (after_round s i n ns ps c) m
      → Runs s (loop i (cons n ns) ps c) m

-- A state that the loop reaches behind statement `k`, in which the binding holds no borrow, and from
-- which the loop comes to the same end.
record FreesBehind (s : Setting) (l : Loop) (k : ℕ) (name : Bytes) : Type 0 where
  pub later : Loop
  pub runs : Runs s l later
  pub behind : later.number ≡ suc k
  pub free : holds (get_info name later.checker) ≡ false
