-- ===== src/Sema/Borrow/Tests.antt =====
-- A binding whose last use is the second of three statements.
use liva_lang.Base.{◌+◌, [], ◌∷◌, none, true, ◌≡◌, ◌↔◌}
use liva_lang.Ast.Nodes.{Node, Info, Nodes, nil, cons}
use liva_lang.Sema.Borrow.{find_last_use}
use liva_lang.Sema.Borrow.Laws.{IsLastUse, AreFree, find_last_use-IsLastUse}

abbrev here : Info
here = record { start = record { line = 1; column = 1; offset = 0 }; resolved = none }

-- `b; a; b;` behind the declaration of `a`
abbrev three : Nodes
three = cons (Node.expr_stmt here (Node.identifier here (98 ∷ []))) (
    cons (Node.expr_stmt here (Node.identifier here (97 ∷ [])))
      (cons (Node.expr_stmt here (Node.identifier here (98 ∷ []))) nil))

find_last_use-IsLastUse_example :
    ((find_last_use three 4 (97 ∷ [])).shortenable ≡ true ↔ AreFree (97 ∷ []) three)
    × ((find_last_use three 4 (97 ∷ [])).shortenable ≡ true
        → IsLastUse (97 ∷ []) 4 (4 + 1) three (find_last_use three 4 (97 ∷ [])).stmt_index)
find_last_use-IsLastUse_example = find_last_use-IsLastUse three 4 (97 ∷ [])
