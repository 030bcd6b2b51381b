-- ===== src/Ast/Walk/Tests.antt =====
-- A tree that is walked.
use liva_lang.Base.{[], ◌∷◌, none, ◌≡◌}
use liva_lang.Ast.Nodes.{Node, Info, absent, nil, cons}
use liva_lang.Ast.Walk.{subtree}
use liva_lang.Ast.Listed.{below}
use liva_lang.Ast.Walk.Laws.{subtree-listed}

abbrev here : Info
here = record { start = record { line = 1; column = 1; offset = 0 }; resolved = none }

-- `if a { a }`
abbrev branch : Node
branch =
    Node.if_stmt here (Node.identifier here (97 ∷ []))
      (Node.block_stmt here (cons (Node.identifier here (97 ∷ [])) nil)) absent

subtree-listed_example :
    subtree branch
    ≡ branch
      ∷ Node.identifier here (97 ∷ [])
      ∷ Node.block_stmt here (cons (Node.identifier here (97 ∷ [])) nil)
      ∷ Node.identifier here (97 ∷ [])
      ∷ []
unfolding below
subtree-listed_example = subtree-listed branch
