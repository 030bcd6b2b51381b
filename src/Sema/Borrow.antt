-- ===== src/Sema/Borrow.antt =====
-- `findLastUse` of src/Sema/BorrowLastUse.cpp, over the nodes of `walkSubtree`.
use liva_lang.Base.{
  ℕ, suc, ◌+◌, Bool, true, false, ◌||◌, List, [], ◌∷◌, Bytes, bytes_eq, if◌then◌else◌,
}
use liva_lang.Ast.Nodes.{Node, Maybe, absent, present, Nodes, nil, cons}
use liva_lang.Ast.Walk.{subtree}
pub mod Laws
mod Tests

pub record ScanState : Type 0 where
  pub used : Bool
  pub blocked : Bool

pub record LastUseResult : Type 0 where
  pub stmt_index : ℕ
  pub shortenable : Bool

-- Whether the node is an identifier of that name.
unfoldable pub names : Bytes → Node → Bool
unfolding bytes_eq
names name (Node.identifier i n) = bytes_eq n name
names name _ = false

-- The inner walk of a closure: whether the name occurs.
unfoldable pub occurs : Bytes → List Node → Bool
unfolding names
occurs name [] = false
occurs name (n ∷ ns) = names name n || occurs name ns

abbrev block : ScanState → ScanState
block st = record st { blocked = true }

-- The operand of a `ref`: an identifier blocks by its name, any other expression always.
unfoldable pub inspect_ref : Bytes → Node → ScanState → ScanState
unfolding bytes_eq
inspect_ref name (Node.identifier i n) st = if bytes_eq n name then block st else st
inspect_ref name _ st = block st

unfoldable pub inspect : Bytes → Node → ScanState → ScanState
unfolding inspect_ref occurs subtree
inspect name (Node.identifier i n) st = if bytes_eq n name then record st { used = true } else st
inspect name (Node.ref_expr i e m) st = inspect_ref name e st
inspect name (Node.closure i ps b) st =
    if occurs name (subtree (Node.closure i ps b)) then block st else st
inspect name (Node.macro_invoke i n absent) st = block st
inspect name _ st = st

-- The callback on the nodes of a walk, in their order.
unfoldable pub scan : Bytes → List Node → ScanState → ScanState
unfolding inspect
scan name [] st = st
scan name (n ∷ ns) st = scan name ns (inspect name n st)

abbrev pub fresh : ScanState
fresh = record { used = false; blocked = false }

-- The loop from statement `i` on; `last` is the last statement so far that has the name.
unfoldable pub last_use_from : Bytes → ℕ → ℕ → Nodes → LastUseResult
unfolding scan subtree
last_use_from name last i nil = record { stmt_index = last; shortenable = true }
last_use_from name last i (cons n ns) =
    let st = scan name (subtree n) fresh in
    let rest = last_use_from name (if st.used then i else last) (i + 1) ns in
    if st.blocked then record { stmt_index = last; shortenable = false } else rest

-- `findLastUse`, on the statements behind the declaration, which is number `decl_index`
unfoldable pub find_last_use : Nodes → ℕ → Bytes → LastUseResult
unfolding last_use_from
find_last_use after decl_index name = last_use_from name decl_index (decl_index + 1) after
