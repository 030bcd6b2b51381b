-- ===== src/Sema/Ownership/Info.antt =====
-- `OwnershipInfo`, and what `markMoved`, `checkUse`, `checkMutation`, `addBorrow`, `releaseBorrows`
-- and `releaseBorrow` do to the variable that they find, with their reports.
use liva_lang.Base.{
  ℕ, zero, suc, ◌+◌, ◌-◌, Bool, true, false, ◌&&◌, ◌||◌, not, List, [], ◌∷◌, Bytes, codes, bytes_eq,
  ltb, ◌==◌, if◌then◌else◌,
}
use liva_lang.Lexer.State.{SourceLocation}
pub mod Laws

pub data OwnershipState : Type 0 where
  owned moved borrowed_immutable borrowed_mutable dropped : OwnershipState

-- The diagnostics of the checker.
pub data DiagId : Type 0 where
  err_use_after_move err_double_move err_move_while_borrowed err_assign_to_immutable : DiagId
  err_mut_borrow_conflict err_immut_borrow_conflict err_mut_ref_to_immutable : DiagId
  note_moved_here note_consider_ref note_borrowed_here note_use_var_for_mutable : DiagId

-- A call of `report`, `reportRange` or `reportHelp`, with the name or the help text.
pub record Report : Type 0 where
  pub loc : SourceLocation
  pub id : DiagId
  pub arg : Bytes

pub record OwnershipInfo : Type 0 where
  pub name : Bytes
  pub state : OwnershipState
  pub is_mutable : Bool
  pub is_copy_type : Bool
  pub is_drop_type : Bool
  pub is_class_type : Bool
  pub decl_location : SourceLocation
  pub last_move_location : SourceLocation
  pub last_borrow_location : SourceLocation
  pub borrow_count : ℕ
  pub has_mutable_borrow : Bool
  pub is_ref_binding : Bool
  pub is_pattern_binding : Bool
  pub borrows_name : Bytes
  pub borrows_mutable : Bool

-- What an operation makes of a variable: its new state, whether it is allowed, and the reports.
pub record Outcome : Type 0 where
  pub info : OwnershipInfo
  pub allowed : Bool
  pub reports : List Report

abbrev pub say : SourceLocation → DiagId → Bytes → Report
say loc id arg = record { loc = loc; id = id; arg = arg }

abbrev pub is_moved : OwnershipState → Bool
is_moved OwnershipState.moved = true
is_moved _ = false

abbrev pub is_dropped : OwnershipState → Bool
is_dropped OwnershipState.dropped = true
is_dropped _ = false

abbrev pub is_owned : OwnershipState → Bool
is_owned OwnershipState.owned = true
is_owned _ = false

abbrev pub is_borrowed : OwnershipState → Bool
is_borrowed OwnershipState.borrowed_immutable = true
is_borrowed OwnershipState.borrowed_mutable = true
is_borrowed _ = false

-- `borrowCount > 0 || hasMutableBorrow`
abbrev pub has_borrow : OwnershipInfo → Bool
has_borrow i = ltb 0 i.borrow_count || i.has_mutable_borrow

abbrev pub pass : OwnershipInfo → Outcome
pass i = record { info = i; allowed = true; reports = [] }

abbrev pub reject : OwnershipInfo → List Report → Outcome
reject i rs = record { info = i; allowed = false; reports = rs }

unfoldable pub mark_moved : Bytes → SourceLocation → OwnershipInfo → Outcome
mark_moved name loc i =
    if i.is_copy_type
    then pass i
    else if is_moved i.state
    then reject i (
        say loc DiagId.err_double_move name
        ∷ say i.last_move_location DiagId.note_moved_here name
        ∷ [])
    else if has_borrow i
    then reject i (say loc DiagId.err_move_while_borrowed name ∷ [])
    else pass (record i { state = OwnershipState.moved; last_move_location = loc })

unfoldable pub check_use : Bytes → SourceLocation → OwnershipInfo → Outcome
check_use name loc i =
    if is_moved i.state
    then reject i (
        say loc DiagId.err_use_after_move name
        ∷ say i.last_move_location DiagId.note_moved_here name
        ∷ say loc DiagId.note_consider_ref name
        ∷ [])
    else if is_dropped i.state
    then reject i (say loc DiagId.err_use_after_move name ∷ [])
    else pass i

-- The help for a binding that is not mutable.
abbrev help_text : Bytes → Bool → Bytes
help_text name is_pattern =
    if bytes_eq name (codes "self")
    then codes "declare the method's receiver as 'ref mut self' to mutate it"
    else if is_pattern
    then codes "this binding has no 'var' form; mutate the underlying value instead"
    else codes "declare with 'var' instead of 'let' to make it mutable"

unfoldable pub check_mutation : Bytes → SourceLocation → OwnershipInfo → Outcome
unfolding bytes_eq codes
check_mutation name loc i =
    if i.is_mutable
    then pass i
    else reject i (
        say loc DiagId.err_assign_to_immutable name
        ∷ say loc DiagId.note_use_var_for_mutable (help_text name i.is_pattern_binding)
        ∷ [])

-- `SourceLocation::isValid`
abbrev pub is_valid : SourceLocation → Bool
is_valid l = ltb 0 l.line

unfoldable pub add_borrow : Bytes → Bool → SourceLocation → OwnershipInfo → Outcome
add_borrow name mutable loc i =
    if is_moved i.state
    then reject i (say loc DiagId.err_use_after_move name ∷ [])
    else if mutable
    then (if has_borrow i
        then reject i (
            say loc DiagId.err_mut_borrow_conflict name
            ∷ (if is_valid i.last_borrow_location
                then say i.last_borrow_location DiagId.note_borrowed_here name ∷ []
                else []))
        else pass (record i {
          has_mutable_borrow = true;
          state = OwnershipState.borrowed_mutable;
          last_borrow_location = loc;
        }))
    else if i.has_mutable_borrow
    then reject i (say loc DiagId.err_immut_borrow_conflict name ∷ [])
    else pass (record i {
      borrow_count = i.borrow_count + 1;
      state = OwnershipState.borrowed_immutable;
      last_borrow_location = loc;
    })

-- The state of a variable whose borrows are all given back.
abbrev unborrowed : OwnershipState → OwnershipState
unborrowed s = if is_borrowed s then OwnershipState.owned else s

unfoldable pub release_borrows : OwnershipInfo → OwnershipInfo
release_borrows i = record i {
  borrow_count = 0;
  has_mutable_borrow = false;
  state = unborrowed i.state;
}

-- One borrow less: the flag, or the count if it is above 0.
abbrev pub less_borrowed : Bool → OwnershipInfo → OwnershipInfo
less_borrowed true i = record i { has_mutable_borrow = false }
less_borrowed false i = record i { borrow_count = i.borrow_count - 1 }

unfoldable pub release_borrow : Bool → OwnershipInfo → OwnershipInfo
release_borrow mutable i =
    let j = less_borrowed mutable i in
    if not j.has_mutable_borrow && j.borrow_count == 0
    then record j { state = unborrowed j.state }
    else j

-- The drop at the end of the scope.
unfoldable pub drop_info : OwnershipInfo → OwnershipInfo
drop_info i =
    if is_owned i.state && not i.is_copy_type
    then record i { state = OwnershipState.dropped }
    else i
