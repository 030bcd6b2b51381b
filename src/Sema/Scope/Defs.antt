-- ===== src/Sema/Scope/Defs.antt =====
-- `Symbol`, `Scope` and `ScopeStack`. An `unordered_map` is an association list with each name
-- once; a chain of parents is the list of scopes from the innermost to the global one. Pointers to
-- declarations are addresses.
use liva_lang.Base.{
  ℕ, Bool, true, false, List, [], ◌∷◌, ◌++◌, Option, none, some, Bytes, bytes_eq, if◌then◌else◌,
}
use liva_lang.Ast.Types.Repr.{TypeRepr}
use liva_lang.Lexer.State.{SourceLocation}

pub data Kind : Type 0 where
  variable function parameter struct_type enum_type field type_param const_param : Kind
  lifetime_param protocol_type type_alias class_type : Kind

pub record Symbol : Type 0 where
  pub name : Bytes
  pub kind : Kind
  pub type : Option TypeRepr
  pub is_mutable : Bool
  pub is_constant : Bool
  pub is_public : Bool
  pub func_decl : Option ℕ
  pub struct_decl : Option ℕ
  pub enum_decl : Option ℕ
  pub protocol_decl : Option ℕ
  pub class_decl : Option ℕ
  pub alias_target : Option TypeRepr
  pub decl_loc : SourceLocation

-- `symbols_`
abbrev pub Table : Type 0
Table = List (Bytes × Symbol)

-- `symbols_.find`
unfoldable pub find_symbol : Bytes → Table → Option Symbol
find_symbol name [] = none
find_symbol name ((n, s) ∷ m) = if bytes_eq n name then some s else find_symbol name m

-- `Scope::declare`: `emplace` leaves an old entry as it is, and says whether it inserted.
unfoldable pub declare_in : Bytes → Symbol → Table → Table × Bool
unfolding find_symbol
declare_in name symbol m = elim (find_symbol name m) [
  | none ↦ ((name, symbol) ∷ m, true)
  | some _ ↦ (m, false)
]

-- `Scope::lookup`, along the parents
unfoldable pub lookup_chain : Bytes → List Table → Option Symbol
unfolding find_symbol
lookup_chain name [] = none
lookup_chain name (m ∷ ms) = elim (find_symbol name m) [
  | some s ↦ some s
  | none ↦ lookup_chain name ms
]

-- `ScopeStack`: the scope at the back of the vector first, and the scopes below it. There always
-- is one.
pub record ScopeStack : Type 0 where
  pub current : Table
  pub outer : List Table

-- The constructor: a global scope.
abbrev pub initial : ScopeStack
initial = record { current = []; outer = [] }

unfoldable pub push_scope : ScopeStack → ScopeStack
push_scope s = record { current = []; outer = s.current ∷ s.outer }

abbrev pub pop_to : ScopeStack → List Table → ScopeStack
pop_to s [] = s
pop_to s (m ∷ ms) = record { current = m; outer = ms }

-- `popScope`: the global scope stays.
unfoldable pub pop_scope : ScopeStack → ScopeStack
pop_scope s = pop_to s s.outer

unfoldable pub declare : Bytes → Symbol → ScopeStack → ScopeStack × Bool
unfolding declare_in
declare name symbol s =
    let (m, inserted) = declare_in name symbol s.current in (record s { current = m }, inserted)

unfoldable pub lookup : Bytes → ScopeStack → Option Symbol
unfolding lookup_chain
lookup name s = lookup_chain name (s.current ∷ s.outer)

unfoldable pub lookup_local : Bytes → ScopeStack → Option Symbol
unfolding find_symbol
lookup_local name s = find_symbol name s.current

abbrev same_kind : Kind → Kind → Bool
same_kind Kind.variable Kind.variable = true
same_kind Kind.function Kind.function = true
same_kind Kind.parameter Kind.parameter = true
same_kind Kind.struct_type Kind.struct_type = true
same_kind Kind.enum_type Kind.enum_type = true
same_kind Kind.field Kind.field = true
same_kind Kind.type_param Kind.type_param = true
same_kind Kind.const_param Kind.const_param = true
same_kind Kind.lifetime_param Kind.lifetime_param = true
same_kind Kind.protocol_type Kind.protocol_type = true
same_kind Kind.type_alias Kind.type_alias = true
same_kind Kind.class_type Kind.class_type = true
same_kind _ _ = false

-- The names of one scope; the order is that of the map, which the code does not fix.
unfoldable pub names_in : (Symbol → Bool) → Table → List Bytes
names_in test [] = []
names_in test ((n, s) ∷ m) = if test s then n ∷ names_in test m else names_in test m

unfoldable pub names_of : (Symbol → Bool) → List Table → List Bytes
unfolding names_in
names_of test [] = []
names_of test (m ∷ ms) = names_in test m ++ names_of test ms

-- `collectAllNames` and `collectNames`: the names appended to `out`
unfoldable pub collect_all_names : ScopeStack → List Bytes → List Bytes
unfolding names_of
collect_all_names s out = out ++ names_of (λ _. true) (s.current ∷ s.outer)

unfoldable pub collect_names : Kind → ScopeStack → List Bytes → List Bytes
unfolding names_of
collect_names kind s out = out ++ names_of (λ x. same_kind x.kind kind) (s.current ∷ s.outer)
