-- ===== src/Sema/Ownership/Types.antt =====
-- The questions of `OwnershipChecker` about types and about the functions of the unit.
use liva_lang.Base.{
  ℕ, Bool, true, false, ◌&&◌, ◌||◌, not, List, [], ◌∷◌, ◌++◌, Option, none, some, Bytes, codes,
  bytes_eq, get_elem?, if◌then◌else◌,
}
use liva_lang.Base.Dict.{Dict, lookup_key, put_key}
use liva_lang.Ast.Types.Repr.{TypeRepr, kind_of, Kind, is_primitive}
use liva_lang.Ast.Nodes.{
  Node, Maybe, absent, present, Nodes, nil, cons, Params, no_params, param, Param, Members,
  no_members, class_member,
}

-- `classNames_`, `dropTypeNames_` and, of each function in `funcsByName_`, its parameters
pub record Setting : Type 0 where
  pub class_names : List Bytes
  pub drop_type_names : List Bytes
  pub funcs : Dict (List (List Param))

-- `count(n)` in a set, and the search of a list
unfoldable pub contains : Bytes → List Bytes → Bool
unfolding bytes_eq
contains n [] = false
contains n (m ∷ ms) = bytes_eq m n || contains n ms

-- `isTypeParamInScope`
unfoldable pub is_type_param : Bytes → List (List Bytes) → Bool
unfolding contains
is_type_param n [] = false
is_type_param n (ps ∷ pss) = contains n ps || is_type_param n pss

-- `isClassType`
unfoldable pub is_class_type : Setting → Option TypeRepr → Bool
unfolding contains
is_class_type s (some (TypeRepr.named n)) = contains n s.class_names
is_class_type s _ = false

unfoldable pub is_drop : Setting → TypeRepr → Bool
unfolding contains
is_drop s (TypeRepr.optional t) = is_drop s t
is_drop s (TypeRepr.named n) = contains n s.drop_type_names
is_drop s _ = false

-- `isDropType`
abbrev pub is_drop_type : Setting → Option TypeRepr → Bool
is_drop_type s none = false
is_drop_type s (some t) = is_drop s t

-- `isVoid`
abbrev pub is_void : Kind → Bool
is_void Kind.void = true
is_void _ = false

-- A named type that is `Copy`
abbrev pub is_copy_name : Setting → List (List Bytes) → Bytes → Bool
is_copy_name s pss n =
    bytes_eq n (codes "String")
    || bytes_eq n (codes "Map")
    || bytes_eq n (codes "Set")
    || contains n s.class_names
    || is_type_param n pss

-- The kinds that are `Copy` by themselves
abbrev pub is_copy_kind : Kind → Bool
is_copy_kind Kind.array = true
is_copy_kind Kind.tuple = true
is_copy_kind Kind.function = true
is_copy_kind _ = false

unfoldable pub is_copy : Setting → List (List Bytes) → TypeRepr → Bool
unfolding is_drop is_type_param contains kind_of is_primitive codes bytes_eq
is_copy s pss (TypeRepr.named n) = is_copy_name s pss n
is_copy s pss (TypeRepr.optional t) = not (is_drop s t)
is_copy s pss (TypeRepr.plain k) = (is_primitive k && not (is_void k)) || is_copy_kind k
is_copy s pss t = is_copy_kind (kind_of t)

-- `isCopyType`
abbrev pub is_copy_type : Setting → List (List Bytes) → Option TypeRepr → Bool
is_copy_type s pss none = true
is_copy_type s pss (some t) = is_copy s pss t

-- `containerElementType`
unfoldable pub container_element_type : Option TypeRepr → Option TypeRepr
container_element_type (some (TypeRepr.array t n p)) = some t
container_element_type (some (TypeRepr.optional t)) = some t
container_element_type _ = none

unfoldable pub params_of : Params → List Param
params_of no_params = []
params_of (param p d ps) = p ∷ params_of ps

abbrev pub entry : Option (List (List Param)) → List (List Param)
entry none = []
entry (some ps) = ps

-- `record` of `collectFuncDecls`
unfoldable pub record_func : Node → Dict (List (List Param)) → Dict (List (List Param))
unfolding lookup_key put_key params_of
record_func (Node.func_decl i n ts ps b) d =
    put_key n (entry (lookup_key n d) ++ params_of ps ∷ []) d
record_func _ d = d

abbrev pub record_maybe : Maybe → Dict (List (List Param)) → Dict (List (List Param))
record_maybe absent d = d
record_maybe (present n) d = record_func n d

unfoldable pub record_all : Nodes → Dict (List (List Param)) → Dict (List (List Param))
unfolding record_func
record_all nil d = d
record_all (cons n ns) d = record_all ns (record_func n d)

unfoldable pub record_members : Members → Dict (List (List Param)) → Dict (List (List Param))
unfolding record_func
record_members no_members d = d
record_members (class_member f m ms) d = record_members ms (record_maybe m d)

unfoldable pub collect_decl : Node → Dict (List (List Param)) → Dict (List (List Param))
unfolding record_func record_all record_members
collect_decl (Node.func_decl i n ts ps b) d = record_func (Node.func_decl i n ts ps b) d
collect_decl (Node.impl_decl i n ts ms) d = record_all ms d
collect_decl (Node.protocol_decl i n ts ms) d = record_all ms d
collect_decl (Node.class_decl i n ts ms) d = record_members ms d
collect_decl _ d = d

-- `collectFuncDecls`
unfoldable pub collect_func_decls : Nodes → Dict (List (List Param)) → Dict (List (List Param))
unfolding collect_decl
collect_func_decls nil d = d
collect_func_decls (cons n ns) d = collect_func_decls ns (collect_decl n d)

-- `!params.empty() && params[0].isSelf`
abbrev pub has_self : List Param → Bool
has_self [] = false
has_self (p ∷ ps) = p.is_self

-- Whether a type is `dyn`; none is not.
abbrev pub is_dyn : Option TypeRepr → Bool
is_dyn (some (TypeRepr.dyn_protocol n)) = true
is_dyn _ = false

-- The verdict on a parameter, if there is one, before that on the other functions
abbrev pub judge : Option Param → Bool → (Bool → Bool) → Bool
judge none saw rest = rest saw
judge (some p) saw rest = is_dyn p.type && rest true

-- The loop of `paramIsDynProtocol`, for a call that is not one of a member
unfoldable pub all_dyn : List (List Param) → ℕ → Bool → Bool
all_dyn [] k saw = saw
all_dyn (ps ∷ fs) k saw =
    if has_self ps then all_dyn fs k saw else judge (get_elem? ps k) saw (all_dyn fs k)

-- `paramIsDynProtocol`
unfoldable pub param_is_dyn_protocol : Setting → Bytes → Bool → ℕ → Bool
unfolding all_dyn lookup_key
param_is_dyn_protocol s name is_member_call k =
    not is_member_call && all_dyn (entry (lookup_key name s.funcs)) k false
