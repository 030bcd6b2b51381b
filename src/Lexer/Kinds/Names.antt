-- ===== src/Lexer/Kinds/Names.antt =====
-- `TokenKind`, `getTokenSpelling` and `isKeyword`: one line of
-- include/liva/Lexer/TokenKinds.def is one constructor and one clause.
use liva_lang.Base.{Bool, true, false, Bytes, codes}

pub data TokenKind : Type 0 where
  eof identifier integer_literal float_literal string_literal char_literal bool_literal : TokenKind
  newline string_interp_begin string_interp_mid string_interp_end doc_comment : TokenKind
  lifetime_literal kw_let kw_var kw_func kw_return kw_if kw_else kw_while kw_for kw_in : TokenKind
  kw_struct kw_enum kw_match kw_case kw_impl kw_protocol kw_ref kw_mut kw_true kw_false : TokenKind
  kw_import kw_pub kw_self kw_break kw_continue kw_as kw_nil kw_where kw_async kw_await : TokenKind
  kw_yield kw_const kw_comptime kw_macro kw_try kw_type kw_dyn kw_class kw_init : TokenKind
  kw_deinit kw_override kw_super kw_private kw_static kw_final kw_is kw_extern kw_test : TokenKind
  kw_i8 kw_i16 kw_i32 kw_i64 kw_u8 kw_u16 kw_u32 kw_u64 kw_f32 kw_f64 kw_bool kw_string : TokenKind
  kw_void l_paren r_paren l_brace r_brace l_bracket r_bracket comma semicolon colon dot : TokenKind
  dotdot dotdotequal ellipsis arrow fat_arrow coloncolon plus minus star slash percent : TokenKind
  equal_equal bang_equal less less_equal greater greater_equal amp_amp pipe_pipe bang : TokenKind
  amp pipe caret tilde less_less greater_greater equal plus_equal minus_equal : TokenKind
  star_equal slash_equal percent_equal at hash question question_question question_dot : TokenKind
  underscore dollar : TokenKind

-- `getTokenSpelling`
unfoldable pub get_token_spelling : TokenKind → Bytes
unfolding codes
get_token_spelling TokenKind.eof = codes "eof"
get_token_spelling TokenKind.identifier = codes "identifier"
get_token_spelling TokenKind.integer_literal = codes "integer literal"
get_token_spelling TokenKind.float_literal = codes "float literal"
get_token_spelling TokenKind.string_literal = codes "string literal"
get_token_spelling TokenKind.char_literal = codes "char literal"
get_token_spelling TokenKind.bool_literal = codes "bool literal"
get_token_spelling TokenKind.newline = codes "newline"
get_token_spelling TokenKind.string_interp_begin = codes "string interpolation begin"
get_token_spelling TokenKind.string_interp_mid = codes "string interpolation mid"
get_token_spelling TokenKind.string_interp_end = codes "string interpolation end"
get_token_spelling TokenKind.doc_comment = codes "doc comment"
get_token_spelling TokenKind.lifetime_literal = codes "lifetime literal"
get_token_spelling TokenKind.kw_let = codes "let"
get_token_spelling TokenKind.kw_var = codes "var"
get_token_spelling TokenKind.kw_func = codes "func"
get_token_spelling TokenKind.kw_return = codes "return"
get_token_spelling TokenKind.kw_if = codes "if"
get_token_spelling TokenKind.kw_else = codes "else"
get_token_spelling TokenKind.kw_while = codes "while"
get_token_spelling TokenKind.kw_for = codes "for"
get_token_spelling TokenKind.kw_in = codes "in"
get_token_spelling TokenKind.kw_struct = codes "struct"
get_token_spelling TokenKind.kw_enum = codes "enum"
get_token_spelling TokenKind.kw_match = codes "match"
get_token_spelling TokenKind.kw_case = codes "case"
get_token_spelling TokenKind.kw_impl = codes "impl"
get_token_spelling TokenKind.kw_protocol = codes "protocol"
get_token_spelling TokenKind.kw_ref = codes "ref"
get_token_spelling TokenKind.kw_mut = codes "mut"
get_token_spelling TokenKind.kw_true = codes "true"
get_token_spelling TokenKind.kw_false = codes "false"
get_token_spelling TokenKind.kw_import = codes "import"
get_token_spelling TokenKind.kw_pub = codes "pub"
get_token_spelling TokenKind.kw_self = codes "self"
get_token_spelling TokenKind.kw_break = codes "break"
get_token_spelling TokenKind.kw_continue = codes "continue"
get_token_spelling TokenKind.kw_as = codes "as"
get_token_spelling TokenKind.kw_nil = codes "nil"
get_token_spelling TokenKind.kw_where = codes "where"
get_token_spelling TokenKind.kw_async = codes "async"
get_token_spelling TokenKind.kw_await = codes "await"
get_token_spelling TokenKind.kw_yield = codes "yield"
get_token_spelling TokenKind.kw_const = codes "const"
get_token_spelling TokenKind.kw_comptime = codes "comptime"
get_token_spelling TokenKind.kw_macro = codes "macro"
get_token_spelling TokenKind.kw_try = codes "try"
get_token_spelling TokenKind.kw_type = codes "type"
get_token_spelling TokenKind.kw_dyn = codes "dyn"
get_token_spelling TokenKind.kw_class = codes "class"
get_token_spelling TokenKind.kw_init = codes "init"
get_token_spelling TokenKind.kw_deinit = codes "deinit"
get_token_spelling TokenKind.kw_override = codes "override"
get_token_spelling TokenKind.kw_super = codes "super"
get_token_spelling TokenKind.kw_private = codes "private"
get_token_spelling TokenKind.kw_static = codes "static"
get_token_spelling TokenKind.kw_final = codes "final"
get_token_spelling TokenKind.kw_is = codes "is"
get_token_spelling TokenKind.kw_extern = codes "extern"
get_token_spelling TokenKind.kw_test = codes "test"
get_token_spelling TokenKind.kw_i8 = codes "i8"
get_token_spelling TokenKind.kw_i16 = codes "i16"
get_token_spelling TokenKind.kw_i32 = codes "i32"
get_token_spelling TokenKind.kw_i64 = codes "i64"
get_token_spelling TokenKind.kw_u8 = codes "u8"
get_token_spelling TokenKind.kw_u16 = codes "u16"
get_token_spelling TokenKind.kw_u32 = codes "u32"
get_token_spelling TokenKind.kw_u64 = codes "u64"
get_token_spelling TokenKind.kw_f32 = codes "f32"
get_token_spelling TokenKind.kw_f64 = codes "f64"
get_token_spelling TokenKind.kw_bool = codes "bool"
get_token_spelling TokenKind.kw_string = codes "string"
get_token_spelling TokenKind.kw_void = codes "void"
get_token_spelling TokenKind.l_paren = codes "("
get_token_spelling TokenKind.r_paren = codes ")"
get_token_spelling TokenKind.l_brace = codes "{"
get_token_spelling TokenKind.r_brace = codes "}"
get_token_spelling TokenKind.l_bracket = codes "["
get_token_spelling TokenKind.r_bracket = codes "]"
get_token_spelling TokenKind.comma = codes ","
get_token_spelling TokenKind.semicolon = codes ";"
get_token_spelling TokenKind.colon = codes ":"
get_token_spelling TokenKind.dot = codes "."
get_token_spelling TokenKind.dotdot = codes ".."
get_token_spelling TokenKind.dotdotequal = codes "..="
get_token_spelling TokenKind.ellipsis = codes "..."
get_token_spelling TokenKind.arrow = codes "->"
get_token_spelling TokenKind.fat_arrow = codes "=>"
get_token_spelling TokenKind.coloncolon = codes "::"
get_token_spelling TokenKind.plus = codes "+"
get_token_spelling TokenKind.minus = codes "-"
get_token_spelling TokenKind.star = codes "*"
get_token_spelling TokenKind.slash = codes "/"
get_token_spelling TokenKind.percent = codes "%"
get_token_spelling TokenKind.equal_equal = codes "=="
get_token_spelling TokenKind.bang_equal = codes "!="
get_token_spelling TokenKind.less = codes "<"
get_token_spelling TokenKind.less_equal = codes "<="
get_token_spelling TokenKind.greater = codes ">"
get_token_spelling TokenKind.greater_equal = codes ">="
get_token_spelling TokenKind.amp_amp = codes "&&"
get_token_spelling TokenKind.pipe_pipe = codes "||"
get_token_spelling TokenKind.bang = codes "!"
get_token_spelling TokenKind.amp = codes "&"
get_token_spelling TokenKind.pipe = codes "|"
get_token_spelling TokenKind.caret = codes "^"
get_token_spelling TokenKind.tilde = codes "~"
get_token_spelling TokenKind.less_less = codes "<<"
get_token_spelling TokenKind.greater_greater = codes ">>"
get_token_spelling TokenKind.equal = codes "="
get_token_spelling TokenKind.plus_equal = codes "+="
get_token_spelling TokenKind.minus_equal = codes "-="
get_token_spelling TokenKind.star_equal = codes "*="
get_token_spelling TokenKind.slash_equal = codes "/="
get_token_spelling TokenKind.percent_equal = codes "%="
get_token_spelling TokenKind.at = codes "@"
get_token_spelling TokenKind.hash = codes "#"
get_token_spelling TokenKind.question = codes "?"
get_token_spelling TokenKind.question_question = codes "??"
get_token_spelling TokenKind.question_dot = codes "?."
get_token_spelling TokenKind.underscore = codes "_"
get_token_spelling TokenKind.dollar = codes "$"

-- `isKeyword`: the KEYWORD lines of the table
unfoldable pub is_keyword : TokenKind → Bool
is_keyword TokenKind.kw_let = true
is_keyword TokenKind.kw_var = true
is_keyword TokenKind.kw_func = true
is_keyword TokenKind.kw_return = true
is_keyword TokenKind.kw_if = true
is_keyword TokenKind.kw_else = true
is_keyword TokenKind.kw_while = true
is_keyword TokenKind.kw_for = true
is_keyword TokenKind.kw_in = true
is_keyword TokenKind.kw_struct = true
is_keyword TokenKind.kw_enum = true
is_keyword TokenKind.kw_match = true
is_keyword TokenKind.kw_case = true
is_keyword TokenKind.kw_impl = true
is_keyword TokenKind.kw_protocol = true
is_keyword TokenKind.kw_ref = true
is_keyword TokenKind.kw_mut = true
is_keyword TokenKind.kw_true = true
is_keyword TokenKind.kw_false = true
is_keyword TokenKind.kw_import = true
is_keyword TokenKind.kw_pub = true
is_keyword TokenKind.kw_self = true
is_keyword TokenKind.kw_break = true
is_keyword TokenKind.kw_continue = true
is_keyword TokenKind.kw_as = true
is_keyword TokenKind.kw_nil = true
is_keyword TokenKind.kw_where = true
is_keyword TokenKind.kw_async = true
is_keyword TokenKind.kw_await = true
is_keyword TokenKind.kw_yield = true
is_keyword TokenKind.kw_const = true
is_keyword TokenKind.kw_comptime = true
is_keyword TokenKind.kw_macro = true
is_keyword TokenKind.kw_try = true
is_keyword TokenKind.kw_type = true
is_keyword TokenKind.kw_dyn = true
is_keyword TokenKind.kw_class = true
is_keyword TokenKind.kw_init = true
is_keyword TokenKind.kw_deinit = true
is_keyword TokenKind.kw_override = true
is_keyword TokenKind.kw_super = true
is_keyword TokenKind.kw_private = true
is_keyword TokenKind.kw_static = true
is_keyword TokenKind.kw_final = true
is_keyword TokenKind.kw_is = true
is_keyword TokenKind.kw_extern = true
is_keyword TokenKind.kw_test = true
is_keyword TokenKind.kw_i8 = true
is_keyword TokenKind.kw_i16 = true
is_keyword TokenKind.kw_i32 = true
is_keyword TokenKind.kw_i64 = true
is_keyword TokenKind.kw_u8 = true
is_keyword TokenKind.kw_u16 = true
is_keyword TokenKind.kw_u32 = true
is_keyword TokenKind.kw_u64 = true
is_keyword TokenKind.kw_f32 = true
is_keyword TokenKind.kw_f64 = true
is_keyword TokenKind.kw_bool = true
is_keyword TokenKind.kw_string = true
is_keyword TokenKind.kw_void = true
is_keyword _ = false

-- `tok.is(TokenKind::eof)`
abbrev pub is_eof_kind : TokenKind → Bool
is_eof_kind TokenKind.eof = true
is_eof_kind _ = false
