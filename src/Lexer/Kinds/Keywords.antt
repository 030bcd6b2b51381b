-- ===== src/Lexer/Kinds/Keywords.antt =====
-- `lookupKeyword` of src/Lexer/Token.cpp: the map that the KEYWORD lines of TokenKinds.def fill.
use liva_lang.Base.{
  Bytes, bytes_eq, bytes_eq_iff, codes, List, [], ◌∷◌, ◌≡◌, ◌≢◌, ◌↔◌, refl, sym, ap, ◌∙◌, true,
  false, inl, inr, if◌then◌else◌, Bool-cases,
}
use liva_lang.Lexer.Kinds.Names.{TokenKind, get_token_spelling, is_keyword, is_eof_kind}

-- The initialiser list of `keywords`.
unfoldable pub keyword_table : List (Bytes × TokenKind)
unfolding codes
keyword_table =
    (codes "let", TokenKind.kw_let)
    ∷ (codes "var", TokenKind.kw_var)
    ∷ (codes "func", TokenKind.kw_func)
    ∷ (codes "return", TokenKind.kw_return)
    ∷ (codes "if", TokenKind.kw_if)
    ∷ (codes "else", TokenKind.kw_else)
    ∷ (codes "while", TokenKind.kw_while)
    ∷ (codes "for", TokenKind.kw_for)
    ∷ (codes "in", TokenKind.kw_in)
    ∷ (codes "struct", TokenKind.kw_struct)
    ∷ (codes "enum", TokenKind.kw_enum)
    ∷ (codes "match", TokenKind.kw_match)
    ∷ (codes "case", TokenKind.kw_case)
    ∷ (codes "impl", TokenKind.kw_impl)
    ∷ (codes "protocol", TokenKind.kw_protocol)
    ∷ (codes "ref", TokenKind.kw_ref)
    ∷ (codes "mut", TokenKind.kw_mut)
    ∷ (codes "true", TokenKind.kw_true)
    ∷ (codes "false", TokenKind.kw_false)
    ∷ (codes "import", TokenKind.kw_import)
    ∷ (codes "pub", TokenKind.kw_pub)
    ∷ (codes "self", TokenKind.kw_self)
    ∷ (codes "break", TokenKind.kw_break)
    ∷ (codes "continue", TokenKind.kw_continue)
    ∷ (codes "as", TokenKind.kw_as)
    ∷ (codes "nil", TokenKind.kw_nil)
    ∷ (codes "where", TokenKind.kw_where)
    ∷ (codes "async", TokenKind.kw_async)
    ∷ (codes "await", TokenKind.kw_await)
    ∷ (codes "yield", TokenKind.kw_yield)
    ∷ (codes "const", TokenKind.kw_const)
    ∷ (codes "comptime", TokenKind.kw_comptime)
    ∷ (codes "macro", TokenKind.kw_macro)
    ∷ (codes "try", TokenKind.kw_try)
    ∷ (codes "type", TokenKind.kw_type)
    ∷ (codes "dyn", TokenKind.kw_dyn)
    ∷ (codes "class", TokenKind.kw_class)
    ∷ (codes "init", TokenKind.kw_init)
    ∷ (codes "deinit", TokenKind.kw_deinit)
    ∷ (codes "override", TokenKind.kw_override)
    ∷ (codes "super", TokenKind.kw_super)
    ∷ (codes "private", TokenKind.kw_private)
    ∷ (codes "static", TokenKind.kw_static)
    ∷ (codes "final", TokenKind.kw_final)
    ∷ (codes "is", TokenKind.kw_is)
    ∷ (codes "extern", TokenKind.kw_extern)
    ∷ (codes "test", TokenKind.kw_test)
    ∷ (codes "i8", TokenKind.kw_i8)
    ∷ (codes "i16", TokenKind.kw_i16)
    ∷ (codes "i32", TokenKind.kw_i32)
    ∷ (codes "i64", TokenKind.kw_i64)
    ∷ (codes "u8", TokenKind.kw_u8)
    ∷ (codes "u16", TokenKind.kw_u16)
    ∷ (codes "u32", TokenKind.kw_u32)
    ∷ (codes "u64", TokenKind.kw_u64)
    ∷ (codes "f32", TokenKind.kw_f32)
    ∷ (codes "f64", TokenKind.kw_f64)
    ∷ (codes "bool", TokenKind.kw_bool)
    ∷ (codes "string", TokenKind.kw_string)
    ∷ (codes "void", TokenKind.kw_void)
    ∷ []

-- `keywords.find`, and `identifier` where it finds nothing
unfoldable pub find_kind : List (Bytes × TokenKind) → Bytes → TokenKind
unfolding bytes_eq
find_kind [] t = TokenKind.identifier
find_kind ((s, k) ∷ m) t = if bytes_eq s t then k else find_kind m t

unfoldable pub lookup_keyword : Bytes → TokenKind
unfolding find_kind keyword_table
lookup_keyword t = find_kind keyword_table t

-- A keyword's spelling is read back as that keyword.
pub lookup_keyword-get_token_spelling :
    (k : TokenKind) → is_keyword k ≡ true → lookup_keyword (get_token_spelling k) ≡ k
unfolding lookup_keyword get_token_spelling is_keyword
lookup_keyword-get_token_spelling TokenKind.kw_let h = refl
lookup_keyword-get_token_spelling TokenKind.kw_var h = refl
lookup_keyword-get_token_spelling TokenKind.kw_func h = refl
lookup_keyword-get_token_spelling TokenKind.kw_return h = refl
lookup_keyword-get_token_spelling TokenKind.kw_if h = refl
lookup_keyword-get_token_spelling TokenKind.kw_else h = refl
lookup_keyword-get_token_spelling TokenKind.kw_while h = refl
lookup_keyword-get_token_spelling TokenKind.kw_for h = refl
lookup_keyword-get_token_spelling TokenKind.kw_in h = refl
lookup_keyword-get_token_spelling TokenKind.kw_struct h = refl
lookup_keyword-get_token_spelling TokenKind.kw_enum h = refl
lookup_keyword-get_token_spelling TokenKind.kw_match h = refl
lookup_keyword-get_token_spelling TokenKind.kw_case h = refl
lookup_keyword-get_token_spelling TokenKind.kw_impl h = refl
lookup_keyword-get_token_spelling TokenKind.kw_protocol h = refl
lookup_keyword-get_token_spelling TokenKind.kw_ref h = refl
lookup_keyword-get_token_spelling TokenKind.kw_mut h = refl
lookup_keyword-get_token_spelling TokenKind.kw_true h = refl
lookup_keyword-get_token_spelling TokenKind.kw_false h = refl
lookup_keyword-get_token_spelling TokenKind.kw_import h = refl
lookup_keyword-get_token_spelling TokenKind.kw_pub h = refl
lookup_keyword-get_token_spelling TokenKind.kw_self h = refl
lookup_keyword-get_token_spelling TokenKind.kw_break h = refl
lookup_keyword-get_token_spelling TokenKind.kw_continue h = refl
lookup_keyword-get_token_spelling TokenKind.kw_as h = refl
lookup_keyword-get_token_spelling TokenKind.kw_nil h = refl
lookup_keyword-get_token_spelling TokenKind.kw_where h = refl
lookup_keyword-get_token_spelling TokenKind.kw_async h = refl
lookup_keyword-get_token_spelling TokenKind.kw_await h = refl
lookup_keyword-get_token_spelling TokenKind.kw_yield h = refl
lookup_keyword-get_token_spelling TokenKind.kw_const h = refl
lookup_keyword-get_token_spelling TokenKind.kw_comptime h = refl
lookup_keyword-get_token_spelling TokenKind.kw_macro h = refl
lookup_keyword-get_token_spelling TokenKind.kw_try h = refl
lookup_keyword-get_token_spelling TokenKind.kw_type h = refl
lookup_keyword-get_token_spelling TokenKind.kw_dyn h = refl
lookup_keyword-get_token_spelling TokenKind.kw_class h = refl
lookup_keyword-get_token_spelling TokenKind.kw_init h = refl
lookup_keyword-get_token_spelling TokenKind.kw_deinit h = refl
lookup_keyword-get_token_spelling TokenKind.kw_override h = refl
lookup_keyword-get_token_spelling TokenKind.kw_super h = refl
lookup_keyword-get_token_spelling TokenKind.kw_private h = refl
lookup_keyword-get_token_spelling TokenKind.kw_static h = refl
lookup_keyword-get_token_spelling TokenKind.kw_final h = refl
lookup_keyword-get_token_spelling TokenKind.kw_is h = refl
lookup_keyword-get_token_spelling TokenKind.kw_extern h = refl
lookup_keyword-get_token_spelling TokenKind.kw_test h = refl
lookup_keyword-get_token_spelling TokenKind.kw_i8 h = refl
lookup_keyword-get_token_spelling TokenKind.kw_i16 h = refl
lookup_keyword-get_token_spelling TokenKind.kw_i32 h = refl
lookup_keyword-get_token_spelling TokenKind.kw_i64 h = refl
lookup_keyword-get_token_spelling TokenKind.kw_u8 h = refl
lookup_keyword-get_token_spelling TokenKind.kw_u16 h = refl
lookup_keyword-get_token_spelling TokenKind.kw_u32 h = refl
lookup_keyword-get_token_spelling TokenKind.kw_u64 h = refl
lookup_keyword-get_token_spelling TokenKind.kw_f32 h = refl
lookup_keyword-get_token_spelling TokenKind.kw_f64 h = refl
lookup_keyword-get_token_spelling TokenKind.kw_bool h = refl
lookup_keyword-get_token_spelling TokenKind.kw_string h = refl
lookup_keyword-get_token_spelling TokenKind.kw_void h = refl
lookup_keyword-get_token_spelling _ h = absurd (cc)

-- Every entry of a table has the spelling of its kind, and its kind is a keyword.
abbrev AreSpelled : List (Bytes × TokenKind) → Type 0
AreSpelled [] = Unit
AreSpelled ((s, k) ∷ m) = (get_token_spelling k ≡ s) × (is_keyword k ≡ true) × AreSpelled m

keyword_table-AreSpelled : AreSpelled keyword_table
unfolding keyword_table get_token_spelling is_keyword
keyword_table-AreSpelled = (
  refl,
  refl,
  (
    refl,
    refl,
    (
      refl,
      refl,
      (
        refl,
        refl,
        (
          refl,
          refl,
          (
            refl,
            refl,
            (
              refl,
              refl,
              (
                refl,
                refl,
                (
                  refl,
                  refl,
                  (
                    refl,
                    refl,
                    (
                      refl,
                      refl,
                      (
                        refl,
                        refl,
                        (
                          refl,
                          refl,
                          (
                            refl,
                            refl,
                            (
                              refl,
                              refl,
                              (
                                refl,
                                refl,
                                (
                                  refl,
                                  refl,
                                  (
                                    refl,
                                    refl,
                                    (
                                      refl,
                                      refl,
                                      (
                                        refl,
                                        refl,
                                        (
                                          refl,
                                          refl,
                                          (
                                            refl,
                                            refl,
                                            (
                                              refl,
                                              refl,
                                              (
                                                refl,
                                                refl,
                                                (
                                                  refl,
                                                  refl,
                                                  (
                                                    refl,
                                                    refl,
                                                    (
                                                      refl,
                                                      refl,
                                                      (
                                                        refl,
                                                        refl,
                                                        (
                                                          refl,
                                                          refl,
                                                          (
                                                            refl,
                                                            refl,
                                                            (
                                                            refl,
                                                            refl,
                                                            (
                                                            refl,
                                                            refl,
                                                            (
                                                            refl,
                                                            refl,
                                                            (
                                                            refl,
                                                            refl,
                                                            (
                                                            refl,
                                                            refl,
                                                            (
                                                            refl,
                                                            refl,
                                                            (
                                                            refl,
                                                            refl,
                                                            (
                                                            refl,
                                                            refl,
                                                            (
                                                            refl,
                                                            refl,
                                                            (
                                                            refl,
                                                            refl,
                                                            (
                                                            refl,
                                                            refl,
                                                            (
                                                            refl,
                                                            refl,
                                                            (
                                                            refl,
                                                            refl,
                                                            (
                                                            refl,
                                                            refl,
                                                            (
                                                            refl,
                                                            refl,
                                                            (
                                                            refl,
                                                            refl,
                                                            (
                                                            refl,
                                                            refl,
                                                            (
                                                            refl,
                                                            refl,
                                                            (
                                                            refl,
                                                            refl,
                                                            (
                                                            refl,
                                                            refl,
                                                            (
                                                            refl,
                                                            refl,
                                                            (
                                                            refl,
                                                            refl,
                                                            (
                                                            refl,
                                                            refl,
                                                            (
                                                            refl,
                                                            refl,
                                                            (
                                                            refl,
                                                            refl,
                                                            (
                                                            refl,
                                                            refl,
                                                            (
                                                            refl,
                                                            refl,
                                                            (
                                                            refl,
                                                            refl,
                                                            (refl, refl, (refl, refl, tt)),
                                                            ),
                                                            ),
                                                            ),
                                                            ),
                                                            ),
                                                            ),
                                                            ),
                                                            ),
                                                            ),
                                                            ),
                                                            ),
                                                            ),
                                                            ),
                                                            ),
                                                            ),
                                                            ),
                                                            ),
                                                            ),
                                                            ),
                                                            ),
                                                            ),
                                                            ),
                                                            ),
                                                            ),
                                                            ),
                                                            ),
                                                            ),
                                                            ),
                                                          ),
                                                        ),
                                                      ),
                                                    ),
                                                  ),
                                                ),
                                              ),
                                            ),
                                          ),
                                        ),
                                      ),
                                    ),
                                  ),
                                ),
                              ),
                            ),
                          ),
                        ),
                      ),
                    ),
                  ),
                ),
              ),
            ),
          ),
        ),
      ),
    ),
  ),
)

find_kind-spelled :
    (m : List (Bytes × TokenKind)) (t : Bytes)
    → AreSpelled m
    → find_kind m t ≢ TokenKind.identifier
    → (get_token_spelling (find_kind m t) ≡ t) × (is_keyword (find_kind m t) ≡ true)
unfolding find_kind
find_kind-spelled [] t h = λ ne. absurd (ne refl)
find_kind-spelled ((s, k) ∷ m) t (e, w, h) = elim (Bool-cases (bytes_eq s t)) [
  | inl same ↦ rw same (λ _. (e ∙ (bytes_eq_iff s t).0 same, w))
  | inr other ↦ rw other (λ ne. find_kind-spelled m t h ne)
]

-- No word is the end of the input.
keyword-real : (k : TokenKind) → is_keyword k ≡ true → is_eof_kind k ≡ false
unfolding is_keyword
keyword-real TokenKind.eof h = absurd (cc)
keyword-real _ h = refl

find_kind-real :
    (m : List (Bytes × TokenKind)) (t : Bytes) → AreSpelled m → is_eof_kind (find_kind m t) ≡ false
unfolding find_kind
find_kind-real [] t h = refl
find_kind-real ((s, k) ∷ m) t (e, w, h) = elim (Bool-cases (bytes_eq s t)) [
  | inl same ↦ rw same (keyword-real k w)
  | inr other ↦ rw other (find_kind-real m t h)
]

pub lookup_keyword-real : (t : Bytes) → is_eof_kind (lookup_keyword t) ≡ false
unfolding lookup_keyword
lookup_keyword-real t = find_kind-real keyword_table t keyword_table-AreSpelled

keyword-ne-identifier : {k : TokenKind} → is_keyword k ≡ true → k ≢ TokenKind.identifier
unfolding is_keyword
keyword-ne-identifier h e = cc (rw e at h)

spelling_of_lookup :
    (t : Bytes) (k : TokenKind)
    → is_keyword k ≡ true
    → lookup_keyword t ≡ k
    → t ≡ get_token_spelling k
unfolding lookup_keyword
spelling_of_lookup t k h e =
    let found = find_kind-spelled keyword_table t keyword_table-AreSpelled in
    sym (found (λ i. keyword-ne-identifier h (sym e ∙ i))).0 ∙ ap get_token_spelling e

-- For a keyword `k`, `lookupKeyword` answers `k` exactly at the spelling of `k`.
pub lookup_keyword_iff :
    (t : Bytes) (k : TokenKind)
    → is_keyword k ≡ true
    → (lookup_keyword t ≡ k) ↔ (t ≡ get_token_spelling k)
lookup_keyword_iff t k h =
    (spelling_of_lookup t k h, λ e. rw e (lookup_keyword-get_token_spelling k h))
