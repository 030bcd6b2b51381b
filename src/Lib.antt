-- ===== src/Lib.antt =====
-- The Liva compiler: its lexer, its JSON reader and printer, its syntax tree, its symbol scopes,
-- its ownership and lifetime checkers, its package versions and its formatter, with what makes them
-- correct.
--
-- Parts of the program. The driver hands a source to the lexer (src/Lexer), whose tokens the parser
-- turns into a syntax tree that holds type representations (src/AST/Type.cpp); semantic analysis
-- resolves names in symbol scopes (src/Sema/Scope.cpp) and then checks moves and borrows on the tree
-- (src/Sema/OwnershipChecker.cpp), for which it asks where a borrow is used for the last time
-- (src/Sema/BorrowLastUse.cpp, by the walks of src/AST/ASTWalk.cpp), and how long references live
-- (src/Sema/LifetimeAnalysis.cpp). The driver reads the versions of packages from project files
-- (src/Driver/ProjectConfig.cpp) and formats sources (src/Driver/Formatter.cpp); caches and the
-- language server exchange JSON (src/Common/JSON.cpp).
--
-- Lexer (src/Lexer/Lexer.cpp, src/Lexer/Token.cpp, include/liva/Lexer). Kinds holds TokenKinds.def,
-- getTokenSpelling, isKeyword and lookupKeyword. State holds the fields of class Lexer and the
-- small moves (advance, peek, makeToken); a report to the diagnostics engine is appended to a list.
-- Blank is skipWhitespace with the comments, Literals the words, numbers, characters and
-- documentation comments, Strings the strings with interpolation, Next the operators, nextToken,
-- peekToken, lexAll and the saved states, Values the values of string and integer tokens. The loops
-- over words and digits are recursions on what is left of the source; those over blanks, comments
-- and strings have the bytes that are left for their fuel, since each round moves the cursor. The
-- rounds of nextToken take one more than the bytes left, since a round that reports an unexpected
-- character has passed it; those of lexAll take two more than the source has bytes, since every
-- token but the last takes a byte. Moves says what each operation does to the cursor and the token,
-- Position what a cursor says of its place, Progress, Stops and Tokens put these together. The loop of
-- getStringValue has a round for each byte of the text.
--
-- Json (src/Common/JSON.cpp, include/liva/Common/JSON.h). Value is JSONValue, with a list of fields
-- in ascending order of keys for the std::map. Print is serialize, Scan the strings and numbers of
-- the parser, Parse the values, with an error as a value. The calls of the parser take fuel, three
-- for each byte and three more. RoundTrip, Total and Members hold the proofs. The double of strtod
-- and its text by %.17g are parameters; strtoul, strtoll and from_chars are written out as the C
-- standard has them.
--
-- Ast.Types (src/AST/Type.cpp, include/liva/AST/Type.h). Repr has a constructor for each subclass
-- of TypeRepr, toString and the tests on kinds; Clone is cloneTypeRepr.
--
-- Ast.Nodes and Ast.Patterns (include/liva/AST) have a constructor for each kind of node and pattern
-- with the parts that the analyses read; a pointer that may be null is a Maybe, and the block of a
-- function or a test a Body. Ast.Walk (src/AST/ASTWalk.cpp) is forEachChild and walkSubtree, as the
-- lists of the nodes that the callback is given; walkSubtree goes as many levels deep as the tree has
-- nodes. Ast.Listed is the list of the nodes of a tree by recursion on the tree.
--
-- Sema.Scope (src/Sema/Scope.cpp, include/liva/Sema/Scope.h). Defs is ScopeStack as the list of its
-- tables, the innermost first; Laws has the proofs.
--
-- Sema.Borrow (src/Sema/BorrowLastUse.cpp) is findLastUse, on the statements behind the declaration.
--
-- Sema.Ownership (src/Sema/OwnershipChecker.cpp, include/liva/Sema/OwnershipChecker.h). Info is what
-- each operation does to one variable, with its reports: markMoved is mark_moved, checkUse
-- check_use, addBorrow add_borrow and so on. Scopes has the state of the checker and these
-- operations on the variable that getInfo finds (move, use_variable, borrow_variable, release_one),
-- trackVariable, and the beginning and the end of a scope. allVariables_, whose entries point into
-- the maps of the scopes, takes a name to the number of a scope, counted from the outermost; an
-- entry whose scope is gone dangles. Types has the questions about types and functions, Steps and
-- Targets what the visitors do between the visits of the parts, Visit the visitors, by recursion on
-- the tree, and check. Info.Laws has the automaton of one variable; Live, Shown and Keeps have
-- the relation of the states before and after a step, with its lemmas; Check, Reports, Passive, Dyn,
-- Freed, Fewer, GivenBack and Released have the theorems, the last by the steps of the loop of
-- visitBlockStmt. dropScopeVariables takes the entries in the order of their declarations, where the
-- code has that of an unordered_map.
--
-- Sema.Lifetime (src/Sema/LifetimeAnalysis.cpp) is LifetimeAnalysis, with the depth and the variables
-- as its state, and its walk of the unit by Ast.Walk. Within and Laws have the depths, Exit and Reach
-- the reports of declarations.
--
-- Driver.Version (src/Driver/ProjectConfig.cpp, include/liva/Driver/ProjectConfig.h) has SemVer with
-- its order, parseSemVer, and the ranges of `^` and `~`; Constraint is parseVersionConstraint and the
-- text of a constraint. Order, Ranges, RoundTrip, Solid and ReadBack hold the proofs. strtol is
-- written out as the C standard has it, with a long of 64 bits. The addition of 1 to a part wraps
-- around at the greatest int, where C++ leaves it undefined.
--
-- Driver.Format (src/Driver/Formatter.cpp) is formatLivaSource, by recursion on the source and on its
-- lines; its trimming is that of Constraint. Lines and Again hold the proofs.
--
-- Machine integers: line, column and offset are cut to 32 bits as in the code, and makeToken
-- computes the column in 64 bits; offsets of type size_t are exact, on sources of less than 2^64
-- bytes where that matters. The depth of nested comments and of parentheses in an interpolation (an
-- int) and borrowCount are natural numbers without a bound. char is a byte; isalpha, isdigit and
-- isxdigit are those of the C locale.
--
-- Not modelled: the parser, the type checker, code generation (which calls
-- LLVM), the linter, the rest of the drivers, servers, editors and the runtime library.
pub mod Base
pub mod Json
pub mod Lexer
pub mod Ast
pub mod Sema
pub mod Driver
