-- ===== src/Syntax/Token.antt =====
-- Kinds, tokens, modes and dialects (crates/themelios-syntax/src/tree.rs, token.rs, dialect.rs).
use themelios.Prelude.{ℕ}
use themelios.Base.Source.{Chars}

pub data SyntaxKind : Type 0 where
  whitespace line_comment block_comment shebang_comment doc_comment ident variable anonymous number
        string kw_const kw_count kw_defined kw_edge kw_external kw_false kw_heuristic kw_include
        kw_inf kw_max kw_maximize kw_min kw_minimize kw_program kw_project kw_script kw_show kw_sum
        kw_sum_plus kw_sup kw_theory kw_true kw_not kw_end dot dotdot comma semicolon colon neck
        weak_neck pipe l_paren r_paren l_bracket r_bracket l_brace r_brace plus minus star star_star
        slash backslash caret ampersand tilde question at eq neq lt le gt ge theory_op script_body
        splice error eof program statement_fragment term_fragment rule weak_constraint
        optimize_statement optimize_element show_statement signature project_statement
        defined_statement edge_statement edge heuristic_statement external_statement const_statement
        script_statement include_statement program_statement parameters theory_definition
        term_definition op_definition atom_definition query annotation body literal atom comparison
        conditional_literal condition disjunction function_aggregate set_aggregate guard
        body_aggregate_element head_aggregate_element theory_atom theory_elements theory_element
        theory_opterm theory_guard theory_set theory_list theory_tuple theory_function binary_term
        unary_term pool tuple arguments function_term external_term abs_term constant_term
        variable_term splice_term :
      SyntaxKind

pub record Token : Type 0 where
  pub kind : SyntaxKind
  pub text : Chars

pub data LexMode : Type 0 where
  normal theory script_body : LexMode

pub data Dialect : Type 0 where
  clingo asp_core_2 : Dialect

-- The pair of a kind and a byte length.
abbrev pub Lexed : Type 0
Lexed = SyntaxKind × ℕ
