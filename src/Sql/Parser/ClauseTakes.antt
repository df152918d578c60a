-- ===== src/Sql/Parser/ClauseTakes.antt =====
-- How many tokens the parsers of the clauses take.
use fundb.Prelude.{ℕ, suc, ◌≡◌, refl, false, [], ◌∷◌, arith, not, ◌&&◌}
use fundb.Prelude.Text.{codes}
use fundb.Order.Bytes.{cmp_bytes}
use fundb.Sql.Token.{Token}
use fundb.Sql.Chars.{to_ascii_lowercase}
use fundb.Sql.Ast
use fundb.Sql.Ast.{Name, Expr, JoinType}
use fundb.Sql.Parser.{Parser, kind, is, when_word}
use fundb.Sql.Parser.Exprs.{Inner, parse_expr, parse_primary_expr, is_ident}
use fundb.Sql.Parser.Clauses.{
  optional, optional_expr, is_clause_keyword, bare_alias, parse_alias, parse_select_item,
  parse_projection_list, is_of, table_alias, parse_table_ref, join_type_of, after_join, parse_join,
  parse_order_by_item, parse_order_by_list, parse_expr_list, parse_chain, is_depth, parse_depths,
  parse_traverse_clause, TraceKey, start_key, goal_key, max_depth_key, min_strength_key,
  min_stability_key, trace_key, trace_value, no_parts, parse_trace_causality_clause, word_is,
  bool_of, ContextParts, parse_context_option, ends_options, parse_context_options,
  parse_within_context, TimeKind, system, valid, system_word, valid_word, time_kind,
  parse_valid_time, parse_system_time, after_time_kind, parse_as_of_body,
}
use fundb.Sql.Parser.Takes.{
  Takes, Takes-bind, Takes-pure, Takes-peek, Takes-peek2, Takes-if, Takes-match, Takes-error,
  Takes-if_eat, Takes-expect, Takes-loop, Takes-separated, one, any, Takes-any, Takes-eat,
  Takes-advance,
}
use fundb.Sql.Parser.Primaries.{
  InnerTakes, Takes-expect_ident, Takes-parse_qualified_name, Takes-parse_primary_expr,
}
use fundb.Sql.Parser.Levels.{Takes-parse_expr}

pub Takes-optional :
    {A : Type 0} {m : ℕ} (tok : Token) {p : Parser A}
    → is tok Token.eof ≡ false
    → Takes m one p
    → Takes m any (optional tok p)
unfolding optional
Takes-optional {m = m} tok e h =
    Takes-if_eat {n = m} tok (omega arith) e (Takes-bind 1 h (λ a. Takes-pure _ refl))
      (Takes-pure _ refl)

pub Takes-optional_expr :
    {m : ℕ} (tok : Token) {p : Parser Expr}
    → is tok Token.eof ≡ false
    → Takes m one p
    → Takes m any (optional_expr tok p)
unfolding optional_expr
Takes-optional_expr {m = m} tok e h =
    Takes-if_eat {n = m} tok (omega arith) e (Takes-bind 1 h (λ a. Takes-pure _ refl))
      (Takes-pure _ refl)

Takes-bare_alias : {m : ℕ} → Takes m any bare_alias
unfolding bare_alias
Takes-bare_alias = Takes-peek (λ t.
    Takes-if (is_ident t && not (is_clause_keyword t))
      (Takes-bind 1 Takes-expect_ident (λ a. Takes-pure _ refl)) (Takes-pure _ refl))

Takes-parse_alias : {m : ℕ} → Takes m any parse_alias
unfolding parse_alias kind
Takes-parse_alias {m} =
    Takes-if_eat {n = m} Token.as_kw (omega arith) refl
      (Takes-bind 1 Takes-expect_ident (λ a. Takes-pure _ refl)) Takes-bare_alias

Takes-table_alias : {m : ℕ} → Takes m any table_alias
unfolding table_alias
Takes-table_alias = Takes-peek (λ t. Takes-peek2 (λ u.
    Takes-if (is Token.as_kw t && not (is_of u))
      (Takes-bind 0 Takes-advance (λ _. Takes-bind 1 Takes-expect_ident (λ a. Takes-pure _ refl)))
      Takes-bare_alias))

pub Takes-parse_chain : {m : ℕ} (start : Name) → Takes m any (parse_chain start)
unfolding parse_chain kind
Takes-parse_chain {m} start = Takes-loop (start ∷ []) (λ names.
    Takes-if_eat {n = m} Token.arrow (omega arith) refl
      (Takes-bind 1 Takes-expect_ident (λ x. Takes-pure _ refl)) (Takes-pure _ refl))

module _ (n : ℕ) (l : Inner) (h : InnerTakes n l) where
  an_expr : Takes (suc n) one (parse_expr l)
  an_expr = Takes-parse_expr n l h

  a_primary : Takes (suc n) one (parse_primary_expr l)
  a_primary = Takes-parse_primary_expr n l h

  pub Takes-parse_projection_list : Takes (suc n) one (parse_projection_list l)
  unfolding parse_projection_list parse_select_item kind
  Takes-parse_projection_list = Takes-separated Token.comma refl (
      Takes-if_eat {n = n} Token.star (omega arith) refl (Takes-pure _ refl)
        (Takes-bind 1 an_expr (λ e. Takes-bind 0 Takes-parse_alias (λ a. Takes-pure _ refl))))

  pub Takes-parse_table_ref : Takes (suc n) one (parse_table_ref l)
  unfolding parse_table_ref kind
  Takes-parse_table_ref =
      Takes-if_eat {n = n} Token.agent_kw (omega arith) refl
        (Takes-bind 1 (Takes-expect Token.memory_kw refl)
          (λ _. Takes-bind 1 Takes-expect_ident (λ name. Takes-pure _ refl)))
        (Takes-if_eat {n = n} Token.l_paren (omega arith) refl
          (Takes-bind 1 (h.select_inner) (λ _.
            Takes-bind 1 (Takes-expect Token.r_paren refl)
              (λ _. Takes-bind 0 Takes-parse_alias (λ a. Takes-pure _ refl))))
          (Takes-bind 1 Takes-parse_qualified_name
            (λ name. Takes-bind 0 Takes-table_alias (λ a. Takes-pure _ refl))))

  Takes-after_join : (j : JoinType) → Takes (suc n) one (after_join l j)
  unfolding after_join kind
  Takes-after_join j = Takes-bind 1 Takes-parse_table_ref (λ table.
      Takes-bind 0 (Takes-optional_expr Token.on_kw refl an_expr) (λ e. Takes-pure _ refl))

  pub Takes-parse_join : Takes (suc n) one (parse_join l)
  unfolding parse_join kind
  Takes-parse_join =
      Takes-match {n = suc n} join_type_of (omega arith) refl
        (λ t.
          Takes-bind 0 (Takes-if (t.1) (Takes-eat Token.outer_kw refl) (Takes-pure _ refl)) (λ _.
            Takes-bind 0 (Takes-eat Token.join_kw refl) (λ _. Takes-any (Takes-after_join (t.0)))))
        (λ t.
          Takes-if_eat {n = suc n} Token.join_kw (omega arith) refl
            (Takes-any (Takes-after_join Ast.inner)) (Takes-error _))

  Takes-parse_order_by_item : Takes (suc n) one (parse_order_by_item l)
  unfolding parse_order_by_item kind
  Takes-parse_order_by_item = Takes-bind 1 an_expr (λ e.
      Takes-if_eat {n = n} Token.desc_kw (omega arith) refl (Takes-pure _ refl)
        (Takes-bind 0 (Takes-eat Token.asc_kw refl) (λ _. Takes-pure _ refl)))

  pub Takes-parse_order_by_list : Takes (suc n) one (parse_order_by_list l)
  unfolding parse_order_by_list kind
  Takes-parse_order_by_list = Takes-bind 1 Takes-parse_order_by_item (λ o.
      Takes-loop (o ∷ []) (λ os.
        Takes-if_eat {n = suc n} Token.comma (omega arith) refl
          (Takes-peek (λ t.
            Takes-if (is Token.r_bracket t) (Takes-pure _ refl)
              (Takes-bind 1 Takes-parse_order_by_item (λ x. Takes-pure _ refl))))
          (Takes-pure _ refl)))

  pub Takes-parse_expr_list : Takes (suc n) one (parse_expr_list l)
  unfolding parse_expr_list kind
  Takes-parse_expr_list = Takes-separated Token.comma refl an_expr

  Takes-parse_depths : Takes (suc n) one (parse_depths l)
  unfolding parse_depths kind to_ascii_lowercase cmp_bytes
  Takes-parse_depths =
      Takes-bind 0
        (Takes-match {n = suc n} is_depth (omega arith) refl (λ _. Takes-eat Token.colon refl)
          (λ _. Takes-pure _ refl))
        (λ _. Takes-bind 1 a_primary (λ low.
          Takes-bind 0
            (Takes-if_eat {n = suc n} Token.dot_dot (omega arith) refl
              (Takes-bind 1 a_primary (λ high. Takes-pure _ refl)) (Takes-pure _ refl))
            (λ depths. Takes-bind 1 (Takes-expect Token.r_paren refl) (λ _. Takes-pure _ refl))))

  pub Takes-parse_traverse_clause : Takes (suc n) one (parse_traverse_clause l)
  unfolding parse_traverse_clause kind
  Takes-parse_traverse_clause = Takes-bind 1 (Takes-expect Token.traverse_kw refl) (λ _.
      Takes-bind 1 Takes-expect_ident (λ relation.
        Takes-bind 0
          (Takes-if_eat {n = suc n} Token.l_paren (omega arith) refl (Takes-any Takes-parse_depths)
            (Takes-pure _ refl))
          (λ depths. Takes-bind 0 (Takes-parse_chain relation) (λ chain. Takes-pure _ refl))))

  Takes-trace_value : (key : TraceKey) → Takes (suc n) one (trace_value l key)
  Takes-trace_value start_key = a_primary
  Takes-trace_value goal_key = a_primary
  Takes-trace_value max_depth_key = an_expr
  Takes-trace_value min_strength_key = an_expr
  Takes-trace_value min_stability_key = an_expr

  pub Takes-parse_trace_causality_clause : Takes (suc n) one (parse_trace_causality_clause l)
  unfolding parse_trace_causality_clause kind trace_key
  Takes-parse_trace_causality_clause = Takes-bind 1 (Takes-expect Token.trace_kw refl) (λ _.
      Takes-bind 1 (Takes-expect Token.causality_kw refl) (λ _. Takes-loop no_parts (λ p.
        Takes-match {n = suc n} trace_key (omega arith) refl
          (λ key. Takes-bind 1 (Takes-trace_value key) (λ e. Takes-pure _ refl))
          (λ t. Takes-pure _ refl))))

  Takes-parse_context_option :
      (key : Name) (p : ContextParts) → Takes (suc n) one (parse_context_option l key p)
  unfolding parse_context_option kind
  Takes-parse_context_option key p =
      Takes-if (word_is (codes "max_tokens") key) (Takes-bind 1 an_expr (λ e. Takes-pure _ refl)) (
        Takes-if (word_is (codes "coherence") key) (Takes-bind 1 an_expr (λ e. Takes-pure _ refl)) (
          Takes-if (word_is (codes "diversity") key) (Takes-bind 1 an_expr (λ e. Takes-pure _ refl))
            (Takes-if (word_is (codes "include_contradictions") key)
              (Takes-match {n = n} bool_of (omega arith) refl (λ b. Takes-pure _ refl)
                (λ t. Takes-error _))
              (Takes-if (word_is (codes "priority") key)
                (Takes-if_eat {n = suc n} Token.l_bracket (omega arith) refl
                  (Takes-bind 1 Takes-parse_order_by_list (λ os.
                    Takes-bind 1 (Takes-expect Token.r_bracket refl) (λ _. Takes-pure _ refl)))
                  (Takes-bind 1 Takes-parse_order_by_list (λ os. Takes-pure _ refl)))
                (Takes-error _)))))

  pub Takes-parse_within_context : Takes (suc n) one (parse_within_context l)
  unfolding parse_within_context parse_context_options kind
  Takes-parse_within_context = Takes-bind 1 (Takes-expect Token.within_kw refl) (λ _.
      Takes-bind 1 (Takes-expect Token.context_kw refl) (λ _.
        Takes-bind 1 (Takes-expect Token.l_paren refl) (λ _.
          Takes-bind 0
            (Takes-loop _ (λ p. Takes-peek (λ t. Takes-if (ends_options t) (Takes-pure _ refl) (
              Takes-bind 1 Takes-expect_ident (λ key.
                Takes-bind 1 (Takes-expect Token.colon refl) (λ _.
                  Takes-bind 1 (Takes-parse_context_option key p)
                    (λ q. Takes-bind 0 (Takes-eat Token.comma refl) (λ _. Takes-pure _ refl))))))))
            (λ p. Takes-bind 1 (Takes-expect Token.r_paren refl) (λ _. Takes-pure _ refl)))))

  Takes-parse_valid_time : Takes (suc n) one (parse_valid_time l)
  unfolding parse_valid_time kind
  Takes-parse_valid_time =
      Takes-if_eat {n = suc n} Token.between_kw (omega arith) refl
        (Takes-bind 1 a_primary (λ low.
          Takes-bind 1 (Takes-expect Token.and_kw refl)
            (λ _. Takes-bind 1 a_primary (λ high. Takes-pure _ refl))))
        (Takes-bind 1 a_primary (λ e. Takes-pure _ refl))

  Takes-parse_system_time : Takes (suc n) one (parse_system_time l)
  unfolding parse_system_time
  Takes-parse_system_time = Takes-bind 1 a_primary (λ e. Takes-pure _ refl)

  Takes-after_time_kind : (k : TimeKind) → Takes (suc n) one (after_time_kind l k)
  unfolding when_word
  Takes-after_time_kind system = Takes-parse_system_time
  Takes-after_time_kind valid = Takes-parse_valid_time
  Takes-after_time_kind system_word =
      Takes-match {n = suc n} (when_word (codes "time")) (omega arith) refl
        (λ _. Takes-any Takes-parse_system_time) (λ _. Takes-parse_system_time)
  Takes-after_time_kind valid_word =
      Takes-match {n = suc n} (when_word (codes "time")) (omega arith) refl
        (λ _. Takes-any Takes-parse_valid_time) (λ _. Takes-parse_valid_time)

  pub Takes-parse_as_of_body : Takes (suc n) one (parse_as_of_body l)
  unfolding parse_as_of_body time_kind
  Takes-parse_as_of_body =
      Takes-match {n = suc n} time_kind (omega arith) refl
        (λ k. Takes-any (Takes-after_time_kind k)) (λ t. Takes-error _)
