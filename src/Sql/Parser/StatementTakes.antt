-- ===== src/Sql/Parser/StatementTakes.antt =====
-- How many tokens the statements on data, schemas and memories take.
use fundb.Prelude.{ℕ, suc, refl, Option, none, arith}
use fundb.Prelude.Text.{codes}
use fundb.Sql.Token.{Token}
use fundb.Sql.Ast.{Name, Expr}
use fundb.Sql.Parser.{Parser, Message, kind, pure, error, match_token, eat_word, when_word}
use fundb.Sql.Parser.Names.{string_of}
use fundb.Sql.Parser.Exprs.{Inner, parse_expr, parse_primary_expr}
use fundb.Sql.Parser.Clauses.{word_is}
use fundb.Sql.Parser.Statements.{
  parse_agent, parse_forget, listed, parse_row, parse_insert, parse_assignment,
  parse_assignment_list, parse_update, parse_delete, RememberParts, RememberKey, with_key,
  importance_key, as_key, remember_key, remember_option, parse_remember, RecallKey, where_key,
  order_key, limit_key, recall_key, recall_clause, is_string, parse_recall_by,
}
use fundb.Sql.Parser.Takes.{
  Takes, Takes-bind, Takes-pure, Takes-peek, Takes-if, Takes-match, Takes-error, Takes-if_eat,
  Takes-expect, Takes-loop, Takes-separated, one, any, Takes-any, Takes-eat,
}
use fundb.Sql.Parser.Primaries.{
  InnerTakes, Takes-expect_ident, Takes-parse_qualified_name, Takes-parse_primary_expr,
}
use fundb.Sql.Parser.Levels.{Takes-parse_expr}
use fundb.Sql.Parser.ClauseTakes.{Takes-optional, Takes-parse_order_by_list}
use fundb.Sql.Parser.SelectTakes.{Takes-parse_recall_weights}

pub Takes-eat_word : {m : ℕ} (word : Name) → Takes m any (eat_word word)
unfolding eat_word when_word
Takes-eat_word {m} word =
    Takes-match {n = m} (when_word word) (omega arith) refl (λ _. Takes-pure _ refl)
      (λ _. Takes-pure _ refl)

-- A string in quotes, or an error.
pub Takes-string :
    {m : ℕ} (e : Token → Message) → Takes m one (match_token string_of pure (λ t. error (e t)))
Takes-string {m} e =
    Takes-match {n = m} string_of (omega arith) refl (λ s. Takes-pure _ refl) (λ t. Takes-error _)

pub Takes-listed : {A : Type 0} {m : ℕ} {p : Parser A} → Takes m one p → Takes m one (listed p)
unfolding listed kind
Takes-listed h =
    Takes-bind 1 (Takes-separated Token.comma refl h)
      (λ xs. Takes-bind 1 (Takes-expect Token.r_paren refl) (λ _. Takes-pure _ refl))

module _ (n : ℕ) (l : Inner) (h : InnerTakes n l) where
  an_expr : Takes (suc n) one (parse_expr l)
  an_expr = Takes-parse_expr n l h

  a_primary : Takes (suc n) one (parse_primary_expr l)
  a_primary = Takes-parse_primary_expr n l h

  Takes-parse_agent : (e : Message) → Takes (suc n) one (parse_agent l e)
  unfolding parse_agent kind
  Takes-parse_agent e =
      Takes-if_eat {n = suc n} Token.for_kw (omega arith) refl
        (Takes-bind 1 (Takes-expect Token.agent_kw refl) (λ _. Takes-any a_primary))
        (Takes-if_eat {n = suc n} Token.within_kw (omega arith) refl
          (Takes-bind 1 (Takes-expect Token.context_kw refl) (λ _. Takes-any a_primary))
          (Takes-error _))

  pub Takes-parse_forget : Takes (suc n) one (parse_forget l)
  unfolding parse_forget kind
  Takes-parse_forget = Takes-bind 1 (Takes-expect Token.forget_kw refl) (λ _.
      Takes-bind 1 (Takes-parse_agent _) (λ agent_id.
        Takes-bind 0 (Takes-optional Token.where_kw refl an_expr) (λ filter. Takes-pure _ refl)))

  pub Takes-parse_insert : Takes (suc n) one (parse_insert l)
  unfolding parse_insert parse_row kind
  Takes-parse_insert = Takes-bind 1 (Takes-expect Token.insert_kw refl) (λ _.
      Takes-bind 1 (Takes-expect Token.into_kw refl) (λ _.
        Takes-bind 1 Takes-parse_qualified_name (λ table.
          Takes-bind 0
            (Takes-if_eat {n = suc n} Token.l_paren (omega arith) refl
              (Takes-any (Takes-listed Takes-expect_ident)) (Takes-pure _ refl))
            (λ columns. Takes-bind 1 (Takes-expect Token.values_kw refl) (λ _.
              Takes-bind 1
                (Takes-separated Token.comma refl (
                  Takes-bind 1 (Takes-expect Token.l_paren refl)
                    (λ _. Takes-any (Takes-listed an_expr))))
                (λ values. Takes-pure _ refl))))))

  pub Takes-parse_assignment_list : Takes (suc n) one (parse_assignment_list l)
  unfolding parse_assignment_list parse_assignment kind
  Takes-parse_assignment_list = Takes-separated Token.comma refl (
      Takes-bind 1 Takes-expect_ident (λ name.
        Takes-bind 0
          (Takes-if_eat {n = suc n} Token.assign (omega arith) refl (Takes-pure _ refl)
            (Takes-eat Token.eq refl))
          (λ _. Takes-bind 1 an_expr (λ val. Takes-pure _ refl))))

  pub Takes-parse_update : Takes (suc n) one (parse_update l)
  unfolding parse_update kind
  Takes-parse_update = Takes-bind 1 (Takes-expect Token.update_kw refl) (λ _.
      Takes-bind 1 Takes-parse_qualified_name (λ table.
        Takes-bind 0 (Takes-optional Token.as_kw refl Takes-expect_ident) (λ alias.
          Takes-bind 1 (Takes-expect Token.set_kw refl) (λ _.
            Takes-bind 1 Takes-parse_assignment_list (λ assignments.
              Takes-bind 0 (Takes-optional Token.where_kw refl an_expr)
                (λ where_clause. Takes-pure _ refl))))))

  pub Takes-parse_delete : Takes (suc n) one (parse_delete l)
  unfolding parse_delete kind
  Takes-parse_delete = Takes-bind 1 (Takes-expect Token.delete_kw refl) (λ _.
      Takes-bind 1 (Takes-expect Token.from_kw refl) (λ _.
        Takes-bind 1 Takes-parse_qualified_name (λ table.
          Takes-bind 0 (Takes-optional Token.where_kw refl an_expr)
            (λ where_clause. Takes-pure _ refl))))

  Takes-remember_option :
      (p : RememberParts) (key : RememberKey) → Takes (suc n) one (remember_option l p key)
  unfolding remember_option kind
  Takes-remember_option p with_key = Takes-bind 1 Takes-expect_ident (λ key.
      Takes-if (word_is (codes "importance") key) (Takes-bind 1 a_primary (λ e. Takes-pure _ refl))
        (Takes-if (word_is (codes "_confidence") key)
          (Takes-bind 0 (Takes-eat Token.assign refl) (λ _.
            Takes-bind 0 (Takes-eat Token.eq refl)
              (λ _. Takes-bind 1 a_primary (λ e. Takes-pure _ refl))))
          (Takes-error _)))
  Takes-remember_option p importance_key = Takes-bind 1 a_primary (λ e. Takes-pure _ refl)
  Takes-remember_option p as_key = Takes-bind 1 Takes-expect_ident (λ ty. Takes-pure _ refl)

  pub Takes-parse_remember : Takes (suc n) one (parse_remember l)
  unfolding parse_remember kind
  Takes-parse_remember = Takes-bind 1 (Takes-expect Token.remember_kw refl) (λ _.
      Takes-bind 1 (Takes-string _) (λ content. Takes-bind 1 (Takes-parse_agent _) (λ agent_id.
        Takes-bind 0
          (Takes-loop _ (λ p.
            Takes-match {n = suc n} remember_key (omega arith) refl
              (λ key. Takes-bind 1 (Takes-remember_option p key) (λ q. Takes-pure _ refl))
              (λ _. Takes-pure _ refl)))
          (λ p. Takes-pure _ refl))))

  Takes-recall_clause :
      (limit : Option Expr) (key : RecallKey) → Takes (suc n) one (recall_clause l limit key)
  unfolding recall_clause kind
  Takes-recall_clause limit where_key = Takes-bind 1 an_expr (λ _. Takes-pure _ refl)
  Takes-recall_clause limit order_key =
      Takes-bind 1 (Takes-expect Token.by_kw refl)
        (λ _. Takes-bind 1 (Takes-parse_order_by_list n l h) (λ _. Takes-pure _ refl))
  Takes-recall_clause limit limit_key = Takes-bind 1 an_expr (λ e. Takes-pure _ refl)

  pub Takes-parse_recall_by : Takes (suc n) one (parse_recall_by l)
  unfolding parse_recall_by kind
  Takes-parse_recall_by = Takes-bind 1 (Takes-expect Token.recall_kw refl) (λ _.
      Takes-bind 1 (Takes-expect Token.by_kw refl) (λ _. Takes-peek (λ t.
        Takes-bind 1
          (Takes-if (is_string t) (Takes-bind 1 a_primary (λ query. Takes-pure _ refl))
            (Takes-parse_recall_weights n l h))
          (λ ws. Takes-bind 1 (Takes-parse_agent _) (λ agent_id.
            Takes-bind 0
              (Takes-loop none (λ limit.
                Takes-match {n = suc n} recall_key (omega arith) refl
                  (λ key. Takes-bind 1 (Takes-recall_clause limit key) (λ b. Takes-pure _ refl))
                  (λ _. Takes-pure _ refl)))
              (λ limit. Takes-pure _ refl))))))
