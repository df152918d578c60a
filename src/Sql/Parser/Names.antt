-- ===== src/Sql/Parser/Names.antt =====
-- Identifiers of crates/fundb-sql/src/parser.rs, and the keywords that serve as such.
use fundb.Prelude.{Option, none, some, ◌∷◌, ◌++◌}
use fundb.Prelude.Text.{codes}
use fundb.Sql.Token.{Token}
use fundb.Sql.Ast.{Name}
use fundb.Sql.Parser.{Parser, expected_identifier, ◌>>=◌, pure, match_token, if_eat, error}

unfoldable pub keyword_as_ident : Token → Option Name
keyword_as_ident (Token.ident s) = some s
keyword_as_ident Token.algorithm_kw = some (codes "algorithm")
keyword_as_ident Token.structure_kw = some (codes "structure")
keyword_as_ident Token.equations_kw = some (codes "equations")
keyword_as_ident Token.variables_kw = some (codes "variables")
keyword_as_ident Token.confidence_kw = some (codes "confidence")
keyword_as_ident Token.depth_kw = some (codes "depth")
keyword_as_ident Token.path_kw = some (codes "path")
keyword_as_ident Token.causality_kw = some (codes "causality")
keyword_as_ident Token.recency_kw = some (codes "recency")
keyword_as_ident Token.importance_kw = some (codes "importance")
keyword_as_ident Token.memory_kw = some (codes "memory")
keyword_as_ident Token.agent_kw = some (codes "agent")
keyword_as_ident Token.priority_kw = some (codes "priority")
keyword_as_ident Token.coherence_kw = some (codes "coherence")
keyword_as_ident Token.diversity_kw = some (codes "diversity")
keyword_as_ident Token.context_kw = some (codes "context")
keyword_as_ident Token.collection_kw = some (codes "collection")
keyword_as_ident Token.start_kw = some (codes "start")
keyword_as_ident Token.return_kw = some (codes "return")
keyword_as_ident Token.predict_kw = some (codes "predict")
keyword_as_ident Token.now_kw = some (codes "now")
keyword_as_ident Token.interval_kw = some (codes "interval")
keyword_as_ident Token.explain_kw = some (codes "explain")
keyword_as_ident Token.set_kw = some (codes "set")
keyword_as_ident Token.value_kw = some (codes "value")
keyword_as_ident Token.min_confidence_kw = some (codes "min_confidence")
keyword_as_ident Token.store_kw = some (codes "store")
keyword_as_ident Token.decay_kw = some (codes "decay")
keyword_as_ident Token.semantic_similarity_kw = some (codes "semantic_similarity")
keyword_as_ident Token.consolidate_kw = some (codes "consolidate")
keyword_as_ident Token.infer_kw = some (codes "infer")
keyword_as_ident Token.store_as_kw = some (codes "store_as")
keyword_as_ident Token.vector_kw = some (codes "_vector")
keyword_as_ident Token.traverse_kw = some (codes "traverse")
keyword_as_ident Token.trace_kw = some (codes "trace")
keyword_as_ident Token.with_kw = some (codes "with")
keyword_as_ident Token.max_tokens_kw = some (codes "max_tokens")
keyword_as_ident Token.include_contradictions_kw = some (codes "include_contradictions")
keyword_as_ident _ = none

unfoldable pub expect_ident : Parser Name
expect_ident = match_token keyword_as_ident pure (λ t. error (expected_identifier t))

abbrev pub string_of : Token → Option Name
string_of (Token.string_literal s) = some s
string_of _ = none

unfoldable pub expect_string_or_ident : Parser Name
expect_string_or_ident = match_token string_of pure (λ _. expect_ident)

unfoldable pub parse_qualified_name : Parser Name
parse_qualified_name = do
  name ← expect_ident
  if_eat Token.dot (expect_ident >>= λ sub. pure (name ++ b'.' ∷ sub)) (pure name)
