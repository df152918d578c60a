-- ===== src/Sql/Token.antt =====
-- crates/fundb-sql/src/token.rs. A literal's number is its value, a float's its bit pattern.
use fundb.Prelude.{ℕ, Option, none, some, List, [], ◌∷◌, if◌then◌else◌}
use fundb.Prelude.Text.{codes}
use fundb.Order.{is_eq}
use fundb.Order.Bytes.{cmp_bytes}

-- A keyword's constructor ends in `_kw`.
pub data Token : Type 0 where
  select_kw from_kw where_kw insert_kw into_kw values_kw update_kw set_kw delete_kw create_kw
        drop_kw table_kw index_kw on_kw as_kw by_kw order_kw group_kw having_kw limit_kw offset_kw
        join_kw inner_kw left_kw right_kw outer_kw cross_kw union_kw all_kw distinct_kw and_kw or_kw
        not_kw in_kw is_kw null_kw true_kw false_kw asc_kw desc_kw between_kw like_kw exists_kw
        case_kw when_kw then_kw else_kw end_kw with_kw interval_kw now_kw explain_kw value_kw
        vector_kw traverse_kw return_kw depth_kw start_kw path_kw as_of_kw system_time_kw
        valid_time_kw time_travel_kw confidence_kw source_count_kw contradiction_count_kw trace_kw
        causality_kw max_depth_kw min_strength_kw min_stability_kw estimate_effect_kw intervene_kw
        counterfactual_kw predict_kw had_kw given_kw discover_kw causal_structure_kw algorithm_kw
        create_causal_model_kw mode_equilibrium_kw structure_kw equations_kw variables_kw infer_kw
        within_kw context_kw max_tokens_kw coherence_kw diversity_kw include_contradictions_kw
        priority_kw understand_kw remember_kw recall_by_kw recall_kw forget_kw for_kw agent_kw
        memory_kw importance_kw semantic_similarity_kw recency_kw decay_kw collection_kw
        consolidate_kw min_confidence_kw store_as_kw store_kw :
      Token
  arrow vector_dist dot_dot eq not_eq lt lt_eq gt gt_eq plus minus star slash percent assign l_paren
        r_paren l_brace r_brace l_bracket r_bracket comma semicolon colon dot eof newline :
      Token
  int_literal : ℕ → Token
  float_literal : ℕ → Token
  string_literal : List ℕ → Token
  param : List ℕ → Token
  ident : List ℕ → Token

-- The arms of `Token::keyword`.
abbrev pub keywords : List (List ℕ × Token)
keywords =
    (codes "select", select_kw)
    ∷ (codes "from", from_kw)
    ∷ (codes "where", where_kw)
    ∷ (codes "insert", insert_kw)
    ∷ (codes "into", into_kw)
    ∷ (codes "values", values_kw)
    ∷ (codes "update", update_kw)
    ∷ (codes "set", set_kw)
    ∷ (codes "delete", delete_kw)
    ∷ (codes "create", create_kw)
    ∷ (codes "drop", drop_kw)
    ∷ (codes "table", table_kw)
    ∷ (codes "index", index_kw)
    ∷ (codes "on", on_kw)
    ∷ (codes "as", as_kw)
    ∷ (codes "by", by_kw)
    ∷ (codes "order", order_kw)
    ∷ (codes "group", group_kw)
    ∷ (codes "having", having_kw)
    ∷ (codes "limit", limit_kw)
    ∷ (codes "offset", offset_kw)
    ∷ (codes "join", join_kw)
    ∷ (codes "inner", inner_kw)
    ∷ (codes "left", left_kw)
    ∷ (codes "right", right_kw)
    ∷ (codes "outer", outer_kw)
    ∷ (codes "cross", cross_kw)
    ∷ (codes "union", union_kw)
    ∷ (codes "all", all_kw)
    ∷ (codes "distinct", distinct_kw)
    ∷ (codes "and", and_kw)
    ∷ (codes "or", or_kw)
    ∷ (codes "not", not_kw)
    ∷ (codes "in", in_kw)
    ∷ (codes "is", is_kw)
    ∷ (codes "null", null_kw)
    ∷ (codes "true", true_kw)
    ∷ (codes "false", false_kw)
    ∷ (codes "asc", asc_kw)
    ∷ (codes "desc", desc_kw)
    ∷ (codes "between", between_kw)
    ∷ (codes "like", like_kw)
    ∷ (codes "exists", exists_kw)
    ∷ (codes "case", case_kw)
    ∷ (codes "when", when_kw)
    ∷ (codes "then", then_kw)
    ∷ (codes "else", else_kw)
    ∷ (codes "end", end_kw)
    ∷ (codes "with", with_kw)
    ∷ (codes "interval", interval_kw)
    ∷ (codes "now", now_kw)
    ∷ (codes "explain", explain_kw)
    ∷ (codes "_vector", vector_kw)
    ∷ (codes "traverse", traverse_kw)
    ∷ (codes "return", return_kw)
    ∷ (codes "depth", depth_kw)
    ∷ (codes "start", start_kw)
    ∷ (codes "path", path_kw)
    ∷ (codes "as_of", as_of_kw)
    ∷ (codes "systemtime", system_time_kw)
    ∷ (codes "validtime", valid_time_kw)
    ∷ (codes "confidence", confidence_kw)
    ∷ (codes "source_count", source_count_kw)
    ∷ (codes "contradiction_count", contradiction_count_kw)
    ∷ (codes "trace", trace_kw)
    ∷ (codes "causality", causality_kw)
    ∷ (codes "max_depth", max_depth_kw)
    ∷ (codes "min_strength", min_strength_kw)
    ∷ (codes "min_stability", min_stability_kw)
    ∷ (codes "estimate_effect", estimate_effect_kw)
    ∷ (codes "intervene", intervene_kw)
    ∷ (codes "counterfactual", counterfactual_kw)
    ∷ (codes "predict", predict_kw)
    ∷ (codes "had", had_kw)
    ∷ (codes "given", given_kw)
    ∷ (codes "discover", discover_kw)
    ∷ (codes "causal_structure", causal_structure_kw)
    ∷ (codes "algorithm", algorithm_kw)
    ∷ (codes "equilibrium", mode_equilibrium_kw)
    ∷ (codes "structure", structure_kw)
    ∷ (codes "equations", equations_kw)
    ∷ (codes "variables", variables_kw)
    ∷ (codes "infer", infer_kw)
    ∷ (codes "within", within_kw)
    ∷ (codes "context", context_kw)
    ∷ (codes "max_tokens", max_tokens_kw)
    ∷ (codes "coherence", coherence_kw)
    ∷ (codes "diversity", diversity_kw)
    ∷ (codes "include_contradictions", include_contradictions_kw)
    ∷ (codes "priority", priority_kw)
    ∷ (codes "understand", understand_kw)
    ∷ (codes "remember", remember_kw)
    ∷ (codes "recall", recall_kw)
    ∷ (codes "forget", forget_kw)
    ∷ (codes "for", for_kw)
    ∷ (codes "agent", agent_kw)
    ∷ (codes "memory", memory_kw)
    ∷ (codes "importance", importance_kw)
    ∷ (codes "semantic_similarity", semantic_similarity_kw)
    ∷ (codes "recency", recency_kw)
    ∷ (codes "decay", decay_kw)
    ∷ (codes "collection", collection_kw)
    ∷ (codes "consolidate", consolidate_kw)
    ∷ (codes "min_confidence", min_confidence_kw)
    ∷ (codes "store", store_kw)
    ∷ []

unfoldable pub find_keyword : List ℕ → List (List ℕ × Token) → Option Token
find_keyword word [] = none
find_keyword word ((name, token) ∷ rest) =
    if is_eq (cmp_bytes word name) then some token else find_keyword word rest

unfoldable pub keyword : List ℕ → Option Token
keyword word = find_keyword word keywords
