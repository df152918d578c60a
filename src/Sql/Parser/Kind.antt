-- ===== src/Sql/Parser/Kind.antt =====
-- Which token of crates/fundb-sql/src/token.rs a token is, for the comparisons of the parser.
use fundb.Prelude.{ℕ}
use fundb.Sql.Token.{Token}

-- The discriminant of a token, which decides the equality of two tokens without a value.
unfoldable pub kind : Token → ℕ
kind Token.select_kw = 0
kind Token.from_kw = 1
kind Token.where_kw = 2
kind Token.insert_kw = 3
kind Token.into_kw = 4
kind Token.values_kw = 5
kind Token.update_kw = 6
kind Token.set_kw = 7
kind Token.delete_kw = 8
kind Token.create_kw = 9
kind Token.drop_kw = 10
kind Token.table_kw = 11
kind Token.index_kw = 12
kind Token.on_kw = 13
kind Token.as_kw = 14
kind Token.by_kw = 15
kind Token.order_kw = 16
kind Token.group_kw = 17
kind Token.having_kw = 18
kind Token.limit_kw = 19
kind Token.offset_kw = 20
kind Token.join_kw = 21
kind Token.inner_kw = 22
kind Token.left_kw = 23
kind Token.right_kw = 24
kind Token.outer_kw = 25
kind Token.cross_kw = 26
kind Token.union_kw = 27
kind Token.all_kw = 28
kind Token.distinct_kw = 29
kind Token.and_kw = 30
kind Token.or_kw = 31
kind Token.not_kw = 32
kind Token.in_kw = 33
kind Token.is_kw = 34
kind Token.null_kw = 35
kind Token.true_kw = 36
kind Token.false_kw = 37
kind Token.asc_kw = 38
kind Token.desc_kw = 39
kind Token.between_kw = 40
kind Token.like_kw = 41
kind Token.exists_kw = 42
kind Token.case_kw = 43
kind Token.when_kw = 44
kind Token.then_kw = 45
kind Token.else_kw = 46
kind Token.end_kw = 47
kind Token.with_kw = 48
kind Token.interval_kw = 49
kind Token.now_kw = 50
kind Token.explain_kw = 51
kind Token.value_kw = 52
kind Token.vector_kw = 53
kind Token.traverse_kw = 54
kind Token.return_kw = 55
kind Token.depth_kw = 56
kind Token.start_kw = 57
kind Token.path_kw = 58
kind Token.as_of_kw = 59
kind Token.system_time_kw = 60
kind Token.valid_time_kw = 61
kind Token.time_travel_kw = 62
kind Token.confidence_kw = 63
kind Token.source_count_kw = 64
kind Token.contradiction_count_kw = 65
kind Token.trace_kw = 66
kind Token.causality_kw = 67
kind Token.max_depth_kw = 68
kind Token.min_strength_kw = 69
kind Token.min_stability_kw = 70
kind Token.estimate_effect_kw = 71
kind Token.intervene_kw = 72
kind Token.counterfactual_kw = 73
kind Token.predict_kw = 74
kind Token.had_kw = 75
kind Token.given_kw = 76
kind Token.discover_kw = 77
kind Token.causal_structure_kw = 78
kind Token.algorithm_kw = 79
kind Token.create_causal_model_kw = 80
kind Token.mode_equilibrium_kw = 81
kind Token.structure_kw = 82
kind Token.equations_kw = 83
kind Token.variables_kw = 84
kind Token.infer_kw = 85
kind Token.within_kw = 86
kind Token.context_kw = 87
kind Token.max_tokens_kw = 88
kind Token.coherence_kw = 89
kind Token.diversity_kw = 90
kind Token.include_contradictions_kw = 91
kind Token.priority_kw = 92
kind Token.understand_kw = 93
kind Token.remember_kw = 94
kind Token.recall_by_kw = 95
kind Token.recall_kw = 96
kind Token.forget_kw = 97
kind Token.for_kw = 98
kind Token.agent_kw = 99
kind Token.memory_kw = 100
kind Token.importance_kw = 101
kind Token.semantic_similarity_kw = 102
kind Token.recency_kw = 103
kind Token.decay_kw = 104
kind Token.collection_kw = 105
kind Token.consolidate_kw = 106
kind Token.min_confidence_kw = 107
kind Token.store_as_kw = 108
kind Token.store_kw = 109
kind Token.arrow = 110
kind Token.vector_dist = 111
kind Token.dot_dot = 112
kind Token.eq = 113
kind Token.not_eq = 114
kind Token.lt = 115
kind Token.lt_eq = 116
kind Token.gt = 117
kind Token.gt_eq = 118
kind Token.plus = 119
kind Token.minus = 120
kind Token.star = 121
kind Token.slash = 122
kind Token.percent = 123
kind Token.assign = 124
kind Token.l_paren = 125
kind Token.r_paren = 126
kind Token.l_brace = 127
kind Token.r_brace = 128
kind Token.l_bracket = 129
kind Token.r_bracket = 130
kind Token.comma = 131
kind Token.semicolon = 132
kind Token.colon = 133
kind Token.dot = 134
kind Token.eof = 135
kind Token.newline = 136
kind (Token.int_literal _) = 137
kind (Token.float_literal _) = 138
kind (Token.string_literal _) = 139
kind (Token.param _) = 140
kind (Token.ident _) = 141
