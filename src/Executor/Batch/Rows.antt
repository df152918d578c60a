-- ===== src/Executor/Batch/Rows.antt =====
-- A batch as a list of rows.
use fundb.Prelude.{
  ◌≡◌, refl, sym, ap, ◌∙◌, List, [], ◌∷◌, ◌++◌, arith, length, length-append, append_assoc,
  append-nil,
}
use fundb.Core.Record.{RecordKey, FunRecord}
use fundb.Executor.Batch.{RecordBatch, new, push, extend, zip, rows}

-- As many keys as records.
abbrev pub IsEven : RecordBatch → Type 0
IsEven b = length b.keys ≡ length b.records

zip-snoc :
    (ks : List RecordKey) (rs : List FunRecord) (k : RecordKey) (r : FunRecord)
    → length ks ≡ length rs
    → zip (ks ++ k ∷ []) (rs ++ r ∷ []) ≡ zip ks rs ++ (k, r) ∷ []
unfolding zip
zip-snoc [] [] k r e = refl
zip-snoc [] (r' ∷ rs) k r e = absurd (omega arith)
zip-snoc (k' ∷ ks) [] k r e = absurd (omega arith)
zip-snoc (k' ∷ ks) (r' ∷ rs) k r e = ap (λ t. (k', r') ∷ t) (zip-snoc ks rs k r (omega arith))

pub IsEven-push : (k : RecordKey) (r : FunRecord) (b : RecordBatch) → IsEven b → IsEven (push k r b)
unfolding push
IsEven-push k r b e = omega (arith, length-append b.keys (k ∷ []), length-append b.records (r ∷ []))

pub rows-push :
    (k : RecordKey) (r : FunRecord) (b : RecordBatch)
    → IsEven b
    → rows (push k r b) ≡ rows b ++ (k, r) ∷ []
unfolding rows push
rows-push k r b e = zip-snoc b.keys b.records k r e

pub rows-extend :
    (xs : List (RecordKey × FunRecord)) (b : RecordBatch)
    → IsEven b
    → rows (extend xs b) ≡ rows b ++ xs
unfolding extend
rows-extend [] b e = sym (append-nil (rows b))
rows-extend ((k, r) ∷ xs) b e =
    rows-extend xs (push k r b) (IsEven-push k r b e)
    ∙ ap (λ t. t ++ xs) (rows-push k r b e)
    ∙ append_assoc (rows b) ((k, r) ∷ []) xs

pub rows-extend-new : (xs : List (RecordKey × FunRecord)) → rows (extend xs new) ≡ xs
rows-extend-new xs = rows-extend xs new refl ∙ (unfold rows zip in refl)
