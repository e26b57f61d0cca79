-- ===== src/Storage/ReadState.antt =====
-- storage/storage.go: `ReadState`, the batch read that serves RPC queries.
use nodekit_seq.Prelude.{Option, List, [], ◌∷◌, Bytes}
use nodekit_seq.Outcome.{Error, Outcome, ok, panic}

-- The values and the errors, by the order of the keys.
abbrev pub ReadState : Type 0
ReadState = List Bytes → List Bytes × List (Option Error)

-- `values[0]` and `errs[0]`, an index panic on an empty slice.
abbrev pub first : List Bytes × List (Option Error) → Outcome (Bytes × Option Error)
first ([], es) = panic
first (v ∷ vs, []) = panic
first (v ∷ vs, e ∷ es) = ok (v, e)
