-- ===== src/Controller/Acceptance/Stored.antt =====
-- The results that an accepted block leaves in the metadata database.
use nodekit_seq.Prelude.{
  ◌^◌, ◌<◌, ◌≡◌, ◌≢◌, refl, ◌∙◌, sym, ap, ◌⊎◌, true, Bool-cases, inl, inr, none, some, List, [],
  ◌∷◌, Bytes, length, In, arith,
}
use nodekit_seq.Prelude.Int.{ℤ, IsInt64}
use nodekit_seq.Outcome.{ok, and_then-ok}
use nodekit_seq.Storage.View.{written-ok}
use nodekit_seq.Genesis.{Rules}
use nodekit_seq.Storage.Keys.{tx_key}
use nodekit_seq.Storage.Transactions.{
  MetaDb, MetaDbLaws, TxResult, tx_value, store_transaction, read_tx_value, get_transaction,
}
use nodekit_seq.Storage.Transactions.ReadBack.{read-tx_value, get_transaction-value}
use nodekit_seq.RollupRegistry.{Lifecycle}
use nodekit_seq.Controller.Acceptance.{
  Tx, TxOutcome, Block, Progress, Batches, Node, store_result, collected, accept_txs, accepted,
}
use nodekit_seq.Controller.Acceptance.Summary.{collect_summary}
use nodekit_seq.Controller.Acceptance.Effect.{accepted-written}

-- What is stored of a transaction of a block of a time.
abbrev pub tx_result : ℤ → TxOutcome → TxResult
tx_result timestamp result = record {
  timestamp = timestamp;
  success = result.success;
  units = result.units;
  fee = result.fee;
}

-- A transaction of the block with its result.
abbrev pub Listed : Tx → TxOutcome → List Tx → List TxOutcome → Type 0
Listed t r [] results = ⊥
Listed t r (tx ∷ txs) [] = ⊥
Listed t r (tx ∷ txs) (result ∷ results) = ((tx ≡ t) × (result ≡ r)) ⊎ Listed t r txs results

Listed-In :
    (t : Tx) (r : TxOutcome) (txs : List Tx) (results : List TxOutcome)
    → Listed t r txs results
    → In t txs
Listed-In t r [] results h = elim h [ ]
Listed-In t r (tx ∷ txs) [] h = elim h [ ]
Listed-In t r (tx ∷ txs) (result ∷ results) (inl (e, f)) = inl e
Listed-In t r (tx ∷ txs) (result ∷ results) (inr h) = inr (Listed-In t r txs results h)

-- Every transaction has a key of its own.
abbrev pub OwnKeys : List Tx → Type 0
OwnKeys [] = Unit {0}
OwnKeys (tx ∷ txs) = ((t : Tx) → In t txs → tx_key tx.id ≢ tx_key t.id) × OwnKeys txs

-- A batch keeps what is put at other keys, and writes what it has; both sides decode values alike.
pub record BatchLaws {B D : Type 0} (batches : Batches B D) (db : MetaDb D) : Type 0 where
  pub ops_laws : MetaDbLaws batches.ops
  pub get-put_other :
      (k v j : Bytes) (b : B) {b' : B}
      → k ≢ j
      → batches.ops.put k v b ≡ ok b'
      → batches.ops.get j b' ≡ batches.ops.get j b
  pub get-write :
      (k v : Bytes) (b : B) (d : D) {d' : D}
      → batches.write b d ≡ ok d'
      → batches.ops.get k b ≡ (v, none)
      → db.get k d' ≡ (v, none)
  pub decodes : (v : Bytes) → read_tx_value db v ≡ read_tx_value batches.ops v

module _ {B D : Type 0} (batches : Batches B D) (db : MetaDb D) (laws : BatchLaws batches db)
    (timestamp : ℤ) where
  open batches use {ops}

  -- The batch after one round.
  abbrev stored : Tx → TxOutcome → Progress B → Progress B
  stored tx result p = (store_result ops true timestamp tx result p).1

  abbrev round : Tx → TxOutcome → Progress B → Progress B
  round tx result p = (collected ops true timestamp tx result (stored tx result p)).1

  collected-batch :
      (tx : Tx) (result : TxOutcome) (p : Progress B)
      → (collected ops true timestamp tx result p).1.batch ≡ p.batch
  collected-batch tx result p = elim (Bool-cases result.success) [
    | inr failed ↦ rw failed refl
    | inl won ↦ let (_, _, same) = collect_summary tx.actions p in rw won same
  ]

  -- One round, forwards: what it puts, and where the loop goes on.
  accept_txs-step :
      (tx : Tx) (result : TxOutcome) (txs : List Tx) (results : List TxOutcome) (p p' : Progress B)
      → accept_txs ops true timestamp (tx ∷ txs) (result ∷ results) p ≡ (ok tt, p')
      → (ops.put (tx_key tx.id) (tx_value ops (tx_result timestamp result)) p.batch
          ≡ ok (round tx result p).batch)
        × (accept_txs ops true timestamp txs results (round tx result p) ≡ (ok tt, p'))
  unfolding accept_txs store_transaction
  accept_txs-step tx result txs results p p' h =
      let (_, put, h₁) = and_then-ok _ (store_result ops true timestamp tx result p) h in
      let q = stored tx result p in
      let put' : store_transaction ops tx.id (tx_result timestamp result) p.batch
          ≡ (ok tt, q.batch) =
        ap (λ m. (m.0, q.batch)) put in
      (
        written-ok p.batch
              (ops.put (tx_key tx.id) (tx_value ops (tx_result timestamp result)) p.batch) put'
            ∙ ap ok (sym (collected-batch tx result q)),
        h₁,
      )

  -- What the batch has at the key of no transaction stays.
  accept_txs-other :
      (j : Bytes) (txs : List Tx) (results : List TxOutcome) (p p' : Progress B)
      → ((t : Tx) → In t txs → tx_key t.id ≢ j)
      → accept_txs ops true timestamp txs results p ≡ (ok tt, p')
      → ops.get j p'.batch ≡ ops.get j p.batch
  unfolding accept_txs
  accept_txs-other j [] results p p' other h = ap (λ m. ops.get j m.1.batch) (sym h)
  accept_txs-other j (tx ∷ txs) [] p p' other h = ground arith
  accept_txs-other j (tx ∷ txs) (result ∷ results) p p' other h =
      let (put, rest) = accept_txs-step tx result txs results p p' h in
      accept_txs-other j txs results (round tx result p) p' (λ t m. other t (inr m)) rest
      ∙ laws.get-put_other (tx_key tx.id) _ j p.batch (other tx (inl refl)) put

  -- Every transaction's result is in the batch.
  accept_txs-Listed :
      (t : Tx) (r : TxOutcome) (txs : List Tx) (results : List TxOutcome) (p p' : Progress B)
      → OwnKeys txs
      → Listed t r txs results
      → accept_txs ops true timestamp txs results p ≡ (ok tt, p')
      → ops.get (tx_key t.id) p'.batch ≡ (tx_value ops (tx_result timestamp r), none)
  accept_txs-Listed t r [] results p p' own listed h = elim listed [ ]
  accept_txs-Listed t r (tx ∷ txs) [] p p' own listed h = elim listed [ ]
  accept_txs-Listed t r (tx ∷ txs) (result ∷ results) p p' (fresh, own) (inr later) h =
      let (put, rest) = accept_txs-step tx result txs results p p' h in
      accept_txs-Listed t r txs results (round tx result p) p' own later rest
  accept_txs-Listed t r (tx ∷ txs) (result ∷ results) p p' (fresh, own) (inl (et, er)) h =
      let (put, rest) = accept_txs-step tx result txs results p p' h in
      let kept =
        accept_txs-other (tx_key tx.id) txs results (round tx result p) p'
          (λ u m e. fresh u m (sym e)) rest in
      rw (← et, ← er)
        (kept
          ∙ laws.ops_laws.get-put (tx_key tx.id) (tx_value ops (tx_result timestamp result)) p.batch
              put)

module _ {B D : Type 0} (batches : Batches B D) (db : MetaDb D) (laws : BatchLaws batches db)
    (life : Lifecycle) (rules : Rules) where
  -- After a block is accepted without error by a node that stores results, each of its transactions,
  -- all with keys of their own, is found in the metadata database with the block's time and its own
  -- result, for five units, a 64-bit time and a fee below 2^64.
  pub get_transaction-accepted :
      (blk : Block) (node node' : Node D) (t : Tx) (r : TxOutcome)
      → OwnKeys blk.txs
      → Listed t r blk.txs blk.results
      → length r.units ≡ 5
      → IsInt64 blk.timestamp
      → r.fee < 2 ^ 64
      → accepted batches life rules true blk node ≡ (ok tt, node')
      → get_transaction db t.id node'.db ≡ ok (some (tx_result blk.timestamp r))
  get_transaction-accepted blk node node' t r own listed five time small h =
      let result = tx_result blk.timestamp r in
      let (p, done, written) = accepted-written batches life rules true blk node node' h in
      let start : Progress B = record {
        metrics = node.metrics;
        rollups = [];
        batch = batches.new_batch;
      } in
      let held =
        accept_txs-Listed batches db laws blk.timestamp t r blk.txs blk.results start p own listed
          done in
      let found = laws.get-write (tx_key t.id) _ p.batch node.db written held in
      get_transaction-value db t.id (tx_value batches.ops result) node'.db result found (
        laws.decodes (tx_value batches.ops result)
        ∙ read-tx_value batches.ops laws.ops_laws result five time small)
