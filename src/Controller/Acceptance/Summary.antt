-- ===== src/Controller/Acceptance/Summary.antt =====
-- The actions of a block that count: those of the transactions that succeeded, in order.
use mathlib.Core.List.{append-nil, append_assoc}
use nodekit_seq.Prelude.{ℕ, ◌+◌, ◌≡◌, refl, ◌∙◌, sym, ap, List, [], ◌∷◌, ◌++◌, if◌then◌else◌, arith}
use nodekit_seq.Vm.{RollupInfo}
use nodekit_seq.Controller.Acceptance.{
  TxAction, transfer, sequencer_msg, auction, rollup_register, epoch_exit, other, Tx, TxOutcome,
  Metrics, Progress, tally, added, collect,
}

abbrev pub performed : Tx → TxOutcome → List TxAction
performed tx result = if result.success then tx.actions else []

abbrev pub successful : List Tx → List TxOutcome → List TxAction
successful [] results = []
successful (tx ∷ txs) [] = []
successful (tx ∷ txs) (result ∷ results) = performed tx result ++ successful txs results

-- The records of the registrations.
abbrev pub infos : List TxAction → List RollupInfo
infos [] = []
infos (rollup_register reg ∷ acts) = reg.info ∷ infos acts
infos (act ∷ acts) = infos acts

-- 1 for an action of the kind, 0 for another.
abbrev is_transfer : TxAction → ℕ
is_transfer (transfer t) = 1
is_transfer act = 0

abbrev is_msg : TxAction → ℕ
is_msg (sequencer_msg t) = 1
is_msg act = 0

abbrev is_auction : TxAction → ℕ
is_auction (auction t) = 1
is_auction act = 0

abbrev is_register : TxAction → ℕ
is_register (rollup_register t) = 1
is_register act = 0

abbrev is_exit : TxAction → ℕ
is_exit (epoch_exit t) = 1
is_exit act = 0

pub number : (TxAction → ℕ) → List TxAction → ℕ
number kind [] = 0
number kind (act ∷ acts) = kind act + number kind acts

-- Every counter has grown by the number of the actions of its kind.
abbrev pub Counts : Metrics → List TxAction → Metrics → Type 0
Counts m acts m' =
    (m'.transfers ≡ m.transfers + number is_transfer acts)
    × (m'.sequencer_msgs ≡ m.sequencer_msgs + number is_msg acts)
    × (m'.auctions ≡ m.auctions + number is_auction acts)
    × (m'.rollup_registers ≡ m.rollup_registers + number is_register acts)
    × (m'.epoch_exits ≡ m.epoch_exits + number is_exit acts)

pub uncounted : (m : Metrics) → Counts m [] m
unfolding number
uncounted m = (omega arith, omega arith, omega arith, omega arith, omega arith)

number-append :
    (kind : TxAction → ℕ) (a b : List TxAction)
    → number kind (a ++ b) ≡ number kind a + number kind b
unfolding number
number-append kind [] b = omega arith
number-append kind (act ∷ a) b = omega (arith, number-append kind a b)

pub Counts-append :
    (a b : List TxAction) (m u v : Metrics) → Counts m a u → Counts u b v → Counts m (a ++ b) v
Counts-append a b m u v (p₁, p₂, p₃, p₄, p₅) (q₁, q₂, q₃, q₄, q₅) = (
  omega (arith, p₁, q₁, number-append is_transfer a b),
  omega (arith, p₂, q₂, number-append is_msg a b),
  omega (arith, p₃, q₃, number-append is_auction a b),
  omega (arith, p₄, q₄, number-append is_register a b),
  omega (arith, p₅, q₅, number-append is_exit a b),
)

tally-Counts : (act : TxAction) (m : Metrics) → Counts m (act ∷ []) (tally act m)
unfolding number
tally-Counts (transfer t) m = (omega arith, omega arith, omega arith, omega arith, omega arith)
tally-Counts (sequencer_msg t) m = (omega arith, omega arith, omega arith, omega arith, omega arith)
tally-Counts (auction t) m = (omega arith, omega arith, omega arith, omega arith, omega arith)
tally-Counts (rollup_register t) m =
    (omega arith, omega arith, omega arith, omega arith, omega arith)
tally-Counts (epoch_exit t) m = (omega arith, omega arith, omega arith, omega arith, omega arith)
tally-Counts other m = (omega arith, omega arith, omega arith, omega arith, omega arith)

pub infos-append : (a b : List TxAction) → infos (a ++ b) ≡ infos a ++ infos b
infos-append [] b = refl
infos-append (transfer t ∷ a) b = infos-append a b
infos-append (sequencer_msg t ∷ a) b = infos-append a b
infos-append (auction t ∷ a) b = infos-append a b
infos-append (rollup_register t ∷ a) b = ap (◌∷◌ (t.info)) (infos-append a b)
infos-append (epoch_exit t ∷ a) b = infos-append a b
infos-append (other ∷ a) b = infos-append a b

infos-added :
    (act : TxAction) (rollups : List RollupInfo) → added act rollups ≡ rollups ++ infos (act ∷ [])
infos-added (transfer t) rollups = sym (append-nil rollups)
infos-added (sequencer_msg t) rollups = sym (append-nil rollups)
infos-added (auction t) rollups = sym (append-nil rollups)
infos-added (rollup_register t) rollups = refl
infos-added (epoch_exit t) rollups = sym (append-nil rollups)
infos-added other rollups = sym (append-nil rollups)

module _ {B : Type 0} where
  pub collect_summary :
      (acts : List TxAction) (p : Progress B)
      → Counts p.metrics acts (collect acts p).metrics
        × ((collect acts p).rollups ≡ p.rollups ++ infos acts)
        × ((collect acts p).batch ≡ p.batch)
  unfolding collect
  collect_summary [] p = (uncounted p.metrics, sym (append-nil p.rollups), refl)
  collect_summary (act ∷ acts) p =
      let q : Progress B = record p {
        metrics = tally act p.metrics;
        rollups = added act p.rollups;
      } in
      let (counts, found, same) = collect_summary acts q in
      (
        Counts-append (act ∷ []) acts p.metrics q.metrics (collect acts q).metrics
            (tally-Counts act p.metrics) counts,
        found
            ∙ ap (λ l. l ++ infos acts) (infos-added act p.rollups)
            ∙ append_assoc p.rollups (infos (act ∷ [])) (infos acts)
            ∙ ap (λ l. p.rollups ++ l) (sym (infos-append (act ∷ []) acts)),
        same,
      )
