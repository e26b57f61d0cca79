-- ===== src/Rpc/Node/Registered.antt =====
-- On a node whose accepted state was reached from a sound one, the query for all rollups succeeds.
use nodekit_seq.Prelude.{ℕ, ◌≡◌, refl, ◌∙◌, true, List, [], ◌∷◌, Bytes, bytes_eq_refl, arith}
use nodekit_seq.Outcome.{ok}
use nodekit_seq.Vm.{RollupInfo, StateLaws, CodecLaws}
use nodekit_seq.Genesis.{Rules}
use nodekit_seq.Storage.View.{Serves}
use nodekit_seq.Storage.KeyLaws.{KeyLaws}
use nodekit_seq.Storage.Rollups.{get_rollup_registry}
use nodekit_seq.Storage.Rollups.Served.{rollup_info_served, rollup_registry_served}
use nodekit_seq.Actions.Utils.{contains}
use nodekit_seq.Actions.Auction.{Bls}
use nodekit_seq.Actions.RollupRegistration.Registered.{Registered}
use nodekit_seq.Chain.{Reaches}
use nodekit_seq.Chain.Invariant.{Sound, Reaches-Sound}
use nodekit_seq.Rpc.{InfosByEpoch}
use nodekit_seq.Rpc.Node.{Parts, node}
use nodekit_seq.Rpc.Server.{all_rollup_info, infos_at}
use nodekit_seq.Rpc.Server.Registry.{Recorded, starting_at, all_rollup_info-starting_at}

-- The members of a list are members of a longer one.
abbrev Within : List Bytes → List Bytes → Type 0
Within ns all = (n : Bytes) → contains ns n ≡ true → contains all n ≡ true

contains_head : (n : Bytes) (ns : List Bytes) → contains (n ∷ ns) n ≡ true
unfolding contains
contains_head n ns = rw (bytes_eq_refl n) refl

contains_tail : (n m : Bytes) (ns : List Bytes) → contains ns m ≡ true → contains (n ∷ ns) m ≡ true
unfolding contains
contains_tail n m ns h = ground (arith, h)

module _ {S D B T : Type 0} (p : Parts S D B T) (s : S) (served : Serves p.vm p.read_state s) where
  -- The records of registered namespaces, as the server finds them.
  recorded :
      (all ns : List Bytes)
      → Registered p.vm s
      → get_rollup_registry p.vm s ≡ ok all
      → Within ns all
      → (infos : List RollupInfo) × Recorded (node p) ns infos
  unfolding Registered
  recorded all [] reg listed within = ([], tt)
  recorded all (n ∷ ns) reg listed within =
      let (info, found) = reg all n listed (within n (contains_head n ns)) in
      let (infos, rest) = recorded all ns reg listed (λ m h. within m (contains_tail n m ns h)) in
      (info ∷ infos, (rollup_info_served p.vm p.read_state s served n ∙ found, rest))

  module _ (laws : StateLaws p.vm) (keys : KeyLaws p.vm) (codec : CodecLaws p.vm) (bls : Bls)
      (rules : Rules) where
    -- After any sequence of executions from a sound state, on a node that serves the state reached and
    -- whose registry is readable, the query for all rollups succeeds: it finds the record of each
    -- registered namespace, and groups these records by the epoch in which they start.
    pub all_rollup_info-Reaches :
        {first : S} (registry : List Bytes)
        → Sound p.vm first
        → Reaches bls p.vm rules first s
        → get_rollup_registry p.vm s ≡ ok registry
        → (infos : List RollupInfo) × Recorded (node p) registry infos
          × ((out : InfosByEpoch) × (all_rollup_info (node p) ≡ ok out)
              × ((d : ℕ) → infos_at d out ≡ starting_at d infos))
    all_rollup_info-Reaches registry sound path listed =
        let (reg, _) = Reaches-Sound p.vm laws keys codec bls rules path sound in
        let (infos, each) = recorded registry registry reg listed (λ n h. h) in
        let registry_read = rollup_registry_served p.vm p.read_state s served ∙ listed in
        (infos, each, all_rollup_info-starting_at (node p) registry infos registry_read each)
