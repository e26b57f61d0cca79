-- ===== src/Chain.antt =====
-- The chain state under the actions, in any order: the step relation that executions make, and
-- what holds of every state that they reach.
pub mod Invariant
mod Tests
use nodekit_seq.Prelude.{ℕ}
use nodekit_seq.Vm.{Vm, Address}
use nodekit_seq.Genesis.{Rules}
use nodekit_seq.Actions.Transfer.{Transfer, execute as transfer_execute}
use nodekit_seq.Actions.EpochExit.{EpochExit, execute as epoch_exit_execute}
use nodekit_seq.Actions.RollupRegistration.{RollupRegistration, execute as registration_execute}
use nodekit_seq.Actions.Auction.{Bls, Auction, execute as auction_execute}

module _ (bls : Bls) {S : Type 0} (vm : Vm S) (rules : Rules) where
  -- One execution, at any height and by any actor, with the state that it leaves however it ends.
  pub data Step (s : S) : S → Type 1 where
    transferred : (t : Transfer) (actor : Address) → Step s (transfer_execute vm t actor s).1
    auctioned :
        (a : Auction) (hght : ℕ) (actor : Address)
        → Step s (auction_execute bls vm rules hght a actor s).1
    exited : (e : EpochExit) (actor : Address) → Step s (epoch_exit_execute vm e actor s).1
    registered :
        (r : RollupRegistration) (hght : ℕ) (actor : Address)
        → Step s (registration_execute vm rules hght actor r s).1

  pub data Reaches (s : S) : S → Type 1 where
    here : Reaches s s
    next : {u t : S} → Reaches s u → Step u t → Reaches s t
