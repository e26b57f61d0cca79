-- ===== src/Storage/Balance.antt =====
-- storage/balance.go: the balance of an account is the word stored at its key.
pub mod Effect
pub mod Frame
pub mod Outcomes
use nodekit_seq.Prelude.{
  ℕ, Bool, true, false, not, ◌&&◌, Option, none, some, [], ◌∷◌, Bytes, ◌==◌, if◌then◌else◌,
}
use nodekit_seq.Outcome.{
  Error, invalid_balance, wrapped, could_not_add_balance, could_not_subtract_balance, is_not_found,
  Outcome, ok, err, map_ok, then_outcome, replace_error, Action, pure, lift, gets, modify, ◌>>=◌,
}
use nodekit_seq.Vm.{Vm, Address}
use nodekit_seq.Encoding.{uint64, append_uint64}
use nodekit_seq.Storage.Keys.{balance_key}
use nodekit_seq.Storage.ReadState.{ReadState, first}

-- The balance and whether the account exists.
pub inner_get_balance : Bytes → Option Error → Outcome (ℕ × Bool)
inner_get_balance v (some e) = if is_not_found e then ok (0, false) else err e
inner_get_balance v none = map_ok (λ n. (n, true)) (uint64 v)

pub get_balance_from_state : ReadState → Address → Outcome ℕ
unfolding inner_get_balance
get_balance_from_state f addr =
    then_outcome (first (f (balance_key addr ∷ [])))
      λ entry. map_ok (λ found. found.0) (inner_get_balance entry.0 entry.1)

module _ {S : Type 0} (vm : Vm S) where
  open vm use {get_value, insert, remove, add64, sub}

  -- `getBalance`, whose key the callers compute again.
  pub find_balance : Address → S → Outcome (ℕ × Bool)
  unfolding inner_get_balance
  find_balance addr s = let (v, e) = get_value (balance_key addr) s in inner_get_balance v e

  unfoldable pub get_balance : Address → S → Outcome ℕ
  unfolding find_balance
  get_balance addr s = map_ok (λ found. found.0) (find_balance addr s)

  -- `setBalance`.
  pub set_balance_at : Bytes → ℕ → Action S (Unit {0})
  set_balance_at key balance = modify (insert key (append_uint64 balance))

  unfoldable pub set_balance : Address → ℕ → Action S (Unit {0})
  unfolding set_balance_at
  set_balance addr balance = set_balance_at (balance_key addr) balance

  pub delete_balance : Address → Action S (Unit {0})
  delete_balance addr = modify (remove (balance_key addr))

  -- The write at the end of `AddBalance`.
  pub credit : Address → ℕ → ℕ → Action S (Unit {0})
  unfolding set_balance_at
  credit addr bal amount = do
    nbal ← lift (replace_error (wrapped could_not_add_balance invalid_balance) (add64 bal amount))
    set_balance_at (balance_key addr) nbal

  unfoldable pub add_balance : Address → ℕ → Bool → Action S (Unit {0})
  unfolding credit find_balance
  add_balance addr amount create = do
    found ← gets (find_balance addr)
    if not found.1 && not create then pure tt else credit addr found.0 amount

  -- An account with nothing left is removed.
  pub settle : Address → ℕ → Action S (Unit {0})
  unfolding set_balance_at
  settle addr nbal =
      if nbal == 0
      then modify (remove (balance_key addr))
      else set_balance_at (balance_key addr) nbal

  unfoldable pub sub_balance : Address → ℕ → Action S (Unit {0})
  unfolding settle find_balance
  sub_balance addr amount = do
    found ← gets (find_balance addr)
    nbal ←
        lift
          (replace_error (wrapped could_not_subtract_balance invalid_balance) (sub found.0 amount))
    settle addr nbal
