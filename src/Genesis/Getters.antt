-- ===== src/Genesis/Getters.antt =====
-- genesis/rules.go: what hypersdk reads of the rules.
use nodekit_seq.Prelude.{ℕ, List, [], ◌∷◌}
use nodekit_seq.Prelude.Int.{ℤ}
use nodekit_seq.Storage.Keys.{balance_chunks}
use nodekit_seq.Genesis.{Dimensions, Rules}

abbrev pub get_network_id : Rules → ℕ
get_network_id r = r.network_id

abbrev pub get_chain_id : Rules → List ℕ
get_chain_id r = r.chain_id

abbrev pub get_min_block_gap : Rules → ℤ
get_min_block_gap r = r.g.min_block_gap

abbrev pub get_min_empty_block_gap : Rules → ℤ
get_min_empty_block_gap r = r.g.min_empty_block_gap

abbrev pub get_validity_window : Rules → ℤ
get_validity_window r = r.g.validity_window

abbrev pub get_max_actions_per_tx : Rules → ℕ
get_max_actions_per_tx r = r.g.max_actions_per_tx

abbrev pub get_max_outputs_per_action : Rules → ℕ
get_max_outputs_per_action r = r.g.max_outputs_per_action

abbrev pub get_max_block_units : Rules → Dimensions
get_max_block_units r = r.g.max_block_units

abbrev pub get_base_compute_units : Rules → ℕ
get_base_compute_units r = r.g.base_compute_units

abbrev pub get_sponsor_state_keys_max_chunks : Rules → List ℕ
get_sponsor_state_keys_max_chunks r = balance_chunks ∷ []

abbrev pub get_storage_key_read_units : Rules → ℕ
get_storage_key_read_units r = r.g.storage_key_read_units

abbrev pub get_storage_value_read_units : Rules → ℕ
get_storage_value_read_units r = r.g.storage_value_read_units

abbrev pub get_storage_key_allocate_units : Rules → ℕ
get_storage_key_allocate_units r = r.g.storage_key_allocate_units

abbrev pub get_storage_value_allocate_units : Rules → ℕ
get_storage_value_allocate_units r = r.g.storage_value_allocate_units

abbrev pub get_storage_key_write_units : Rules → ℕ
get_storage_key_write_units r = r.g.storage_key_write_units

abbrev pub get_storage_value_write_units : Rules → ℕ
get_storage_value_write_units r = r.g.storage_value_write_units

abbrev pub get_min_unit_price : Rules → Dimensions
get_min_unit_price r = r.g.min_unit_price

abbrev pub get_unit_price_change_denominator : Rules → Dimensions
get_unit_price_change_denominator r = r.g.unit_price_change_denominator

abbrev pub get_window_target_units : Rules → Dimensions
get_window_target_units r = r.g.window_target_units

abbrev pub get_fee_market_price_change_denominator : Rules → ℕ
get_fee_market_price_change_denominator r = r.g.fee_market_price_change_denominator

abbrev pub get_fee_market_window_target_units : Rules → ℕ
get_fee_market_window_target_units r = r.g.fee_market_window_target_units

abbrev pub get_fee_market_min_unit_price : Rules → ℕ
get_fee_market_min_unit_price r = r.g.fee_market_min_units
