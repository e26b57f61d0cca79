-- ===== src/Actions/Auction/Settlement.antt =====
-- An accepted bid is paid by its builder into the Arcadia fund and recorded under its epoch.
use nodekit_seq.Prelude.{
  ℕ, ◌+◌, ◌-◌, ◌^◌, ◌≤◌, ◌<◌, ◌≡◌, ◌≢◌, ◌∙◌, sym, true, some, List, Bytes, length, arith,
}
use nodekit_seq.Outcome.{ok, and_then-ok}
use nodekit_seq.Vm.{Vm, Address, StateLaws, MathLaws}
use nodekit_seq.Genesis.{Rules}
use nodekit_seq.Storage.KeyLaws.{KeyLaws}
use nodekit_seq.Storage.ReadState.{ReadState}
use nodekit_seq.Storage.View.{OnlyAt, Serves}
use nodekit_seq.Storage.Balance.{get_balance, sub_balance, add_balance}
use nodekit_seq.Storage.Balance.Effect.{
  Sets-other, get_balance-OnlyAt, sub_balance-Sets, add_balance-Sets, sub_balance-ok,
  add_balance-ok,
}
use nodekit_seq.Storage.Arcadia.{
  store_arcadia_bid_info, get_arcadia_bid_value, get_arcadia_builder_info_and_signature,
  get_arcadia_builder_from_state,
}
use nodekit_seq.Storage.Arcadia.ReadBack.{store_arcadia_bid_info-OnlyAt, get-store_arcadia_bid}
use nodekit_seq.Actions.Utils.{contains_address, arcadia_fund_address}
use nodekit_seq.Actions.Auction.{Bls, Auction, builder_address, settle_bid, execute}
use nodekit_seq.Actions.Auction.Effect.{execute-Valid}
use nodekit_seq.Ledger.{Distinct, total, total-Sets, total_same}

-- A compressed BLS key is 48 bytes long and a signature 96.
pub record BlsLaws (bls : Bls) : Type 0 where
  pub length-public_key :
      (b : Bytes) (k : bls.PublicKey) → bls.public_key_from_bytes b ≡ ok k → length b ≡ 48
  pub length-signature :
      (b : Bytes) (s : bls.Signature) → bls.signature_from_bytes b ≡ ok s → length b ≡ 96

module _ (bls : Bls) {S : Type 0} (vm : Vm S) where
  -- The three writes of an accepted bid.
  pub record Settled (a : Auction) (s s' : S) : Type 0 where
    pub paid : S
    pub funded : S
    pub payment : sub_balance vm (builder_address bls a) a.auction_info.bid_price s ≡ (ok tt, paid)
    pub income :
        add_balance vm arcadia_fund_address a.auction_info.bid_price true paid ≡ (ok tt, funded)
    pub recorded :
        store_arcadia_bid_info vm a.auction_info.epoch_number a.auction_info.bid_price
          a.builder_public_key a.builder_signature funded
        ≡ (ok tt, s')

  pub settle_bid-Settled :
      (a : Auction) (s s' : S) → settle_bid bls vm a s ≡ (ok tt, s') → Settled a s s'
  unfolding settle_bid
  settle_bid-Settled a s s' h =
      let pay = sub_balance vm (builder_address bls a) a.auction_info.bid_price s in
      let (_, p₁, h₁) = and_then-ok _ pay h in
      let fund = add_balance vm arcadia_fund_address a.auction_info.bid_price true pay.1 in
      let (_, p₂, h₂) = and_then-ok _ fund h₁ in
      record { paid = pay.1; funded = fund.1; payment = p₁; income = p₂; recorded = h₂ }

  module _ (laws : StateLaws vm) (rules : Rules) (hght : ℕ) where
    recorded-OnlyAt :
        (a : Auction) (u s' : S)
        → store_arcadia_bid_info vm a.auction_info.epoch_number a.auction_info.bid_price
            a.builder_public_key a.builder_signature u
          ≡ (ok tt, s')
        → OnlyAt vm (vm.arcadia_bid_key a.auction_info.epoch_number) u s'
    recorded-OnlyAt a u s' h =
        let only =
          store_arcadia_bid_info-OnlyAt vm laws a.auction_info.epoch_number a.auction_info.bid_price
            a.builder_public_key a.builder_signature u in
        rw h at only

    module _ (math : MathLaws vm) (keys : KeyLaws vm) where
      -- The price leaves the builder's account, which covers it, and reaches the fund; no third
      -- balance changes.
      pub execute_pays :
          (a : Auction) (actor : Address) (m n : ℕ) (s s' : S)
          → builder_address bls a ≢ arcadia_fund_address
          → get_balance vm (builder_address bls a) s ≡ ok m
          → get_balance vm arcadia_fund_address s ≡ ok n
          → execute bls vm rules hght a actor s ≡ (ok tt, s')
          → (a.auction_info.bid_price ≤ m)
            × (n + a.auction_info.bid_price < 2 ^ 64)
            × (get_balance vm (builder_address bls a) s' ≡ ok (m - a.auction_info.bid_price))
            × (get_balance vm arcadia_fund_address s' ≡ ok (n + a.auction_info.bid_price))
            × ((b : Address)
                → b ≢ builder_address bls a
                → b ≢ arcadia_fund_address
                → get_balance vm b s' ≡ get_balance vm b s)
      execute_pays a actor m n s s' ne hm hn h =
          let builder = builder_address bls a in
          let price = a.auction_info.bid_price in
          let bid_key = vm.arcadia_bid_key a.auction_info.epoch_number in
          let (_, settled) = execute-Valid bls vm rules hght a actor s s' h in
          let w = settle_bid-Settled a s s' settled in
          let (enough, paid) =
            sub_balance-Sets vm laws builder m price s w.paid math hm w.payment in
          let hn' : get_balance vm arcadia_fund_address w.paid ≡ ok n =
            Sets-other vm builder arcadia_fund_address _ s w.paid paid ne ∙ hn in
          let (room, got) =
            add_balance-Sets vm laws arcadia_fund_address n price w.paid w.funded math hn'
              w.income in
          let only = recorded-OnlyAt a w.funded s' w.recorded in
          let unread : (b : Address) → get_balance vm b s' ≡ get_balance vm b w.funded = λ b.
            get_balance-OnlyAt vm bid_key b w.funded s' only
              (keys.bid_ne_balance a.auction_info.epoch_number b) in
          (
            enough,
            room,
            unread builder
                ∙ Sets-other vm arcadia_fund_address builder _ w.paid w.funded got (λ e. ne (sym e))
                ∙ paid.balance,
            unread arcadia_fund_address ∙ got.balance,
            λ b hb hf.
                unread b
                ∙ Sets-other vm arcadia_fund_address b _ w.paid w.funded got (λ e. hf (sym e))
                ∙ Sets-other vm builder b _ s w.paid paid (λ e. hb (sym e)),
          )

      -- No value is made or lost, also when the builder is the fund.
      pub total-execute_bid :
          (a : Auction) (actor : Address) (accounts : List Address) (s s' : S)
          → Distinct accounts
          → contains_address accounts (builder_address bls a) ≡ true
          → contains_address accounts arcadia_fund_address ≡ true
          → execute bls vm rules hght a actor s ≡ (ok tt, s')
          → total vm accounts s' ≡ total vm accounts s
      total-execute_bid a actor accounts s s' d hb hf h =
          let price = a.auction_info.bid_price in
          let builder = builder_address bls a in
          let (_, settled) = execute-Valid bls vm rules hght a actor s s' h in
          let w = settle_bid-Settled a s s' settled in
          let (m, em, enough, paid) =
            sub_balance-ok vm laws builder price s w.paid math w.payment in
          let (n, en, room, got) =
            add_balance-ok vm laws arcadia_fund_address price w.paid w.funded math w.income in
          let only = recorded-OnlyAt a w.funded s' w.recorded in
          let kept = total_same vm w.funded s' accounts λ b.
            get_balance-OnlyAt vm (vm.arcadia_bid_key a.auction_info.epoch_number) b w.funded s'
              only (keys.bid_ne_balance a.auction_info.epoch_number b) in
          omega (
            arith,
            kept,
            total-Sets vm builder m (m - price) s w.paid accounts paid em hb d,
            total-Sets vm arcadia_fund_address n (n + price) w.paid w.funded accounts got en hf d,
          )

    -- What the bid's epoch then answers.
    pub execute_records :
        (a : Auction) (actor : Address) (f : ReadState) (s s' : S)
        → BlsLaws bls
        → a.auction_info.bid_price < 2 ^ 64
        → Serves vm f s'
        → execute bls vm rules hght a actor s ≡ (ok tt, s')
        → (get_arcadia_bid_value vm a.auction_info.epoch_number s' ≡ ok a.auction_info.bid_price)
          × (get_arcadia_builder_info_and_signature vm a.auction_info.epoch_number s'
              ≡ ok (a.builder_public_key, a.builder_signature))
          × (get_arcadia_builder_from_state vm f a.auction_info.epoch_number
              ≡ ok (some a.builder_public_key))
    execute_records a actor f s s' lens small served h =
        let (valid, settled) = execute-Valid bls vm rules hght a actor s s' h in
        let w = settle_bid-Settled a s s' settled in
        get-store_arcadia_bid vm laws a.auction_info.epoch_number a.auction_info.bid_price
          a.builder_public_key a.builder_signature f w.funded s' small
          (lens.length-public_key a.builder_public_key valid.key valid.key_parsed)
          (lens.length-signature a.builder_signature valid.signature valid.signature_parsed) served
          w.recorded
