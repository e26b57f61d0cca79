-- ===== src/Actions/EpochExit/Effect.antt =====
-- What an exit action that returns has checked and stored.
use nodekit_seq.Prelude.{
  ℕ, ◌≡◌, refl, ap, ◌∙◌, sym, true, false, not, Bool-cases, inl, inr, none, some, Option,
  Option-cases, List, [], ◌∷◌, ◌++◌, Bytes, ◌==◌, arith,
}
use nodekit_seq.Prelude.Int.{pos}
use nodekit_seq.Outcome.{
  epoch_mismatch, exit_namespace_not_registered, ok, then_outcome, ok-injective,
}
use nodekit_seq.Outcome.Chains.{
  Atomic, lift-then, raise_if-then, lift-Atomic, raise_if-Atomic, written-Atomic,
}
use nodekit_seq.Vm.{Vm, Address, RollupInfo, EpochInfo, StateLaws, CodecLaws}
use nodekit_seq.Storage.View.{OnlyAt}
use nodekit_seq.Storage.Rollups.{get_rollup_info, get_rollup_registry}
use nodekit_seq.Storage.Exits.{get_epoch_exits, set_epoch_exits, exits_size}
use nodekit_seq.Storage.Exits.ReadBack.{set_epoch_exits-OnlyAt, get-set_epoch_exits}
use nodekit_seq.Actions.Utils.{contains, deref, check_authority}
use nodekit_seq.Actions.Utils.Authority.{authority_of}
use nodekit_seq.Actions.EpochExit.{
  EpochExit, exit_index, delete_at, has_exit, create_exit, delete_exit, changed_exits, execute,
}
use nodekit_seq.Actions.EpochExit.Exits.{Struck, exit_index-Struck, exit_index-append}

-- The exits of a record that may be nil.
abbrev pub listed : Option (List EpochInfo) → List EpochInfo
listed none = []
listed (some exits) = exits

pub create_exit-ok :
    (info : EpochInfo) (before : Option (List EpochInfo)) (after : List EpochInfo)
    → create_exit info before ≡ ok after
    → (has_exit info.namespace (listed before) ≡ false) × (after ≡ listed before ++ (info ∷ []))
unfolding create_exit has_exit
create_exit-ok info none after h = (refl, ground arith)
create_exit-ok info (some exits) after h = elim (Bool-cases (has_exit info.namespace exits)) [
  | inl there ↦ cc (rw there at h)
  | inr fresh ↦ (fresh, ground (arith, (rw fresh at h)))
]

pub delete_exit-ok :
    (info : EpochInfo) (before : Option (List EpochInfo)) (after : List EpochInfo)
    → delete_exit info before ≡ ok after
    → (idx : ℕ) × Struck info.namespace (listed before) idx
      × (after ≡ delete_at idx (listed before))
unfolding delete_exit
delete_exit-ok info none after h = ground arith
delete_exit-ok info (some exits) after h = elim (Option-cases (exit_index info.namespace exits)) [
  | inl missing ↦ cc (rw missing at h)
  | inr (idx, found) ↦
      (idx, exit_index-Struck info.namespace exits idx found, ground (arith, (rw found at h)))
]

module _ {S : Type 0} (vm : Vm S) where
  -- Everything that an action that returns has read, and its one write.
  pub record Accepted (e : EpochExit) (actor : Address) (s s' : S) : Type 0 where
    pub same_epoch : e.epoch ≡ e.info.epoch
    pub registry : List Bytes
    pub read_registry : get_rollup_registry vm s ≡ ok registry
    pub registered : contains registry e.info.namespace ≡ true
    pub rollup : RollupInfo
    pub read_rollup : get_rollup_info vm e.info.namespace s ≡ ok (some rollup)
    pub authority : rollup.authority_seq_address ≡ actor
    pub before : Option (List EpochInfo)
    pub read_exits : get_epoch_exits vm e.epoch s ≡ ok before
    pub after : List EpochInfo
    pub changed : changed_exits e before ≡ ok after
    pub stored : set_epoch_exits vm e.epoch after s ≡ (ok tt, s')

  pub execute-Accepted :
      (e : EpochExit) (actor : Address) (s s' : S)
      → execute vm e actor s ≡ (ok tt, s')
      → Accepted e actor s s'
  unfolding execute
  execute-Accepted e actor s s' h =
      let (p₁, h₁) = raise_if-then _ (not (e.epoch == e.info.epoch)) epoch_mismatch s h in
      let (nss, p₂, h₂) = lift-then _ (get_rollup_registry vm s) s h₁ in
      let (p₃, h₃) =
        raise_if-then _ (not (contains nss e.info.namespace)) exit_namespace_not_registered s h₂ in
      let (o, p₄, h₄) = lift-then _ (get_rollup_info vm e.info.namespace s) s h₃ in
      let (u, p₅, h₅) = lift-then _ (then_outcome (deref o) (check_authority actor)) s h₄ in
      let (before, p₆, h₆) = lift-then _ (get_epoch_exits vm e.epoch s) s h₅ in
      let (after, p₇, h₇) = lift-then _ (changed_exits e before) s h₆ in
      let (rollup, some_rollup, same) = authority_of o actor p₅ in
      record {
        same_epoch = ground arith;
        registry = nss;
        read_registry = p₂;
        registered = ground arith;
        rollup = rollup;
        read_rollup = p₄ ∙ ap ok some_rollup;
        authority = same;
        before = before;
        read_exits = p₆;
        after = after;
        changed = p₇;
        stored = h₇;
      }

  set_epoch_exits-Atomic :
      (d : ℕ) (exits : List EpochInfo) (s : S) → Atomic s (set_epoch_exits vm d exits s)
  unfolding set_epoch_exits
  set_epoch_exits-Atomic d exits s =
      lift-Atomic _ (vm.marshal_epoch_exits (exits_size vm exits) exits) s
        λ v _. written-Atomic s (vm.insert (vm.epoch_exits_key d) v s)

  -- An exit action that does not return without error leaves the state as it was.
  pub execute-Atomic : (e : EpochExit) (actor : Address) (s : S) → Atomic s (execute vm e actor s)
  unfolding execute
  execute-Atomic e actor s = raise_if-Atomic _ (not (e.epoch == e.info.epoch)) epoch_mismatch s λ _.
      lift-Atomic _ (get_rollup_registry vm s) s λ nss _.
        raise_if-Atomic _ (not (contains nss e.info.namespace)) exit_namespace_not_registered s λ _.
          lift-Atomic _ (get_rollup_info vm e.info.namespace s) s λ o _.
            lift-Atomic _ (then_outcome (deref o) (check_authority actor)) s λ _ _.
              lift-Atomic _ (get_epoch_exits vm e.epoch s) s λ before _.
                lift-Atomic _ (changed_exits e before) s
                  λ after _. set_epoch_exits-Atomic e.epoch after s

  module _ (laws : StateLaws vm) where
    -- Nothing but the exits of the action's epoch changes, however it ends.
    pub execute-OnlyAt :
        (e : EpochExit) (actor : Address) (s : S)
        → OnlyAt vm (vm.epoch_exits_key e.epoch) s (execute vm e actor s).1
    execute-OnlyAt e actor s = elim (execute-Atomic e actor s) [
      | inl (u, done) ↦
          let a = execute-Accepted e actor s (execute vm e actor s).1 done in
          let only = set_epoch_exits-OnlyAt vm laws e.epoch a.after s in
          λ j ne. rw a.stored at only j ne
      | inr same ↦ λ j ne. rw same refl
    ]

    module _ (codec : CodecLaws vm) where
      -- A new exit is announced once, by the authority of a registered rollup, at the end of its
      -- epoch's list.
      pub execute_announces :
          (e : EpochExit) (actor : Address) (before : Option (List EpochInfo)) (s s' : S)
          → e.op_code ≡ pos 0
          → get_epoch_exits vm e.epoch s ≡ ok before
          → execute vm e actor s ≡ (ok tt, s')
          → (has_exit e.info.namespace (listed before) ≡ false)
            × (e.epoch ≡ e.info.epoch)
            × (get_epoch_exits vm e.epoch s' ≡ ok (some (listed before ++ (e.info ∷ []))))
      execute_announces e actor before s s' op hb h =
          let a = execute-Accepted e actor s s' h in
          let same : a.before ≡ before = ok-injective (sym a.read_exits ∙ hb) in
          let (fresh, added) = create_exit-ok e.info before a.after (rw (op, same) at a.changed) in
          (
            fresh,
            a.same_epoch,
            get-set_epoch_exits vm laws e.epoch a.after s s' codec a.stored
                ∙ ap (λ l. ok (some l)) added,
          )

      -- A deletion takes the first exit of the namespace out, and keeps the others in their order.
      pub execute_withdraws :
          (e : EpochExit) (actor : Address) (before : Option (List EpochInfo)) (s s' : S)
          → e.op_code ≡ pos 1
          → get_epoch_exits vm e.epoch s ≡ ok before
          → execute vm e actor s ≡ (ok tt, s')
          → (pre : List EpochInfo) × (exit : EpochInfo) × (post : List EpochInfo) × (listed before
              ≡ pre ++ (exit ∷ post))
            × (exit.namespace ≡ e.info.namespace)
            × (has_exit e.info.namespace pre ≡ false)
            × (get_epoch_exits vm e.epoch s' ≡ ok (some (pre ++ post)))
      execute_withdraws e actor before s s' op hb h =
          let a = execute-Accepted e actor s s' h in
          let same : a.before ≡ before = ok-injective (sym a.read_exits ∙ hb) in
          let (idx, hit, gone) =
            delete_exit-ok e.info before a.after (rw (op, same) at a.changed) in
          (
            hit.pre,
            hit.exit,
            hit.post,
            hit.split,
            hit.named,
            hit.first,
            get-set_epoch_exits vm laws e.epoch a.after s s' codec a.stored
                ∙ ap (λ l. ok (some l)) (gone ∙ hit.left),
          )

      -- Taking a new exit back restores the list.
      pub execute_announce_withdraw :
          (e d : EpochExit) (actor other : Address) (before : Option (List EpochInfo)) (s u s' : S)
          → e.op_code ≡ pos 0
          → d.op_code ≡ pos 1
          → d.epoch ≡ e.epoch
          → d.info.namespace ≡ e.info.namespace
          → get_epoch_exits vm e.epoch s ≡ ok before
          → execute vm e actor s ≡ (ok tt, u)
          → execute vm d other u ≡ (ok tt, s')
          → get_epoch_exits vm e.epoch s' ≡ ok (some (listed before))
      unfolding delete_exit
      execute_announce_withdraw e d actor other before s u s' op₁ op₂ ep ns hb h k =
          let (fresh, _, there) = execute_announces e actor before s u op₁ hb h in
          let a = execute-Accepted d other u s' k in
          let seen : a.before ≡ some (listed before ++ (e.info ∷ [])) =
            ok-injective (sym a.read_exits ∙ rw ep there) in
          let (found, back) = exit_index-append e.info (listed before) fresh in
          let undone : ok (listed before) ≡ ok a.after =
            rw (op₂, seen, ns, found, back) at a.changed in
          rw (← ep) (
            get-set_epoch_exits vm laws d.epoch a.after u s' codec a.stored
            ∙ ap (λ l. ok (some l)) (sym (ok-injective undone)))
