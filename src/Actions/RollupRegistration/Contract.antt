-- ===== src/Actions/RollupRegistration/Contract.antt =====
-- What the three operations of a registration promise to a caller that sees no error.
use nodekit_seq.Prelude.{
  ℕ, zero, suc, ◌≤◌, ◌≡◌, ap, ◌∙◌, sym, true, inl, inr, some, List, [], ◌∷◌, ◌++◌, Bytes,
  if◌then◌else◌,
}
use nodekit_seq.Prelude.Int.{ℤ, pos, negsuc}
use nodekit_seq.Outcome.{ok, ok-injective}
use nodekit_seq.Vm.{Vm, Address, RollupInfo, StateLaws, CodecLaws}
use nodekit_seq.Genesis.{Rules, get_epoch_length}
use nodekit_seq.Storage.KeyLaws.{KeyLaws}
use nodekit_seq.Storage.Rollups.{
  get_rollup_info, set_rollup_info, get_rollup_registry, set_rollup_registry,
}
use nodekit_seq.Storage.Rollups.ReadBack.{
  get_rollup_info-OnlyAt, set_rollup_registry-OnlyAt, get-set_rollup_info, get-set_rollup_registry,
}
use nodekit_seq.Actions.Utils.{contains, epoch}
use nodekit_seq.Actions.RollupRegistration.{
  RollupRegistration, with_epochs, earliest, by_op_code, create_rollup, update_rollup, exit_rollup,
  execute,
}
use nodekit_seq.Actions.RollupRegistration.Effect.{Authorized, execute-Accepted}
use nodekit_seq.Actions.RollupRegistration.Operations.{
  create_rollup-Created, update_rollup-Updated, exit_rollup-Exited,
}

module _ {S : Type 0} (vm : Vm S) (rules : Rules) (hght : ℕ) (actor : Address) where
  op_authority :
      (op : ℤ) (r : RollupRegistration) (namespaces namespaces' : List Bytes) (s u : S)
      (info : RollupInfo)
      → contains namespaces r.namespace ≡ true
      → by_op_code vm rules hght actor op r namespaces s ≡ (ok (info, namespaces'), u)
      → Authorized vm rules hght actor r.namespace namespaces s
  op_authority (pos zero) r namespaces namespaces' s u info there h =
      let c = create_rollup-Created vm rules hght actor r namespaces namespaces' s u info h in
      elim (c.join.case) [ inl (out, _) ↦ cc (out, there) | inr (a, _) ↦ a ]
  op_authority (pos (suc zero)) r namespaces namespaces' s u info there h =
      (exit_rollup-Exited vm rules hght actor r namespaces namespaces' s u info h).permit
  op_authority (pos (suc (suc zero))) r namespaces namespaces' s u info there h =
      (update_rollup-Updated vm rules hght actor r namespaces namespaces' s u info h).permit
  op_authority (pos (suc (suc (suc n)))) r namespaces namespaces' s u info there h = cc h
  op_authority (negsuc n) r namespaces namespaces' s u info there h = cc h

  -- Only the authority on record changes a registered rollup, by whichever operation.
  pub execute_authority :
      (r : RollupRegistration) (namespaces : List Bytes) (s s' : S) (info : RollupInfo)
      → get_rollup_registry vm s ≡ ok namespaces
      → contains namespaces r.namespace ≡ true
      → execute vm rules hght actor r s ≡ (ok info, s')
      → (existing : RollupInfo) × (get_rollup_info vm r.namespace s ≡ ok (some existing))
        × (existing.authority_seq_address ≡ actor)
  execute_authority r namespaces s s' info hn there h =
      let a = execute-Accepted vm rules hght actor r s s' info h in
      let same : a.namespaces ≡ namespaces = ok-injective (sym a.read_registry ∙ hn) in
      let listed : contains a.namespaces r.namespace ≡ true = rw same there in
      let p =
        op_authority r.op_code r a.namespaces a.namespaces' s a.middle info listed a.operation in
      (p.existing, p.read_info, p.authority)

  module _ (laws : StateLaws vm) (codec : CodecLaws vm) (keys : KeyLaws vm) where
    -- Both writes of an operation are there at its end.
    both_stored :
        (n : Bytes) (namespaces : List Bytes) (info : RollupInfo) (s u s' : S)
        → set_rollup_info vm n info s ≡ (ok tt, u)
        → set_rollup_registry vm namespaces u ≡ (ok tt, s')
        → (get_rollup_info vm n s' ≡ ok (some info)) × (get_rollup_registry vm s' ≡ ok namespaces)
    both_stored n namespaces info s u s' h k =
        let only = set_rollup_registry-OnlyAt vm laws namespaces u in
        (
          get_rollup_info-OnlyAt vm vm.rollup_registry_key n u s' (rw k at only)
                (λ p. keys.info_ne_registry n (sym p))
              ∙ get-set_rollup_info vm laws codec n info s u h,
          get-set_rollup_registry vm laws codec namespaces u s' k,
        )

    -- Registering stores the record as it was sent, its start two epochs away at least, and lists
    -- a namespace that is not listed yet.
    pub execute_creates :
        (r : RollupRegistration) (namespaces : List Bytes) (s s' : S) (info : RollupInfo)
        → r.op_code ≡ pos 0
        → get_rollup_registry vm s ≡ ok namespaces
        → execute vm rules hght actor r s ≡ (ok info, s')
        → (get_rollup_info vm r.namespace s' ≡ ok (some r.info))
          × (r.info.exit_epoch ≡ 0)
          × ((current : ℕ) × (epoch hght (get_epoch_length rules) ≡ ok current)
              × (earliest current ≤ r.info.start_epoch))
          × (get_rollup_registry vm s'
              ≡ ok (
                  if contains namespaces r.namespace
                  then namespaces
                  else namespaces ++ (r.namespace ∷ [])))
    unfolding create_rollup
    execute_creates r namespaces s s' info op hn h =
        let a = execute-Accepted vm rules hght actor r s s' info h in
        let same : a.namespaces ≡ namespaces = ok-injective (sym a.read_registry ∙ hn) in
        let c =
          create_rollup-Created vm rules hght actor r namespaces a.namespaces' s a.middle info
            (rw (op, same) at a.operation) in
        let (there, listed) =
          both_stored r.namespace a.namespaces' r.info s a.middle s' c.info_set a.registry_set in
        (
          there,
          c.no_exit,
          (c.current, c.current_epoch, c.starts_later),
          elim (c.join.case) [
            | inl (out, added) ↦ rw out (listed ∙ ap ok added)
            | inr (p, kept) ↦ rw p.registered (listed ∙ ap ok kept)
          ],
        )

    -- An update by the authority keeps the epochs on record and takes the rest as it was sent.
    pub execute_updates :
        (r : RollupRegistration) (namespaces : List Bytes) (s s' : S) (info : RollupInfo)
        → r.op_code ≡ pos 2
        → get_rollup_registry vm s ≡ ok namespaces
        → execute vm rules hght actor r s ≡ (ok info, s')
        → (existing : RollupInfo) × (get_rollup_info vm r.namespace s ≡ ok (some existing))
          × (existing.authority_seq_address ≡ actor)
          × (info ≡ with_epochs existing.start_epoch existing.exit_epoch r.info)
          × (get_rollup_info vm r.namespace s' ≡ ok (some info))
          × (get_rollup_registry vm s' ≡ ok namespaces)
    unfolding update_rollup
    execute_updates r namespaces s s' info op hn h =
        let a = execute-Accepted vm rules hght actor r s s' info h in
        let same : a.namespaces ≡ namespaces = ok-injective (sym a.read_registry ∙ hn) in
        let c =
          update_rollup-Updated vm rules hght actor r namespaces a.namespaces' s a.middle info
            (rw (op, same) at a.operation) in
        let (there, listed) =
          both_stored r.namespace a.namespaces' info s a.middle s' c.info_set a.registry_set in
        (
          c.permit.existing,
          c.permit.read_info,
          c.permit.authority,
          sym c.info_new,
          there,
          listed ∙ ap ok (sym c.registry_same),
        )

    -- An exit by the authority is at least two epochs away and not before the start on record,
    -- which it keeps.
    pub execute_exits :
        (r : RollupRegistration) (namespaces : List Bytes) (s s' : S) (info : RollupInfo)
        → r.op_code ≡ pos 1
        → get_rollup_registry vm s ≡ ok namespaces
        → execute vm rules hght actor r s ≡ (ok info, s')
        → (existing : RollupInfo) × (get_rollup_info vm r.namespace s ≡ ok (some existing))
          × (existing.authority_seq_address ≡ actor)
          × (existing.start_epoch ≤ r.info.exit_epoch)
          × ((current : ℕ) × (epoch hght (get_epoch_length rules) ≡ ok current)
              × (earliest current ≤ r.info.exit_epoch))
          × (info ≡ with_epochs existing.start_epoch r.info.exit_epoch r.info)
          × (get_rollup_info vm r.namespace s' ≡ ok (some info))
          × (get_rollup_registry vm s' ≡ ok namespaces)
    unfolding exit_rollup
    execute_exits r namespaces s s' info op hn h =
        let a = execute-Accepted vm rules hght actor r s s' info h in
        let same : a.namespaces ≡ namespaces = ok-injective (sym a.read_registry ∙ hn) in
        let c =
          exit_rollup-Exited vm rules hght actor r namespaces a.namespaces' s a.middle info
            (rw (op, same) at a.operation) in
        let (there, listed) =
          both_stored r.namespace a.namespaces' info s a.middle s' c.info_set a.registry_set in
        (
          c.permit.existing,
          c.permit.read_info,
          c.permit.authority,
          c.after_start,
          (c.current, c.current_epoch, c.exits_later),
          sym c.info_new,
          there,
          listed ∙ ap ok (sym c.registry_same),
        )
