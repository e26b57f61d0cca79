-- ===== src/Actions/RollupRegistration/Operations.antt =====
-- What each of the three operations of a registration has checked and stored.
use nodekit_seq.Prelude.{
  ℕ, ◌≤◌, ◌≡◌, ap, ◌∙◌, sym, false, ◌||◌, ltb, Bool-cases, ◌⊎◌, inl, inr, none, some, Option, List,
  [], ◌∷◌, ◌++◌, Bytes, arith,
}
use mathlib.Core.Option.{some-injective}
use nodekit_seq.Outcome.{
  authorization_failed, authorization_failed_update, unable_to_set_info_create,
  unable_to_set_info_update, unable_to_set_info_exit, unable_to_get_existing_info,
  exit_epoch_not_valid, ok, wrap, ok-injective, wrap_errors,
}
use nodekit_seq.Outcome.Chains.{
  wrap-ok, wrapped-ok, then-pure, then_outcome-ok, lift-then, raise_if-then,
}
use nodekit_seq.Vm.{Vm, Address, RollupInfo}
use nodekit_seq.Genesis.{Rules, get_epoch_length}
use nodekit_seq.Storage.Rollups.{get_rollup_info, set_rollup_info}
use nodekit_seq.Actions.Utils.{contains, deref, authorization_checks, epoch}
use nodekit_seq.Actions.RollupRegistration.{
  RollupRegistration, with_epochs, earliest, create_guards, joined, create_rollup, update_rollup,
  exit_rollup,
}
use nodekit_seq.Actions.RollupRegistration.Effect.{Authorized, authorization_checks-Authorized}

module _ {S : Type 0} (vm : Vm S) (rules : Rules) (hght : ℕ) (actor : Address) where
  -- How `CreateRollup` may treat the list of namespaces.
  pub record Joined (ns : Bytes) (namespaces namespaces' : List Bytes) (s : S) : Type 0 where
    pub case :
        ((contains namespaces ns ≡ false) × (namespaces' ≡ namespaces ++ (ns ∷ [])))
        ⊎ (Authorized vm rules hght actor ns namespaces s × (namespaces' ≡ namespaces))

  pub record Created (r : RollupRegistration) (namespaces : List Bytes) (s : S) (info : RollupInfo)
      (namespaces' : List Bytes) (u : S) : Type 0 where
    pub join : Joined r.namespace namespaces namespaces' s
    pub current : ℕ
    pub current_epoch : epoch hght (get_epoch_length rules) ≡ ok current
    pub starts_later : earliest current ≤ r.info.start_epoch
    pub no_exit : r.info.exit_epoch ≡ 0
    pub info_same : r.info ≡ info
    pub info_set : set_rollup_info vm r.namespace r.info s ≡ (ok tt, u)

  joined-Joined :
      (r : RollupRegistration) (namespaces namespaces' : List Bytes) (s : S)
      → joined vm rules hght actor r namespaces s ≡ ok namespaces'
      → Joined r.namespace namespaces namespaces' s
  joined-Joined r namespaces namespaces' s h = elim (Bool-cases (contains namespaces r.namespace)) [
    | inr out ↦ record { case = inl (out, sym (ok-injective (rw out at h))) }
    | inl there ↦
        let (v, passed, end) =
          then_outcome-ok _
            (wrap authorization_failed (authorization_checks vm actor namespaces r.namespace s))
            (rw there at h) in
        let a =
          authorization_checks-Authorized vm rules hght actor r.namespace namespaces s
            (wrap-ok authorization_failed _ passed) in
        record { case = inr (a, sym (ok-injective end)) }
  ]

  create_guards-ok :
      (current : ℕ) (info : RollupInfo)
      → create_guards current info ≡ ok tt
      → (earliest current ≤ info.start_epoch) × (info.exit_epoch ≡ 0)
  create_guards-ok current info h = ground arith

  pub create_rollup-Created :
      (r : RollupRegistration) (namespaces namespaces' : List Bytes) (s u : S) (info : RollupInfo)
      → create_rollup vm rules hght actor r namespaces s ≡ (ok (info, namespaces'), u)
      → Created r namespaces s info namespaces' u
  unfolding create_rollup
  create_rollup-Created r namespaces namespaces' s u info h =
      let (nss, p₁, h₁) = lift-then _ (joined vm rules hght actor r namespaces s) s h in
      let (current, p₂, h₂) = lift-then _ (epoch hght (get_epoch_length rules)) s h₁ in
      let (v, p₃, h₃) = lift-then _ (create_guards current r.info) s h₂ in
      let (set, same) =
        then-pure _
          (wrap_errors unable_to_set_info_create (set_rollup_info vm r.namespace r.info) s) h₃ in
      let (later, none_yet) = create_guards-ok current r.info p₃ in
      record {
        join = rw (ap (λ p. p.1) same) at (joined-Joined r namespaces nss s p₁);
        current = current;
        current_epoch = p₂;
        starts_later = later;
        no_exit = none_yet;
        info_same = ap (λ p. p.0) same;
        info_set = wrapped-ok unable_to_set_info_create _ set;
      }

  -- An update keeps both epochs of the record that it replaces.
  pub record Updated (r : RollupRegistration) (namespaces : List Bytes) (s : S) (info : RollupInfo)
      (namespaces' : List Bytes) (u : S) : Type 0 where
    pub permit : Authorized vm rules hght actor r.namespace namespaces s
    pub registry_same : namespaces ≡ namespaces'
    pub info_new : with_epochs permit.existing.start_epoch permit.existing.exit_epoch r.info ≡ info
    pub info_set : set_rollup_info vm r.namespace info s ≡ (ok tt, u)

  same_info :
      (ns : Bytes) (s : S) (a b : RollupInfo) (o : Option RollupInfo)
      → get_rollup_info vm ns s ≡ ok (some a)
      → get_rollup_info vm ns s ≡ ok o
      → deref o ≡ ok b
      → b ≡ a
  same_info ns s a b none p q h = ground arith
  same_info ns s a b (some c) p q h =
      ok-injective (sym h) ∙ some-injective c a (ok-injective (sym q ∙ p))

  pub update_rollup-Updated :
      (r : RollupRegistration) (namespaces namespaces' : List Bytes) (s u : S) (info : RollupInfo)
      → update_rollup vm rules hght actor r namespaces s ≡ (ok (info, namespaces'), u)
      → Updated r namespaces s info namespaces' u
  unfolding update_rollup
  update_rollup-Updated r namespaces namespaces' s u info h =
      let (v, p₁, h₁) =
        lift-then _
          (wrap authorization_failed_update
            (authorization_checks vm actor namespaces r.namespace s))
          s h in
      let (o, p₂, h₂) =
        lift-then _ (wrap unable_to_get_existing_info (get_rollup_info vm r.namespace s)) s h₁ in
      let (existing, p₃, h₃) = lift-then _ (deref o) s h₂ in
      let new = with_epochs existing.start_epoch existing.exit_epoch r.info in
      let (set, same) =
        then-pure _ (wrap_errors unable_to_set_info_update (set_rollup_info vm r.namespace new) s)
          h₃ in
      let a =
        authorization_checks-Authorized vm rules hght actor r.namespace namespaces s
          (wrap-ok authorization_failed_update _ p₁) in
      let found = wrap-ok unable_to_get_existing_info (get_rollup_info vm r.namespace s) p₂ in
      let kept : existing ≡ a.existing =
        same_info r.namespace s a.existing existing o a.read_info found p₃ in
      record {
        permit = a;
        registry_same = ap (λ p. p.1) same;
        info_new = rw (← kept) (ap (λ p. p.0) same);
        info_set = rw (ap (λ p. p.0) same) at (wrapped-ok unable_to_set_info_update _ set);
      }

  -- An exit keeps the start of the record that it replaces, and ends no earlier than it.
  pub record Exited (r : RollupRegistration) (namespaces : List Bytes) (s : S) (info : RollupInfo)
      (namespaces' : List Bytes) (u : S) : Type 0 where
    pub permit : Authorized vm rules hght actor r.namespace namespaces s
    pub current : ℕ
    pub current_epoch : epoch hght (get_epoch_length rules) ≡ ok current
    pub after_start : permit.existing.start_epoch ≤ r.info.exit_epoch
    pub exits_later : earliest current ≤ r.info.exit_epoch
    pub registry_same : namespaces ≡ namespaces'
    pub info_new : with_epochs permit.existing.start_epoch r.info.exit_epoch r.info ≡ info
    pub info_set : set_rollup_info vm r.namespace info s ≡ (ok tt, u)

  pub exit_rollup-Exited :
      (r : RollupRegistration) (namespaces namespaces' : List Bytes) (s u : S) (info : RollupInfo)
      → exit_rollup vm rules hght actor r namespaces s ≡ (ok (info, namespaces'), u)
      → Exited r namespaces s info namespaces' u
  unfolding exit_rollup
  exit_rollup-Exited r namespaces namespaces' s u info h =
      let (v, p₁, h₁) =
        lift-then _
          (wrap unable_to_set_info_exit (authorization_checks vm actor namespaces r.namespace s)) s
          h in
      let (o, p₂, h₂) =
        lift-then _ (wrap unable_to_get_existing_info (get_rollup_info vm r.namespace s)) s h₁ in
      let (existing, p₃, h₃) = lift-then _ (deref o) s h₂ in
      let (current, p₄, h₄) = lift-then _ (epoch hght (get_epoch_length rules)) s h₃ in
      let (p₅, h₅) =
        raise_if-then _
          (ltb r.info.exit_epoch existing.start_epoch || ltb r.info.exit_epoch (earliest current))
          exit_epoch_not_valid s h₄ in
      let new = with_epochs existing.start_epoch r.info.exit_epoch r.info in
      let (set, same) =
        then-pure _ (wrap_errors unable_to_set_info_exit (set_rollup_info vm r.namespace new) s)
          h₅ in
      let a =
        authorization_checks-Authorized vm rules hght actor r.namespace namespaces s
          (wrap-ok unable_to_set_info_exit _ p₁) in
      let found = wrap-ok unable_to_get_existing_info (get_rollup_info vm r.namespace s) p₂ in
      let kept : existing ≡ a.existing =
        same_info r.namespace s a.existing existing o a.read_info found p₃ in
      record {
        permit = a;
        current = current;
        current_epoch = p₄;
        after_start = rw (← kept) (ground arith);
        exits_later = ground arith;
        registry_same = ap (λ p. p.1) same;
        info_new = rw (← kept) (ap (λ p. p.0) same);
        info_set = rw (ap (λ p. p.0) same) at (wrapped-ok unable_to_set_info_exit _ set);
      }
