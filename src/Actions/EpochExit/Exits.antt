-- ===== src/Actions/EpochExit/Exits.antt =====
-- The exits of one epoch as a list: what the search loops find and what a deletion leaves.
use mathlib.Core.Option.{map as option_map}
use nodekit_seq.Prelude.{
  ℕ, zero, suc, ◌≡◌, refl, ap, sym, true, false, Bool-cases, inl, inr, none, some, Option, List, [],
  ◌∷◌, ◌++◌, Bytes, bytes_eq, bytes_eq→eq, bytes_eq→ne, ne→bytes_eq, bytes_eq_refl, length, arith,
  if◌then◌else◌,
}
use nodekit_seq.Vm.{EpochInfo}
use nodekit_seq.Actions.EpochExit.{exit_index, delete_at, has_exit}

-- No namespace is listed twice.
abbrev pub Once : List EpochInfo → Type 0
Once [] = Unit {0}
Once (e ∷ es) = (has_exit e.namespace es ≡ false) × Once es

-- Every exit names the epoch that it is stored under.
abbrev pub InEpoch : ℕ → List EpochInfo → Type 0
InEpoch d [] = Unit {0}
InEpoch d (e ∷ es) = (e.epoch ≡ d) × InEpoch d es

-- Where a deletion strikes: at the first exit of the namespace.
pub record Struck (ns : Bytes) (es : List EpochInfo) (idx : ℕ) : Type 0 where
  pub pre : List EpochInfo
  pub exit : EpochInfo
  pub post : List EpochInfo
  pub split : es ≡ pre ++ (exit ∷ post)
  pub named : exit.namespace ≡ ns
  pub first : has_exit ns pre ≡ false
  pub left : delete_at idx es ≡ pre ++ post

some-suc :
    (o : Option ℕ) (idx : ℕ) → option_map suc o ≡ some idx → (i : ℕ) × (o ≡ some i) × (idx ≡ suc i)
some-suc none idx h = ground arith
some-suc (some i) idx h = (i, refl, ground arith)

pub exit_index-Struck :
    (ns : Bytes) (es : List EpochInfo) (idx : ℕ) → exit_index ns es ≡ some idx → Struck ns es idx
unfolding exit_index delete_at has_exit
exit_index-Struck ns [] idx h = ground arith
exit_index-Struck ns (e ∷ es) idx h = elim (Bool-cases (bytes_eq ns e.namespace)) [
  | inl same ↦
      let start : zero ≡ idx = ground (arith, (rw same at h)) in
      record {
        pre = [];
        exit = e;
        post = es;
        split = refl;
        named = sym (bytes_eq→eq ns e.namespace same);
        first = refl;
        left = rw (← start) refl;
      }
  | inr other ↦
      let (i, found, next) = some-suc (exit_index ns es) idx (rw other at h) in
      let rest = exit_index-Struck ns es i found in
      record {
        pre = e ∷ rest.pre;
        exit = rest.exit;
        post = rest.post;
        split = ap (◌∷◌ e) rest.split;
        named = rest.named;
        first = rw (other, rest.first);
        left = rw (next, rest.left);
      }
]

pub has_exit-append :
    (ns : Bytes) (a b : List EpochInfo)
    → has_exit ns (a ++ b) ≡ (if has_exit ns a then true else has_exit ns b)
unfolding has_exit
has_exit-append ns [] b = refl
has_exit-append ns (e ∷ a) b = elim (Bool-cases (bytes_eq ns e.namespace)) [
  | inl same ↦ rw same
  | inr other ↦ rw other (has_exit-append ns a b)
]

not_there :
    (ns : Bytes) (e : EpochInfo) (es : List EpochInfo)
    → has_exit ns (e ∷ es) ≡ false
    → (bytes_eq ns e.namespace ≡ false) × (has_exit ns es ≡ false)
unfolding has_exit
not_there ns e es h = elim (Bool-cases (bytes_eq ns e.namespace)) [
  | inl same ↦ cc (rw same at h)
  | inr other ↦ (other, rw other at h)
]

-- A last exit of a namespace that is not listed yet.
pub Once-append :
    (e : EpochInfo) (es : List EpochInfo)
    → Once es
    → has_exit e.namespace es ≡ false
    → Once (es ++ (e ∷ []))
unfolding has_exit
Once-append e [] once h = (refl, tt)
Once-append e (x ∷ es) (fresh, once) h =
    let (other, rest) = not_there e.namespace x es h in
    let apart : bytes_eq x.namespace e.namespace ≡ false =
      ne→bytes_eq x.namespace e.namespace
        (λ p. bytes_eq→ne e.namespace x.namespace other (sym p)) in
    (rw (has_exit-append x.namespace es (e ∷ []), fresh, apart), Once-append e es once rest)

pub InEpoch-append :
    (d : ℕ) (e : EpochInfo) (es : List EpochInfo)
    → InEpoch d es
    → e.epoch ≡ d
    → InEpoch d (es ++ (e ∷ []))
InEpoch-append d e [] all h = (h, tt)
InEpoch-append d e (x ∷ es) (p, all) h = (p, InEpoch-append d e es all h)

not_there_cons :
    (ns : Bytes) (e : EpochInfo) (es : List EpochInfo)
    → bytes_eq ns e.namespace ≡ false
    → has_exit ns es ≡ false
    → has_exit ns (e ∷ es) ≡ false
unfolding has_exit
not_there_cons ns e es other rest = rw (other, rest) refl

has_exit-without :
    (ns : Bytes) (a : List EpochInfo) (x : EpochInfo) (b : List EpochInfo)
    → has_exit ns (a ++ (x ∷ b)) ≡ false
    → has_exit ns (a ++ b) ≡ false
has_exit-without ns [] x b h = (not_there ns x b h).1
has_exit-without ns (e ∷ a) x b h =
    let (other, rest) = not_there ns e (a ++ (x ∷ b)) h in
    not_there_cons ns e (a ++ b) other (has_exit-without ns a x b rest)

pub Once-without :
    (a : List EpochInfo) (x : EpochInfo) (b : List EpochInfo) → Once (a ++ (x ∷ b)) → Once (a ++ b)
Once-without [] x b (fresh, once) = once
Once-without (e ∷ a) x b (fresh, once) =
    (has_exit-without e.namespace a x b fresh, Once-without a x b once)

pub InEpoch-without :
    (d : ℕ) (a : List EpochInfo) (x : EpochInfo) (b : List EpochInfo)
    → InEpoch d (a ++ (x ∷ b))
    → InEpoch d (a ++ b)
InEpoch-without d [] x b (p, all) = all
InEpoch-without d (e ∷ a) x b (p, all) = (p, InEpoch-without d a x b all)

-- The last exit is the one that a deletion finds, and takes away.
pub exit_index-append :
    (e : EpochInfo) (es : List EpochInfo)
    → has_exit e.namespace es ≡ false
    → (exit_index e.namespace (es ++ (e ∷ [])) ≡ some (length es))
      × (delete_at (length es) (es ++ (e ∷ [])) ≡ es)
unfolding exit_index delete_at
exit_index-append e [] h = (rw (bytes_eq_refl e.namespace) refl, refl)
exit_index-append e (x ∷ es) h =
    let (other, rest) = not_there e.namespace x es h in
    let (found, gone) = exit_index-append e es rest in (rw (other, found) refl, ap (◌∷◌ x) gone)
