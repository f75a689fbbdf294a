-- ===== src/K8s/Rounds.antt =====
-- A round of the lifecycle loop over the snapshot of all instances.
use steel_proxy.Common.{
  ℕ, nat_eq, nat_beq_iff, ◌≡◌, ◌≢◌, refl, sym, subst, ap, ◌∙◌, some, false, List, [], ◌∷◌, Result,
  ok, arith, All, Option-cases, inl, inr,
}
use steel_proxy.Common.Map.{
  lookup, contains_key, UniqueKeys, insert-UniqueKeys, remove-UniqueKeys, All-lookup,
}
use steel_proxy.Config.Types.{KubernetesConfig, JenkinsConfig}
use steel_proxy.External.{External}
use steel_proxy.World.{World}
use steel_proxy.K8s.Instance.{InstanceState, ready, building, PrInstance}
use steel_proxy.K8s.Instances.{
  update_instance_state, remove_instance, get_instances_snapshot, register_backend,
  unregister_backend,
}
use steel_proxy.K8s.Lifecycle.{handle_instance, handle_all, lifecycle_round}
use steel_proxy.K8s.Machine.{
  Outcome, stays, goes, gone, Edge, shared, settle, Overdue, enter, leave,
}
use steel_proxy.K8s.Follows.{Follows}
use steel_proxy.K8s.Follows.Rounds.{handle_instance-Follows}
use steel_proxy.K8s.Consistency.{IsConsistent}
use steel_proxy.K8s.Consistency.Steps.{after, settle-IsConsistent, lookup-settle}

update-UniqueKeys :
    {E : Type 0} (n : ℕ) (s : InstanceState) (w : World E)
    → UniqueKeys w.instances
    → UniqueKeys (update_instance_state n s w).instances
unfolding update_instance_state
update-UniqueKeys n s w u = elim (Option-cases (lookup n w.instances)) [
  | inl absent ↦ rw absent u
  | inr (i, there) ↦ rw there (insert-UniqueKeys n _ w.instances u)
]

leave-UniqueKeys :
    (n : ℕ) (s : InstanceState) (w : World (Unit {0}))
    → UniqueKeys w.instances
    → UniqueKeys (leave n s w).instances
unfolding leave unregister_backend
leave-UniqueKeys n (ready d a port since until) w u = u
leave-UniqueKeys n _ w u = u

enter-UniqueKeys :
    (n : ℕ) (s : InstanceState) (w : World (Unit {0}))
    → UniqueKeys w.instances
    → UniqueKeys (enter n s w).instances
unfolding enter register_backend
enter-UniqueKeys n (ready d a port since until) w u =
    update-UniqueKeys n _ (register_backend n a port w) u
enter-UniqueKeys n (building t url) w u = update-UniqueKeys n _ w u
enter-UniqueKeys n _ w u = update-UniqueKeys n _ w u

settle-UniqueKeys :
    (n : ℕ) (s : InstanceState) (o : Outcome) (w : World (Unit {0}))
    → UniqueKeys w.instances
    → UniqueKeys (settle n s o w).instances
unfolding settle remove_instance
settle-UniqueKeys n s stays w u = u
settle-UniqueKeys n s (goes s') w u = enter-UniqueKeys n s' (leave n s w) (leave-UniqueKeys n s w u)
settle-UniqueKeys n s gone w u = remove-UniqueKeys n w.instances u

-- The invariant of the two tables.
pub record IsValid {E : Type 0} (w : World E) : Type 0 where
  pub unique : UniqueKeys w.instances
  pub consistent : IsConsistent w

-- The entries of a snapshot that the table still holds.
abbrev pub Current : {E : Type 0} → World E → List (ℕ × PrInstance) → Type 0
Current w = All (λ (x : ℕ × PrInstance). lookup x.0 w.instances ≡ some x.1)

module _ (X : External) (jenkins : JenkinsConfig) (config : KubernetesConfig) where
  -- What one handler does to the tables.
  pub record Handled (n : ℕ) (i : PrInstance) (w : World X.E) (w' : World X.E) : Type 0 where
    pub valid : IsValid w → IsValid w'
    pub outcome : Outcome
    pub edge : Edge n i.commit_hash_short i.state outcome
    pub own : lookup n w'.instances ≡ after outcome (some i)
    pub others : (j : ℕ) → n ≢ j → lookup j w'.instances ≡ lookup j w.instances

  pub handled :
      (n : ℕ) (i : PrInstance) (w : World X.E)
      → lookup n w.instances ≡ some i
      → Handled n i w (handle_instance X jenkins config n i w).1
  handled n i w there = record {
    valid = λ v. record {
      unique =
          subst (λ x. UniqueKeys x.instances) (sym f.effect)
            (settle-UniqueKeys n i.state f.outcome (shared w) v.unique);
      consistent = record {
        backed =
            (subst IsConsistent (sym f.effect) (
              settle-IsConsistent n i (shared w) f.edge there refl
                (record { backed = v.consistent.backed }))).backed;
      };
    };
    outcome = f.outcome;
    edge = f.edge;
    own =
        ap (λ x. lookup n x.instances) f.effect
        ∙ lookup-settle n n (shared w) f.edge
        ∙ rw there (ground (arith, nat_beq_iff n n));
    others = λ j apart.
        ap (λ x. lookup j x.instances) f.effect
        ∙ lookup-settle n j (shared w) f.edge
        ∙ ground (arith, nat_beq_iff n j);
  }
    where
      f :
          Follows
            (Overdue jenkins i.state (X.now w.ext).0)
            n
            i.commit_hash_short
            i.state
            (shared w)
            (handle_instance X jenkins config n i w)
      f = handle_instance-Follows X jenkins config n i w

  -- An entry of the snapshot other than the one that was handled is as current as before.
  pub Current-others :
      (n : ℕ) (i : PrInstance) (w w' : World X.E) (rest : List (ℕ × PrInstance))
      → Handled n i w w'
      → contains_key n rest ≡ false
      → Current w rest
      → Current w' rest
  unfolding contains_key
  Current-others n i w w' [] h absent c = tt
  Current-others n i w w' ((j, k) ∷ rest) h absent c = (
    h.others j (ground (arith, nat_beq_iff j n)) ∙ c.0,
    Current-others n i w w' rest h (ground arith) c.1,
  )

  -- What a round over (the rest of) a snapshot does.
  pub record RoundDone (snapshot : List (ℕ × PrInstance)) (w : World X.E)
      (run : Result (Unit {0}) × World X.E) : Type 0 where
    pub completes : run.0 ≡ ok tt
    pub valid : IsValid w → IsValid run.1
    pub moved :
        All
          (λ (x : ℕ × PrInstance).
            (o : Outcome) × Edge x.0 x.1.commit_hash_short x.1.state o
            × (lookup x.0 run.1.instances ≡ after o (some x.1)))
          snapshot
    pub absent :
        (j : ℕ) → contains_key j snapshot ≡ false → lookup j run.1.instances ≡ lookup j w.instances

  handle_all-RoundDone :
      (snapshot : List (ℕ × PrInstance)) (w : World X.E)
      → UniqueKeys snapshot
      → Current w snapshot
      → RoundDone snapshot w (handle_all X jenkins config snapshot w)
  unfolding handle_all contains_key
  handle_all-RoundDone [] w u c = record {
    completes = refl;
    valid = λ v. v;
    moved = tt;
    absent = λ j h. refl;
  }
  handle_all-RoundDone ((n, i) ∷ rest) w u c = first_then (handled n i w c.0) (
      handle_all-RoundDone rest (handle_instance X jenkins config n i w).1 u.1
        (Current-others n i w _ rest (handled n i w c.0) u.0 c.1))
    where
      w' : World X.E
      w' = (handle_instance X jenkins config n i w).1

      first_then :
          Handled n i w w'
          → RoundDone rest w' (handle_all X jenkins config rest w')
          → RoundDone ((n, i) ∷ rest) w (handle_all X jenkins config ((n, i) ∷ rest) w)
      first_then h later = rw (handle_instance-Follows X jenkins config n i w).completes (record {
        completes = later.completes;
        valid = λ v. later.valid (h.valid v);
        moved = ((h.outcome, h.edge, later.absent n u.0 ∙ h.own), later.moved);
        absent =
            λ j e. later.absent j (ground arith) ∙ h.others j (ground (arith, nat_beq_iff n j));
      })

  -- A round of the loop completes, keeps the tables valid, takes every instance along one edge of
  -- the state machine, and makes no new instance.
  pub lifecycle_round-RoundDone :
      (w : World X.E) → IsValid w → RoundDone w.instances w (lifecycle_round X jenkins config w)
  unfolding lifecycle_round get_instances_snapshot
  lifecycle_round-RoundDone w v =
      handle_all-RoundDone w.instances w v.unique (All-lookup w.instances v.unique)
