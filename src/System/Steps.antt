-- ===== src/System/Steps.antt =====
-- What a task can do to the shared state between two points at which another may run: one lock of
-- src/proxy.rs or src/k8s/mod.rs, one SQL statement, or one call of something outside. A path of
-- such steps is what any interleaving of the tasks does.
use steel_proxy.Common.{ℕ, Text, Option-cases, inl, inr}
use steel_proxy.Common.Exec.{modify}
use steel_proxy.Common.Walks.{Preorder, Walks, walks_rules}
use steel_proxy.External.{External, Reply}
use steel_proxy.World.{World, outside, outside_fallible, outside_context, broadcast, query}
use steel_proxy.Db.Table.{Table, Values}
use steel_proxy.Db.Table
use steel_proxy.K8s.Instance.{PrInstance, InstanceState}
use steel_proxy.K8s.Instances.{
  insert_instance, update_instance_state, remove_instance, register_backend, unregister_backend,
}
use steel_proxy.Proxy.Server.{get_target_server, set_target_server, next_client}

abbrev pub with_builds : {E : Type 0} → World E → Table → World E
with_builds w t = record w { builds = t }

pub data Step {E : Type 0} : World E → World E → Type 0 where
  calls : (w : World E) (e : E) → Step w (record w { ext = e })
  announces : (w : World E) (m : Text) → Step w (broadcast m w).1
  numbers : (w : World E) → Step w (next_client w).1
  switches : (w : World E) (uuid : ℕ) (name : Text) → Step w (set_target_server uuid name w)
  takes : (w : World E) (uuid : ℕ) → Step w (get_target_server uuid w).1
  inserts : (w : World E) (n : ℕ) (i : PrInstance) → Step w (insert_instance n i w)
  updates : (w : World E) (n : ℕ) (s : InstanceState) → Step w (update_instance_state n s w)
  removes : (w : World E) (n : ℕ) → Step w (remove_instance n w)
  registers :
      (w : World E) (n : ℕ) (address : Text) (port : ℕ) → Step w (register_backend n address port w)
  unregisters : (w : World E) (n : ℕ) → Step w (unregister_backend n w)
  stores :
      (w : World E) (now : Text) (id n : ℕ) (v : Values)
      → Step w (with_builds w (Table.upsert now id n v w.builds))
  forgets : (w : World E) (n : ℕ) → Step w (with_builds w (Table.delete n w.builds))

pub data Reaches {E : Type 0} : World E → World E → Type 0 where
  arrived : (w : World E) → Reaches w w
  moves : (w u v : World E) → Step w u → Reaches u v → Reaches w v

module _ {E : Type 0} where
  pub step : (w u : World E) → Step w u → Reaches w u
  step w u s = moves w u u s (arrived u)

  outside_at : (w : World E) (e : E) → Reaches w (record w { ext = e })
  outside_at w e = step w _ (calls w e)

  joined : (w u v : World E) → Reaches w u → Reaches u v → Reaches w v
  joined w _ v (arrived _) q = q
  joined w u v (moves _ x _ s p) q = moves w x v s (joined x u v p q)

  pub Reaches-Preorder : Preorder (Reaches {E = E})
  Reaches-Preorder = record { stays = arrived; joins = joined }

module _ {ℓ} {E : Type 0} {A : Type ℓ} where
  pub outside-Reaches : (call : E → A × E) → Walks Reaches (outside call)
  unfolding outside
  outside-Reaches call = record { at = λ w. outside_at w _ }

  pub outside_fallible-Reaches : (call : E → Reply A × E) → Walks Reaches (outside_fallible call)
  unfolding outside_fallible
  outside_fallible-Reaches call = record { at = λ w. outside_at w _ }

  pub outside_context-Reaches :
      (c : Text) (call : E → Reply A × E) → Walks Reaches (outside_context c call)
  unfolding outside_context
  outside_context-Reaches c call = record { at = λ w. outside_at w _ }

-- A statement of which the effect on the table is a step.
pub query-Reaches {ℓ} :
    (X : External) {A : Type ℓ} (f : Table → A × Table)
    → ((w : World X.E) → Reaches w (with_builds w (f w.builds).1))
    → Walks Reaches (query X f)
unfolding query
query-Reaches X f h = record {
  at = λ w. elim (Option-cases (X.query_error w.ext).0) [
    | inl fine ↦ rw fine (moves w _ _ (calls w _) (h _))
    | inr (m, broken) ↦ rw broken (step w _ (calls w _))
  ];
}

module _ {E : Type 0} where
  pub broadcast-Reaches : (m : Text) → Walks Reaches (broadcast {E = E} m)
  unfolding broadcast
  broadcast-Reaches m = record { at = λ w. step w _ (announces w m) }

  pub update-Reaches :
      (n : ℕ) (s : InstanceState) → Walks {T = World E} Reaches (modify (update_instance_state n s))
  update-Reaches n s = record { at = λ w. step w _ (updates w n s) }

  pub insert-Reaches :
      (n : ℕ) (i : PrInstance) → Walks {T = World E} Reaches (modify (insert_instance n i))
  insert-Reaches n i = record { at = λ w. step w _ (inserts w n i) }

  pub remove-Reaches : (n : ℕ) → Walks {T = World E} Reaches (modify (remove_instance n))
  remove-Reaches n = record { at = λ w. step w _ (removes w n) }

  pub register-Reaches :
      (n : ℕ) (a : Text) (port : ℕ)
      → Walks {T = World E} Reaches (modify (register_backend n a port))
  register-Reaches n a port = record { at = λ w. step w _ (registers w n a port) }

  pub unregister-Reaches : (n : ℕ) → Walks {T = World E} Reaches (modify (unregister_backend n))
  unregister-Reaches n = record { at = λ w. step w _ (unregisters w n) }

pub ruleset step_rules = (
  walks_rules, Reaches-Preorder, outside-Reaches, outside_fallible-Reaches, outside_context-Reaches,
  broadcast-Reaches, update-Reaches, insert-Reaches, remove-Reaches, register-Reaches,
  unregister-Reaches,
)
