-- ===== src/K8s/Consistency.antt =====
-- An invariant that links the two tables of the proxy: a PR's dynamic backend is registered
-- exactly while its instance is ready, with the address and the port of that state.
pub mod Steps
use steel_proxy.Common.{
  ℕ, nat_eq, Text, text_eq, text_beq, text_beq_iff, append_cancel_left, nat_beq, nat_beq_iff,
  show-injective, codes, ◌≡◌, refl, ap, Option, none, some, Bool, Bool-cases, inl, inr, arith, ◌==◌,
  if◌then◌else◌, Option-cases,
}
use steel_proxy.Common.Map.{lookup, lookup-insert, lookup-remove, insert}
use steel_proxy.Config.Types.{BackendServer}
use steel_proxy.World.{World}
use steel_proxy.K8s.Instance.{
  InstanceState, building, deploying, starting, ready, shutting_down, failed, PrInstance,
}
use steel_proxy.K8s.Instances.{
  backend_name, pr_backend, update_instance_state, insert_instance, remove_instance,
  register_backend, unregister_backend,
}

-- The backend that a state has.
abbrev pub backend_of_state : ℕ → InstanceState → Option BackendServer
backend_of_state n (ready d a port since until) = some (pr_backend n a port)
backend_of_state n (building t url) = none
backend_of_state n (deploying tag) = none
backend_of_state n (starting d a port t) = none
backend_of_state n (shutting_down d) = none
backend_of_state n (failed reason) = none

abbrev pub backend_of : ℕ → Option PrInstance → Option BackendServer
backend_of n none = none
backend_of n (some i) = backend_of_state n i.state

pub record IsConsistent {E : Type 0} (w : World E) : Type 0 where
  pub backed :
      (n : ℕ)
      → lookup (backend_name n) w.backends.dynamic_backends ≡ backend_of n (lookup n w.instances)

-- Different PRs have different backend names.
pub backend_name-injective : (m n : ℕ) → backend_name m ≡ backend_name n → m ≡ n
unfolding backend_name
backend_name-injective m n e = show-injective m n (append_cancel_left (codes "pr-") _ _ e)

pub beq-backend_name : (m n : ℕ) → text_beq (backend_name m) (backend_name n) ≡ nat_beq m n
beq-backend_name m n = elim (Bool-cases (nat_beq m n)) [
  | inl same ↦ rw (same, (nat_beq_iff m n).0 same) ((text_beq_iff (backend_name n) _).1 refl)
  | inr apart ↦
      ground (arith, text_beq_iff (backend_name m) (backend_name n), backend_name-injective m n)
]

abbrev pub with_state : InstanceState → Option PrInstance → Option PrInstance
with_state s none = none
with_state s (some i) = some (record i { state = s })

pub lookup-update :
    {E : Type 0} (n j : ℕ) (s : InstanceState) (w : World E)
    → lookup j (update_instance_state n s w).instances
      ≡ (if nat_beq n j then with_state s (lookup n w.instances) else lookup j w.instances)
unfolding update_instance_state
lookup-update n j s w = elim (Option-cases (lookup n w.instances)) [
  | inl absent ↦ rw absent (ground (arith, absent))
  | inr (i, there) ↦ rw (there, lookup-insert)
]

pub backends-update :
    {E : Type 0} (n : ℕ) (s : InstanceState) (w : World E)
    → (update_instance_state n s w).backends ≡ w.backends
unfolding update_instance_state
backends-update n s w = elim (Option-cases (lookup n w.instances)) [
  | inl absent ↦ rw absent
  | inr (i, there) ↦ rw there
]
