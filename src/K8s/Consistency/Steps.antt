-- ===== src/K8s/Consistency/Steps.antt =====
-- The steps of the state machine, and the link between instances and backends.
use steel_proxy.Common.{
  ℕ, nat_eq, Text, text_eq, nat_beq, nat_beq_iff, ◌≡◌, refl, ap, Option, none, some, arith,
  if◌then◌else◌,
}
use steel_proxy.Common.Map.{lookup, lookup-insert, lookup-remove}
use steel_proxy.World.{World}
use steel_proxy.Proxy.Backends.{add_dynamic, remove_dynamic}
use steel_proxy.K8s.Instance.{InstanceState, ready, shutting_down, PrInstance}
use steel_proxy.K8s.Instances.{
  backend_name, pr_backend, update_instance_state, remove_instance, register_backend,
  unregister_backend,
}
use steel_proxy.K8s.Machine.{
  Outcome, stays, goes, gone, Edge, build_runs, build_done, build_fails, deployed, deploy_fails,
  pod_starts, pod_ready, pod_timeout, serves, expires, cleaned, dropped, settle,
}
use steel_proxy.K8s.Consistency.{
  IsConsistent, backend_of_state, beq-backend_name, with_state, lookup-update, backends-update,
}

-- The instance that an outcome leaves.
abbrev pub after : Outcome → Option PrInstance → Option PrInstance
after stays o = o
after (goes s) o = with_state s o
after gone o = none

abbrev W : Type 0
W = World (Unit {0})

-- A move between two states without a backend.
plain_move :
    (n : ℕ) (s' : InstanceState) (i : PrInstance) (w : W)
    → lookup n w.instances ≡ some i
    → backend_of_state n i.state ≡ none
    → backend_of_state n s' ≡ none
    → IsConsistent w
    → IsConsistent (update_instance_state n s' w)
plain_move n s' i w there before after' c = record {
  backed = λ j.
      rw (backends-update n s' w, lookup-update n j s' w)
        (ground (arith, c.backed j, nat_beq_iff n j, there));
}

-- The other tables after the registration of a backend and its end.
lookup-register :
    (n : ℕ) (a : Text) (port j : ℕ) (w : W)
    → lookup (backend_name j) (register_backend n a port w).backends.dynamic_backends ≡ (
        if nat_beq n j
        then some (pr_backend n a port)
        else lookup (backend_name j) w.backends.dynamic_backends)
unfolding register_backend add_dynamic
lookup-register n a port j w = rw (lookup-insert, beq-backend_name)

lookup-unregister :
    (n j : ℕ) (w : W)
    → lookup (backend_name j) (unregister_backend n w).backends.dynamic_backends
      ≡ (if nat_beq n j then none else lookup (backend_name j) w.backends.dynamic_backends)
unfolding unregister_backend remove_dynamic
lookup-unregister n j w = rw (lookup-remove, beq-backend_name)

instances-register :
    (n : ℕ) (a : Text) (port : ℕ) (w : W) → (register_backend n a port w).instances ≡ w.instances
unfolding register_backend
instances-register n a port w = refl

instances-unregister : (n : ℕ) (w : W) → (unregister_backend n w).instances ≡ w.instances
unfolding unregister_backend
instances-unregister n w = refl

up_move :
    (n : ℕ) (d a : Text) (port since until : ℕ) (i : PrInstance) (w : W)
    → lookup n w.instances ≡ some i
    → IsConsistent w
    → IsConsistent
        (update_instance_state n (ready d a port since until) (register_backend n a port w))
up_move n d a port since until i w there c = record {
  backed = λ j.
      rw
        (
          backends-update n (ready d a port since until) (register_backend n a port w),
          lookup-update n j (ready d a port since until) (register_backend n a port w),
          lookup-register n a port j w,
          instances-register n a port w,
          there,
        )
        (ground (arith, c.backed j, nat_beq_iff n j));
}

down_move :
    (n : ℕ) (d : Text) (i : PrInstance) (w : W)
    → lookup n w.instances ≡ some i
    → IsConsistent w
    → IsConsistent (update_instance_state n (shutting_down d) (unregister_backend n w))
down_move n d i w there c = record {
  backed = λ j.
      rw
        (
          backends-update n (shutting_down d) (unregister_backend n w),
          lookup-update n j (shutting_down d) (unregister_backend n w),
          lookup-unregister n j w,
          instances-unregister n w,
          there,
        )
        (ground (arith, c.backed j, nat_beq_iff n j));
}

drop_move :
    (n : ℕ) (i : PrInstance) (w : W)
    → lookup n w.instances ≡ some i
    → backend_of_state n i.state ≡ none
    → IsConsistent w
    → IsConsistent (remove_instance n w)
unfolding remove_instance
drop_move n i w there plain c = record {
  backed = λ j. rw lookup-remove (ground (arith, c.backed j, nat_beq_iff n j, there));
}

pub settle-IsConsistent :
    (n : ℕ) (i : PrInstance) {s : InstanceState} {o : Outcome} (w : W)
    → Edge n i.commit_hash_short s o
    → lookup n w.instances ≡ some i
    → i.state ≡ s
    → IsConsistent w
    → IsConsistent (settle n s o w)
unfolding settle
settle-IsConsistent n i w (build_runs t url) there e c = c
settle-IsConsistent n i w (build_done t url) there e c =
    plain_move n _ i w there (ap (backend_of_state n) e) refl c
settle-IsConsistent n i w (build_fails t url reason) there e c =
    plain_move n _ i w there (ap (backend_of_state n) e) refl c
settle-IsConsistent n i w (deployed tag address port t) there e c =
    plain_move n _ i w there (ap (backend_of_state n) e) refl c
settle-IsConsistent n i w (deploy_fails tag reason) there e c =
    plain_move n _ i w there (ap (backend_of_state n) e) refl c
settle-IsConsistent n i w (pod_starts d a port t) there e c = c
settle-IsConsistent n i w (pod_ready d a port t since until) there e c =
    up_move n d a port since until i w there c
settle-IsConsistent n i w (pod_timeout d a port t) there e c =
    plain_move n _ i w there (ap (backend_of_state n) e) refl c
settle-IsConsistent n i w (serves d a port since until) there e c = c
settle-IsConsistent n i w (expires d a port since until) there e c = down_move n d i w there c
settle-IsConsistent n i w (cleaned d) there e c =
    drop_move n i w there (ap (backend_of_state n) e) c
settle-IsConsistent n i w (dropped reason) there e c =
    drop_move n i w there (ap (backend_of_state n) e) c

-- An edge leaves the other instances as they are.
pub lookup-settle :
    (n j : ℕ) {short : Text} {s : InstanceState} {o : Outcome} (w : W)
    → Edge n short s o
    → lookup j (settle n s o w).instances
      ≡ (if nat_beq n j then after o (lookup n w.instances) else lookup j w.instances)
unfolding settle remove_instance register_backend unregister_backend
lookup-settle n j w (build_runs t url) = ground (arith, nat_beq_iff n j)
lookup-settle n j w (build_done t url) = lookup-update n j _ w
lookup-settle n j w (build_fails t url reason) = lookup-update n j _ w
lookup-settle n j w (deployed tag address port t) = lookup-update n j _ w
lookup-settle n j w (deploy_fails tag reason) = lookup-update n j _ w
lookup-settle n j w (pod_starts d a port t) = ground (arith, nat_beq_iff n j)
lookup-settle n j w (pod_ready d a port t since until) =
    lookup-update n j _ (register_backend n a port w)
lookup-settle n j w (pod_timeout d a port t) = lookup-update n j _ w
lookup-settle n j w (serves d a port since until) = ground (arith, nat_beq_iff n j)
lookup-settle n j w (expires d a port since until) = lookup-update n j _ (unregister_backend n w)
lookup-settle n j w (cleaned d) = lookup-remove n j w.instances
lookup-settle n j w (dropped reason) = lookup-remove n j w.instances
