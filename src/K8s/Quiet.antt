-- ===== src/K8s/Quiet.antt =====
-- The calls of the Kubernetes API and of Jenkins, and the state of the proxy (src/k8s/mod.rs,
-- src/jenkins/mod.rs).
use steel_proxy.Common.{
  ℕ, Bool, true, false, Option, none, some, Text, Result, nat_beq, if◌then◌else◌,
}
use steel_proxy.Config.Types.{KubernetesConfig, JenkinsConfig}
use steel_proxy.External.{
  External, KubeReply, done, api_error, other_error, Service, Response, Reply, answer, refusal,
}
use steel_proxy.World.Quiet.{IsReturned, value, error, Quiet, quiet_rules, context-IsReturned}
use steel_proxy.Jenkins
use steel_proxy.K8s.Manager

kube_result-IsReturned {ℓ} : {A : Type ℓ} (r : KubeReply A) → IsReturned (Manager.kube_result r)
kube_result-IsReturned (done a) = value a
kube_result-IsReturned (api_error code e) = error e
kube_result-IsReturned (other_error e) = error e

if-IsReturned {ℓ} :
    {A : Type ℓ} (b : Bool) (r s : Result A)
    → IsReturned r
    → IsReturned s
    → IsReturned (if b then r else s)
if-IsReturned true r s hr hs = hr
if-IsReturned false r s hr hs = hs

deleted-IsReturned : (r : KubeReply (Unit {0})) → IsReturned (Manager.deleted r)
deleted-IsReturned (done a) = value tt
deleted-IsReturned (api_error code e) = if-IsReturned (nat_beq code 404) _ _ (value tt) (error e)
deleted-IsReturned (other_error e) = error e

ruleset returned_rules =
    (value, error, kube_result-IsReturned, deleted-IsReturned, if-IsReturned, context-IsReturned)

module _ (X : External) (config : KubernetesConfig) where
  client-Quiet : Quiet (Manager.client X config)
  unfolding Manager.client
  client-Quiet = search quiet_rules

  wait_after_delete-Quiet :
      (r : KubeReply (Unit {0})) → Quiet (Manager.wait_after_delete X config r)
  unfolding Manager.wait_after_delete
  wait_after_delete-Quiet (done a) = search quiet_rules
  wait_after_delete-Quiet (api_error code e) = search quiet_rules
  wait_after_delete-Quiet (other_error e) = search quiet_rules

  pub create_deployment-Quiet :
      (n : ℕ) (tag : Text) → Quiet (Manager.create_deployment X config n tag)
  unfolding Manager.create_deployment
  create_deployment-Quiet n tag =
      search (quiet_rules, returned_rules, client-Quiet, wait_after_delete-Quiet) depth 12

  or_no_node_port-IsReturned : (o : Option ℕ) → IsReturned (Manager.or_no_node_port X config o)
  or_no_node_port-IsReturned none = error _
  or_no_node_port-IsReturned (some port) = value _

  pub create_service-Quiet : (n : ℕ) → Quiet (Manager.create_service X config n)
  unfolding Manager.create_service
  create_service-Quiet n =
      search (quiet_rules, returned_rules, client-Quiet, or_no_node_port-IsReturned) depth 12

  pub delete_instance-Quiet : (n : ℕ) → Quiet (Manager.delete_instance X config n)
  unfolding Manager.delete_instance
  delete_instance-Quiet n = search (quiet_rules, returned_rules, client-Quiet) depth 12

  pub is_deployment_ready-Quiet : (name : Text) → Quiet (Manager.is_deployment_ready X config name)
  unfolding Manager.is_deployment_ready
  is_deployment_ready-Quiet name = search (quiet_rules, returned_rules, client-Quiet) depth 12

  service_info-IsReturned : (r : KubeReply Service) → IsReturned (Manager.service_info X config r)
  service_info-IsReturned (done svc) = value _
  service_info-IsReturned (api_error code e) =
      if-IsReturned (nat_beq code 404) _ _ (value _) (error e)
  service_info-IsReturned (other_error e) = error e

  pub get_service_info-Quiet : (n : ℕ) → Quiet (Manager.get_service_info X config n)
  unfolding Manager.get_service_info
  get_service_info-Quiet n = search (quiet_rules, client-Quiet, service_info-IsReturned) depth 12

module _ (X : External) (jenkins : JenkinsConfig) where
  url_in-IsReturned : (r : Reply X.Json) → IsReturned (Jenkins.url_in X jenkins r)
  url_in-IsReturned (answer json) = value _
  url_in-IsReturned (refusal e) = error e

  build_url_of-IsReturned : (r : Response X.Json) → IsReturned (Jenkins.build_url_of X jenkins r)
  unfolding Jenkins.build_url_of
  build_url_of-IsReturned r =
      if-IsReturned (Jenkins.is_success r.status) _ _ (url_in-IsReturned r.json) (value none)

  pub get_build_url-Quiet : (url : Text) → Quiet (Jenkins.get_build_url X jenkins url)
  unfolding Jenkins.get_build_url
  get_build_url-Quiet url = search (quiet_rules, build_url_of-IsReturned) depth 8

  status_in-IsReturned : (r : Reply X.Json) → IsReturned (Jenkins.status_in X jenkins r)
  status_in-IsReturned (answer json) = value _
  status_in-IsReturned (refusal e) = error e

  build_status_of-IsReturned :
      (r : Response X.Json) → IsReturned (Jenkins.build_status_of X jenkins r)
  unfolding Jenkins.build_status_of
  build_status_of-IsReturned r =
      if-IsReturned (nat_beq r.status 404) _ _ (value _)
        (if-IsReturned (Jenkins.is_success r.status) _ _ (status_in-IsReturned r.json) (error _))

  pub get_build_status-Quiet : (url : Text) → Quiet (Jenkins.get_build_status X jenkins url)
  unfolding Jenkins.get_build_status
  get_build_status-Quiet url = search (quiet_rules, build_status_of-IsReturned) depth 8
