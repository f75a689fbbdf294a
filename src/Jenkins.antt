-- ===== src/Jenkins.antt =====
-- src/jenkins/mod.rs: the requests to Jenkins and how its answers are read.
use steel_proxy.Common.{
  ℕ, ◌*◌, ◌%◌, ◌^◌, Bool, false, ◌&&◌, Option, none, some, Text, text_eq, codes, show, [], ◌∷◌,
  ◌++◌, Result, ok, err, leb, nat_beq, ◌==◌, if◌then◌else◌,
}
use steel_proxy.Common.Exec.{Exec, lift, ◌>>=◌}
use steel_proxy.Config.Types.{JenkinsConfig}
use steel_proxy.External.{External, Reply, answer, refusal, Request, Response}
use steel_proxy.World.{World, outside_context}

pub data BuildStatus : Type 0 where
  queued running success not_found : BuildStatus
  failure : (reason : Text) → BuildStatus

-- `StatusCode::is_success`
abbrev pub is_success : ℕ → Bool
is_success status = leb 200 status && leb status 299

abbrev text_or : Option Text → Text → Text
text_or none d = d
text_or (some t) d = t

-- unwrap_or_default
abbrev pub body_or_empty : Reply Text → Text
body_or_empty (answer t) = t
body_or_empty (refusal e) = []

-- The match on the text of `result`.
unfoldable pub status_of_result : Text → BuildStatus
status_of_result result =
    if result == codes "SUCCESS"
    then success
    else if result == codes "FAILURE"
    then failure result
    else if result == codes "ABORTED"
    then failure result
    else if result == codes "UNSTABLE"
    then failure result
    else if result == []
    then queued
    else failure (codes "Unknown result: " ++ result)

abbrev bind_option {ℓ κ} : {A : Type ℓ} {B : Type κ} → Option A → (A → Option B) → Option B
bind_option none f = none
bind_option (some a) f = f a

abbrev true_or_false : Option Bool → Bool
true_or_false none = false
true_or_false (some b) = b

module _ (X : External) (config : JenkinsConfig) where
  abbrev pub get_request : Text → Request
  get_request url = record {
    url = url;
    headers = [];
    basic_auth = some (config.username, config.api_token);
    form = [];
  }

  unfoldable pub trigger_request : ℕ → Text → Request
  trigger_request pr_number commit_hash_short = record {
    url = config.url ++ (codes "/job/" ++ (config.job_name ++ codes "/buildWithParameters"));
    headers = [];
    basic_auth = some (config.username, config.api_token);
    form = (codes "PR_NUMBER", show pr_number) ∷ (codes "COMMIT_HASH", commit_hash_short) ∷ [];
  }

  -- What `trigger_build` makes of a response: the queue URL, or the error.
  unfoldable pub queue_url_of : Response X.Json → Result Text
  queue_url_of r =
      if is_success r.status
      then ok (text_or r.location (config.url ++ codes "/queue/"))
      else err (
          codes "Jenkins returned error: "
          ++ (X.status_display r.status ++ (codes " " ++ body_or_empty r.body)))

  unfoldable pub trigger_build : ℕ → Text → Exec (World X.E) Text
  trigger_build pr_number commit_hash_short = do
    response ←
        outside_context (codes "Failed to trigger Jenkins build")
          (X.http_post (trigger_request pr_number commit_hash_short))
    lift (queue_url_of response)

  abbrev pub json_url : X.Json → Option Text
  json_url json =
      bind_option (X.json_get (codes "executable") json)
        λ executable. bind_option (X.json_get (codes "url") executable) X.as_str

  abbrev pub url_in : Reply X.Json → Result (Option Text)
  url_in (answer json) = ok (json_url json)
  url_in (refusal e) = err e

  -- The build's URL, once the queue item has one.
  unfoldable pub build_url_of : Response X.Json → Result (Option Text)
  build_url_of r = if is_success r.status then url_in r.json else ok none

  unfoldable pub get_build_url : Text → Exec (World X.E) (Option Text)
  get_build_url queue_url = do
    response ←
        outside_context (codes "Failed to query queue item")
          (X.http_get (get_request (queue_url ++ codes "api/json")))
    lift (build_url_of response)

  unfoldable pub status_of_json : X.Json → BuildStatus
  unfolding status_of_result
  status_of_json json =
      if true_or_false (bind_option (X.json_get (codes "building") json) X.as_bool)
      then running
      else status_of_result (text_or (bind_option (X.json_get (codes "result") json) X.as_str) [])

  abbrev pub status_in : Reply X.Json → Result BuildStatus
  status_in (answer json) = ok (status_of_json json)
  status_in (refusal e) = err e

  unfoldable pub build_status_of : Response X.Json → Result BuildStatus
  build_status_of r =
      if nat_beq r.status 404
      then ok not_found
      else if is_success r.status
      then status_in r.json
      else err (codes "Jenkins returned error: " ++ X.status_display r.status)

  unfoldable pub get_build_status : Text → Exec (World X.E) BuildStatus
  get_build_status build_url = do
    response ←
        outside_context (codes "Failed to query build status")
          (X.http_get (get_request (build_url ++ codes "api/json")))
    lift (build_status_of response)

-- `build_timeout`, in seconds; the product of two u64 wraps in a release build.
unfoldable pub build_timeout_secs : JenkinsConfig → ℕ
build_timeout_secs config = config.build_timeout_minutes * 60 % 2 ^ 64
