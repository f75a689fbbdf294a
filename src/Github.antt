-- ===== src/Github.antt =====
-- src/github/mod.rs: the head commit of a pull request.
use steel_proxy.Common.{
  ℕ, Option, none, some, Text, codes, show, List, [], ◌∷◌, ◌++◌, Result, ok, err, take,
  if◌then◌else◌,
}
use steel_proxy.Common.Exec.{Exec, lift, ◌>>=◌}
use steel_proxy.Config.Types.{GitHubConfig}
use steel_proxy.External.{External, Reply, answer, refusal, Request, Response}
use steel_proxy.World.{World, outside_context}
use steel_proxy.Jenkins.{is_success, body_or_empty}

abbrev auth_header : Option Text → List (Text × Text)
auth_header none = []
auth_header (some token) = (codes "Authorization", codes "Bearer " ++ token) ∷ []

unfoldable pub pr_request : GitHubConfig → ℕ → Request
pr_request config pr_number = record {
  url =
      codes "https://api.github.com/repos/"
      ++ (config.owner ++ (codes "/" ++ (config.repo ++ (codes "/pulls/" ++ show pr_number))));
  headers =
      (codes "User-Agent", codes "steel-proxy")
      ∷ (codes "Accept", codes "application/vnd.github+json")
      ∷ auth_header config.token;
  basic_auth = none;
  form = [];
}

-- full_sha.chars().take(7)
unfoldable pub short_sha : Text → Text
short_sha full_sha = take 7 full_sha

-- `head_sha` is serde's reading of `PullRequest`: the field `head.sha`.
module _ (X : External) (head_sha : X.Json → Reply Text) (config : GitHubConfig) where
  abbrev pub sha_in : Reply X.Json → Reply Text
  sha_in (answer json) = head_sha json
  sha_in (refusal e) = refusal e

  abbrev pub both_shas : Reply Text → Result (Text × Text)
  both_shas (answer full_sha) = ok (full_sha, short_sha full_sha)
  both_shas (refusal e) = err (codes "Failed to parse GitHub PR response")

  unfoldable pub commit_of : Response X.Json → Result (Text × Text)
  commit_of r =
      if is_success r.status
      then both_shas (sha_in r.json)
      else err (
          codes "GitHub API error "
          ++ (X.status_display r.status ++ (codes ": " ++ body_or_empty r.body)))

  unfoldable pub get_pr_head_commit : ℕ → Exec (World X.E) (Text × Text)
  get_pr_head_commit pr_number = do
    response ←
        outside_context (codes "Failed to fetch PR from GitHub")
          (X.http_get (pr_request config pr_number))
    lift (commit_of response)
