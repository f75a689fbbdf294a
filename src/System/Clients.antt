-- ===== src/System/Clients.antt =====
-- `handle_client` of src/proxy.rs, from the login to the end of the forwarding, as a path of
-- steps, and the four tasks of the program together.
use steel_proxy.Common.{ℕ, Text, Option, none, some, List, Result, ok, err, panic}
use steel_proxy.Config.Types.{ProxyConfig, JenkinsConfig, KubernetesConfig}
use steel_proxy.External.{External, Reply}
use steel_proxy.World.{World}
use steel_proxy.Packets.Tree.{CommandApi}
use steel_proxy.Proxy.Wire.{Wire}
use steel_proxy.Proxy.Session
use steel_proxy.Proxy.Login
use steel_proxy.Proxy.Login.{LoginWire, Next, goes_on, returns, connects, Target}
use steel_proxy.Proxy.Connector.{Dial}
use steel_proxy.Proxy.Client
use steel_proxy.Proxy.Client.{Script}
use steel_proxy.Proxy.Loop.{Event}
use steel_proxy.Proxy.Server
use steel_proxy.K8s.Lifecycle
use steel_proxy.K8s.Recovery
use steel_proxy.System.Steps.{Reaches, Reaches-Preorder, arrived, moves, calls, numbers}
use steel_proxy.System.Tasks.{lifecycle_round-Reaches, recover_from_db-Reaches}
use steel_proxy.System.Starts.{start_pr-Reaches}
use steel_proxy.System.Loops
use steel_proxy.System.Loops.{run-Travels}
use steel_proxy.System.Logins
use steel_proxy.System.Logins.{login_loop-Goes}

-- What the other tasks do during a connection is a path of steps.
pub record AreSteps {E : Type 0} {cfg : ProxyConfig} {login_wire : LoginWire E}
    (script : Script cfg login_wire) : Type 0 where
  pub at_login : Logins.AreSteps cfg login_wire script.login_events
  pub later : Loops.AreSteps script.events

module _ (X : External) (head_sha : X.Json → Reply Text) (cfg : ProxyConfig) (wire : Wire X.E)
    (login_wire : LoginWire X.E) (dial : Dial X.E) (api : CommandApi wire.Commands) where
  forward-Reaches :
      (id : ℕ) (t : Target) (events : List (Event X.E)) (r : Option (Result (Option ℕ)))
      (w : World X.E)
      → Loops.AreSteps events
      → Reaches w (Client.forward X head_sha cfg wire login_wire dial api id t events r w).1
  unfolding Client.forward Session.new
  forward-Reaches id t events none w h = arrived w
  forward-Reaches id t events (some (ok threshold)) w h =
      (run-Travels X head_sha cfg wire api events
        (Session.new wire.Commands id t.uuid t.backend_name threshold w) h).path
  forward-Reaches id t events (some (err e)) w h = arrived w
  forward-Reaches id t events (some panic) w h = arrived w

  connect-Reaches :
      (id : ℕ) (t : Target) (script : Script cfg login_wire) (w : World X.E)
      → AreSteps script
      → Reaches w
          (Client.connect_and_forward X head_sha cfg wire login_wire dial api id t script w).1
  unfolding Client.connect_and_forward
  connect-Reaches id t script w h =
      moves w _ _ (calls w _) (forward-Reaches id t script.events _ _ h.later)

  after_login-Reaches :
      (id : ℕ) (script : Script cfg login_wire) (next : Option (Result Next)) (w : World X.E)
      → AreSteps script
      → Reaches w (Client.after_login X head_sha cfg wire login_wire dial api id script next w).1
  after_login-Reaches id script none w h = arrived w
  after_login-Reaches id script (some (ok goes_on)) w h = arrived w
  after_login-Reaches id script (some (ok returns)) w h = arrived w
  after_login-Reaches id script (some (ok (connects t))) w h = connect-Reaches id t script w h
  after_login-Reaches id script (some (err e)) w h = arrived w
  after_login-Reaches id script (some panic) w h = arrived w

  run_client-Reaches :
      (id : ℕ) (script : Script cfg login_wire) (w : World X.E)
      → AreSteps script
      → Reaches w (Client.run_client X head_sha cfg wire login_wire dial api id script w).1
  unfolding Client.run_client Login.begin
  run_client-Reaches id script w h =
      Reaches-Preorder.joins w _ _
        ((login_loop-Goes cfg login_wire script.login_events (Login.begin w) h.at_login).path)
        (after_login-Reaches id script _ _ h)

  handle_client-Reaches :
      (script : Script cfg login_wire) (w : World X.E)
      → AreSteps script
      → Reaches w (Client.handle_client X head_sha cfg wire login_wire dial api script w).1
  unfolding Client.handle_client
  handle_client-Reaches script w h = moves w _ _ (numbers w) (run_client-Reaches _ script _ h)

  -- Whatever is outside answers, each task of the program changes the shared state by a path of
  -- steps and in no other way: the recovery, a round of the lifecycle loop, the start of a PR, and
  -- a connection with all that its client and its backend send, provided that what the other tasks
  -- do in the meantime is a path of steps.
  tasks-Reaches :
      (jenkins : JenkinsConfig) (kubernetes : KubernetesConfig) (n : ℕ)
      (script : Script cfg login_wire) (w : World X.E)
      → AreSteps script
      → Reaches w (Recovery.recover_from_db X kubernetes w).1
        × Reaches w (Lifecycle.lifecycle_round X jenkins kubernetes w).1
        × Reaches w (Server.start_pr X head_sha cfg n w).1
        × Reaches w (Client.handle_client X head_sha cfg wire login_wire dial api script w).1
  tasks-Reaches jenkins kubernetes n script w h = (
    (recover_from_db-Reaches X kubernetes).at w,
    (lifecycle_round-Reaches X jenkins kubernetes).at w,
    (start_pr-Reaches X head_sha cfg n).at w,
    handle_client-Reaches script w h,
  )
