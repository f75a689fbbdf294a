-- ===== src/Proxy/Reading.antt =====
-- How the words of a chat command are read (`handle_client_packet` of
-- src/proxy/packet_forwarder.rs).
use mathlib.Core.List.{reverse, reverse-reverse}
use steel_proxy.Common.{
  ℕ, ◌≤◌, Text, codes, show, parse_u32, u32_max, parse_u32-show, show-IsDigit, IsDigit, All-map,
  All-reverse, All, text_beq, ◌≡◌, refl, ap, ◌∙◌, some, [], ◌∷◌, ◌++◌, arith, trim, trim_start,
  is_whitespace, strip_prefix, false, text_eq,
}
use steel_proxy.K8s.Instances.{backend_name}
use steel_proxy.Proxy.Commands.{ChatCommand, classify}

-- No white space.
abbrev IsVisible : ℕ → Type 0
IsVisible c = is_whitespace c ≡ false

digit-IsVisible : (c : ℕ) → IsDigit c → IsVisible c
unfolding is_whitespace
digit-IsVisible c h = ground arith

show-IsVisible : (n : ℕ) → All IsVisible (show n)
show-IsVisible n = All-map IsDigit IsVisible (show n) digit-IsVisible (show-IsDigit n)

backend_name-IsVisible : (n : ℕ) → All IsVisible (backend_name n)
unfolding backend_name is_whitespace codes
backend_name-IsVisible n = (refl, (refl, (refl, show-IsVisible n)))

trim_start-visible : (s : Text) → All IsVisible s → trim_start s ≡ s
unfolding trim_start
trim_start-visible [] h = refl
trim_start-visible (c ∷ s) h = rw h.0 refl

trim-visible : (s : Text) → All IsVisible s → trim s ≡ s
unfolding trim
trim-visible s h =
    rw (trim_start-visible s h, trim_start-visible (reverse s) (All-reverse IsVisible s h))
      (reverse-reverse s)

classify-server : (x : Text) → classify (codes "server " ++ x) ≡ ChatCommand.server (trim x)
unfolding classify codes strip_prefix text_beq
classify-server x = refl

classify-start : (x : Text) → classify (codes "start " ++ x) ≡ ChatCommand.start (trim x)
unfolding classify codes strip_prefix text_beq
classify-start x = refl

classify-status : (x : Text) → classify (codes "status " ++ x) ≡ ChatCommand.status (trim x)
unfolding classify codes strip_prefix text_beq
classify-status x = refl

-- `/start n` and `/status n`, with the decimal digits of a u32, are taken for these commands with
-- an argument that is read as `n`, and `/server` with the name of the backend of PR `n` is taken
-- for a switch to it.
pub command_words_read :
    (n : ℕ)
    → n ≤ u32_max
    → (classify (codes "start " ++ show n) ≡ ChatCommand.start (show n))
      × (classify (codes "status " ++ show n) ≡ ChatCommand.status (show n))
      × (classify (codes "server " ++ backend_name n) ≡ ChatCommand.server (backend_name n))
      × (parse_u32 (show n) ≡ some n)
command_words_read n h = (
  classify-start (show n) ∙ ap ChatCommand.start (trim-visible (show n) (show-IsVisible n)),
  classify-status (show n) ∙ ap ChatCommand.status (trim-visible (show n) (show-IsVisible n)),
  classify-server (backend_name n)
      ∙ ap ChatCommand.server (trim-visible (backend_name n) (backend_name-IsVisible n)),
  parse_u32-show n h,
)
