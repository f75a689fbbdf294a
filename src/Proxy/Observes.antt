-- ===== src/Proxy/Observes.antt =====
-- What the forwarder of src/proxy/packet_forwarder.rs learns from a packet of the backend changes
-- its own two variables only.
use steel_proxy.Common.{
  ℕ, nat_beq, Text, Bool, true, false, Bool-cases, inl, inr, Option, none, some, ◌≡◌, refl,
  if◌then◌else◌, ◌-◌,
}
use steel_proxy.Config.Types.{ProxyConfig}
use steel_proxy.External.{External, Reply}
use steel_proxy.Packets.Tree.{CommandApi}
use steel_proxy.Proxy.Wire.{Wire, RawPacket}
use steel_proxy.Proxy.Session.{S}
use steel_proxy.Proxy.Handlers

-- A part of a session that the entity id and the permission level do not belong to.
pub record IsApart {κ} {E : Type 0} (wire : Wire E) {B : Type κ} (part : S wire → B) : Type κ where
  pub entity_apart : (s : S wire) (o : Option ℕ) → part (record s { entity_id = o }) ≡ part s
  pub level_apart : (s : S wire) (l : ℕ) → part (record s { permission_level = l }) ≡ part s

module _ {κ} (X : External) (head_sha : X.Json → Reply Text) (cfg : ProxyConfig) (wire : Wire X.E)
    (api : CommandApi wire.Commands) {B : Type κ} {part : S wire → B} (h : IsApart wire part) where
  if-apart : (b : Bool) (s t : S wire) → part s ≡ part t → part (if b then s else t) ≡ part t
  if-apart true s t e = e
  if-apart false s t e = refl

  see_event-apart :
      (o : Option (ℕ × ℕ)) (s : S wire)
      → part (Handlers.see_event X head_sha cfg wire api o s) ≡ part s
  see_event-apart none s = refl
  see_event-apart (some (id, status)) s = if-apart _ _ s (h.level_apart s (status - 24))

  see_login-apart :
      (o : Option ℕ) (s : S wire) → part (Handlers.see_login X head_sha cfg wire api o s) ≡ part s
  see_login-apart none s = refl
  see_login-apart (some id) s = h.entity_apart s (some id)

  pub observe-apart :
      (p : RawPacket) (s : S wire) → part (Handlers.observe X head_sha cfg wire api p s) ≡ part s
  unfolding Handlers.observe
  observe-apart p s = elim (Bool-cases (nat_beq p.id wire.ids.play_login)) [
    | inl first ↦ rw first (see_login-apart _ s)
    | inr later ↦ rw later (elim (Bool-cases (nat_beq p.id wire.ids.entity_event)) [
      | inl event ↦ rw event (see_event-apart _ s)
      | inr none_of_them ↦ rw none_of_them refl
    ])
  ]
