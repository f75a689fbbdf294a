-- ===== src/Proxy/Negotiation.antt =====
-- The compression that a backend asks for in src/proxy/backend_connector.rs.
use steel_proxy.Common.{
  ℕ, nat_beq, Bool, true, false, Bool-cases, inl, inr, ◌≡◌, ◌<◌, ◌^◌, Option, none, some, Text,
  List, [], ◌∷◌, Result, ok, err, if◌then◌else◌, arith, ◌⊎◌,
}
use steel_proxy.External.{Reply, answer, refusal}
use steel_proxy.Proxy.Wire.{Wire, RawPacket}
use steel_proxy.Proxy.Connector
use steel_proxy.Proxy.Connector.{BackendConnector, Dial, Dialled, D}

-- A threshold that `NonZeroU32` and the encoder can hold.
abbrev pub IsThreshold : Option ℕ → Type 0
IsThreshold none = Unit
IsThreshold (some n) = (0 < n) × (n < 2 ^ 31)

module _ {E : Type 0} (wire : Wire E) (dial : Dial E) where
  next-IsThreshold :
      (n : ℕ) (old : Option ℕ)
      → IsThreshold old
      → IsThreshold (Connector.next_threshold wire dial n old)
  next-IsThreshold n old h = elim (Bool-cases (Connector.is_positive wire dial n)) [
    | inl positive ↦ rw positive (ground arith)
    | inr not_positive ↦ rw not_positive h
  ]

  -- How a negotiation may end.
  abbrev pub Settled : Result (Option ℕ) → Type 0
  Settled r = ((e : Text) × (r ≡ err e)) ⊎ ((o : Option ℕ) × (r ≡ ok o) × IsThreshold o)

  compression-Settled :
      (q : Reply (ℕ × List ℕ)) (old : Option ℕ) (r : Result (Option ℕ))
      → (rest : Option ℕ → Option (Result (Option ℕ))) → IsThreshold old
      → ((o : Option ℕ) → IsThreshold o → rest o ≡ some r → Settled r)
      → Connector.on_compression wire dial q old rest ≡ some r
      → Settled r
  compression-Settled (answer (n, behind)) old r rest h k e =
      k (Connector.next_threshold wire dial n old) (next-IsThreshold n old h) e
  compression-Settled (refusal m) old r rest h k e = inl (m, cc)

  ending-Settled :
      (finished : Bool) (m : Text) (old : Option ℕ) (r : Result (Option ℕ))
      → IsThreshold old
      → (if finished then some (ok old) else some (err m)) ≡ some r
      → Settled r
  ending-Settled true m old r h e = inr (old, cc, h)
  ending-Settled false m old r h e = inl (m, cc)

  -- Whatever the backend sends, a negotiation that is over, from no threshold or a valid one, fails
  -- with an error or gives no threshold or one that is positive and below 2^31.
  pub negotiate-Settled :
      (packets : List (Reply RawPacket)) (old : Option ℕ) (r : Result (Option ℕ))
      → IsThreshold old
      → Connector.negotiate wire dial packets old ≡ some r
      → Settled r
  unfolding Connector.negotiate
  negotiate-Settled [] old r h e = absurd cc
  negotiate-Settled (refusal m ∷ packets) old r h e = inl (m, cc)
  negotiate-Settled (answer p ∷ packets) old r h e =
      elim (Bool-cases (nat_beq p.id wire.ids.login_compression)) [
        | inl asks ↦
            compression-Settled (wire.read_varint p.payload) old r
              (Connector.negotiate wire dial packets) h (λ o ho. negotiate-Settled packets o r ho)
              (rw asks at e)
        | inr other ↦
            ending-Settled (nat_beq p.id wire.ids.login_finished) _ old r h (rw other at e)
      ]
