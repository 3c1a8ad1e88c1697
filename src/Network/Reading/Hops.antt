-- ===== src/Network/Reading/Hops.antt =====
-- networking/server.go, `run` and `read`: how far a message travels.
use dexmd.Network.{accept_envelope, relay, Envelope, Node, forward}
use dexmd.External.{External}
use dexmd.Base.{
  Outcome-cases, ℕ, ◌+◌, ◌^◌, ◌≤◌, ◌<◌, ◌≡◌, inl, inr, ap, ◌∙◌, List, [], ◌∷◌, Option, none, some,
  true, false, arith, bytes_eq, nat_eq, Option-cases, length, ok, err, panic,
}

module _ (x : External) where
  -- A message on its way over some nodes, each of which relays it; `none` if one of them stops it.
  unfoldable pub travel : List Node → Envelope → Option Envelope
  unfolding relay
  travel [] env = some env
  travel (cs ∷ path) env = elim (relay x cs env) [
    | panic ↦ none
    | err _ ↦ none
    | ok none ↦ none
    | ok (some (sent, clients)) ↦ travel path sent
  ]

  forward-ttl :
      (cs : Node) (env sent : Envelope)
      → forward x cs env ≡ some sent
      → (sent.ttl ≤ 64) × (1 ≤ sent.ttl) × (env.ttl < 2 ^ 32 → 1 ≤ env.ttl → sent.ttl + 1 ≡ env.ttl)
  unfolding forward
  forward-ttl cs env sent h = ground arith

  relay-ttl :
      (cs : Node) (env sent : Envelope) (clients : List ℕ)
      → relay x cs env ≡ ok (some (sent, clients))
      → (sent.ttl ≤ 64) × (1 ≤ sent.ttl) × (env.ttl < 2 ^ 32 → 1 ≤ env.ttl → sent.ttl + 1 ≡ env.ttl)
  unfolding relay
  relay-ttl cs env sent clients h = elim (Outcome-cases (accept_envelope x env)) [
    | inr bad ↦ absurd (ground arith)
    | inl (false, refused) ↦ absurd (ground arith)
    | inl (true, accepted) ↦ elim (Option-cases (forward x cs env)) [
      | inl stopped ↦ absurd (ground arith)
      | inr (next, forwarded) ↦
          let same : next ≡ sent = ground arith in
          forward-ttl cs env sent (forwarded ∙ ap some same)
    ]
  ]

  -- A message with a time to live of at most some number gets over fewer nodes than that.
  travel-below :
      (path : List Node) (env : Envelope)
      → 1 ≤ env.ttl
      → env.ttl ≤ length path
      → env.ttl < 2 ^ 32
      → travel path env ≡ none
  unfolding travel
  travel-below [] env low long small = absurd (omega arith)
  travel-below (cs ∷ path) env low long small = elim (Outcome-cases (relay x cs env)) [
    | inr bad ↦ ground arith
    | inl (none, stopped) ↦ ground arith
    | inl (some (sent, clients), relayed) ↦
        let ttl = relay-ttl cs env sent clients relayed in
        rw (travel, relayed)
          (travel-below path sent ttl.1 (omega (arith, ttl.2 small low)) (omega (arith, ttl.0)))
  ]

  -- No message is relayed by more than 64 nodes one after the other, whatever time to live a sender
  -- writes into it.
  pub travel-ends :
      (path : List Node) (env : Envelope)
      → env.ttl < 2 ^ 32
      → 65 ≤ length path
      → travel path env ≡ none
  unfolding travel
  travel-ends [] env small long = absurd (omega arith)
  travel-ends (cs ∷ path) env small long = elim (Outcome-cases (relay x cs env)) [
    | inr bad ↦ ground arith
    | inl (none, stopped) ↦ ground arith
    | inl (some (sent, clients), relayed) ↦
        let ttl = relay-ttl cs env sent clients relayed in
        rw (travel, relayed)
          (travel-below path sent ttl.1 (omega (arith, ttl.0)) (omega (arith, ttl.0)))
  ]
