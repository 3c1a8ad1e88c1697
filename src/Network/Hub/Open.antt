-- ===== src/Network/Hub/Open.antt =====
-- networking/server.go: which channels of a hub are open, in any order of the goroutines.
use dexmd.Network.Hub.Channels.{
  ClientsOpen, dial-ClientsOpen, register-ClientsOpen, tell_interests-ClientsOpen,
  hang_up-ClientsOpen, unregister_cases, unregistered-ClientsOpen, dropped-ClientsOpen,
}
use dexmd.Network.Hub.{
  broadcast_to, deliver_all, deliver, Connection, drop_client, Hub, dial, hang_up, mem_client,
  register, tell_interests, unregister,
}
use dexmd.Base.{lt→ltb}
use std.Path.{subst}
use dexmd.Base.{
  keys, ℕ, ◌<◌, ◌≡◌, ◌≢◌, inl, inr, refl, List, [], ◌∷◌, none, some, true, false, arith, Bytes,
  bytes_eq, nat_eq, Bool-cases, length, ok, panic, lookup,
}

-- What the goroutines of a node can do next. A connection is dialled once, and registered before it
-- is read; from then on its interests may arrive, `UpdateChain` may drop it as a client, the hub may
-- unregister it, and `read` may hang it up, in any order.
pub data Move (h h' : Hub) : Type 0 where
  dials : (n : ℕ) → lookup n h.connections ≡ none → h' ≡ dial h n → Move h h'
  registers :
      (n : ℕ) (c : Connection)
      → lookup n h.connections ≡ some c
      → c.closed ≡ false
      → register h n ≡ ok h'
      → Move h h'
  tells : (n : ℕ) (keys : List Bytes) → h' ≡ tell_interests h n keys → Move h h'
  unregisters : (n : ℕ) → unregister h n ≡ ok h' → Move h h'
  drops : (n : ℕ) → h' ≡ record h { clients = drop_client n h.clients } → Move h h'
  hangs_up : (n : ℕ) → h' ≡ hang_up h n → Move h h'

pub data Reach (h : Hub) : Hub → Type 0 where
  here : Reach h h
  next : {h' h'' : Hub} → Reach h h' → Move h' h'' → Reach h h''

Move-ClientsOpen : {h h' : Hub} → Move h h' → ClientsOpen h → ClientsOpen h'
Move-ClientsOpen {h} (dials n fresh is) all = rw is (dial-ClientsOpen h n fresh all)
Move-ClientsOpen {h} {h'} (registers n c found still done) all =
    register-ClientsOpen h h' n c found still done all
Move-ClientsOpen {h} (tells n keys is) all = rw is (tell_interests-ClientsOpen h n keys all)
Move-ClientsOpen {h} {h'} (unregisters n done) all = elim (unregister_cases h h' n done) [
  | inl same ↦ subst ClientsOpen same all
  | inr (c, found, is) ↦ subst ClientsOpen is (unregistered-ClientsOpen h n c all)
]
Move-ClientsOpen {h} (drops n is) all = rw is (dropped-ClientsOpen h n all)
Move-ClientsOpen {h} (hangs_up n is) all = rw is (hang_up-ClientsOpen h n all)

Reach-ClientsOpen : {h h' : Hub} → Reach h h' → ClientsOpen h → ClientsOpen h'
Reach-ClientsOpen here all = all
Reach-ClientsOpen (next r move) all = Move-ClientsOpen move (Reach-ClientsOpen r all)

-- A delivery to clients with open channels does not panic.
deliver_all-open :
    (h : Hub) (ns : List ℕ)
    → ((n : ℕ)
        → mem_client n ns ≡ true
        → (c : Connection) × (lookup n h.connections ≡ some c) × (c.closed ≡ false))
    → deliver_all h ns ≡ ok tt
unfolding deliver_all mem_client deliver
deliver_all-open h [] all = refl
deliver_all-open h (n ∷ ns) all =
    let (c, found, still) = all n (ground arith) in
    let rest = deliver_all-open h ns (λ k there. all k (ground arith)) in
    ground (arith, found, still, rest)

-- A hub without connections.
unfoldable pub empty_hub : Hub
empty_hub = record { connections = []; clients = []; interested_clients = [] }

-- Whatever the goroutines of a node do, one after the other in any order of the modelled moves: `run` never closes the
-- channel of a client twice and knows every client's connection, and while there are fewer than 50
-- clients a broadcast never sends on a closed channel.
pub Reach-open :
    (h : Hub)
    → Reach empty_hub h
    → ((n : ℕ) → unregister h n ≢ panic)
      × (length h.clients < 50 → (shard : ℕ) → broadcast_to h shard ≡ ok tt)
unfolding empty_hub unregister broadcast_to mem_client
Reach-open h reach =
    let all : ClientsOpen h = Reach-ClientsOpen reach (λ n there. absurd (cc)) in
    (
      λ n panics. elim (Bool-cases (mem_client n h.clients)) [
        | inr stranger ↦ ground arith
        | inl client ↦ let (c, found, still) = all n client in ground (arith, found, still)
      ],
      λ few shard.
          rw (broadcast_to, lt→ltb (length h.clients) 50 few) (deliver_all-open h h.clients all),
    )
