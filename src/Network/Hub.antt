-- ===== src/Network/Hub.antt =====
-- networking/server.go, `run` and `read`: the connections of a node, from the dial to the end.
pub mod Channels
pub mod Open
pub mod Stale
mod Examples
use dexmd.Text.{decimal}
use dexmd.Base.{
  Outcome-cases, drop, take, keys, ℕ, zero, suc, ◌+◌, ◌-◌, ◌*◌, ◌/◌, ◌%◌, ◌^◌, ◌≤◌, ◌<◌, ◌≡◌, ◌≢◌,
  ◌↔◌, ◌⊎◌, inl, inr, refl, sym, ap, ◌∙◌, List, [], ◌∷◌, ◌++◌, map, Option, none, some, Bool, true,
  false, not, ◌&&◌, ◌||◌, arith, Bytes, bytes_eq, nat_eq, ◌==◌, if◌then◌else◌, ltb, leb, Bool-cases,
  Option-cases, length, All, replicate, Outcome, ok, err, panic, Error, ◌>>=◌, ◌>>◌, fail_if,
  or_fail, or_panic, Dict, lookup, insert, erase, bytes_beq,
}
use dexmd.Base.Int.{ℤ, pos, negsuc, to_i64, to_u64, ltb_ℤ, wrap_i64, negate, ◌+ℤ◌}

-- `client`, as far as the hub reads it; `closed` says that the channel `send` is closed.
pub record Connection : Type 0 where
  pub is_open : Bool
  pub closed : Bool
  pub interest : List Bytes

-- The connections that were ever made, by number, and the maps `clients` and `interestedClients`.
pub record Hub : Type 0 where
  pub connections : Dict ℕ Connection
  pub clients : List ℕ
  pub interested_clients : Dict Bytes (List ℕ)

unfoldable pub mem_client : ℕ → List ℕ → Bool
mem_client n [] = false
mem_client n (k ∷ ks) = n == k || mem_client n ks

-- `delete(m, client)`
unfoldable pub drop_client : ℕ → List ℕ → List ℕ
drop_client n [] = []
drop_client n (k ∷ ks) = if n == k then drop_client n ks else k ∷ drop_client n ks

-- `m[client] = true`
unfoldable pub add_client : ℕ → List ℕ → List ℕ
unfolding mem_client
add_client n ks = if mem_client n ks then ks else n ∷ ks

unfoldable pub interested_in : Hub → Bytes → List ℕ
interested_in h key = elim (lookup key h.interested_clients) [ none ↦ [] | some ks ↦ ks ]

-- A new connection: the handler of `/ws`, and `Connect`.
unfoldable pub dial : Hub → ℕ → Hub
dial h n = record h {
  connections = insert n (record { is_open = true; closed = false; interest = [] }) h.connections;
}

-- `k.send <- data`, if the connection is open: on a closed channel it panics.
unfoldable pub deliver : Hub → ℕ → Outcome (Unit {0})
deliver h n = do
  c ← or_panic (lookup n h.connections)
  if c.is_open && c.closed then panic else ok tt

-- The case for a new client in `run`: it is told the interests of the node, and then it is a client.
unfoldable pub register : Hub → ℕ → Outcome Hub
unfolding deliver add_client
register h n = do deliver h n; ok (record h { clients = add_client n h.clients })

-- The loop over the interests of a client that has quit.
unfoldable pub forget : ℕ → List Bytes → Dict Bytes (List ℕ) → Dict Bytes (List ℕ)
unfolding drop_client
forget n [] m = m
forget n (key ∷ keys) m = elim (lookup key m) [
  | none ↦ forget n keys m
  | some ks ↦ forget n keys (insert key (drop_client n ks) m)
]

-- The case for a client that has quit. Closing a closed channel panics.
unfoldable pub unregister : Hub → ℕ → Outcome Hub
unfolding mem_client drop_client forget
unregister h n = if not (mem_client n h.clients) then ok h else do
  c ← or_panic (lookup n h.connections)
  if c.closed
      then panic
      else ok (record {
        connections = insert n (record c { closed = true }) h.connections;
        clients = drop_client n h.clients;
        interested_clients = forget n c.interest h.interested_clients;
      })

-- The end of `read`, after the hub has been told: `isOpen = false`.
unfoldable pub hang_up : Hub → ℕ → Hub
hang_up h n = elim (lookup n h.connections) [
  | none ↦ h
  | some c ↦ record h { connections = insert n (record c { is_open = false }) h.connections }
]

unfoldable pub note_interests : ℕ → List Bytes → Hub → Hub
unfolding add_client interested_in
note_interests n [] h = h
note_interests n (key ∷ keys) h = note_interests n keys (record h {
  interested_clients = insert key (add_client n (interested_in h key)) h.interested_clients;
})

-- The case for interests in `read`. The list of the client is a new one, and the maps that the old
-- one names keep the client. A message about neighbours has the same effect for no interests at all:
-- its payload is never decoded.
unfoldable pub tell_interests : Hub → ℕ → List Bytes → Hub
unfolding note_interests
tell_interests h n keys = elim (lookup n h.connections) [
  | none ↦ h
  | some c ↦
      note_interests n keys
        (record h { connections = insert n (record c { interest = keys }) h.connections })
]

unfoldable pub tell_neighbours : Hub → ℕ → Hub
unfolding tell_interests
tell_neighbours h n = tell_interests h n []

unfoldable pub deliver_all : Hub → List ℕ → Outcome (Unit {0})
unfolding deliver
deliver_all h [] = ok tt
deliver_all h (n ∷ ns) = do deliver h n; deliver_all h ns

-- The case for a broadcast in `run`: to everyone if there are few clients, and otherwise to those that
-- are interested in the shard.
unfoldable pub broadcast_to : Hub → ℕ → Outcome (Unit {0})
unfolding deliver_all interested_in
broadcast_to h shard =
    if ltb (length h.clients) 50
    then deliver_all h h.clients
    else deliver_all h (interested_in h (decimal shard))
