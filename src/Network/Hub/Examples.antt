-- ===== src/Network/Hub/Examples.antt =====
-- The theorems on the connections of a node, at concrete values.
use dexmd.Text.{text}
use dexmd.Network.Hub.{
  deliver, add_client, broadcast_to, register, dial, drop_client, tell_interests, Hub, mem_client,
  unregister,
}
use dexmd.Network.Hub.Open.{Reach-open, Reach, empty_hub}
use dexmd.Network.Hub.Open.Move.{dials, registers, tells}
use dexmd.Network.Hub.Open.Reach.{here, next}
use dexmd.Base.{
  ℕ, zero, suc, ◌<◌, ◌≡◌, ◌≢◌, refl, List, [], ◌∷◌, true, false, bytes_eq, nat_eq, length, ok,
  panic, lookup, insert,
}

-- A connection that has come, has told its interests, and has gone.
abbrev greeted : Hub
greeted = record {
  connections = (1, record { is_open = true; closed = false; interest = [] }) ∷ [];
  clients = 1 ∷ [];
  interested_clients = [];
}

dialled : Reach empty_hub (dial empty_hub 1)
unfolding empty_hub lookup
dialled = next here (dials 1 refl refl)

registered : Reach empty_hub greeted
unfolding empty_hub dial register add_client deliver mem_client lookup insert
registered =
    next dialled
      (registers 1 (record { is_open = true; closed = false; interest = [] }) refl refl refl)

told : Reach empty_hub (tell_interests greeted 1 (text "0" ∷ []))
told = next registered (tells 1 (text "0" ∷ []) refl)

Reach-open_example :
    ((n : ℕ) → unregister (tell_interests greeted 1 (text "0" ∷ [])) n ≢ panic)
    × (length (tell_interests greeted 1 (text "0" ∷ [])).clients < 50
        → (shard : ℕ) → broadcast_to (tell_interests greeted 1 (text "0" ∷ [])) shard ≡ ok tt)
Reach-open_example = Reach-open (tell_interests greeted 1 (text "0" ∷ [])) told

-- 51 clients, of which the first is interested in shard 1 but has since told an empty list.
abbrev crowd : ℕ → List ℕ
crowd zero = []
crowd (suc n) = suc n ∷ crowd n

abbrev crowded : Hub
crowded = record {
  connections = (1, record { is_open = true; closed = false; interest = [] }) ∷ [];
  clients = crowd 51;
  interested_clients = (text "1", 1 ∷ []) ∷ [];
}

abbrev thinned : Hub
thinned = record {
  connections = (1, record { is_open = true; closed = true; interest = [] }) ∷ [];
  clients = drop_client 1 (crowd 51);
  interested_clients = (text "1", 1 ∷ []) ∷ [];
}
