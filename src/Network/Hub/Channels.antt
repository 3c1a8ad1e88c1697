-- ===== src/Network/Hub/Channels.antt =====
-- networking/server.go: what `run` and `read` keep of the channels of the clients.
use dexmd.Network.Hub.{
  forget, deliver, interested_in, Connection, add_client, drop_client, Hub, dial, hang_up,
  mem_client, note_interests, register, tell_interests, unregister,
}
use std.Path.{subst}
use dexmd.Base.{lookup-insert, lookup-insert_ne, nat_beq_iff}
use dexmd.Base.{
  Outcome-cases, keys, ℕ, ◌≡◌, ◌≢◌, ◌⊎◌, inl, inr, refl, sym, ap, ◌∙◌, List, [], ◌∷◌, none, some,
  true, false, not, ◌&&◌, ◌||◌, arith, Bytes, bytes_eq, nat_eq, ◌==◌, Bool-cases, Option-cases, ok,
  lookup, insert,
}

-- Every client has a connection whose channel is not closed.
abbrev pub ClientsOpen : Hub → Type 0
ClientsOpen h =
    (n : ℕ)
    → mem_client n h.clients ≡ true
    → (c : Connection) × (lookup n h.connections ≡ some c) × (c.closed ≡ false)

mem_client-drop_client :
    (n k : ℕ) (ks : List ℕ) → mem_client n (drop_client k ks) ≡ (mem_client n ks && not (k == n))
unfolding mem_client drop_client
mem_client-drop_client n k [] = refl
mem_client-drop_client n k (j ∷ ks) = ground (arith, mem_client-drop_client n k ks)

mem_client-add_client :
    (n k : ℕ) (ks : List ℕ) → mem_client n (add_client k ks) ≡ (n == k || mem_client n ks)
unfolding mem_client add_client
mem_client-add_client n k ks = elim (Bool-cases (mem_client k ks)) [
  | inr new ↦ rw (add_client, new) refl
  | inl old ↦ elim (Bool-cases (n == k)) [
    | inr other ↦ rw (add_client, old, other) refl
    | inl same ↦
        let e : n ≡ k = (nat_beq_iff n k).0 same in
        rw (add_client, old, same) (ap (λ i. mem_client i ks) e ∙ old)
  ]
]

pub dial-ClientsOpen :
    (h : Hub) (n : ℕ) → lookup n h.connections ≡ none → ClientsOpen h → ClientsOpen (dial h n)
unfolding dial
dial-ClientsOpen h n fresh all k there =
    let (c, found, still) = all k there in
    let differs : n ≢ k =
      λ e. absurd (cc (sym fresh ∙ (ap (λ i. lookup i h.connections) e ∙ found))) in
    (c, lookup-insert_ne n k _ h.connections differs ∙ found, still)

pub register-ClientsOpen :
    (h h' : Hub) (n : ℕ) (c : Connection)
    → lookup n h.connections ≡ some c
    → c.closed ≡ false
    → register h n ≡ ok h'
    → ClientsOpen h
    → ClientsOpen h'
unfolding register
register-ClientsOpen h h' n c found still registered all k there =
    elim (Outcome-cases (deliver h n)) [
      | inr bad ↦ absurd (ground arith)
      | inl (u, delivered) ↦
          let hub_is : record h { clients = add_client n h.clients } ≡ h' = ground arith in
          let clients_are : add_client n h.clients ≡ h'.clients =
            ap (λ (g : Hub). g.clients) hub_is in
          let connections_are : h.connections ≡ h'.connections =
            ap (λ (g : Hub). g.connections) hub_is in
          let member : (k == n || mem_client k h.clients) ≡ true =
            sym (mem_client-add_client k n h.clients) ∙ (ap (mem_client k) clients_are ∙ there) in
          subst (λ m. (d : Connection) × (lookup k m ≡ some d) × (d.closed ≡ false)) connections_are
            (elim (Bool-cases (k == n)) [
              | inl same ↦
                  (c, ap (λ i. lookup i h.connections) ((nat_beq_iff k n).0 same) ∙ found, still)
              | inr other ↦ all k (ground arith)
            ])
    ]

-- A change of one connection that keeps its channel as it is.
replace-ClientsOpen :
    (h : Hub) (n : ℕ) (c d : Connection)
    → lookup n h.connections ≡ some c
    → d.closed ≡ c.closed
    → ClientsOpen h
    → ClientsOpen (record h { connections = insert n d h.connections })
replace-ClientsOpen h n c d found same all k there =
    let (e, found', still) = all k there in
    elim (Bool-cases (n == k)) [
      | inl equal ↦
          let number : n ≡ k = (nat_beq_iff n k).0 equal in
          let one : c ≡ e =
            ground (arith, ap (λ i. lookup i h.connections) number, found, found') in
          (
            d,
            lookup-insert n k d h.connections ∙ rw equal refl,
            same ∙ (ap (λ (c : Connection). c.closed) one ∙ still),
          )
      | inr other ↦ (e, lookup-insert n k d h.connections ∙ rw other found', still)
    ]

note_interests-keeps :
    (n : ℕ) (keys : List Bytes) (h : Hub)
    → ((note_interests n keys h).connections ≡ h.connections)
      × ((note_interests n keys h).clients ≡ h.clients)
unfolding note_interests
note_interests-keeps n [] h = (refl, refl)
note_interests-keeps n (key ∷ keys) h = note_interests-keeps n keys (record h {
  interested_clients = insert key (add_client n (interested_in h key)) h.interested_clients;
})

pub tell_interests-ClientsOpen :
    (h : Hub) (n : ℕ) (keys : List Bytes) → ClientsOpen h → ClientsOpen (tell_interests h n keys)
unfolding tell_interests
tell_interests-ClientsOpen h n keys all = elim (Option-cases (lookup n h.connections)) [
  | inl missing ↦ rw (tell_interests, missing) all
  | inr (c, found) ↦
      let told : Connection = record c { interest = keys } in
      let h1 : Hub = record h { connections = insert n told h.connections } in
      let (connections_are, clients_are) = note_interests-keeps n keys h1 in
      rw (tell_interests, found, connections_are, clients_are)
        (replace-ClientsOpen h n c told found refl all)
]

pub hang_up-ClientsOpen : (h : Hub) (n : ℕ) → ClientsOpen h → ClientsOpen (hang_up h n)
unfolding hang_up
hang_up-ClientsOpen h n all = elim (Option-cases (lookup n h.connections)) [
  | inl missing ↦ rw (hang_up, missing) all
  | inr (c, found) ↦
      rw (hang_up, found) (replace-ClientsOpen h n c (record c { is_open = false }) found refl all)
]

-- What the hub keeps of a client that quits.
unfoldable pub unregistered : Hub → ℕ → Connection → Hub
unregistered h n c = record {
  connections = insert n (record c { closed = true }) h.connections;
  clients = drop_client n h.clients;
  interested_clients = forget n c.interest h.interested_clients;
}

pub unregistered-ClientsOpen :
    (h : Hub) (n : ℕ) (c : Connection) → ClientsOpen h → ClientsOpen (unregistered h n c)
unfolding unregistered
unregistered-ClientsOpen h n c all k there =
    let dropped = mem_client-drop_client k n h.clients in
    let other : (n == k) ≡ false = ground (arith, dropped) in
    let (d, found, still) = all k (ground (arith, dropped)) in
    (d, lookup-insert n k (record c { closed = true }) h.connections ∙ rw other found, still)

-- An unregistered client has been one, and its channel was open; or nothing has happened.
pub unregister_cases :
    (h h' : Hub) (n : ℕ)
    → unregister h n ≡ ok h'
    → (h ≡ h') ⊎ ((c : Connection) × (lookup n h.connections ≡ some c) × (unregistered h n c ≡ h'))
unfolding unregister unregistered
unregister_cases h h' n done = elim (Bool-cases (mem_client n h.clients)) [
  | inr stranger ↦ inl (ground arith)
  | inl client ↦ elim (Option-cases (lookup n h.connections)) [
    | inl missing ↦ absurd (ground arith)
    | inr (c, found) ↦ elim (Bool-cases c.closed) [
      | inl closed ↦ absurd (ground arith)
      | inr still ↦
          let ends : unregister h n ≡ ok (unregistered h n c) =
            rw (unregister, client, found, still) refl in
          inr (c, found, cc)
    ]
  ]
]

pub dropped-ClientsOpen :
    (h : Hub) (n : ℕ) → ClientsOpen h → ClientsOpen (record h { clients = drop_client n h.clients })
dropped-ClientsOpen h n all k there = all k (ground (arith, mem_client-drop_client k n h.clients))
