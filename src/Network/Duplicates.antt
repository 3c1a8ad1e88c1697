-- ===== src/Network/Duplicates.antt =====
-- networking/server.go, `checkDuplicatedMessage`: which messages are recognised.
use dexmd.Base.{
  drop, length-append, ℕ, ◌-◌, ◌≤◌, ◌≡◌, inl, inr, refl, List, [], ◌∷◌, ◌++◌, arith, Bytes,
  bytes_eq, nat_eq, ltb, Bool-cases, length,
}
use dexmd.Casper.{mem_bytes}
use dexmd.Network.{check_duplicated_message}

-- The hashes of the messages that arrive, one after the other.
unfoldable pub receive_all : List Bytes → List Bytes → List Bytes
unfolding check_duplicated_message
receive_all hashes [] = hashes
receive_all hashes (h ∷ hs) = receive_all (check_duplicated_message hashes h).0 hs

length-drop_one : (l : List Bytes) → length (drop 1 l) ≡ length l - 1
length-drop_one [] = refl
length-drop_one (a ∷ l) = omega arith

receive-length :
    (hashes : List Bytes) (h : Bytes)
    → length hashes ≤ 5000
    → length (check_duplicated_message hashes h).0 ≤ 5000
unfolding check_duplicated_message
receive-length hashes h small = elim (Bool-cases (mem_bytes h hashes)) [
  | inl there ↦ rw there small
  | inr fresh ↦ elim (Bool-cases (ltb 5000 (length (hashes ++ h ∷ [])))) [
    | inl full ↦
        rw (fresh, full)
          (omega (arith, length-drop_one (hashes ++ h ∷ []), length-append hashes (h ∷ [])))
    | inr room ↦ rw (fresh, room) (ground (arith, length-append hashes (h ∷ [])))
  ]
]

-- However many messages arrive when at most 5000 hashes are kept, at most 5000 are kept afterwards.
pub receive_all-length :
    (hashes arriving : List Bytes)
    → length hashes ≤ 5000
    → length (receive_all hashes arriving) ≤ 5000
unfolding receive_all
receive_all-length hashes [] small = small
receive_all-length hashes (h ∷ hs) small =
    receive_all-length (check_duplicated_message hashes h).0 hs (receive-length hashes h small)

-- A hash that is kept, with at most a number of others behind it.
record Kept (h : Bytes) (n : ℕ) (hashes : List Bytes) : Type 0 where
  before : List Bytes
  after : List Bytes
  split : hashes ≡ before ++ h ∷ after
  near : length after ≤ n
