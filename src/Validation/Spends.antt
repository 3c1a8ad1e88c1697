-- ===== src/Validation/Spends.antt =====
-- blockchain/processing.go, `ValidateBlock`: what the loop takes from the state of each sender.
use dexmd.Base.{
  bytes_beq_sound, Outcome-cases, ℕ, ◌+◌, ◌^◌, ◌<◌, ◌≡◌, inl, inr, ap, List, [], ◌∷◌, none, some,
  Bool, true, false, arith, Bytes, bytes_eq, nat_eq, ◌==◌, if◌then◌else◌, Bool-cases, Option-cases,
  All, Outcome, ok, err, panic, lookup, insert,
}
use dexmd.Base.{lookup-insert}
use dexmd.Proto.{Transaction, AccountState}
use dexmd.External.{External, Balances}
use dexmd.Util.{add_u64o, sub_u64o}
use dexmd.Util.Exact.{add_u64o_exact, sub_u64o_exact}
use dexmd.Wallet.{bytes_to_address, signature_valid}
use dexmd.Chain.{Blockchain, get_wallet_state}
use dexmd.Validation.{already_included}
use dexmd.Validation.{Tainted, current_state, transaction_hash, validate_step, validate_loop}

module _ (x : External) (bc : Blockchain) where
  -- What a step of the loop found and did.
  pub record Step (tainted tainted' : Tainted x) (t : Transaction) : Type 0 where
    pub sender : Bytes
    pub state : AccountState
    pub address : bytes_to_address x t.sender t.shard ≡ ok sender
    pub signed : signature_valid x t.sender t.r t.s (transaction_hash x t) ≡ ok true
    pub current : current_state x bc tainted sender ≡ ok state
    pub fresh : already_included x bc t ≡ false
    pub covered : (sub_u64o state.balance (add_u64o t.amount t.gas).0).1 ≡ true
    pub after :
        tainted'
        ≡ insert sender
            (record state { balance = (sub_u64o state.balance (add_u64o t.amount t.gas).0).0 })
            tainted

  pub validate_step-Step :
      (tainted tainted' : Tainted x) (t : Transaction)
      → validate_step x bc tainted t ≡ ok (some tainted')
      → Step tainted tainted' t
  unfolding validate_step
  validate_step-Step tainted tainted' t h =
      elim (Outcome-cases (bytes_to_address x t.sender t.shard)) [
        | inl (s, e) ↦
            elim (Outcome-cases (signature_valid x t.sender t.r t.s (transaction_hash x t))) [
              | inl (true, v) ↦ elim (Outcome-cases (current_state x bc tainted s)) [
                | inl (st, c) ↦ record {
                  sender = s;
                  state = st;
                  address = e;
                  signed = v;
                  current = c;
                  fresh = ground arith;
                  covered = ground arith;
                  after = ground arith;
                }
                | inr bad ↦ absurd (ground arith)
              ]
              | inl (false, v) ↦ absurd (ground arith)
              | inr bad ↦ absurd (ground arith)
            ]
        | inr bad ↦ absurd (ground arith)
      ]

  -- Whether an address is that of the sender of a transaction.
  pub is_sender : Bytes → Transaction → Bool
  is_sender a t = elim (bytes_to_address x t.sender t.shard) [
    | ok s ↦ s == a
    | err _ ↦ false
    | panic ↦ false
  ]

  -- What the transactions of one sender cost together.
  unfoldable pub spent : Bytes → List Transaction → ℕ
  spent a [] = 0
  spent a (t ∷ ts) = (if is_sender a t then t.amount + t.gas else 0) + spent a ts

  balance_of : Outcome AccountState → ℕ
  balance_of (ok state) = state.balance
  balance_of (err _) = 0
  balance_of panic = 0

  -- What an address has left within the block; 0 for one without a state.
  pub remaining : Tainted x → Bytes → ℕ
  remaining tainted a = balance_of (current_state x bc tainted a)

  -- The amounts and the gas are uint64 and uint32 values that do not overflow together.
  abbrev pub Fits : Transaction → Type 0
  Fits t = t.amount + t.gas < 2 ^ 64

  pub remaining-insert :
      (a s : Bytes) (state : AccountState) (tainted : Tainted x)
      → remaining (insert s state tainted) a
        ≡ (if s == a then state.balance else remaining tainted a)
  unfolding remaining balance_of current_state
  remaining-insert a s state tainted = ground (arith, lookup-insert s a state tainted)

  pub is_sender-address :
      (a s : Bytes) (t : Transaction)
      → bytes_to_address x t.sender t.shard ≡ ok s
      → is_sender a t ≡ (s == a)
  unfolding is_sender
  is_sender-address a s t e = ground (arith, e)

  pub remaining-current :
      (a : Bytes) (state : AccountState) (tainted : Tainted x)
      → current_state x bc tainted a ≡ ok state
      → remaining tainted a ≡ state.balance
  unfolding remaining balance_of
  remaining-current a state tainted e = rw e

  remaining-step :
      (a : Bytes) {tainted tainted' : Tainted x} (t : Transaction)
      → Fits t
      → ((b : Bytes) → remaining tainted b < 2 ^ 64)
      → Step tainted tainted' t
      → (if is_sender a t then t.amount + t.gas else 0) + remaining tainted' a ≡ remaining tainted a
  remaining-step a {tainted} t fits bound s =
      let sum = add_u64o_exact t.amount t.gas (omega arith) (omega arith) in
      let now = remaining-current s.sender s.state tainted s.current in
      let b : s.state.balance < 2 ^ 64 = omega (arith, now, bound s.sender) in
      let diff = sub_u64o_exact s.state.balance (t.amount + t.gas) b fits in
      let total : (add_u64o t.amount t.gas).0 ≡ t.amount + t.gas = ground (arith, sum) in
      let ok_flag : (sub_u64o s.state.balance (t.amount + t.gas)).1 ≡ true =
        rw total at s.covered in
      let left = record s.state { balance = (sub_u64o s.state.balance (t.amount + t.gas)).0 } in
      let paid : left.balance + (t.amount + t.gas) ≡ s.state.balance = diff.1 ok_flag in
      rw
        (
          s.after,
          total,
          remaining-insert a s.sender left tainted,
          is_sender-address a s.sender t s.address,
        )
        (elim (Bool-cases (s.sender == a)) [
          | inl same ↦
              let e : remaining tainted s.sender ≡ remaining tainted a =
                ap (remaining tainted) (bytes_beq_sound s.sender a same) in
              rw same (omega (arith, paid, now, e))
          | inr other ↦ rw other (omega arith)
        ])

  pub remaining-loop :
      (a : Bytes) {tainted' : Tainted x} (tainted : Tainted x) (ts : List Transaction)
      → All Fits ts
      → ((b : Bytes) → remaining tainted b < 2 ^ 64)
      → validate_loop x bc tainted ts ≡ ok (some tainted')
      → spent a ts + remaining tainted' a ≡ remaining tainted a
  unfolding validate_loop spent
  remaining-loop a {tainted' = last} tainted [] fits bound h =
      let same : tainted ≡ last = ground arith in rw same (omega arith)
  remaining-loop a tainted (t ∷ ts) fits bound h =
      elim (Outcome-cases (validate_step x bc tainted t)) [
        | inl (some next, e) ↦
            let s = validate_step-Step tainted next t e in
            let below : (b : Bytes) → remaining next b < 2 ^ 64 =
              λ b. omega (arith, remaining-step b t fits.0 bound s, bound b) in
            let rest : validate_loop x bc next ts ≡ ok (some _) = rw e at h in
            omega
              (arith, remaining-step a t fits.0 bound s, remaining-loop a next ts fits.1 below rest)
        | inl (none, e) ↦ absurd (ground arith)
        | inr bad ↦ absurd (ground arith)
      ]

  abbrev pub IsSigned : Transaction → Type 0
  IsSigned t = signature_valid x t.sender t.r t.s (transaction_hash x t) ≡ ok true

  pub validate_loop-IsSigned :
      {tainted' : Tainted x} (tainted : Tainted x) (ts : List Transaction)
      → validate_loop x bc tainted ts ≡ ok (some tainted')
      → All IsSigned ts
  unfolding validate_loop
  validate_loop-IsSigned tainted [] h = tt
  validate_loop-IsSigned tainted (t ∷ ts) h = elim (Outcome-cases (validate_step x bc tainted t)) [
    | inl (some next, e) ↦
        let s = validate_step-Step tainted next t e in
        (s.signed, validate_loop-IsSigned next ts (rw e at h))
    | inl (none, e) ↦ absurd (ground arith)
    | inr bad ↦ absurd (ground arith)
  ]

  pub remaining-start : Balances x → (b : Bytes) → remaining [] b < 2 ^ 64
  unfolding remaining balance_of current_state get_wallet_state lookup
  remaining-start u b = elim (Option-cases (bc.balances_db b)) [
    | inl none_there ↦ ground arith
    | inr (raw, e) ↦ ground (arith, u.balance_bound raw)
  ]

  pub remaining-chain :
      (a : Bytes) (state : AccountState)
      → get_wallet_state x bc a ≡ ok state
      → remaining [] a ≡ state.balance
  unfolding remaining balance_of current_state lookup
  remaining-chain a state e = rw e
