-- ===== src/Contracts/Imports/Types.antt =====
-- blockchain/exec.go and blockchain/api.go: the declared types of the host functions are the ones in Go.
use dexmd.Contracts.Imports.{HostFunction, host_type, FunctionSig, setup_import, function_at}
use dexmd.Contracts.Imports.HostFunction.{
  revert, timestamp, balance, value, sender, pay, get, put, lock, unlock, data_of, sha,
  approve_patch,
}
use dexmd.Text.{text}
use dexmd.Base.{ℕ, ◌≡◌, ◌≢◌, some, Bytes, bytes_eq, nat_eq}

-- Their names in Go.
unfoldable pub go_name : HostFunction → Bytes
go_name revert = text "revert"
go_name timestamp = text "timestamp"
go_name balance = text "balance"
go_name value = text "value"
go_name sender = text "sender"
go_name pay = text "pay"
go_name get = text "get"
go_name put = text "put"
go_name lock = text "lock"
go_name unlock = text "unlock"
go_name data_of = text "data"
go_name sha = text "sha"
go_name approve_patch = text "approvePatch"

-- A function with its name in Go, unless it is `timestamp`, and with the declared arguments that it takes in Go, and with the declared results unless it
-- is `get`, and that is not one of the lock.
pub record Matches (name : Bytes) (f : HostFunction) (sig : FunctionSig) : Type 0 where
  pub named : f ≢ timestamp → name ≡ go_name f
  pub params : sig.param_types ≡ (host_type f).0
  pub results : f ≢ get → sig.return_types ≡ (host_type f).1
  pub no_lock : f ≢ lock
  pub no_unlock : f ≢ unlock

-- What an index of the function space stands for matches a name.
MatchesAt : Bytes → ℕ → Type 0
unfolding function_at setup_import
MatchesAt k i =
    (f : HostFunction) (sig : FunctionSig) (name : Bytes)
    → function_at (setup_import name) i ≡ some (f, sig)
    → Matches k f sig
