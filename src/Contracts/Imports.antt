-- ===== src/Contracts/Imports.antt =====
-- blockchain/exec.go, `setupImport`: the module that contracts import the host functions from.
pub mod Types
mod Examples
use std.Path.{subst}
use dexmd.Text.{text}
use dexmd.Base.{
  bytes_beq_iff, get_elem?, Outcome-cases, drop, take, keys, ℕ, zero, suc, ◌+◌, ◌-◌, ◌*◌, ◌/◌, ◌%◌,
  ◌^◌, ◌≤◌, ◌<◌, ◌≡◌, ◌≢◌, ◌↔◌, ◌⊎◌, inl, inr, refl, sym, ap, ◌∙◌, List, [], ◌∷◌, ◌++◌, map, Option,
  none, some, Bool, true, false, not, ◌&&◌, ◌||◌, arith, Bytes, bytes_eq, nat_eq, ◌==◌,
  if◌then◌else◌, ltb, leb, Bool-cases, Option-cases, length, All, replicate, Outcome, ok, err,
  panic, Error, ◌>>=◌, ◌>>◌, fail_if, or_fail, or_panic, Dict, lookup, insert, erase, bytes_beq,
}
use dexmd.Base.Int.{ℤ, pos, negsuc, to_i64, to_u64, ltb_ℤ, wrap_i64, negate, ◌+ℤ◌}

pub data ValueType : Type 0 where
  i32 i64 : ValueType

-- The functions of blockchain/api.go that have the process as their first argument.
pub data HostFunction : Type 0 where
  revert timestamp balance value sender pay get put lock unlock data_of sha approve_patch :
      HostFunction

-- Their types in Go, without the process: the arguments and the results.
unfoldable pub host_type : HostFunction → List ValueType × List ValueType
host_type revert = ([], [])
host_type timestamp = ([], i64 ∷ [])
host_type balance = ([], i64 ∷ [])
host_type value = ([], i64 ∷ [])
host_type sender = (i32 ∷ i32 ∷ [], [])
host_type pay = (i32 ∷ i64 ∷ i64 ∷ [], [])
host_type get = (i32 ∷ i32 ∷ i32 ∷ i32 ∷ i32 ∷ i32 ∷ [], i32 ∷ [])
host_type put = (i32 ∷ i32 ∷ i32 ∷ i32 ∷ i32 ∷ i32 ∷ [], [])
host_type lock = (i32 ∷ [], [])
host_type unlock = ([], [])
host_type data_of = (i32 ∷ i32 ∷ [], [])
host_type sha = (i32 ∷ i32 ∷ i32 ∷ [], [])
host_type approve_patch = (i32 ∷ [], [])

pub record FunctionSig : Type 0 where
  pub form : ℕ
  pub param_types : List ValueType
  pub return_types : List ValueType

-- The part of `wasm.Module` that is filled: a function is the index of its type and the host function
-- behind it, an export the index of a function.
pub record ImportModule : Type 0 where
  pub types : List FunctionSig
  pub functions : List (ℕ × HostFunction)
  pub exports : Dict Bytes ℕ

unfoldable pub import_types : List FunctionSig
import_types =
    record { form = 0; param_types = []; return_types = [] }
    ∷ record { form = 1; param_types = []; return_types = i64 ∷ [] }
    ∷ record { form = 2; param_types = i32 ∷ i64 ∷ i64 ∷ []; return_types = [] }
    ∷ record { form = 3; param_types = []; return_types = i64 ∷ [] }
    ∷ record { form = 4; param_types = i32 ∷ i32 ∷ []; return_types = [] }
    ∷ record { form = 5; param_types = []; return_types = i64 ∷ [] }
    ∷ record { form = 6; param_types = i32 ∷ i32 ∷ i32 ∷ i32 ∷ i32 ∷ i32 ∷ []; return_types = [] }
    ∷ record { form = 7; param_types = i32 ∷ i32 ∷ i32 ∷ i32 ∷ i32 ∷ i32 ∷ []; return_types = [] }
    ∷ record { form = 8; param_types = i32 ∷ i32 ∷ []; return_types = [] }
    ∷ []

unfoldable pub import_functions : List (ℕ × HostFunction)
import_functions =
    (0, revert)
    ∷ (1, balance)
    ∷ (2, pay)
    ∷ (3, timestamp)
    ∷ (4, sender)
    ∷ (5, value)
    ∷ (6, get)
    ∷ (7, put)
    ∷ (8, data_of)
    ∷ []

unfoldable pub import_exports : Dict Bytes ℕ
import_exports =
    (text "revert", 0)
    ∷ (text "balance", 1)
    ∷ (text "pay", 2)
    ∷ (text "time", 3)
    ∷ (text "sender", 4)
    ∷ (text "value", 5)
    ∷ (text "get", 6)
    ∷ (text "put", 7)
    ∷ (text "data", 8)
    ∷ []

-- `setupImport`, the same for every name of a module.
unfoldable pub setup_import : Bytes → ImportModule
unfolding import_types import_functions import_exports
setup_import name = record {
  types = import_types;
  functions = import_functions;
  exports = import_exports;
}

-- What an index of the function space stands for.
unfoldable pub function_at : ImportModule → ℕ → Option (HostFunction × FunctionSig)
function_at m i = elim (get_elem? m.functions i) [
  | none ↦ none
  | some (type, f) ↦ elim (get_elem? m.types type) [ none ↦ none | some sig ↦ some (f, sig) ]
]

-- What a contract gets for a name: the host function and the type that is declared for it.
unfoldable pub resolve : ImportModule → Bytes → Option (HostFunction × FunctionSig)
unfolding function_at
resolve m name = elim (lookup name m.exports) [ none ↦ none | some i ↦ function_at m i ]
