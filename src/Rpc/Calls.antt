-- ===== src/Rpc/Calls.antt =====
-- A call from end to end: `call` and `call_m` of the client, and `fn` of the handlers that `reg`
-- makes, in rpc/rpc.h. The templates for one to seven arguments are one definition on a list. A
-- status is the bit pattern of an `int`.
use lab_cse.Prelude.{ℕ, ◌-◌, ◌^◌, Bool, Option, none, some, List, leb, if◌then◌else◌}
use lab_cse.Rpc.Marshall.{Bytes, Marshall, new_marshall}
use lab_cse.Rpc.Unmarshall.{Unmarshall, okdone}
use lab_cse.Rpc.Values.{Ty, Value, write, write_all, read, read_all}

-- The negative statuses of `rpc_const`.
abbrev pub negative : ℕ → ℕ
negative n = 2 ^ 32 - n

abbrev pub timeout_failure : ℕ
timeout_failure = negative 1

abbrev pub unmarshal_args_failure : ℕ
unmarshal_args_failure = negative 2

abbrev pub atmostonce_failure : ℕ
atmostonce_failure = negative 4

abbrev pub oldsrv_failure : ℕ
oldsrv_failure = negative 5

abbrev pub bind_failure : ℕ
bind_failure = negative 6

abbrev pub cancel_failure : ℕ
cancel_failure = negative 7

abbrev pub is_negative : ℕ → Bool
is_negative r = leb (2 ^ 31) r

-- The request of `call`, before `call1` adds the header.
unfoldable pub request : Bytes → List Value → Marshall
request mem args = write_all (new_marshall mem) args

unfoldable pub finish_call : ℕ → Option (Unmarshall × Value) → Option (ℕ × Value)
finish_call intret none = none
finish_call intret (some (u, v)) = if okdone u then some (intret, v) else none

-- `call_m` after `call1`: the status and the value of `r`. `none` is a failed VERIFY, or memory
-- outside the buffer that is read.
unfoldable pub call_m : ℕ → Unmarshall → Ty → Value → Option (ℕ × Value)
unfolding finish_call
call_m intret u ty r =
    if is_negative intret then some (intret, r) else finish_call intret (read ty u)

-- A method on the object `S` returns the new object, the status and the value of `r`.
abbrev pub Method : Type 0 → Type 0
Method S = S → List Value → S × ℕ × Value

module _ {S : Type 0} where
  unfoldable pub run_method :
      Method S → S → Marshall → Option (Unmarshall × List Value) → Option (S × Marshall × ℕ)
  run_method meth sob ret none = none
  run_method meth sob ret (some (args, vs)) =
      let (sob1, b, r) = meth sob vs in
      if okdone args then some (sob1, write ret r, b) else some (sob, ret, unmarshal_args_failure)

  -- `fn` of a handler: the new object, the reply and the status.
  unfoldable pub fn : List Ty → Method S → S → Unmarshall → Marshall → Option (S × Marshall × ℕ)
  unfolding run_method
  fn types meth sob args ret = run_method meth sob ret (read_all types args)
