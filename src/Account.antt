-- ===== src/Account.antt =====
-- vochain/state/account.go: the account methods, and how the state reads and writes accounts.
pub mod Supply
use vocdoni_node.Base.{
  ℕ, zero, suc, ◌+◌, ◌-◌, ◌^◌, Bool, true, false, ◌&&◌, ◌||◌, not, Option, none, some, List, [],
  ◌∷◌, ◌++◌, ltb, ◌==◌, if◌then◌else◌,
}
use vocdoni_node.Base.Lists.{length, get_or, set, take}
use vocdoni_node.Base.Bytes.{Bytes, bytes_equal}
use vocdoni_node.Base.Words.{add32, add64}
use vocdoni_node.Base.Dict.{lookup, insert}
use vocdoni_node.Chain.{
  Account, Address, Error, Result, ok, err, not_enough_balance, balance_overflow, zero_amount,
  nil_destination, already_delegate, not_delegate, panicked, account_not_exist, same_info_uri,
  invalid_info_uri, invalid_tx_type, Exec, State, ⊤, pure, raise, gets, lift, or_raise, raise_if,
  modify, ◌>>=◌, ◌>>◌,
}
use vocdoni_node.TxType
use vocdoni_node.TxType.{TxType}

-- `Account.Transfer`: the origin and the destination after the transfer. The two are never one
-- object, since `GetAccount` allocates for each call.
unfoldable pub transfer : Account → Option Account → ℕ → Result (Account × Account)
transfer a none amount = if amount == 0 then err zero_amount else err nil_destination
transfer a (some dest) amount =
    if amount == 0
    then err zero_amount
    else if ltb a.balance amount
    then err not_enough_balance
    else if ltb (add64 dest.balance amount) dest.balance
    then err balance_overflow
    else ok (
      record a { balance = a.balance - amount },
      record dest { balance = add64 dest.balance amount },
    )

unfoldable pub is_delegate : Address → List Bytes → Bool
is_delegate addr [] = false
is_delegate addr (d ∷ ds) = bytes_equal addr d || is_delegate addr ds

unfoldable pub add_delegate : Account → Address → Result Account
add_delegate a addr =
    if is_delegate addr a.delegate_addrs
    then err already_delegate
    else ok (record a { delegate_addrs = a.delegate_addrs ++ addr ∷ [] })

-- The loop of `DelDelegate`. `range` fixes the number of rounds at its start and reads the backing
-- array, `array`, whose first `len` elements are the slice; writing past the slice panics.
unfoldable pub del_delegate_loop : Address → ℕ → ℕ → List Bytes → ℕ → Result (List Bytes)
unfolding is_delegate
del_delegate_loop addr zero i array len = ok (take len array)
del_delegate_loop addr (suc rounds) i array len =
    let skip = del_delegate_loop addr rounds (i + 1) array len in
    let drop_it =
      del_delegate_loop addr rounds (i + 1) (set array i (get_or array (len - 1) [])) (len - 1) in
    if not (is_delegate addr (take len array))
    then err not_delegate
    else if bytes_equal addr (get_or array i [])
    then (if ltb i len then drop_it else err panicked)
    else skip

with_delegates : Account → Result (List Bytes) → Result Account
with_delegates a (ok ds) = ok (record a { delegate_addrs = ds })
with_delegates a (err e) = err e

unfoldable pub del_delegate : Account → Address → Result Account
unfolding del_delegate_loop with_delegates
del_delegate a addr =
    with_delegates a (
      del_delegate_loop addr (length a.delegate_addrs) 0 a.delegate_addrs (length a.delegate_addrs))

-- A missing account is no error: `none`.
unfoldable pub get_account : Address → Exec (Option Account)
get_account address = gets (λ s. lookup address s.accounts)

balance_or_zero : Option Account → ℕ
balance_or_zero none = 0
balance_or_zero (some acc) = acc.balance

unfoldable pub account_balance : Address → Exec ℕ
unfolding get_account balance_or_zero
account_balance address = do acc ← get_account address; pure (balance_or_zero acc)

unfoldable pub set_account : Address → Account → Exec ⊤
set_account address acc = modify (λ s. record s { accounts = insert address acc s.accounts })

-- `GetAccount` followed by the test for a missing account.
unfoldable pub require_account : Address → Exec Account
unfolding get_account
require_account address = do acc ← get_account address; or_raise acc account_not_exist

abbrev pub max_url_length : ℕ
max_url_length = 2083

unfoldable pub set_account_info_uri : Address → Bytes → Exec ⊤
unfolding require_account set_account
set_account_info_uri address uri = do
  acc ← require_account address
  raise_if (bytes_equal acc.info_uri uri) same_info_uri
  raise_if (length uri == 0 || ltb max_url_length (length uri)) invalid_info_uri
  set_account address (record acc { info_uri = uri })

-- The index starts again past 2^22.
unfoldable pub next_process_index : ℕ → ℕ
next_process_index i = add32 (if ltb (2 ^ 22) i then 0 else i) 1

unfoldable pub increment_account_process_index : Address → Exec ⊤
unfolding require_account set_account next_process_index
increment_account_process_index address = do
  acc ← require_account address
  set_account address (record acc { process_index = next_process_index acc.process_index })

unfoldable pub create_account : Address → Bytes → List Bytes → ℕ → Exec ⊤
unfolding set_account
create_account address uri delegates initial_balance = set_account address (record {
  nonce = 0;
  info_uri = if not (length uri == 0) && not (ltb max_url_length (length uri)) then uri else [];
  balance = initial_balance;
  delegate_addrs = delegates;
  process_index = 0;
})

-- The loops of `SetAccountDelegate`, over one of `AddDelegate` and `DelDelegate`.
unfoldable pub each_delegate :
    (Account → Address → Result Account) → (Bytes → Address) → List Bytes → Account → Exec Account
each_delegate op to_address [] acc = pure acc
each_delegate op to_address (d ∷ ds) acc = do
  acc' ← lift (op acc (to_address d))
  each_delegate op to_address ds acc'

delegate_op : TxType → Option (Account → Address → Result Account)
delegate_op TxType.add_delegate_for_account = some add_delegate
delegate_op TxType.del_delegate_for_account = some del_delegate
delegate_op _ = none

unfoldable pub set_account_delegate : (Bytes → Address) → Address → List Bytes → TxType → Exec ⊤
unfolding require_account set_account delegate_op each_delegate
set_account_delegate to_address address delegates tx_type = do
  acc ← require_account address
  op ← or_raise (delegate_op tx_type) invalid_tx_type
  acc' ← each_delegate op to_address delegates acc
  set_account address acc'
