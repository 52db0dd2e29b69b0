-- ===== src/Account/Supply.antt =====
-- The sum of the balances of all accounts, and their bounds, under the writes of the account tree.
use vocdoni_node.Base.{ℕ, ◌+◌, ◌<◌, ◌≡◌, none, some, [], ◌∷◌, arith}
use vocdoni_node.Base.Bytes.{Bytes}
use vocdoni_node.Base.Words.{u64_mod}
use vocdoni_node.Base.Dict.{Dict, lookup, insert}
use vocdoni_node.Chain.{Account, State}

unfoldable pub total : Dict Account → ℕ
total [] = 0
total ((_, acc) ∷ d) = acc.balance + total d

-- All the tokens of the chain.
abbrev pub supply : State → ℕ
supply s = total s.accounts

-- Every balance is a `uint64`.
abbrev pub Fits : Dict Account → Type 0
Fits [] = Unit
Fits ((_, acc) ∷ d) = (acc.balance < u64_mod) × Fits d

pub total-insert :
    (k : Bytes) (acc old : Account) (d : Dict Account)
    → lookup k d ≡ some old
    → total (insert k acc d) + old.balance ≡ total d + acc.balance
unfolding total lookup insert
total-insert k acc old [] h = ground arith
total-insert k acc old ((j, x) ∷ d) h = ground (arith, total-insert k acc old d)

pub total-insert_new :
    (k : Bytes) (acc : Account) (d : Dict Account)
    → lookup k d ≡ none
    → total (insert k acc d) ≡ total d + acc.balance
unfolding total lookup insert
total-insert_new k acc [] h = omega arith
total-insert_new k acc ((j, x) ∷ d) h = ground (arith, total-insert_new k acc d)

pub Fits-lookup :
    (k : Bytes) (acc : Account) (d : Dict Account)
    → Fits d
    → lookup k d ≡ some acc
    → acc.balance < u64_mod
unfolding lookup
Fits-lookup k acc [] f h = ground arith
Fits-lookup k acc ((j, x) ∷ d) f h = ground (arith, Fits-lookup k acc d)

pub Fits-insert :
    (k : Bytes) (acc : Account) (d : Dict Account)
    → Fits d
    → acc.balance < u64_mod
    → Fits (insert k acc d)
unfolding insert
Fits-insert k acc [] f h = (h, tt)
Fits-insert k acc ((j, x) ∷ d) f h = ground (arith, Fits-insert k acc d)
