-- ===== src/Balance/Outcomes.antt =====
-- How a transfer and the payment of a fee can end: refused, with nothing written, or done, with the
-- accounts that were read and those that were written.
use vocdoni_node.Base.{ℕ, ◌≡◌, ◌⊎◌, inl, inr, some, arith, Option-cases, Bool-cases, ◌==◌}
use vocdoni_node.Base.Words.{add32}
use vocdoni_node.Base.Dict.{lookup, insert}
use vocdoni_node.Chain.{
  Account, Address, Error, Exec, ⊤, State, ok, err, Result-cases, account_not_exist,
  no_burn_account,
}
use vocdoni_node.Account.{transfer}
use vocdoni_node.Balance.{burn_address, transfer_balance, spend_fee}

-- The call failed and wrote nothing.
pub record Refused (call : Exec ⊤) (s : State) : Type 0 where
  pub error : Error
  pub ends : call s ≡ (err error, s)

-- The call took `x` and `y` to `x'` and `y'`, which it wrote.
pub record Moved (from to : Address) (n : ℕ) (s : State) : Type 0 where
  pub x : Account
  pub y : Account
  pub x' : Account
  pub y' : Account
  pub from_found : lookup from s.accounts ≡ some x
  pub to_found : lookup to s.accounts ≡ some y
  pub moved : transfer x (some y) n ≡ ok (x', y')

abbrev pub write_pair : Address → Account → Address → Account → State → State
write_pair j x k y s = record s { accounts = insert k y (insert j x s.accounts) }

pub transfer_balance-cases :
    (from to : Address) (n : ℕ) (s : State)
    → Refused (transfer_balance from to n) s
      ⊎ ((m : Moved from to n s) × (transfer_balance from to n s
            ≡ (ok tt, write_pair from m.x' to m.y' s)))
unfolding transfer_balance
transfer_balance-cases from to n s = elim (Option-cases (lookup from s.accounts)) [
  | inl e ↦ inl (record { error = account_not_exist; ends = ground (arith, e) })
  | inr (x, hx) ↦ elim (Option-cases (lookup to s.accounts)) [
    | inl e ↦ inl (record { error = account_not_exist; ends = ground (arith, e, hx) })
    | inr (y, hy) ↦ elim (Result-cases (transfer x (some y) n)) [
      | inr (e, he) ↦ inl (record { error = e; ends = ground (arith, hx, hy, he) })
      | inl ((x', y'), he) ↦ inr (
        record { x = x; y = y; x' = x'; y' = y'; from_found = hx; to_found = hy; moved = he },
        ground (arith, hx, hy, he),
      )
    ]
  ]
]

abbrev pub bump : Account → Account
bump x = record x { nonce = add32 x.nonce 1 }

-- A fee of zero.
pub record Free (a : Address) (fee : ℕ) (s : State) : Type 0 where
  pub x : Account
  pub found : lookup a s.accounts ≡ some x
  pub zero : fee ≡ 0
  pub ends : spend_fee a fee s ≡ (ok tt, record s { accounts = insert a (bump x) s.accounts })

pub data FeeOutcome (a : Address) (fee : ℕ) (s : State) : Type 0 where
  refused : Refused (spend_fee a fee) s → FeeOutcome a fee s
  free : Free a fee s → FeeOutcome a fee s
  paid :
      (m : Moved a burn_address fee s)
      → spend_fee a fee s ≡ (ok tt, write_pair burn_address m.y' a (bump m.x') s)
      → FeeOutcome a fee s

pub spend_fee-cases : (a : Address) (fee : ℕ) (s : State) → FeeOutcome a fee s
unfolding spend_fee
spend_fee-cases a fee s = elim (Option-cases (lookup a s.accounts)) [
  | inl e ↦ refused (record { error = account_not_exist; ends = ground (arith, e) })
  | inr (x, hx) ↦ elim (Bool-cases (fee == 0)) [
    | inl z ↦ free (record { x = x; found = hx; zero = ground arith; ends = ground (arith, hx, z) })
    | inr nz ↦ elim (Option-cases (lookup burn_address s.accounts)) [
      | inl e ↦ refused (record { error = no_burn_account; ends = ground (arith, e, hx, nz) })
      | inr (y, hy) ↦ elim (Result-cases (transfer x (some y) fee)) [
        | inr (e, he) ↦ refused (record { error = e; ends = ground (arith, hx, hy, he, nz) })
        | inl ((x', y'), he) ↦
            paid
              (record {
                x = x;
                y = y;
                x' = x';
                y' = y';
                from_found = hx;
                to_found = hy;
                moved = he;
              })
              (ground (arith, hx, hy, he, nz))
      ]
    ]
  ]
]
