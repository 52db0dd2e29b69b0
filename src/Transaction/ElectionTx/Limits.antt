-- ===== src/Transaction/ElectionTx/Limits.antt =====
-- A new election on its own: its times, its limits, its organization, and that its checks only read.
use vocdoni_node.Base.{
  ℕ, ◌≤◌, ◌<◌, ◌≡◌, ◌⊎◌, ◌∙◌, refl, inl, inr, ap, true, Option, none, some, arith, Bool-cases,
  Option-cases,
}
use vocdoni_node.Base.Bytes.{Bytes, bytes_equal, bytes_equal_iff}
use vocdoni_node.Base.Dict.{lookup}
use vocdoni_node.Chain.{State, Address, Account, Process, Result-cases, ok}
use vocdoni_node.Crypto.{Crypto}
use vocdoni_node.Account.{get_account, is_delegate}
use vocdoni_node.Process.{get_timestamp, end_time, is_open}
use vocdoni_node.Transaction.Types.{ProcessMessage}
use vocdoni_node.Transaction.Network.{Network}
use vocdoni_node.Transaction.ElectionTx.{
  check_fields, check_metadata_sizes, convert_blocks, start_now, check_times, check_max_census_size,
  check_organization, next_process_id,
}

-- The times of an election are not over.
pub record Timed (p q : Process) (s : State) : Type 0 where
  pub now : ℕ
  pub clock : s.timestamp ≡ some now
  pub not_past : now ≤ q.start_time
  pub not_over : now ≤ end_time q
  pub same_status : q.status ≡ p.status

convert-status :
    (p q : Process) (height now : ℕ) → convert_blocks p height now ≡ ok q → q.status ≡ p.status
unfolding convert_blocks
convert-status p q height now h = ground arith

start-status : (p : Process) (now : ℕ) → (start_now p now).status ≡ p.status
unfolding start_now
start-status p now = ground arith

pub check_times-state : (p : Process) (s : State) → (check_times p s).1 ≡ s
unfolding check_times get_timestamp
check_times-state p s = ground arith

pub check_times-Timed : (p q : Process) (s : State) → (check_times p s).0 ≡ ok q → Timed p q s
unfolding check_times get_timestamp
check_times-Timed p q s h = elim (Option-cases s.timestamp) [
  | inl t ↦ absurd (ground (arith, h, t))
  | inr (now, t) ↦ elim (Result-cases (convert_blocks p s.current_height now)) [
    | inr (e, k) ↦ absurd (ground (arith, h, t, k))
    | inl (r, k) ↦
        let made : q ≡ start_now r now = ground (arith, h, t, k) in
        record {
          now = now;
          clock = t;
          not_past = ground (arith, h, t, k, made);
          not_over = ground (arith, h, t, k, made);
          same_status =
              ap (λ x. x.status) made
              ∙ start-status r now
              ∙ convert-status p r s.current_height now k;
        }
  ]
]

-- The size of the census is within the limit, where there is one.
abbrev pub WithinLimit : Process → State → Type 0
WithinLimit p s =
    (0 < p.max_census_size)
    × ((limit : ℕ) × (s.max_process_size ≡ some limit)
        × ((limit ≡ 0) ⊎ (p.max_census_size ≤ limit)))

pub limit-state : (net : Network) (p : Process) (s : State) → (check_max_census_size net p s).1 ≡ s
unfolding check_max_census_size
limit-state net p s = ground arith

pub check_max-WithinLimit :
    (net : Network) (p : Process) (s : State)
    → (check_max_census_size net p s).0 ≡ ok tt
    → WithinLimit p s
unfolding check_max_census_size
check_max-WithinLimit net p s h = elim (Option-cases s.max_process_size) [
  | inl e ↦ absurd (ground (arith, h, e))
  | inr (limit, e) ↦ (ground (arith, h, e), (limit, e, ground (arith, h, e)))
]

-- The organization is the sender, or one that it is a delegate of.
abbrev pub MayCreate : Crypto → Bytes → Address → State → Type 0
MayCreate c entity sender s =
    (entity ≡ sender)
    ⊎ ((acc : Account) × (lookup (c.bytes_to_address entity) s.accounts ≡ some acc)
        × (is_delegate sender acc.delegate_addrs ≡ true))

pub organization-state :
    (c : Crypto) (o : Option Bytes) (sender : Address) (s : State)
    → (check_organization c o sender s).1 ≡ s
unfolding check_organization get_account
organization-state c none sender s = refl
organization-state c (some e) sender s = ground arith

pub organization-MayCreate :
    (c : Crypto) (o : Option Bytes) (sender : Address) (s : State) (entity : Bytes)
    → (check_organization c o sender s).0 ≡ ok entity
    → MayCreate c entity sender s
unfolding check_organization get_account
organization-MayCreate c none sender s entity h = inl (ground (arith, h))
organization-MayCreate c (some e) sender s entity h = elim (Bool-cases (bytes_equal e sender)) [
  | inl b ↦ inl (ground (arith, h, b, bytes_equal_iff e sender))
  | inr b ↦ elim (Option-cases (lookup (c.bytes_to_address e) s.accounts)) [
    | inl n ↦ absurd (ground (arith, h, b, n))
    | inr (acc, n) ↦
        let same_entity : e ≡ entity = ground (arith, h, b, n) in
        inr (acc, ground (arith, n, same_entity), ground (arith, h, b, n))
  ]
]

pub next_id-state :
    (c : Crypto) (net : Network) (p : Process) (s : State) → (next_process_id c net p s).1 ≡ s
unfolding next_process_id
next_id-state c net p s = ground arith

pub metadata-state : (p : Process) (s : State) → (check_metadata_sizes p s).1 ≡ s
unfolding check_metadata_sizes
metadata-state p s = ground arith

pub fields-state : (m : ProcessMessage) (s : State) → (check_fields m s).1 ≡ s
unfolding check_fields
fields-state m s = ground arith

pub check_fields-open :
    (m : ProcessMessage) (p : Process) (s : State)
    → (check_fields m s).0 ≡ ok p
    → is_open p.status ≡ true
unfolding check_fields
check_fields-open m p s h = ground arith
