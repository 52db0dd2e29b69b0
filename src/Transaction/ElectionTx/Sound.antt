-- ===== src/Transaction/ElectionTx/Sound.antt =====
-- What a new election that `NewProcessTxCheck` accepts is like.
use vocdoni_node.Base.{
  ℕ, ◌≤◌, ◌≡◌, ◌∙◌, inl, inr, ap, sym, subst, true, false, Option, some, arith, Bool-cases,
  Option-cases,
}
use vocdoni_node.Base.Bytes.{Bytes}
use vocdoni_node.Chain.{State, Address, Account, Process, Result-cases, ok}
use vocdoni_node.Crypto.{Crypto}
use vocdoni_node.Process.{end_time, is_open}
use vocdoni_node.Transaction.Types.{Payload, Tx, ProcessMessage, NewProcessTx}
use vocdoni_node.Transaction.Network.{Network}
use vocdoni_node.Transaction.Faucet.{check_account_can_pay_cost}
use vocdoni_node.Transaction.Faucet.Payer.{Payer, can_pay-state, can_pay-Payer}
use vocdoni_node.Transaction.Tokens.{is_nil_tx}
use vocdoni_node.Transaction.ElectionTx.{
  get_new_process, check_fields, check_metadata_sizes, check_origin, check_times,
  check_max_census_size, check_organization, next_process_id, with_keys, admit_process,
  new_process_tx_check, tx_election_cost_from_process,
}
use vocdoni_node.Transaction.ElectionTx.Limits.{
  Timed, check_times-state, check_times-Timed, WithinLimit, limit-state, check_max-WithinLimit,
  MayCreate, organization-state, organization-MayCreate, next_id-state, metadata-state,
  fields-state, check_fields-open,
}

-- What an accepted election is like.
pub record Sound (c : Crypto) (net : Network) (vtx : Tx) (p : Process) (sender : Address)
    (s : State) : Type 0 where
  pub not_closed : is_open p.status ≡ true
  pub now : ℕ
  pub clock : s.timestamp ≡ some now
  pub not_past : now ≤ p.start_time
  pub not_over : now ≤ end_time p
  pub census : WithinLimit p s
  pub account : Account
  pub payer : Payer c vtx account sender s
  pub organization : MayCreate c p.entity_id sender s
  pub not_serial : p.envelope_type.serial ≡ false

with_keys-fields :
    (p : Process)
    → ((with_keys p).status ≡ p.status)
      × ((with_keys p).start_time ≡ p.start_time)
      × ((with_keys p).duration ≡ p.duration)
      × ((with_keys p).max_census_size ≡ p.max_census_size)
      × ((with_keys p).entity_id ≡ p.entity_id)
      × ((with_keys p).envelope_type ≡ p.envelope_type)
unfolding with_keys
with_keys-fields p =
    (ground arith, ground arith, ground arith, ground arith, ground arith, ground arith)

-- What an accepted election is like, once its times are.
record Admitted (c : Crypto) (vtx : Tx) (q r : Process) (a : Address) (s : State) : Type 0 where
  pub within : WithinLimit q s
  pub account : Account
  pub payer : Payer c vtx account a s
  pub entity : Bytes
  pub organization : MayCreate c entity a s
  pub not_serial : q.envelope_type.serial ≡ false
  pub pid : Bytes
  pub made : r ≡ with_keys (record q { entity_id = entity; process_id = pid })

admit-Admitted :
    (c : Crypto) (net : Network) (vtx : Tx) (tx : NewProcessTx) (o : Option Bytes) (q : Process)
    (s : State)
    → ((admit_process c net vtx tx o q s).1 ≡ s)
      × ((r : Process) (a : Address)
          → (admit_process c net vtx tx o q s).0 ≡ ok (r, a)
          → Admitted c vtx q r a s)
unfolding admit_process
admit-Admitted c net vtx tx o q s =
    let pl = Payload.new_process tx in
    let cost = tx_election_cost_from_process net q in
    let s₁ = limit-state net q s in
    let s₂ = can_pay-state c tx.tx_type vtx pl cost s in
    elim (Result-cases (check_max_census_size net q s).0) [
      | inr (e, l) ↦ (ground (arith, s₁, l), λ r a h. absurd (ground (arith, s₁, l, h)))
      | inl (u, l) ↦ elim (Result-cases (check_account_can_pay_cost c tx.tx_type vtx pl cost s).0) [
        | inr (e, y) ↦
            (ground (arith, s₁, l, s₂, y), λ r a h. absurd (ground (arith, s₁, l, s₂, y, h)))
        | inl ((acc, sender), y) ↦
            let s₃ = organization-state c o sender s in
            elim (Result-cases (check_organization c o sender s).0) [
              | inr (e, z) ↦ (
                ground (arith, s₁, l, s₂, y, s₃, z),
                λ r a h. absurd (ground (arith, s₁, l, s₂, y, s₃, z, h)),
              )
              | inl (entity, z) ↦
                  let named : Process = record q { entity_id = entity } in
                  let s₄ = next_id-state c net named s in
                  elim (Result-cases (next_process_id c net named s).0) [
                    | inr (e, w) ↦ (
                      ground (arith, s₁, l, s₂, y, s₃, z, s₄, w),
                      λ r a h. absurd (ground (arith, s₁, l, s₂, y, s₃, z, s₄, w, h)),
                    )
                    | inl (pid, w) ↦ elim (Bool-cases q.envelope_type.serial) [
                      | inl b ↦ (
                        ground (arith, s₁, l, s₂, y, s₃, z, s₄, w, b),
                        λ r a h. absurd (ground (arith, s₁, l, s₂, y, s₃, z, s₄, w, b, h)),
                      )
                      | inr b ↦ (
                        ground (arith, s₁, l, s₂, y, s₃, z, s₄, w, b),
                        λ r a h.
                            let same_sender : sender ≡ a =
                              ground (arith, s₁, l, s₂, y, s₃, z, s₄, w, b, h) in
                            record {
                              within = check_max-WithinLimit net q s l;
                              account = acc;
                              payer =
                                  subst (λ x. Payer c vtx acc x s) same_sender
                                    (can_pay-Payer c tx.tx_type vtx pl cost s acc sender y);
                              entity = entity;
                              organization =
                                  subst (λ x. MayCreate c entity x s) same_sender
                                    (organization-MayCreate c o sender s entity z);
                              not_serial = b;
                              pid = pid;
                              made = ground (arith, s₁, l, s₂, y, s₃, z, s₄, w, b, h);
                            },
                      )
                    ]
                  ]
            ]
      ]
    ]

assemble :
    (c : Crypto) (net : Network) (vtx : Tx) (s : State) (p q r : Process) (a : Address)
    → is_open p.status ≡ true
    → Timed p q s
    → Admitted c vtx q r a s
    → Sound c net vtx r a s
assemble c net vtx s p q r a o t ad =
    let made = ad.made in
    let k = with_keys-fields (record q { entity_id = ad.entity; process_id = ad.pid }) in
    record {
      not_closed = ground (arith, o, t.same_status, made, k);
      now = t.now;
      clock = t.clock;
      not_past = ground (arith, t.not_past, made, k);
      not_over = ground (arith, t.not_over, made, k);
      census = ground (arith, ad.within, made, k);
      account = ad.account;
      payer = ad.payer;
      organization =
          subst (λ x. MayCreate c x a s) (sym (ap (λ x. x.entity_id) made ∙ k.4)) ad.organization;
      not_serial = ground (arith, ad.not_serial, made, k);
    }

-- The check once the fields are passed.
fields_passed :
    (c : Crypto) (net : Network) (vtx : Tx) (s : State) (tx : NewProcessTx) (m : ProcessMessage)
    (p : Process)
    → is_nil_tx vtx ≡ false
    → get_new_process vtx.payload ≡ some tx
    → tx.process ≡ some m
    → (check_fields m s).0 ≡ ok p
    → ((new_process_tx_check c net vtx s).1 ≡ s)
      × ((r : Process) (a : Address)
          → (new_process_tx_check c net vtx s).0 ≡ ok (r, a)
          → Sound c net vtx r a s)
unfolding new_process_tx_check
fields_passed c net vtx s tx m p n g o f =
    let s₁ = fields-state m s in
    let s₂ = metadata-state p s in
    let s₃ = check_times-state p s in
    elim (Result-cases (check_metadata_sizes p s).0) [
      | inr (e, d) ↦ (
        ground (arith, n, g, o, s₁, f, s₂, d),
        λ r a h. absurd (ground (arith, n, g, o, s₁, f, s₂, d, h)),
      )
      | inl (u, d) ↦ elim (Result-cases (check_origin p.census_origin p.envelope_type.anonymous)) [
        | inr (e, i) ↦ (
          ground (arith, n, g, o, s₁, f, s₂, d, i),
          λ r a h. absurd (ground (arith, n, g, o, s₁, f, s₂, d, i, h)),
        )
        | inl (v, i) ↦ elim (Result-cases (check_times p s).0) [
          | inr (e, t) ↦ (
            ground (arith, n, g, o, s₁, f, s₂, d, i, s₃, t),
            λ r a h. absurd (ground (arith, n, g, o, s₁, f, s₂, d, i, s₃, t, h)),
          )
          | inl (q, t) ↦
              let (s₄, admitted) = admit-Admitted c net vtx tx m.entity_id q s in
              elim (Result-cases (admit_process c net vtx tx m.entity_id q s).0) [
                | inr (e, b) ↦ (
                  ground (arith, n, g, o, s₁, f, s₂, d, i, s₃, t, s₄, b),
                  λ r a h. absurd (ground (arith, n, g, o, s₁, f, s₂, d, i, s₃, t, s₄, b, h)),
                )
                | inl ((x, y), b) ↦ (
                  ground (arith, n, g, o, s₁, f, s₂, d, i, s₃, t, s₄, b),
                  λ r a h.
                      let q' : (admit_process c net vtx tx m.entity_id q s).0 ≡ ok (r, a) =
                        ground (arith, n, g, o, s₁, f, s₂, d, i, s₃, t, s₄, b, h) in
                      assemble c net vtx s p q r a (check_fields-open m p s f)
                        (check_times-Timed p q s t) (admitted r a q'),
                )
              ]
        ]
      ]
    ]

-- The check changes nothing, and what it accepts is sound.
pub new_process_tx_check-Sound :
    (c : Crypto) (net : Network) (vtx : Tx) (s : State)
    → ((new_process_tx_check c net vtx s).1 ≡ s)
      × ((p : Process) (a : Address)
          → (new_process_tx_check c net vtx s).0 ≡ ok (p, a)
          → Sound c net vtx p a s)
unfolding new_process_tx_check
new_process_tx_check-Sound c net vtx s = elim (Bool-cases (is_nil_tx vtx)) [
  | inl n ↦ (ground (arith, n), λ r a h. absurd (ground (arith, n, h)))
  | inr n ↦ elim (Option-cases (get_new_process vtx.payload)) [
    | inl g ↦ (ground (arith, n, g), λ r a h. absurd (ground (arith, n, g, h)))
    | inr (tx, g) ↦ elim (Option-cases tx.process) [
      | inl o ↦ (ground (arith, n, g, o), λ r a h. absurd (ground (arith, n, g, o, h)))
      | inr (m, o) ↦
          let s₁ = fields-state m s in
          elim (Result-cases (check_fields m s).0) [
            | inr (e, f) ↦ (
              ground (arith, n, g, o, s₁, f),
              λ r a h. absurd (ground (arith, n, g, o, s₁, f, h)),
            )
            | inl (p, f) ↦ fields_passed c net vtx s tx m p n g o f
          ]
    ]
  ]
]
