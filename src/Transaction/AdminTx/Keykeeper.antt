-- ===== src/Transaction/AdminTx/Keykeeper.antt =====
-- Who may add and reveal keys, and when.
use vocdoni_node.Base.{
  ℕ, ◌≤◌, ◌<◌, ◌≡◌, ◌≢◌, ◌⊎◌, inl, inr, refl, true, some, [], ◌∷◌, arith, Option-cases,
}
use vocdoni_node.Base.Lists.{length, get_elem?}
use vocdoni_node.Base.Bytes.{Bytes, bytes_equal_iff}
use vocdoni_node.Base.Dict.{lookup}
use vocdoni_node.Chain.{
  State, Process, Validator, Address, canceled, ended, results, Result-cases, ok,
}
use vocdoni_node.Crypto.{Crypto}
use vocdoni_node.TxType.{TxType}
use vocdoni_node.Process.{get_process, get_timestamp, end_time, same}
use vocdoni_node.ProcessId.{hex}
use vocdoni_node.Results.Compute.{key_keeper_max_key_index}
use vocdoni_node.Validators.{find_validator}
use vocdoni_node.Transaction.Types.{Tx, AdminTx}
use vocdoni_node.Transaction.Network.{Network}
use vocdoni_node.Transaction.Faucet.{slice}
use vocdoni_node.Transaction.AccountTx.{sender_of}
use vocdoni_node.Transaction.AdminTx.{
  get_admin, key_length, index_out, check_add_process_keys, check_reveal_process_keys, check_keys,
  is_key_type, admin_tx_check,
}

-- A public key that may be stored at the index: the process goes on, and the place is free.
pub record MayAdd (tx : AdminTx) (i : ℕ) (p : Process) : Type 0 where
  pub key : Bytes
  pub given : tx.encryption_public_key ≡ some key
  pub going_on : (p.status ≢ canceled) × (p.status ≢ ended) × (p.status ≢ results)
  pub index : (1 ≤ i) × (i ≤ key_keeper_max_key_index)
  pub free : get_elem? p.encryption_public_keys i ≡ some []

-- A private key that may be revealed at the index: the process is over, the place is free, and the
-- public key that is stored is the one that belongs to the private key.
pub record MayReveal (net : Network) (tx : AdminTx) (i : ℕ) (p : Process) (now : ℕ) : Type 0 where
  pub key : Bytes
  pub given : tx.encryption_private_key ≡ some key
  pub over : (p.status ≡ ended) ⊎ (end_time p ≤ now)
  pub index : (1 ≤ i) × (i ≤ key_keeper_max_key_index)
  pub free : get_elem? p.encryption_private_keys i ≡ some []
  pub public_key : Bytes
  pub pair : net.public_of_private (hex key) ≡ some public_key
  pub stored : get_elem? p.encryption_public_keys i ≡ some (hex public_key)

empty : (b : Bytes) → length b ≡ 0 → b ≡ []
empty [] h = refl
empty (x ∷ xs) h = absurd (omega (arith, h))

add-MayAdd :
    (net : Network) (tx : AdminTx) (i : ℕ) (p : Process) (now : ℕ) (s : State)
    → (check_keys net tx i p now TxType.add_process_keys s).0 ≡ ok tt
    → MayAdd tx i p
unfolding check_keys check_add_process_keys key_length index_out same
add-MayAdd net tx i p now s h = elim (Option-cases tx.encryption_public_key) [
  | inl e ↦ absurd (ground (arith, h, e))
  | inr (key, e) ↦ elim (Option-cases (get_elem? p.encryption_public_keys i)) [
    | inl f ↦ absurd (ground (arith, h, e, f))
    | inr (old, f) ↦
        let none_there : length old ≡ 0 = ground (arith, h, e, f) in
        let blank = empty old none_there in
        record {
          key = key;
          given = e;
          going_on = (
            λ k. ground (arith, h, e, f, k),
            λ k. ground (arith, h, e, f, k),
            λ k. ground (arith, h, e, f, k),
          );
          index = ground (arith, h, e, f);
          free = ground (arith, f, blank);
        }
  ]
]

reveal-MayReveal :
    (net : Network) (tx : AdminTx) (i : ℕ) (p : Process) (now : ℕ) (s : State)
    → (check_keys net tx i p now TxType.reveal_process_keys s).0 ≡ ok tt
    → MayReveal net tx i p now
unfolding check_keys check_reveal_process_keys key_length index_out same
reveal-MayReveal net tx i p now s h = elim (Option-cases tx.encryption_private_key) [
  | inl e ↦ absurd (ground (arith, h, e))
  | inr (key, e) ↦ elim (Option-cases (get_elem? p.encryption_private_keys i)) [
    | inl f ↦ absurd (ground (arith, h, e, f))
    | inr (old, f) ↦ elim (Option-cases (get_elem? p.encryption_public_keys i)) [
      | inl g ↦ absurd (ground (arith, h, e, f, g))
      | inr (stored, g) ↦ elim (Option-cases (net.public_of_private (hex key))) [
        | inl k ↦ absurd (ground (arith, h, e, f, g, k))
        | inr (public_key, k) ↦
            let none_there : length old ≡ 0 = ground (arith, h, e, f, g, k) in
            let blank = empty old none_there in
            let matches : hex public_key ≡ stored =
              ground (arith, h, e, f, g, k, bytes_equal_iff (hex public_key) stored) in
            record {
              key = key;
              given = e;
              over = ground (arith, h, e, f, g, k);
              index = ground (arith, h, e, f, g, k);
              free = ground (arith, f, blank);
              public_key = public_key;
              pair = k;
              stored = ground (arith, g, matches);
            }
      ]
    ]
  ]
]

-- What an accepted Admin transaction is like.
pub record Authorized (c : Crypto) (net : Network) (vtx : Tx) (sender : Address) (s : State)
    : Type 0 where
  pub tx : AdminTx
  pub sent : get_admin vtx.payload ≡ some tx
  pub signed : c.addr_from_signature (slice vtx.signed_body) (slice vtx.signature) ≡ some sender
  pub pid : Bytes
  pub names : tx.process_id ≡ some pid
  pub process : Process
  pub found : lookup pid s.processes ≡ some process
  pub needs_keys :
      (process.envelope_type.encrypted_votes ≡ true) ⊎ (process.envelope_type.anonymous ≡ true)
  pub validator : Validator
  pub of_validator : find_validator sender s ≡ some validator
  pub index : ℕ
  pub indexed : tx.key_index ≡ some index
  pub own_index : (index ≡ validator.key_index) × (0 < index)
  pub now : ℕ
  pub clock : s.timestamp ≡ some now
  pub keys :
      ((tx.tx_type ≡ TxType.add_process_keys) × MayAdd tx index process)
      ⊎ ((tx.tx_type ≡ TxType.reveal_process_keys) × MayReveal net tx index process now)

keys_of :
    (net : Network) (tx : AdminTx) (i : ℕ) (p : Process) (now : ℕ) (s : State) (t : TxType)
    → is_key_type t ≡ true
    → (check_keys net tx i p now t s).0 ≡ ok tt
    → ((t ≡ TxType.add_process_keys) × MayAdd tx i p)
      ⊎ ((t ≡ TxType.reveal_process_keys) × MayReveal net tx i p now)
unfolding is_key_type
keys_of net tx i p now s TxType.add_process_keys k h = inl (refl, add-MayAdd net tx i p now s h)
keys_of net tx i p now s TxType.reveal_process_keys k h =
    inr (refl, reveal-MayReveal net tx i p now s h)
keys_of net tx i p now s _ k h = absurd (ground (arith, k))

-- `AdminTxCheck` accepts only what a validator of the state with a key index, who signed it, asks for
-- its own index of a process that needs keys: a public key for a free place while the process is not
-- canceled, ended or with results; or, once it has ended or its time is over, the private key that
-- belongs to the public key stored there, where none was revealed.
pub admin_tx_check-Authorized :
    (c : Crypto) (net : Network) (vtx : Tx) (s : State) (sender : Address)
    → (admin_tx_check c net vtx s).0 ≡ ok sender
    → Authorized c net vtx sender s
unfolding admin_tx_check sender_of get_process get_timestamp
admin_tx_check-Authorized c net vtx s sender h = elim (Option-cases (get_admin vtx.payload)) [
  | inl e ↦ absurd (ground (arith, h, e))
  | inr (tx, a) ↦
      elim (Option-cases (c.addr_from_signature (slice vtx.signed_body) (slice vtx.signature))) [
        | inl e ↦ absurd (ground (arith, h, a, e))
        | inr (signer, b) ↦ elim (Option-cases tx.process_id) [
          | inl e ↦ absurd (ground (arith, h, a, b, e))
          | inr (pid, d) ↦ elim (Option-cases (lookup pid s.processes)) [
            | inl e ↦ absurd (ground (arith, h, a, b, d, e))
            | inr (p, f) ↦ elim (Option-cases (find_validator signer s)) [
              | inl e ↦ absurd (ground (arith, h, a, b, d, f, e))
              | inr (v, g) ↦ elim (Option-cases tx.key_index) [
                | inl e ↦ absurd (ground (arith, h, a, b, d, f, g, e))
                | inr (i, k) ↦ elim (Option-cases s.timestamp) [
                  | inl e ↦ absurd (ground (arith, h, a, b, d, f, g, k, e))
                  | inr (now, t) ↦ elim (Result-cases (check_keys net tx i p now tx.tx_type s).0) [
                    | inr (e, m) ↦ absurd (ground (arith, h, a, b, d, f, g, k, t, m))
                    | inl (u, m) ↦
                        let known : is_key_type tx.tx_type ≡ true =
                          ground (arith, h, a, b, d, f, g, k, t, m) in
                        let same_sender : signer ≡ sender =
                          ground (arith, h, a, b, d, f, g, k, t, m) in
                        record {
                          tx = tx;
                          sent = a;
                          signed = ground (arith, b, same_sender);
                          pid = pid;
                          names = d;
                          process = p;
                          found = f;
                          needs_keys = ground (arith, h, a, b, d, f, g, k, t, m);
                          validator = v;
                          of_validator = ground (arith, g, same_sender);
                          index = i;
                          indexed = k;
                          own_index = ground (arith, h, a, b, d, f, g, k, t, m);
                          now = now;
                          clock = t;
                          keys = keys_of net tx i p now s tx.tx_type known m;
                        }
                  ]
                ]
              ]
            ]
          ]
        ]
      ]
]
