-- ===== src/Contract/Create.antt =====
-- What `_create_lock` has done when it returns (ve/src/vedata.rs).
use casper_ve_cep.Prelude.{
  ℕ, ◌%◌, ◌≤◌, ◌<◌, ◌≡◌, refl, ◌∙◌, ap, ap₂, sym, ◌++◌, List, [], ◌∷◌, arith, add_u64, add_u128,
  inl, inr, some,
}
use casper_ve_cep.Exec.{done, Outcome-cases, narrow}
use casper_ve_cep.Host.{Env, Key, null_key, immediate_caller, self_key}
use casper_ve_cep.Token.State.{TokenId}
use casper_ve_cep.Token.Cep47.{mint}
use casper_ve_cep.Escrow.State.{Escrow, get_locked_balance, week, max_time, create_lock_type}
use casper_ve_cep.Votes.State.{Votes, delegates_of}
use casper_ve_cep.Votes.Delegation.{move_token_delegates}
use casper_ve_cep.Contract.World.{World, TokenTransfer}
use casper_ve_cep.Contract.Locks.{
  now, deposited, unlock_time_of, deposit_for_internal, create_lock_internal,
}
use casper_ve_cep.Contract.Deposits.{deposit_for_internal-Deposited}

-- The new token has been entered for the representative of its receiver.
abbrev pub Entered : Env → Key → ℕ → Votes → Votes → Type 0
Entered env to id v v' =
    (dst : Key) × (v₁ : Votes) × (delegates_of env to v ≡ done dst v₁)
    × (move_token_delegates env null_key dst id v₁ ≡ done tt v')

module _ (env : Env) (value lock_duration : ℕ) (to : Key) (id : ℕ) (w w' : World) where
  pub create_lock_internal-tests :
      create_lock_internal env value lock_duration to w ≡ done id w'
      → (0 < value)
        × (now env < unlock_time_of (now env) lock_duration)
        × (unlock_time_of (now env) lock_duration ≤ add_u64 (now env) max_time)
        × (id ≡ add_u64 w.token.total_supply 1)
  unfolding create_lock_internal narrow
  create_lock_internal-tests h = ground arith

  -- The lock is opened by a mint, a move of delegates and a deposit, in that order.
  pub create_lock_internal-deposit :
      create_lock_internal env value lock_duration to w ≡ done id w'
      → (ids : List TokenId) × (w₁ : World) × (mint env to (id ∷ []) ([] ∷ []) w.token
          ≡ done ids w₁.token)
        × (w₁.escrow ≡ w.escrow)
        × (w₁.transfers ≡ w.transfers)
        × Entered env to id w.votes w₁.votes
        × (deposit_for_internal env id value
              (unlock_time_of (now env) lock_duration)
              (get_locked_balance w.escrow id)
              create_lock_type
              w₁
            ≡ done tt w')
  unfolding create_lock_internal narrow
  create_lock_internal-deposit h =
      let (p, q, r, named) = create_lock_internal-tests h in
      elim (Outcome-cases (mint env to (add_u64 w.token.total_supply 1 ∷ []) ([] ∷ []) w.token)) [
        | inr (inl (e, t, bad)) ↦ absurd (ground arith)
        | inr (inr (f, bad)) ↦ absurd (ground arith)
        | inl (ids, t, minted) ↦ elim (Outcome-cases (delegates_of env to w.votes)) [
          | inr (inl (e, v, bad)) ↦ absurd (ground arith)
          | inr (inr (f, bad)) ↦ absurd (ground arith)
          | inl (dst, v₁, found) ↦
              elim (Outcome-cases
                (move_token_delegates env null_key dst (add_u64 w.token.total_supply 1) v₁)) [
                  | inr (inl (e, v, bad)) ↦ absurd (ground arith)
                  | inr (inr (f, bad)) ↦ absurd (ground arith)
                  | inl (done_, v₂, moved) ↦ (
                    ids,
                    record w { token = t; votes = v₂ },
                    rw named minted,
                    refl,
                    refl,
                    (dst, v₁, found, rw named moved),
                    rw named (ground arith),
                  )
                ]
        ]
      ]

-- A lock that `_create_lock` has opened.
pub record Created (env : Env) (value lock_duration : ℕ) (to : Key) (id : ℕ) (w w' : World)
    : Type 0 where
  pub named : id ≡ add_u64 w.token.total_supply 1
  pub paid : 0 < value
  pub later : now env < unlock_time_of (now env) lock_duration
  pub bounded : unlock_time_of (now env) lock_duration ≤ add_u64 (now env) max_time
  pub whole_weeks : unlock_time_of (now env) lock_duration % week ≡ 0
  pub minted : (ids : List TokenId) × (mint env to (id ∷ []) ([] ∷ []) w.token ≡ done ids w'.token)
  pub lock :
      get_locked_balance w'.escrow id
      ≡ deposited value (unlock_time_of (now env) lock_duration) (get_locked_balance w.escrow id)
  pub supply : w'.escrow.ve_supply ≡ add_u128 w.escrow.ve_supply value
  pub drawn :
      (from recipient : Key) × (immediate_caller env ≡ some from)
      × (self_key env ≡ some recipient)
      × (w'.transfers
          ≡ w.transfers
            ++ record {
              contract = w.escrow.token_contract;
              from = from;
              recipient = recipient;
              amount = value;
              locked = w.escrow.is_locked;
            }
              ∷ [])

module _ (env : Env) (value lock_duration : ℕ) (to : Key) (id : ℕ) (w w' : World) where
  -- When `_create_lock` returns: the value is positive, the unlock time is a whole number of weeks, in
  -- the future and at most `MAXTIME` away, the token numbered after the total supply has been minted
  -- for the receiver, its lock has grown by the value to that end, the supply has grown by the value,
  -- and exactly the value has been drawn from the caller to the contract.
  pub create_lock_internal-Created :
      create_lock_internal env value lock_duration to w ≡ done id w'
      → Created env value lock_duration to id w w'
  create_lock_internal-Created h =
      let (p, q, r, named) = create_lock_internal-tests env value lock_duration to id w w' h in
      let (ids, w₁, minted, same, before, entered, run) =
        create_lock_internal-deposit env value lock_duration to id w w' h in
      let d =
        deposit_for_internal-Deposited env id value (unlock_time_of (now env) lock_duration)
          (get_locked_balance w.escrow id) create_lock_type w₁ w' run in
      record {
        named = named;
        paid = p;
        later = q;
        bounded = r;
        whole_weeks = omega arith;
        minted = (ids, minted ∙ ap (done ids) (sym d.token));
        lock = d.lock;
        supply = d.supply ∙ ap (λ (e : Escrow). add_u128 e.ve_supply value) same;
        drawn = elim d.drawn [
          | inl (idle, still) ↦ absurd (ground arith)
          | inr (due, from, recipient, called, self, moved) ↦ (
            from,
            recipient,
            called,
            self,
            moved
                ∙ ap₂
                    (λ (e : Escrow) (ts : List TokenTransfer).
                      ts
                      ++ record {
                        contract = e.token_contract;
                        from = from;
                        recipient = recipient;
                        amount = value;
                        locked = e.is_locked;
                      }
                        ∷ [])
                    same before,
          )
        ];
      }
