-- ===== src/Calls/Liveness.antt =====
-- In a merge-free history tokens are numbered without a gap above the total supply, so a lock can
-- always be opened.
use casper_ve_cep.Prelude.{
  ℕ, ◌+◌, ◌^◌, ◌≤◌, ◌<◌, ◌≡◌, refl, false, some, none, [], ◌∷◌, arith, add_u64, length, inl, inr,
}
use casper_ve_cep.Exec.{done, Outcome-cases}
use casper_ve_cep.Host.{Env, Key, immediate_caller, null_key}
use casper_ve_cep.Host.Addresses.{NoCollision}
use casper_ve_cep.Token.State.{Token, TokenId, owners_get}
use casper_ve_cep.Token.WellFormed.{IsWellFormed}
use casper_ve_cep.Token.Single.{mint-returned}
use casper_ve_cep.Escrow.State.{max_time}
use casper_ve_cep.Votes.Null.{IsTagged}
use casper_ve_cep.Contract.World.{World}
use casper_ve_cep.Contract.Locks.{
  now, unlock_time_of, increase_amount_for, increase_unlock_time, increase_amount, create_lock_for,
  create_lock, deposit_for,
}
use casper_ve_cep.Contract.Roles.{delegate}
use casper_ve_cep.Contract.Delegates.{delegate-run}
use casper_ve_cep.Contract.Tokens.{
  deposit_for-token, increase_amount_for-token, increase_amount-token, increase_unlock_time-token,
  Minted, create_lock-Minted, create_lock_for-Minted,
}
use casper_ve_cep.Contract.Accepted.{IsNumbered, IsPayable, IsReady, create_lock-accepted}
use casper_ve_cep.Calls.Signatures.{EscrowCall, Call, Value}
use casper_ve_cep.Calls.Dispatch.{Context, History, at, run_escrow, run, execute}
use casper_ve_cep.Calls.Quiet.{returning-done, run_escrow-Quiet}
use casper_ve_cep.Calls.Refinement.{is_merge}
use casper_ve_cep.Calls.Ownership.{Names, IsSound, run-IsSound, token-Kept}
use casper_ve_cep.Calls.Funding.{IsMergeFree}
use casper_ve_cep.Calls.Histories.{
  NoCollision-at, IsSound-at, IsSound-from, IsWithin, execute-IsSound,
}

-- The numbering is kept, and the total supply has grown by at most one.
record Counted (env : Env) (s s' : Token) : Type 0 where
  numbered :
      ((id : TokenId) → s.total_supply < id → owners_get env s id ≡ none)
      → (id : TokenId) → s'.total_supply < id
      → owners_get env s' id ≡ none
  grown : s'.total_supply ≤ s.total_supply + 1

same-Counted : (env : Env) (s s' : Token) → s' ≡ s → Counted env s s'
same-Counted env s s' e = rw e (record { numbered = λ f. f; grown = omega arith })

module _ {env : Env} {InUse : Key → Type 0} (free : NoCollision env InUse)
    (caller_in_use : (k : Key) → immediate_caller env ≡ some k → InUse k) (w w' : World)
    (valid : IsWellFormed env InUse w.token) (small : w.token.total_supply + 1 < 2 ^ 64) where
  Minted-Counted :
      (k : Key) → InUse k → Minted env k w.token w'.token → Counted env w.token w'.token
  Minted-Counted k p (ids, minted) =
      let (new, kept, owners, counted) =
        mint-returned free k p (add_u64 w.token.total_supply 1) w.token w'.token valid ids minted in
      record { numbered = λ f id above. ground (arith, owners id, f id); grown = omega arith }

  escrow-Counted :
      (c : EscrowCall) {v : Value}
      → is_merge (Call.escrow c) ≡ false
      → Names InUse (Call.escrow c)
      → run_escrow env c w ≡ done v w'
      → Counted env w.token w'.token
  unfolding run_escrow
  escrow-Counted (EscrowCall.increase_amount_for id amount) q n h =
      let (u, e) = returning-done _ (increase_amount_for env id amount) w h in
      same-Counted env w.token w'.token (increase_amount_for-token env w w' id amount e)
  escrow-Counted (EscrowCall.merge from to) q n h = cc
  escrow-Counted (EscrowCall.increase_unlock_time id amount) q n h =
      let (u, e) = returning-done _ (increase_unlock_time env id amount) w h in
      same-Counted env w.token w'.token (increase_unlock_time-token env w w' id amount e)
  escrow-Counted (EscrowCall.increase_amount id amount) q n h =
      let (u, e) = returning-done _ (increase_amount env id amount) w h in
      same-Counted env w.token w'.token (increase_amount-token env w w' id amount e)
  escrow-Counted (EscrowCall.create_lock_for amount lock_duration to) q n h =
      let (u, e) = returning-done _ (create_lock_for env amount lock_duration to) w h in
      Minted-Counted to n (create_lock_for-Minted env amount lock_duration to w w' e)
  escrow-Counted (EscrowCall.create_lock amount lock_duration) q n h =
      let (u, e) = returning-done _ (create_lock env amount lock_duration) w h in
      let (caller, called, minted) = create_lock-Minted env amount lock_duration w w' e in
      Minted-Counted caller (caller_in_use caller called) minted
  escrow-Counted (EscrowCall.deposit_for id amount) q n h =
      let (u, e) = returning-done _ (deposit_for env id amount) w h in
      same-Counted env w.token w'.token (deposit_for-token env w w' id amount e)
  escrow-Counted (EscrowCall.delegate x) q n h =
      let (u, e) = returning-done _ (delegate env x) w h in
      let (caller, called, votes, same, run_) = delegate-run env x w w' e in
      same-Counted env w.token w'.token (rw same refl)
  escrow-Counted c q n h =
      same-Counted env w.token w'.token (run_escrow-Quiet env w w' c refl h).token

  run-Counted :
      (c : Call) {v : Value}
      → is_merge c ≡ false
      → Names InUse c
      → run env c w ≡ done v w'
      → Counted env w.token w'.token
  unfolding run
  run-Counted (Call.token c) q n h =
      let (k, same) = token-Kept free caller_in_use w w' c n valid h in
      record {
        numbered = λ f id above. k.unowned id (f id (omega (arith, k.supply)));
        grown = omega (arith, k.supply);
      }
  run-Counted (Call.escrow c) q n h = escrow-Counted c q n h

module _ {env : Env} {InUse : Key → Type 0} (free : NoCollision env InUse) where
  pub execute-IsNumbered :
      (h : History) (w : World)
      → IsWithin env InUse h
      → IsMergeFree h
      → IsSound env InUse w
      → IsNumbered env w
      → w.token.total_supply + length h < 2 ^ 64
      → IsNumbered env (execute env h w)
  unfolding execute
  execute-IsNumbered [] w within unmerged s numbered small = numbered
  execute-IsNumbered ((c, call) ∷ h) w (caller, named, within) (first, unmerged) s numbered small =
      elim (Outcome-cases (run (at env c) call w)) [
        | inl (v, w', e) ↦
            let before = IsSound-at c w s in
            let next = run-IsSound (NoCollision-at c free) caller w w' call named before e in
            let n =
              run-Counted (NoCollision-at c free) caller w w' before.token (omega arith) call first
                named e in
            rw (execute, e)
              (execute-IsNumbered h w' within unmerged (IsSound-from c w' next)
                (n.numbered numbered) (omega (arith, n.grown)))
        | inr (inl (x, w', e)) ↦
            rw (execute, e) (execute-IsNumbered h w within unmerged s numbered (omega arith))
        | inr (inr (r, e)) ↦
            rw (execute, e) (execute-IsNumbered h w within unmerged s numbered (omega arith))
      ]

  -- After any merge-free history of fewer calls than the counter has room for, by addresses in use
  -- that name addresses in use as holders, from a well-formed and numbered storage with an open
  -- guard, `create_lock` goes through in any context in which the caller is an address in use that
  -- has never delegated, with a positive amount and a duration within the bounds, if the payment is
  -- accepted, the counters have room, the ERC-20 token is a contract and the null address has a
  -- tagged encoding: nothing that others did before can keep the caller from opening a lock.
  pub execute-create_lock :
      (h : History) (w : World)
      → IsWithin env InUse h
      → IsMergeFree h
      → IsSound env InUse w
      → IsNumbered env w
      → w.token.total_supply + length h < 2 ^ 64
      → IsTagged env null_key
      → (c : Context) (caller : Key) → InUse caller
      → (contract value lock_duration : ℕ) → IsPayable (at env c) caller contract value
      → IsReady (at env c) caller contract (execute env h w)
      → 0 < value
      → now (at env c) < unlock_time_of (now (at env c)) lock_duration
      → unlock_time_of (now (at env c)) lock_duration ≤ add_u64 (now (at env c)) max_time
      → (w' : World) × (create_lock (at env c) value lock_duration (execute env h w) ≡ done tt w')
  execute-create_lock h w within unmerged s numbered small tagged c caller q contract value
        lock_duration p ready paid later bounded =
      let sound = execute-IsSound free h w within s in
      create_lock-accepted (NoCollision-at c free) tagged caller q contract value lock_duration p
        (execute env h w) (IsSound-at c (execute env h w) sound).token
        (execute-IsNumbered h w within unmerged s numbered small) ready sound.unlocked paid later
        bounded
