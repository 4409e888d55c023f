-- ===== src/Calls/Roles.antt =====
-- Who changes what belongs to the team and to the voter, over histories of calls.
use casper_ve_cep.Prelude.{◌≡◌, refl, Bool-cases, true, false, [], ◌∷◌, inl, inr, ap, ◌∙◌}
use casper_ve_cep.Exec.{done, Outcome-cases}
use casper_ve_cep.Host.{Env, Key}
use casper_ve_cep.Escrow.CheckPoint.Frame.{roles_of}
use casper_ve_cep.Contract.World.{World}
use casper_ve_cep.Contract.Locks.{
  increase_amount_for, increase_unlock_time, increase_amount, create_lock_for, create_lock,
  deposit_for, merge,
}
use casper_ve_cep.Contract.Roles.{delegate}
use casper_ve_cep.Contract.Delegates.{delegate-run}
use casper_ve_cep.Contract.Access.{
  called_by, TeamKept, VoterKept, team-kept, voter-kept, deposit_for-roles,
  increase_amount_for-roles, increase_amount-roles, increase_unlock_time-roles, create_lock-roles,
  create_lock_for-roles, merge-roles,
}
use casper_ve_cep.Calls.Signatures.{EscrowCall, Call, Value}
use casper_ve_cep.Calls.Dispatch.{History, at, run_escrow, run, execute}
use casper_ve_cep.Calls.TokenCalls.{names_any, run_token-rule}
use casper_ve_cep.Calls.Quiet.{is_active, returning-done, run_escrow-Quiet}

module _ (env : Env) (w w' : World) where
  -- A call that moves locks or votes leaves the roles alone.
  pub active-roles :
      (c : EscrowCall) {v : Value}
      → is_active c ≡ true
      → run_escrow env c w ≡ done v w'
      → roles_of w'.escrow ≡ roles_of w.escrow
  unfolding run_escrow
  active-roles (EscrowCall.deposit_for id amount) q h =
      let (u, e) = returning-done _ (deposit_for env id amount) w h in
      deposit_for-roles env w w' id amount e
  active-roles (EscrowCall.increase_amount_for id amount) q h =
      let (u, e) = returning-done _ (increase_amount_for env id amount) w h in
      increase_amount_for-roles env w w' id amount e
  active-roles (EscrowCall.increase_amount id amount) q h =
      let (u, e) = returning-done _ (increase_amount env id amount) w h in
      increase_amount-roles env w w' id amount e
  active-roles (EscrowCall.increase_unlock_time id lock_duration) q h =
      let (u, e) = returning-done _ (increase_unlock_time env id lock_duration) w h in
      increase_unlock_time-roles env w w' id lock_duration e
  active-roles (EscrowCall.create_lock amount lock_duration) q h =
      let (u, e) = returning-done _ (create_lock env amount lock_duration) w h in
      create_lock-roles env w w' amount lock_duration e
  active-roles (EscrowCall.create_lock_for amount lock_duration to) q h =
      let (u, e) = returning-done _ (create_lock_for env amount lock_duration to) w h in
      create_lock_for-roles env w w' amount lock_duration to e
  active-roles (EscrowCall.merge from to) q h =
      let (u, e) = returning-done _ (merge env from to) w h in merge-roles env w w' from to e
  active-roles (EscrowCall.delegate k) q h =
      let (u, e) = returning-done _ (delegate env k) w h in
      let (caller, called, votes, same, run_) = delegate-run env k w w' e in
      ap (λ (x : World). roles_of x.escrow) same
  active-roles _ q h = absurd cc

  run-kept :
      (c : Call) {v : Value}
      → run env c w ≡ done v w'
      → (called_by env w.escrow.team ≡ false → TeamKept w.escrow w'.escrow)
        × (called_by env w.escrow.voter ≡ false → VoterKept w.escrow w'.escrow)
  unfolding run
  run-kept (Call.escrow c) h = elim (Bool-cases (is_active c)) [
    | inl active ↦
        let same = active-roles c active h in
        (λ _. team-kept w.escrow w'.escrow same, λ _. voter-kept w.escrow w'.escrow same)
    | inr quiet ↦ let q = run_escrow-Quiet env w w' c quiet h in (q.team, q.voter)
  ]
  run-kept (Call.token c) h =
      let (t, same, still, voted) =
        run_token-rule env {Named = λ k. Unit {0}} (λ s s'. Unit {0}) (λ s. tt) (λ id m s s' e. tt)
          (λ k r ids s s' p' q e. tt) (λ spender ids s s' e. tt) (λ k e. tt) c w w' (names_any c)
          h in
      (
        λ _. team-kept w.escrow w'.escrow (ap roles_of same),
        λ _. voter-kept w.escrow w'.escrow (ap roles_of same),
      )

-- No call of the history is made by `k`.
abbrev pub IsWithout : Env → Key → History → Type 0
IsWithout env k [] = Unit {0}
IsWithout env k ((c, call) ∷ h) = (called_by (at env c) k ≡ false) × IsWithout env k h

-- After any history of calls in which the team makes none, the team and the art proxy are what they
-- were: nobody but the team appoints a team or an art proxy.
pub execute-TeamKept :
    (env : Env) (h : History) (w : World)
    → IsWithout env w.escrow.team h
    → ((execute env h w).escrow.team ≡ w.escrow.team)
      × ((execute env h w).escrow.art_proxy_contract ≡ w.escrow.art_proxy_contract)
unfolding execute
execute-TeamKept env [] w p = (refl, refl)
execute-TeamKept env ((c, call) ∷ h) w (stranger, p) =
    elim (Outcome-cases (run (at env c) call w)) [
      | inl (v, w', e) ↦
          let (team, proxy) = (run-kept (at env c) w w' call e).0 stranger in
          let later = execute-TeamKept env h w' (rw team p) in
          rw (execute, e) (later.0 ∙ team, later.1 ∙ proxy)
      | inr (inl (x, w', e)) ↦ rw (execute, e) (execute-TeamKept env h w p)
      | inr (inr (r, e)) ↦ rw (execute, e) (execute-TeamKept env h w p)
    ]

-- After any history of calls in which the voter makes none, the voter, the marks of the tokens that
-- have voted and the attachments are what they were: nobody but the voter appoints a voter, marks a
-- token or attaches one.
pub execute-VoterKept :
    (env : Env) (h : History) (w : World)
    → IsWithout env w.escrow.voter h
    → ((execute env h w).escrow.voter ≡ w.escrow.voter)
      × ((execute env h w).escrow.voted ≡ w.escrow.voted)
      × ((execute env h w).escrow.attachments ≡ w.escrow.attachments)
unfolding execute
execute-VoterKept env [] w p = (refl, refl, refl)
execute-VoterKept env ((c, call) ∷ h) w (stranger, p) =
    elim (Outcome-cases (run (at env c) call w)) [
      | inl (v, w', e) ↦
          let (voter, voted, attachments) = (run-kept (at env c) w w' call e).1 stranger in
          let later = execute-VoterKept env h w' (rw voter p) in
          rw (execute, e) (later.0 ∙ voter, later.1 ∙ voted, later.2 ∙ attachments)
      | inr (inl (x, w', e)) ↦ rw (execute, e) (execute-VoterKept env h w p)
      | inr (inr (r, e)) ↦ rw (execute, e) (execute-VoterKept env h w p)
    ]
