-- ===== src/Contract/Delegates.antt =====
-- The entry point `delegate` of ve/src/vedata.rs.
use casper_ve_cep.Prelude.{◌≡◌, some, arith, inl, inr, Option-cases}
use casper_ve_cep.Exec.{done, Outcome-cases}
use casper_ve_cep.Host.{Env, Key, immediate_caller, get_immediate_caller_key}
use casper_ve_cep.Votes.State.{Votes}
use casper_ve_cep.Votes.Delegation.{delegate_to}
use casper_ve_cep.Contract.World.{World}
use casper_ve_cep.Contract.Roles.{delegate}

-- `delegate` runs `_delegate` for the caller and changes the votes alone.
pub delegate-run :
    (env : Env) (delegatee : Key) (w w' : World)
    → delegate env delegatee w ≡ done tt w'
    → (caller : Key) × (immediate_caller env ≡ some caller)
      × (v : Votes) × (w' ≡ record w { votes = v })
      × (delegate_to env w.token caller delegatee w.votes ≡ done tt v)
unfolding delegate get_immediate_caller_key
delegate-run env delegatee w w' h = elim (Option-cases (immediate_caller env)) [
  | inl missing ↦ absurd (ground arith)
  | inr (caller, called) ↦ elim (Outcome-cases (delegate_to env w.token caller delegatee w.votes)) [
    | inr (inl (e, t, bad)) ↦ absurd (ground arith)
    | inr (inr (f, bad)) ↦ absurd (ground arith)
    | inl (x, v, run) ↦ (caller, called, v, ground arith, run)
  ]
]
