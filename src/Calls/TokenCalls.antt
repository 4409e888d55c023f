-- ===== src/Calls/TokenCalls.antt =====
-- The calls of the token's entry points (ve/bin/ve.rs) change the token alone.
use casper_ve_cep.Prelude.{◌≡◌, refl, arith, some, List, inl, inr}
use casper_ve_cep.Exec.{Exec, done, narrow, Outcome-cases, result_or_revert, >>=-done}
use casper_ve_cep.Host.{Env, Key, immediate_caller, get_immediate_caller_key}
use casper_ve_cep.Token.State.{Token, TokenId, Meta}
use casper_ve_cep.Token.Cep47.{transfer, transfer_from, approve, set_token_meta}
use casper_ve_cep.Token.OwnedTokens.{get_balances}
use casper_ve_cep.Contract.World.{World, on_token}
use casper_ve_cep.Calls.Signatures.{TokenCall, Value}
use casper_ve_cep.Calls.Dispatch.{run_token, ending}

-- What an action of the token leaves.
abbrev pub OnToken : (Token → Type 0) → World → World → Type 0
OnToken P w w' =
    P w'.token × (w'.escrow ≡ w.escrow) × (w'.transfers ≡ w.transfers) × (w'.votes ≡ w.votes)

-- A wrapper of a token's action that returns has run the action, and the rest stands.
pub on_token-run :
    (m : Exec Token (Unit {0})) (w : World) {v : Value} {w' : World}
    → ending (on_token (result_or_revert m)) w ≡ done v w'
    → OnToken (λ t. m w.token ≡ done tt t) w w'
on_token-run m w h = elim (Outcome-cases (m w.token)) [
  | inl (a, t, e) ↦ (ground arith, ground arith, ground arith, ground arith)
  | inr (inl (e, t, bad)) ↦ absurd (ground arith)
  | inr (inr (r, bad)) ↦ absurd (ground arith)
]

-- The keys that a call names as holders of tokens.
abbrev pub TokenNames : (Key → Type 0) → TokenCall → Type 0
TokenNames Named (TokenCall.transfer recipient ids) = Named recipient
TokenNames Named (TokenCall.transfer_from sender recipient ids) = Named sender × Named recipient
TokenNames Named _ = Unit {0}

pub names_any : (c : TokenCall) → TokenNames (λ k. Unit {0}) c
names_any (TokenCall.transfer recipient ids) = tt
names_any (TokenCall.transfer_from sender recipient ids) = (tt, tt)
names_any _ = tt

-- A relation that every action of the token establishes holds of every call.
module _ (env : Env) {Named : Key → Type 0} (P : Token → Token → Type 0)
    (same : (s : Token) → P s s)
    (written : (id : TokenId) (m : Meta) (s s' : Token)
      → set_token_meta env id m s ≡ done tt s'
      → P s s')
    (moved : (k r : Key) (ids : List TokenId) (s s' : Token)
      → Named k
      → Named r
      → transfer_from env k r ids s ≡ done tt s'
      → P s s')
    (approved : (spender : Key) (ids : List TokenId) (s s' : Token)
      → approve env spender ids s ≡ done tt s'
      → P s s')
    (caller_named : (k : Key) → immediate_caller env ≡ some k → Named k) where
  transfer-rule :
      (r : Key) (ids : List TokenId) (s s' : Token)
      → Named r
      → transfer env r ids s ≡ done tt s'
      → P s s'
  unfolding transfer get_immediate_caller_key
  transfer-rule r ids s s' named h =
      let (k, s₀, called, run) = >>=-done (get_immediate_caller_key env) _ s h in
      let before : s₀ ≡ s = ground arith in
      rw (← before) (moved k r ids s₀ s' (caller_named k (ground arith)) named run)

  reading-OnToken : (w w' : World) → w' ≡ w → OnToken (P w.token) w w'
  reading-OnToken w w' e = rw e (same w.token, refl, refl, refl)

  on_token-rule :
      (m : Exec Token (Unit {0})) (w w' : World) {v : Value}
      → ((s' : Token) → m w.token ≡ done tt s' → P w.token s')
      → ending (on_token (result_or_revert m)) w ≡ done v w'
      → OnToken (P w.token) w w'
  on_token-rule m w w' f h =
      let (run, kept, still, voted) = on_token-run m w h in (f w'.token run, kept, still, voted)

  pub run_token-rule :
      (c : TokenCall) (w w' : World) {v : Value}
      → TokenNames Named c
      → run_token env c w ≡ done v w'
      → OnToken (P w.token) w w'
  unfolding run_token get_balances narrow
  run_token-rule TokenCall.name w w' n h = reading-OnToken w w' (ground arith)
  run_token-rule TokenCall.symbol w w' n h = reading-OnToken w w' (ground arith)
  run_token-rule TokenCall.meta w w' n h = reading-OnToken w w' (ground arith)
  run_token-rule TokenCall.total_supply w w' n h = reading-OnToken w w' (ground arith)
  run_token-rule (TokenCall.balance_of owner) w w' n h = reading-OnToken w w' (ground arith)
  run_token-rule (TokenCall.get_token_by_index owner i) w w' n h =
      reading-OnToken w w' (ground arith)
  run_token-rule (TokenCall.owner_of id) w w' n h = reading-OnToken w w' (ground arith)
  run_token-rule (TokenCall.token_meta id) w w' n h = reading-OnToken w w' (ground arith)
  run_token-rule (TokenCall.get_approved owner id) w w' n h = reading-OnToken w w' (ground arith)
  run_token-rule (TokenCall.update_token_meta id m) w w' n h =
      on_token-rule (set_token_meta env id m) w w' (λ t e. written id m w.token t e) h
  run_token-rule (TokenCall.transfer r ids) w w' n h =
      on_token-rule (transfer env r ids) w w' (λ t e. transfer-rule r ids w.token t n e) h
  run_token-rule (TokenCall.transfer_from k r ids) w w' n h =
      on_token-rule (transfer_from env k r ids) w w' (λ t e. moved k r ids w.token t n.0 n.1 e) h
  run_token-rule (TokenCall.approve k ids) w w' n h =
      on_token-rule (approve env k ids) w w' (λ t e. approved k ids w.token t e) h
