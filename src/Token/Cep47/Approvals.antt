-- ===== src/Token/Cep47/Approvals.antt =====
-- Who may move and burn tokens: the checks of `transfer_from` and `burn` (ve/src/cep47.rs), and what
-- approvals outlive.
use casper_ve_cep.Prelude.{◌≡◌, true, false, some, List, [], ◌∷◌, arith, Bool-cases, inl, inr}
use casper_ve_cep.Exec.{failed, reverted, user, result_or_revert}
use casper_ve_cep.Errors.{permission_denied, error_code}
use casper_ve_cep.Host.{Env, Key, key_eq, remove, immediate_caller, get_immediate_caller_key}
use casper_ve_cep.Token.State.{Token, TokenId, allowance_key}
use casper_ve_cep.Token.Cep47.{is_approved, check_approved, use_approvals, burn, transfer_from}
use casper_ve_cep.Token.WellFormed.{member}

module _ (env : Env) (owner spender : Key) where
  is_approved-remove :
      (s : Token) (x id : TokenId)
      → is_approved env s owner id spender ≡ false
      → is_approved env
          (record s { allowances = remove s.allowances (allowance_key env owner x) })
          owner
          id
          spender
        ≡ false
  unfolding is_approved
  is_approved-remove s x id h = ground arith

  use_approvals-refused :
      (ids : List TokenId) (s : Token) (id : TokenId)
      → member id ids ≡ true
      → is_approved env s owner id spender ≡ false
      → (s' : Token) × (use_approvals env owner spender ids s ≡ failed permission_denied s')
  unfolding use_approvals
  use_approvals-refused [] s id m h = cc
  use_approvals-refused (x ∷ xs) s id m h = elim (Bool-cases (is_approved env s owner x spender)) [
    | inr refused ↦ (s, ground arith)
    | inl approved ↦
        let s₁ = record s { allowances = remove s.allowances (allowance_key env owner x) } in
        let (s', run) =
          use_approvals-refused xs s₁ id (ground arith) (is_approved-remove s x id h) in
        (s', ground arith)
  ]

  check_approved-refused :
      (ids : List TokenId) (s : Token) (id : TokenId)
      → member id ids ≡ true
      → is_approved env s owner id spender ≡ false
      → check_approved env owner spender ids s ≡ failed permission_denied s
  unfolding check_approved
  check_approved-refused [] s id m h = cc
  check_approved-refused (x ∷ xs) s id m h = ground (arith, check_approved-refused xs s id)

  -- A caller that is not the owner and has no approval for one of the listed tokens can neither
  -- transfer nor burn them: both calls are undone with the code of `PermissionDenied`.
  pub unapproved_refused :
      (recipient : Key) (ids : List TokenId) (s : Token) (id : TokenId)
      → immediate_caller env ≡ some spender
      → key_eq owner spender ≡ false
      → key_eq spender owner ≡ false
      → member id ids ≡ true
      → is_approved env s owner id spender ≡ false
      → (result_or_revert (transfer_from env owner recipient ids) s ≡ reverted (user 1))
        × (result_or_revert (burn env owner ids) s ≡ reverted (user 1))
  unfolding transfer_from burn get_immediate_caller_key error_code
  unapproved_refused recipient ids s id called ne ne' m h =
      let (s', run) = use_approvals-refused ids s id m h in
      let run' = check_approved-refused ids s id m h in (ground arith, ground arith)
