-- ===== src/Tests/Tokens.antt =====
-- The token and the addresses at concrete storage.
use mathlib.Core.List.{zip}
use casper_ve_cep.Prelude.{text_eq, ◌+◌, ◌≡◌, refl, none, some, [], ◌∷◌, ◌++◌, arith}
use casper_ve_cep.Exec.{done, reverted, user, result_or_revert}
use casper_ve_cep.Host.{Env, account, key_and_value_to_str}
use casper_ve_cep.Token.OwnedTokens.{OwnedTokens, set_token, remove_token}
use casper_ve_cep.Token.OwnedTokens.Effects.{balance}
use casper_ve_cep.Token.OwnedTokens.Enumeration.{Gained, Lost, set_token-Gained, remove_token-Lost}
use casper_ve_cep.Token.State.{
  Token, init, owners_get, emit, event_params, mint_event, burn_event, transfer_event,
}
use casper_ve_cep.Token.Cep47.{
  mint, mint_all, check_unminted, burn, burn_internal, transfer, transfer_from, is_approved,
}
use casper_ve_cep.Token.Cep47.Mint.{mint-Reassigned}
use casper_ve_cep.Token.Cep47.Burn.{burn_internal-Reassigned}
use casper_ve_cep.Token.Cep47.Transfer.{transfer-Reassigned}
use casper_ve_cep.Token.Cep47.Approvals.{unapproved_refused}
use casper_ve_cep.Token.WellFormed.{IsWellFormed, Reassigned}
use casper_ve_cep.Tests.Setting.{
  host, host-NoCollision, IsAccount, after, fresh, fresh-IsWellFormed,
}

-- Account 5 calls at second 1000.
abbrev env : Env
env = host 5 1000000

-- The storage after the tokens 1 and 2 have been minted for account 5.
abbrev two_tokens : Token
two_tokens = after fresh (mint env (account 5) (1 ∷ 2 ∷ []) ([] ∷ [] ∷ []) fresh)

mint-Reassigned_example :
    (s' : Token) × (mint env (account 5) (1 ∷ 2 ∷ []) ([] ∷ [] ∷ []) fresh ≡ done (1 ∷ 2 ∷ []) s')
    × Reassigned env IsAccount (some (account 5)) (1 ∷ 2 ∷ []) fresh s'
    × (balance env s'.owned (account 5) ≡ 2)
    × (s'.total_supply ≡ 2)
    × (s'.events ≡ event_params env (7 ∷ []) (mint_event (account 5) (1 ∷ 2 ∷ [])))
unfolding init
mint-Reassigned_example =
    mint-Reassigned (host-NoCollision 5 1000000) (account 5) tt (1 ∷ 2 ∷ []) ([] ∷ [] ∷ []) fresh
      (fresh-IsWellFormed 5 1000000) refl (refl, (refl, tt)) (refl, (refl, tt)) (omega arith)
      (omega arith) refl

two_tokens-IsWellFormed :
    IsWellFormed env IsAccount two_tokens
    × (owners_get env two_tokens 1 ≡ some (account 5))
    × (owners_get env two_tokens 2 ≡ some (account 5))
    × (balance env two_tokens.owned (account 5) ≡ 2)
    × (two_tokens.total_supply ≡ 2)
two_tokens-IsWellFormed =
    let (s', run, given, total, supply, events) = mint-Reassigned_example in
    rw run (given.valid, given.owners 1, given.owners 2, total, supply)

burn_internal-Reassigned_example :
    (s' : Token) × (burn_internal env (account 5) (1 ∷ []) two_tokens ≡ done tt s')
    × Reassigned env IsAccount none (1 ∷ []) two_tokens s'
    × (balance env s'.owned (account 5) + 1 ≡ balance env two_tokens.owned (account 5))
    × (s'.total_supply + 1 ≡ two_tokens.total_supply)
    × (s'.events ≡ two_tokens.events ++ event_params env (7 ∷ []) (burn_event (account 5) (1 ∷ [])))
burn_internal-Reassigned_example =
    burn_internal-Reassigned (host-NoCollision 5 1000000) (account 5) tt (1 ∷ []) two_tokens
      two_tokens-IsWellFormed.0 (two_tokens-IsWellFormed.1, tt) (refl, tt)
      (omega (arith, two_tokens-IsWellFormed.4)) refl

empty_handed : balance env two_tokens.owned (account 9) ≡ 0
unfolding init mint mint_all check_unminted set_token zip text_eq emit key_and_value_to_str
empty_handed = refl

transfer-Reassigned_example :
    (s' : Token) × (transfer env (account 9) (2 ∷ 1 ∷ []) two_tokens ≡ done tt s')
    × Reassigned env IsAccount (some (account 9)) (2 ∷ 1 ∷ []) two_tokens s'
    × (s'.total_supply ≡ two_tokens.total_supply)
    × (s'.events
        ≡ two_tokens.events
          ++ event_params env (7 ∷ []) (transfer_event (account 5) (account 9) (2 ∷ 1 ∷ [])))
transfer-Reassigned_example =
    transfer-Reassigned (host-NoCollision 5 1000000) (account 5) (account 9) tt tt (2 ∷ 1 ∷ [])
      two_tokens refl two_tokens-IsWellFormed.0
      (two_tokens-IsWellFormed.2, (two_tokens-IsWellFormed.1, tt)) (refl, (refl, tt))
      (omega (arith, empty_handed)) refl

-- Account 6 owns token 3, and account 5 has no approval for it.
unapproved_refused_example :
    let s = after fresh (mint env (account 6) (3 ∷ []) ([] ∷ []) fresh) in
    (result_or_revert (transfer_from env (account 6) (account 5) (3 ∷ [])) s ≡ reverted (user 1))
    × (result_or_revert (burn env (account 6) (3 ∷ [])) s ≡ reverted (user 1))
unfolding init mint mint_all check_unminted set_token is_approved zip text_eq emit
unapproved_refused_example =
    unapproved_refused env (account 6) (account 5) (account 5) (3 ∷ [])
      (after fresh (mint env (account 6) (3 ∷ []) ([] ∷ []) fresh)) 3 refl refl refl refl refl

set_token-Gained_example :
    (o' : OwnedTokens) × (set_token env (account 5) 4 two_tokens.owned ≡ done tt o')
    × Gained env IsAccount (account 5) 4 two_tokens.owned o'
unfolding init mint mint_all check_unminted set_token zip text_eq emit key_and_value_to_str
set_token-Gained_example =
    set_token-Gained (host-NoCollision 5 1000000) (account 5) 4 two_tokens.owned tt
      two_tokens-IsWellFormed.0.enumerated refl (omega (arith, two_tokens-IsWellFormed.3))

remove_token-Lost_example :
    (o' : OwnedTokens) × (remove_token env (account 5) 1 two_tokens.owned ≡ done tt o')
    × Lost env IsAccount (account 5) 1 two_tokens.owned o'
unfolding init mint mint_all check_unminted set_token zip text_eq emit key_and_value_to_str
remove_token-Lost_example =
    remove_token-Lost (host-NoCollision 5 1000000) (account 5) 1 two_tokens.owned tt
      two_tokens-IsWellFormed.0.enumerated refl
