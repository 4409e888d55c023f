-- ===== src/Tests/Locks.antt =====
-- Locks, roles and votes at concrete storage.
use mathlib.Core.List.{zip}
use casper_ve_cep.Prelude.{
  le_bytes, false, ℕ, leb, ◌==◌, if◌then◌else◌, ◌++◌, ◌≡◌, ◌≢◌, refl, true, some, [], ◌∷◌, arith,
  text_eq, to_string, add_u128,
}
use casper_ve_cep.Exec.{done, reverted, user, narrow}
use casper_ve_cep.Host.{
  Key, immediate_caller, self_key, empty_dict, set, Env, account, hash, key_and_value_to_str,
  get_immediate_caller_key, get_self_key, current_block_timestamp_seconds,
}
use casper_ve_cep.Token.State.{Token, init, emit, owners_get}
use casper_ve_cep.Token.Cep47.Mint.{mint-Reassigned}
use casper_ve_cep.Token.WellFormed.{IsWellFormed}
use casper_ve_cep.Token.OwnedTokens.{set_token, remove_token}
use casper_ve_cep.Token.Cep47.{
  is_approved_or_owner, mint, mint_all, check_unminted, burn, burn_internal, check_owner, burn_all,
}
use casper_ve_cep.Escrow.State.{initialize, get_locked_balance, default_lock}
use casper_ve_cep.Escrow.CheckPoint.{
  check_point_internal, check_point_token, record_user, reschedule_old, reschedule_new,
}
use casper_ve_cep.Votes.State.{no_votes, delegates_of, get_check_point_key}
use casper_ve_cep.Votes.Delegation.{move_token_delegates}
use casper_ve_cep.Votes.Null.{undelegated_lock}
use casper_ve_cep.Contract.World.{
  when_not_locked, lock_contract, unlock_contract, World, transfer_from,
}
use casper_ve_cep.Contract.Locks.{
  require_approved_or_owner, create_lock_internal, deposit_for_internal, deposit_escrow, merge,
  burn_nft, create_lock, create_lock_for, increase_amount, increase_unlock_time,
}
use casper_ve_cep.Contract.Entry.{guarded, create_lock-Created}
use casper_ve_cep.Contract.CurrentVotes.{get_votes-behind}
use casper_ve_cep.Contract.Create.{Created, create_lock_internal-Created}
use casper_ve_cep.Contract.Deposits.{Deposited, deposit_for_internal-Deposited}
use casper_ve_cep.Contract.Guard.{guarded_when_locked}
use casper_ve_cep.Contract.Roles.{get_votes}
use casper_ve_cep.Contract.Taken.{burn-blocks_create}
use casper_ve_cep.Contract.Merge.{merge-supply}
use casper_ve_cep.Tests.Setting.{
  host, host-NoCollision, IsAccount, after, is_done-after, fresh, fresh-IsWellFormed,
}

-- Account 5 calls at second 604800000, the start of week 1000.
abbrev env : Env
env = host 5 604800000000

-- The storage after the installation by account 5, with the token contract 70.
abbrev installed : World
installed = record {
  token = fresh;
  escrow = initialize env (account 5) (hash 70) (hash 71);
  votes = no_votes;
  transfers = [];
}

abbrev locked_once : World
locked_once = after installed (create_lock_internal env 31449600 1209600 (account 5) installed)

deposit_done :
    deposit_for_internal env 1 500 605404800 default_lock 1 installed
    ≡ done tt (after installed (deposit_for_internal env 1 500 605404800 default_lock 1 installed))
unfolding deposit_for_internal get_immediate_caller_key get_self_key transfer_from deposit_escrow
    initialize check_point_internal check_point_token record_user reschedule_new reschedule_old
    current_block_timestamp_seconds
deposit_done =
    is_done-after installed (deposit_for_internal env 1 500 605404800 default_lock 1 installed) refl

deposit_for_internal-Deposited_example :
    Deposited env 1 500 605404800 default_lock 1 installed
      (after installed (deposit_for_internal env 1 500 605404800 default_lock 1 installed))
deposit_for_internal-Deposited_example =
    deposit_for_internal-Deposited env 1 500 605404800 default_lock 1 installed
      (after installed (deposit_for_internal env 1 500 605404800 default_lock 1 installed))
      deposit_done

create_done : create_lock_internal env 31449600 1209600 (account 5) installed ≡ done 1 locked_once
unfolding create_lock_internal deposit_for_internal get_immediate_caller_key get_self_key
    transfer_from deposit_escrow initialize mint check_unminted init mint_all zip set_token text_eq
    emit key_and_value_to_str narrow delegates_of move_token_delegates check_point_internal
    check_point_token record_user reschedule_new reschedule_old
create_done = refl

create_lock_internal-Created_example :
    Created env 31449600 1209600 (account 5) 1 installed locked_once
create_lock_internal-Created_example =
    create_lock_internal-Created env 31449600 1209600 (account 5) 1 installed locked_once
      create_done

-- The storage after two locks, with the tokens 1 and 2, and after token 1 has been merged into 2.
abbrev locked_twice : World
locked_twice = after installed (create_lock_internal env 31449600 1209600 (account 5) locked_once)

abbrev merged : World
merged = after installed (merge env 1 2 locked_twice)

merge_done : merge env 1 2 locked_twice ≡ done tt merged
unfolding create_lock_internal deposit_for_internal get_immediate_caller_key get_self_key
    transfer_from deposit_escrow initialize mint check_unminted init mint_all zip set_token text_eq
    emit key_and_value_to_str narrow delegates_of move_token_delegates check_point_internal
    check_point_token record_user reschedule_new reschedule_old merge burn_nft burn
    require_approved_or_owner is_approved_or_owner to_string burn_internal check_owner burn_all
    remove_token get_check_point_key
merge_done = is_done-after installed (merge env 1 2 locked_twice) refl

abbrev first : ℕ
first = 1

merge-supply_example :
    (first ≢ 2)
    × (merged.transfers ≡ locked_twice.transfers)
    × (merged.escrow.ve_supply
        ≡ add_u128 locked_twice.escrow.ve_supply (get_locked_balance locked_twice.escrow 1).amount)
    × ((get_locked_balance merged.escrow 2).amount
        ≡ add_u128
            (get_locked_balance locked_twice.escrow 2).amount
            (get_locked_balance locked_twice.escrow 1).amount)
    × ((get_locked_balance merged.escrow 2).end ≡ (
        if leb
          (get_locked_balance locked_twice.escrow 2).end
          (get_locked_balance locked_twice.escrow 1).end
        then (get_locked_balance locked_twice.escrow 1).end
        else (get_locked_balance locked_twice.escrow 2).end))
    × ((id : ℕ)
        → id ≢ 2
        → get_locked_balance merged.escrow id
          ≡ (if first == id then default_lock else get_locked_balance locked_twice.escrow id))
merge-supply_example = merge-supply env 1 2 locked_twice merged merge_done

guarded_when_locked_example :
    let w = record installed { escrow = record installed.escrow { is_locked = true } } in
    (create_lock env 1 1209600 w ≡ reverted (user 148))
    × (create_lock_for env 1 1209600 (account 5) w ≡ reverted (user 148))
    × ((w' : World) → increase_amount env 1 1 w ≢ done tt w')
    × ((w' : World) → increase_unlock_time env 1 1209600 w ≢ done tt w')
guarded_when_locked_example =
    guarded_when_locked env
      (record installed { escrow = record installed.escrow { is_locked = true } }) refl 1 1209600 1
      (account 5)

undelegated_lock_example :
    (delegates_of env (account 5) no_votes ≡ done (account 0) no_votes)
    × (move_token_delegates env (account 0) (account 0) 1 no_votes ≡ done tt no_votes)
undelegated_lock_example =
    undelegated_lock env (account 5) (0 ∷ 5 ∷ []) no_votes 1 (omega arith) refl refl

-- The tokens 1 and 2 have been minted for account 5, and token 1 is burnt.
abbrev two_tokens : Token
two_tokens = after fresh (mint env (account 5) (1 ∷ 2 ∷ []) ([] ∷ [] ∷ []) fresh)

two_tokens-IsWellFormed :
    IsWellFormed env IsAccount two_tokens
    × (owners_get env two_tokens 1 ≡ some (account 5))
    × (owners_get env two_tokens two_tokens.total_supply ≡ some (account 5))
    × (two_tokens.total_supply ≡ 2)
unfolding init
two_tokens-IsWellFormed =
    let (s', run, given, total, supply, events) =
      mint-Reassigned (host-NoCollision 5 604800000000) (account 5) tt (1 ∷ 2 ∷ []) ([] ∷ [] ∷ [])
        fresh (fresh-IsWellFormed 5 604800000000) refl (refl, (refl, tt)) (refl, (refl, tt))
        (omega arith) (omega arith) refl in
    rw run (given.valid, given.owners 1, rw supply (given.owners 2), supply)

burn-blocks_create_example :
    (s' : Token) × (burn_internal env (account 5) (1 ∷ []) two_tokens ≡ done tt s')
    × (create_lock_internal env 31449600 1209600 (account 5) (record installed { token = s' })
        ≡ reverted (user 3))
unfolding current_block_timestamp_seconds
burn-blocks_create_example =
    burn-blocks_create (host-NoCollision 5 604800000000) (account 5) tt 1 two_tokens installed
      31449600 1209600 (account 5) two_tokens-IsWellFormed.0 two_tokens-IsWellFormed.1
      two_tokens-IsWellFormed.2 (omega (arith, two_tokens-IsWellFormed.3))
      (omega (arith, two_tokens-IsWellFormed.3)) (omega (arith, two_tokens-IsWellFormed.3)) refl
      (omega arith) (omega arith) (omega arith)

abbrev entered : World
entered = after installed (create_lock env 31449600 1209600 installed)

entered_done : create_lock env 31449600 1209600 installed ≡ done tt entered
unfolding create_lock_internal deposit_for_internal get_immediate_caller_key get_self_key
    transfer_from deposit_escrow initialize mint check_unminted init mint_all zip set_token text_eq
    emit key_and_value_to_str narrow delegates_of move_token_delegates check_point_internal
    check_point_token record_user reschedule_new reschedule_old create_lock when_not_locked
    lock_contract unlock_contract
entered_done = is_done-after installed (create_lock env 31449600 1209600 installed) refl

create_lock-Created_example :
    (installed.escrow.is_locked ≡ false)
    × (entered.escrow.is_locked ≡ false)
    × (caller : Key) × (immediate_caller env ≡ some caller)
    × (id : ℕ) × (w₁ : World) × (entered ≡ guarded false w₁)
    × Created env 31449600 1209600 caller id (guarded true installed) w₁
    × (recipient : Key) × (self_key env ≡ some recipient)
    × (entered.transfers
        ≡ installed.transfers
          ++ record {
            contract = hash 70;
            from = caller;
            recipient = recipient;
            amount = 31449600;
            locked = true;
          }
            ∷ [])
unfolding initialize
create_lock-Created_example =
    create_lock-Created env 31449600 1209600 installed entered entered_done

-- Account 5 has one checkpoint, number 0, and it lists token 1.
abbrev represented : World
represented = record locked_once {
  votes = record {
    delegates = empty_dict;
    checkpoints =
        set empty_dict (get_check_point_key env (account 5) 0)
          (record { timestamp = 604800000; token_ids = 1 ∷ [] });
    num_checkpoints = set empty_dict (0 ∷ 5 ∷ []) 1;
    nonces = empty_dict;
  };
}

get_votes-behind_example : get_votes env (account 5) represented ≡ done 0 represented
unfolding get_check_point_key text_eq le_bytes
get_votes-behind_example =
    get_votes-behind env (account 5) (0 ∷ 5 ∷ []) 1 represented refl refl refl
