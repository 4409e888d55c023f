-- ===== src/Tests/Calls.antt =====
-- Calls and histories at concrete storage.
use mathlib.Core.List.{zip}
use casper_ve_cep.Prelude.{
  ℕ, ◌≡◌, refl, true, false, some, [], ◌∷◌, arith, text_eq, ◌+◌, ◌%◌, ◌^◌, to_string, ◌⊎◌, add_u64,
  sub_u64,
}
use casper_ve_cep.Exec.{done, narrow, Failure, reverted}
use casper_ve_cep.Host.{
  Key, Env, get, account, hash, other, session, stored_contract, key_and_value_to_str,
  get_immediate_caller_key, get_self_key, is_null, current_block_timestamp_seconds,
}
use casper_ve_cep.Token.State.{init, emit}
use casper_ve_cep.Token.OwnedTokens.{set_token, remove_token}
use casper_ve_cep.Token.OwnedTokens.Effects.{balance}
use casper_ve_cep.Token.Cep47.{
  mint, mint_all, check_unminted, burn, is_approved_or_owner, burn_internal, check_owner, burn_all,
}
use casper_ve_cep.Escrow.State.{initialize}
use casper_ve_cep.Escrow.CheckPoint.{
  check_point_internal, check_point_token, record_user, reschedule_old, reschedule_new,
}
use casper_ve_cep.Votes.State.{
  no_votes, delegates_of, get_check_point_key, get_num_checkpoints, find_what_checkpoint_to_write,
}
use casper_ve_cep.Votes.Delegation.{move_token_delegates, delegate_to}
use casper_ve_cep.Contract.World.{
  World, constructor, transfer_from, when_not_locked, lock_contract, unlock_contract,
}
use casper_ve_cep.Contract.Locks.{
  create_lock_internal, deposit_for_internal, deposit_escrow, create_lock, check_point, merge,
  burn_nft, require_approved_or_owner,
}
use casper_ve_cep.Contract.Roles.{get_past_votes_index, delegate, attach, only_voter}
use casper_ve_cep.Contract.Vault.{vault_of, Moved}
use casper_ve_cep.Contract.Accepted.{IsPayable, IsReady, IsNumbered}
use casper_ve_cep.Calls.Signatures.{EscrowCall, Call, unit_value, cl_type, Value}
use casper_ve_cep.Calls.Signatures.Tables.{declared, entry_points}
use casper_ve_cep.Calls.Signatures.Returns.{call_name}
use casper_ve_cep.Calls.Dispatch.{Context, History, at, run, run_escrow, execute}
use casper_ve_cep.Calls.Typing.{fits_result, declared_results}
use casper_ve_cep.Calls.TokenEffects.{TokenSucceeded}
use casper_ve_cep.Calls.Ends.{run_ends}
use casper_ve_cep.Calls.Attachments.{attachments_unrelated}
use casper_ve_cep.Calls.Roles.{execute-TeamKept, execute-VoterKept}
use casper_ve_cep.Calls.Refinement.{move_of, run-Moved}
use casper_ve_cep.Calls.Funding.{IsFunded, histories-IsFunded}
use casper_ve_cep.Calls.Overcount.{joined, merged_in, histories-merged_in}
use casper_ve_cep.Calls.Payments.{execute-IsPaidTo}
use casper_ve_cep.Contract.Payments.{IsPaidTo}
use casper_ve_cep.Calls.Ownership.{IsSound}
use casper_ve_cep.Calls.Histories.{IsWithin, execute-IsSound}
use casper_ve_cep.Calls.Liveness.{execute-create_lock}
use casper_ve_cep.Calls.PastVotes.{past_votes_undated}
use casper_ve_cep.Tests.Setting.{
  host, host-NoCollision, IsAccount, after, fresh, fresh-IsWellFormed,
}

-- Account 5 calls at second 604800000, the start of week 1000.
abbrev pub env : Env
env = host 5 604800000000

abbrev pub installed : World
installed = record {
  token = fresh;
  escrow = initialize env (account 5) (hash 70) (hash 71);
  votes = no_votes;
  transfers = [];
}

install : constructor env [] [] [] (hash 70) (hash 71) installed ≡ done tt installed
unfolding constructor get_immediate_caller_key
install = refl

abbrev pub open_call : Call
open_call = Call.escrow (EscrowCall.create_lock 31449600 1209600)

abbrev pub opened : World
opened = after installed (create_lock env 31449600 1209600 installed)

pub open_done : run env open_call installed ≡ done unit_value opened
unfolding run run_escrow create_lock_internal deposit_for_internal get_immediate_caller_key
    get_self_key transfer_from deposit_escrow initialize mint check_unminted init mint_all zip
    set_token text_eq emit key_and_value_to_str narrow delegates_of move_token_delegates
    check_point_internal check_point_token record_user reschedule_new reschedule_old create_lock
    when_not_locked lock_contract unlock_contract
open_done = refl

declared_results_example :
    fits_result (cl_type unit_value) (declared (call_name open_call) entry_points) ≡ true
declared_results_example = declared_results env installed opened unit_value open_call open_done

run-Moved_example : Moved (move_of open_call) installed opened
run-Moved_example = run-Moved env installed opened open_call open_done

run_ends_example :
    ((v : Value) × (w' : World) × (run env open_call installed ≡ done v w')
      × TokenSucceeded env open_call installed w')
    ⊎ ((r : Failure) × (run env open_call installed ≡ reverted r))
run_ends_example = run_ends env open_call installed

-- Account 5 calls in the week in which the contract was installed.
abbrev owner : Context
owner = record {
  call_stack = session 5 ∷ stored_contract 7 8 ∷ [];
  block_time = 604800000000;
  transfer_accepted = λ contract from recipient amount. true;
}

-- Account 5 opens a lock, and a week later account 6 brings the history up to date.
abbrev calls : History
calls =
    (owner, open_call)
    ∷ (
      record {
        call_stack = session 6 ∷ stored_contract 7 8 ∷ [];
        block_time = 605404800000;
        transfer_accepted = λ contract from recipient amount. false;
      },
      Call.escrow EscrowCall.check_point,
    )
    ∷ []

histories-IsFunded_example : IsFunded (vault_of (execute env calls installed))
histories-IsFunded_example =
    histories-IsFunded env [] [] [] (hash 70) (hash 71) installed installed refl install calls
      (refl, (refl, tt)) (omega arith)

accounts : (n : ℕ) (k : Key) → some (account n) ≡ some k → IsAccount k
accounts n (account a) e = tt
accounts n (hash a) e = cc
accounts n (other a) e = cc

calls-IsWithin : IsWithin env IsAccount calls
calls-IsWithin = (accounts 5, tt, (accounts 6, tt, tt))

installed-IsSound : IsSound env IsAccount installed
unfolding initialize
installed-IsSound = record { token = fresh-IsWellFormed 5 604800000000; unlocked = refl }

execute-IsSound_example : IsSound env IsAccount (execute env calls installed)
execute-IsSound_example =
    execute-IsSound (host-NoCollision 5 604800000000) calls installed calls-IsWithin
      installed-IsSound

abbrev context : Context
context = record {
  call_stack = session 9 ∷ stored_contract 7 8 ∷ [];
  block_time = 604800000000;
  transfer_accepted = λ contract from recipient amount. true;
}

installed-IsNumbered : IsNumbered env installed
unfolding init
installed-IsNumbered = λ id above. refl

payable : IsPayable (at env context) (account 9) 70 31449600
payable = record {
  called = refl;
  me = hash 7;
  self = refl;
  accepted = refl;
  package_hash = 7;
  code = 8;
  stack = refl;
}

ready : IsReady (at env context) (account 9) 70 (execute env calls installed)
unfolding execute run run_escrow create_lock_internal deposit_for_internal get_immediate_caller_key
    get_self_key transfer_from deposit_escrow initialize mint check_unminted init mint_all zip
    set_token text_eq emit key_and_value_to_str narrow delegates_of move_token_delegates
    check_point_internal check_point_token record_user reschedule_new reschedule_old create_lock
    when_not_locked lock_contract unlock_contract check_point
ready =
    let none_yet : balance (at env context) (execute env calls installed).token.owned (account 9)
        ≡ 0 =
      refl in
    let one : (execute env calls installed).token.total_supply ≡ 1 = refl in
    record {
      label = 0 ∷ 9 ∷ [];
      named = refl;
      undelegated = refl;
      contract_set = refl;
      room = omega (arith, none_yet);
      small = omega (arith, one);
    }

execute-create_lock_example :
    (w' : World) × (create_lock (at env context) 31449600 1209600 (execute env calls installed)
      ≡ done tt w')
unfolding initialize current_block_timestamp_seconds init
execute-create_lock_example =
    execute-create_lock (host-NoCollision 5 604800000000) calls installed calls-IsWithin
      (refl, (refl, tt)) installed-IsSound installed-IsNumbered (omega arith) (λ e. omega arith)
      context (account 9) tt 70 31449600 1209600 payable ready (omega arith) (omega arith)
      (omega arith)

-- Account 5 opens a lock and delegates to account 9.
abbrev delegation : History
delegation = (owner, open_call) ∷ (owner, Call.escrow (EscrowCall.delegate (account 9))) ∷ []

one_checkpoint :
    get_num_checkpoints (at env context) (account 9) (execute env delegation installed).votes
    ≡ done 1 (execute env delegation installed).votes
unfolding execute run run_escrow create_lock_internal deposit_for_internal get_immediate_caller_key
    get_self_key transfer_from deposit_escrow initialize mint check_unminted init mint_all zip
    set_token text_eq emit key_and_value_to_str narrow delegates_of move_token_delegates
    check_point_internal check_point_token record_user reschedule_new reschedule_old create_lock
    when_not_locked lock_contract unlock_contract get_num_checkpoints delegate delegate_to
    get_check_point_key is_null
one_checkpoint = refl

past_votes_undated_example :
    (get_past_votes_index (at env context) (account 9) 600000000 (execute env delegation installed)
      ≡ done 0 (execute env delegation installed))
    × (find_what_checkpoint_to_write
          (at env context)
          (account 9)
          (execute env delegation installed).votes
        ≡ done 1 (execute env delegation installed).votes)
unfolding get_num_checkpoints current_block_timestamp_seconds
past_votes_undated_example =
    past_votes_undated env [] [] [] (hash 70) (hash 71) installed installed install delegation
      context (account 9) 600000000 1 one_checkpoint

-- Account 5 opens two locks and merges the first into the second.
abbrev merging : History
merging = (owner, open_call) ∷ (owner, open_call) ∷ (owner, Call.escrow (EscrowCall.merge 1 2)) ∷ []

histories-merged_in_example :
    (vault_of (execute env merging installed)).supply
    ≡ ((vault_of (execute env merging installed)).paid + merged_in env merging installed) % 2 ^ 128
histories-merged_in_example =
    histories-merged_in env [] [] [] (hash 70) (hash 71) installed installed refl install merging

merged_amount : merged_in env merging installed ≡ 31449600
unfolding merged_in joined move_of vault_of execute run run_escrow create_lock_internal
    deposit_for_internal get_immediate_caller_key get_self_key transfer_from deposit_escrow
    initialize mint check_unminted init mint_all zip set_token text_eq emit key_and_value_to_str
    narrow delegates_of move_token_delegates check_point_internal check_point_token record_user
    reschedule_new reschedule_old create_lock when_not_locked lock_contract unlock_contract merge
    burn_nft burn require_approved_or_owner is_approved_or_owner to_string burn_internal check_owner
    burn_all remove_token get_check_point_key
merged_amount = refl

execute-IsPaidTo_example : IsPaidTo (hash 7) (execute env merging installed).transfers
unfolding IsPaidTo
execute-IsPaidTo_example =
    execute-IsPaidTo env (hash 7) merging installed (refl, (refl, (refl, tt))) tt

-- Account 6, neither the team nor the voter, asks for both roles, marks a token, and brings the history
-- up to date; only the last of the calls returns.
abbrev stranger : Context
stranger = record {
  call_stack = session 6 ∷ stored_contract 7 8 ∷ [];
  block_time = 605404800000;
  transfer_accepted = λ contract from recipient amount. false;
}

abbrev claims : History
claims =
    (stranger, Call.escrow (EscrowCall.set_team (account 6)))
    ∷ (stranger, Call.escrow (EscrowCall.set_art_proxy (account 6)))
    ∷ (stranger, Call.escrow (EscrowCall.set_voter (account 6)))
    ∷ (stranger, Call.escrow (EscrowCall.voting 1))
    ∷ (stranger, Call.escrow (EscrowCall.attach 1))
    ∷ (stranger, Call.escrow EscrowCall.check_point)
    ∷ []

execute-TeamKept_example :
    ((execute env claims installed).escrow.team ≡ account 5)
    × ((execute env claims installed).escrow.art_proxy_contract ≡ hash 71)
unfolding initialize
execute-TeamKept_example =
    execute-TeamKept env claims installed (refl, (refl, (refl, (refl, (refl, (refl, tt))))))

execute-VoterKept_example :
    ((execute env claims installed).escrow.voter ≡ account 5)
    × ((execute env claims installed).escrow.voted ≡ installed.escrow.voted)
    × ((execute env claims installed).escrow.attachments ≡ installed.escrow.attachments)
unfolding initialize
execute-VoterKept_example =
    execute-VoterKept env claims installed (refl, (refl, (refl, (refl, (refl, (refl, tt))))))

-- The voter attaches token 1 twice.
abbrev attaching : History
attaching =
    (owner, Call.escrow (EscrowCall.attach 1)) ∷ (owner, Call.escrow (EscrowCall.attach 1)) ∷ []

attached_two : get (execute env attaching installed).escrow.attachments (to_string 1) ≡ some 2
unfolding execute run run_escrow attach only_voter get_immediate_caller_key narrow to_string text_eq
    initialize
attached_two = refl

abbrev two : ℕ
two = 2

attachments_unrelated_example : (two ≡ add_u64 1 1) ⊎ (two ≡ sub_u64 1 1)
attachments_unrelated_example =
    attachments_unrelated env [] [] [] (hash 70) (hash 71) installed installed install attaching 1 2
      attached_two
