-- ===== src/Votes/Delegation.antt =====
-- Moving votes between representatives (ve/src/vedata.rs, section DAO VOTING LOGIC). The list of an
-- owner's tokens and the owner of a token come from the token contract.
use casper_ve_cep.Prelude.{
  ℕ, zero, suc, ◌+◌, ◌-◌, Bool, true, ◌||◌, List, [], ◌∷◌, ◌++◌, length, leb, ◌==◌, if◌then◌else◌,
  add_u64,
}
use casper_ve_cep.Errors.{too_many_token_ids}
use casper_ve_cep.Exec.{
  Exec, done, failed, reverted, ◌>>=◌, ◌>>◌, gets, pure, require, unless, unwrap, narrow,
}
use casper_ve_cep.Host.{Env, Key, key_eq, is_null}
use casper_ve_cep.Token.State.{Token}
use casper_ve_cep.Token.Cep47.{owner_of, balance_of}
use casper_ve_cep.Token.OwnedTokens.{get_token_by_index}
use casper_ve_cep.Votes.State.{
  Votes, Checkpoint, get_check_point, set_check_point, get_num_checkpoints, set_num_checkpoints,
  get_delegate, set_delegate, find_what_checkpoint_to_write,
}

abbrev pub max_delegates : ℕ
max_delegates = 1024

-- The tokens that the loops of `_move_token_delegates` push: all but one.
unfoldable pub without : ℕ → List ℕ → List ℕ
without token_id [] = []
without token_id (id ∷ ids) =
    let rest = without token_id ids in if id == token_id then rest else id ∷ rest

module _ (env : Env) where
  -- `get_check_point(a, n - 1)` where there is one, and the first entry otherwise.
  abbrev pub latest : Votes → Key → ℕ → Checkpoint
  latest s a n = get_check_point env s a (n - 1)

  abbrev push_ids : Checkpoint → List ℕ → Checkpoint
  push_ids cp ids = record cp { token_ids = cp.token_ids ++ ids }

  -- One side of `_move_token_delegates`, for a representative `a`; `room` is what the source requires.
  unfoldable pub rewrite_without : Key → ℕ → (Checkpoint → Bool) → Exec Votes (Unit {0})
  unfolding get_num_checkpoints set_num_checkpoints find_what_checkpoint_to_write without
  rewrite_without a token_id room = do
    n ← get_num_checkpoints env a
    cp ← gets (λ s. latest s a n)
    require (room cp) too_many_token_ids
    next ← find_what_checkpoint_to_write env a
    cp_new ← gets (λ s. get_check_point env s a next)
    set_check_point env a next (push_ids cp_new (without token_id cp.token_ids))
    set_num_checkpoints env a (add_u64 n 1)

  -- `_move_token_delegates`
  unfoldable pub move_token_delegates : Key → Key → ℕ → Exec Votes (Unit {0})
  unfolding rewrite_without is_null
  move_token_delegates src dst token_id = unless (key_eq src dst || token_id == 0) (do
    unless (is_null env src) (rewrite_without src token_id (λ cp. true))
    unless (is_null env dst)
        (rewrite_without dst token_id (λ cp. leb (length cp.token_ids + 1) max_delegates)))

  -- The tokens of `_move_all_delegates` that are not the owner's; each has an owner, or the call
  -- panics.
  unfoldable pub others_tokens : Token → Key → List ℕ → Exec Votes (List ℕ)
  others_tokens token owner [] = pure []
  others_tokens token owner (id ∷ ids) = do
    holder ← unwrap (owner_of env token id)
    rest ← others_tokens token owner ids
    pure (if key_eq holder owner then rest else id ∷ rest)

  -- The owner's tokens with the numbers from `i`, `count` of them.
  unfoldable pub owned_tokens : Token → Key → ℕ → ℕ → Exec Votes (List ℕ)
  unfolding narrow
  owned_tokens token owner i zero = pure []
  owned_tokens token owner i (suc count) = do
    found ← unwrap (get_token_by_index env token.owned owner i)
    id ← narrow 64 found
    rest ← owned_tokens token owner (i + 1) count
    pure (id ∷ rest)

  -- `balance_of(owner).as_usize()`, on a state that it does not change.
  unfoldable pub token_count : Token → Key → Exec Votes ℕ
  token_count token owner s = elim (balance_of env owner token) [
    | done n t ↦ narrow 32 n s
    | failed e t ↦ failed e s
    | reverted r ↦ reverted r
  ]

  -- The two halves of `_move_all_delegates`: the old representative keeps what is not the owner's,
  -- and the new one gets the owner's tokens behind its own.
  unfoldable pub leave_all : Token → Key → Key → Exec Votes (Unit {0})
  unfolding others_tokens
  leave_all token owner src = do
    n ← get_num_checkpoints env src
    old ← gets (λ s. latest s src n)
    next ← find_what_checkpoint_to_write env src
    new ← gets (λ s. get_check_point env s src next)
    ids ← others_tokens token owner old.token_ids
    set_check_point env src next (push_ids new ids)
    set_num_checkpoints env src (add_u64 n 1)

  unfoldable pub join_all : Token → Key → Key → Exec Votes (Unit {0})
  unfolding owned_tokens token_count
  join_all token owner dst = do
    n ← get_num_checkpoints env dst
    old ← gets (λ s. latest s dst n)
    next ← find_what_checkpoint_to_write env dst
    new ← gets (λ s. get_check_point env s dst next)
    count ← token_count token owner
    require (leb (length old.token_ids + count) max_delegates) too_many_token_ids
    ids ← owned_tokens token owner 0 count
    set_check_point env dst next (push_ids new (old.token_ids ++ ids))
    set_num_checkpoints env dst (add_u64 n 1)

  -- `_move_all_delegates`
  unfoldable pub move_all_delegates : Token → Key → Key → Key → Exec Votes (Unit {0})
  unfolding is_null leave_all join_all
  move_all_delegates token owner src dst = unless (key_eq src dst) (do
    unless (is_null env src) (leave_all token owner src)
    unless (is_null env dst) (join_all token owner dst))

  -- `_delegate`
  unfoldable pub delegate_to : Token → Key → Key → Exec Votes (Unit {0})
  unfolding get_delegate set_delegate move_all_delegates
  delegate_to token delegator delegatee = do
    current ← get_delegate env delegator
    set_delegate env delegator delegatee
    move_all_delegates token delegator current delegatee
