-- ===== src/Contract/CurrentVotes.antt =====
-- The checkpoint that `get_votes` of ve/src/vedata.rs reads.
use casper_ve_cep.Prelude.{ℕ, ◌≡◌, none, some, arith, Text}
use casper_ve_cep.Exec.{done}
use casper_ve_cep.Host.{Env, Key, get, key_label, key_to_str}
use casper_ve_cep.Votes.State.{get_check_point_key, get_num_checkpoints}
use casper_ve_cep.Contract.World.{World}
use casper_ve_cep.Contract.Roles.{get_votes, sum_balances}

-- An address whose checkpoints are numbered below `n`, so that none is filed under `n`, has no votes
-- by `get_votes`, whatever tokens its checkpoints list and whatever their voting power is.
pub get_votes-behind :
    (env : Env) (holder : Key) (l : Text) (n : ℕ) (w : World)
    → key_label env holder ≡ some l
    → get w.votes.num_checkpoints l ≡ some n
    → get w.votes.checkpoints (get_check_point_key env holder n) ≡ none
    → get_votes env holder w ≡ done 0 w
unfolding get_votes get_num_checkpoints key_to_str sum_balances
get_votes-behind env holder l n w label counted behind = ground arith
