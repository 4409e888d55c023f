-- ===== src/Tests/Points.antt =====
-- Points, searches and voting power at concrete storage.
use casper_ve_cep.Prelude.{
  pos, ◌-◌, refl, inr, add_i128, sub_i128, ℕ, ◌+◌, ◌*◌, ◌<◌, ◌≡◌, ◌≤◌, arith, text_eq, to_string,
}
use casper_ve_cep.Host.{set, empty_dict, account, hash, current_block_timestamp_seconds}
use casper_ve_cep.Escrow.State.{
  Escrow, Point, LockedBalance, initialize, default_lock, get_point, get_user_epoch, get_user_point,
  get_slope_changes,
}
use casper_ve_cep.Escrow.CheckPoint.{
  check_point_internal, check_point_token, record_user, reschedule_new, reschedule_old,
  fill_history, fill, round_point, changed_point, lock_point,
}
use casper_ve_cep.Escrow.CheckPoint.Decay.{balance_of_nft-bounded}
use casper_ve_cep.Escrow.CheckPoint.UserPoint.{power_of, balance_of_nft-check_point}
use casper_ve_cep.Escrow.CheckPoint.Schedule.{shed, slope_changes-check_point}
use casper_ve_cep.Escrow.CheckPoint.Others.{other_power_kept, other_power_overwritten}
use casper_ve_cep.Escrow.CheckPoint.History.{IsRecent, IsCurrent, check_point-IsCurrent}
use casper_ve_cep.Escrow.Voting.{supply_at, balance_of_nft, find_block_epoch, find_user_epoch}
use casper_ve_cep.Escrow.Voting.Supply.{supply_at-second_week}
use casper_ve_cep.Escrow.Voting.Search.{IsLast, find_block_epoch-IsLast, find_user_epoch-IsLast}
use casper_ve_cep.Contract.PastVotes.{IsInForce, past_votes_index-IsInForce}
use casper_ve_cep.Contract.Roles.{past_votes_index}
use casper_ve_cep.Tests.Setting.{host}

-- The escrow after its installation at the start of week 1000.
abbrev start : Escrow
start = initialize (host 5 604800000000) (account 5) (hash 70) (hash 71)

-- A lock of two units for each second of the longest time, for ten weeks.
abbrev ten_weeks : LockedBalance
ten_weeks = record { amount = 31449600; end = 610848000 }

balance_of_nft-check_point_example :
    balance_of_nft (check_point_internal 604800000 100 1 default_lock ten_weeks start) 1 605404800
    ≡ power_of ten_weeks 605404800
unfolding initialize
balance_of_nft-check_point_example =
    balance_of_nft-check_point 604800000 100 1 default_lock ten_weeks start 605404800 (omega arith)
      (omega arith) (omega arith) (omega arith) (omega arith) (omega arith) (omega arith)
      (omega arith)

balance_of_nft-bounded_example :
    (balance_of_nft (check_point_internal 604800000 100 1 default_lock ten_weeks start) 1 605404800
      ≤ ten_weeks.amount)
    × (balance_of_nft
          (check_point_internal 604800000 100 1 default_lock ten_weeks start)
          1
          606009600
        ≤ balance_of_nft
            (check_point_internal 604800000 100 1 default_lock ten_weeks start)
            1
            605404800)
unfolding initialize
balance_of_nft-bounded_example =
    balance_of_nft-bounded 604800000 100 1 default_lock ten_weeks start 605404800 606009600
      (omega arith) (omega arith) (omega arith) (omega arith) (omega arith) (omega arith)
      (omega arith) (omega arith) (omega arith)

-- The storage when the last point, number 1, is three weeks old.
abbrev aged : Escrow
aged = check_point_internal 604800000 100 1 default_lock ten_weeks start

aged-IsRecent : IsRecent 606614400 100 aged
unfolding initialize check_point_internal check_point_token record_user reschedule_new
    reschedule_old fill_history fill round_point changed_point text_eq to_string
    current_block_timestamp_seconds lock_point
aged-IsRecent = record {
  past = omega arith;
  near = omega arith;
  word = omega arith;
  epochs = omega arith;
}

check_point-IsCurrent_example :
    let s' = check_point_internal 606614400 100 1 ten_weeks default_lock aged in
    (aged.epoch < s'.epoch) × IsCurrent 606614400 100 (get_point s' s'.epoch)
check_point-IsCurrent_example =
    check_point-IsCurrent 606614400 100 1 ten_weeks default_lock aged aged-IsRecent

slope_changes-check_point_example :
    get_slope_changes (check_point_internal 604800000 100 1 default_lock ten_weeks start) 610848000
    ≡ sub_i128
        (add_i128 (get_slope_changes start 610848000) (shed 604800000 default_lock 610848000))
        (shed 604800000 ten_weeks 610848000)
unfolding initialize
slope_changes-check_point_example =
    slope_changes-check_point 604800000 100 1 default_lock ten_weeks start 610848000 (omega arith)
      (omega arith) (inr (omega arith))

other_power_kept_example :
    balance_of_nft (check_point_internal 606614400 100 2 default_lock ten_weeks aged) 1 606614401
    ≡ balance_of_nft aged 1 606614401
unfolding initialize check_point_internal check_point_token record_user reschedule_new
    reschedule_old fill_history fill text_eq to_string
other_power_kept_example =
    other_power_kept 606614400 100 2 default_lock ten_weeks aged 1 606614401 (omega arith)
      (omega arith) refl

-- Token 1 has had ten points and token 11 one.
abbrev ten_points : Escrow
ten_points = record start {
  user_point_epoch = set (set empty_dict (to_string 1) 10) (to_string 11) 1;
}

other_power_overwritten_example :
    let s' = check_point_internal 606614400 100 1 ten_weeks default_lock ten_points in
    balance_of_nft s' 11 606614401 ≡ balance_of_nft s' 1 606614401
unfolding text_eq to_string
other_power_overwritten_example =
    other_power_overwritten 606614400 100 1 ten_weeks default_lock ten_points 11 606614401
      (omega arith) (omega arith) (omega arith) (omega arith) refl

-- A point of ten weeks of the slope 2, read ten seconds after its first week.
abbrev sloping : Point
sloping = record { bias = pos 12096000; slope = pos 2; ts = 604800000; blk = 100 }

supply_at-second_week_example :
    supply_at start sloping 605404810
    ≡ (12096000 - 2 * 604800) + 2 * (2 * 604800000 + 604800 - 605404810)
unfolding initialize
supply_at-second_week_example =
    supply_at-second_week start sloping 605404810 2 12096000 (omega arith) (omega arith)
      (omega arith) (omega arith) (omega arith) refl refl refl (omega arith) (omega arith)
      (omega arith) (omega arith)

find_block_epoch-IsLast_example :
    IsLast (λ e. (get_point start e).blk) 100 0 0 (find_block_epoch start 100 0)
find_block_epoch-IsLast_example = find_block_epoch-IsLast start 100 0 (omega arith)

find_user_epoch-IsLast_example :
    IsLast
      (λ e. (get_user_point start 1 e).blk)
      100
      0
      (get_user_epoch start 1)
      (find_user_epoch start 1 100)
unfolding initialize
find_user_epoch-IsLast_example = find_user_epoch-IsLast start 1 100 (omega arith)

-- Three checkpoints at the times 10, 20 and 30.
abbrev stamps : ℕ → ℕ
stamps n = (n + 1) * 10

past_votes_index-IsInForce_example : IsInForce stamps 25 3 (past_votes_index stamps 25 3)
past_votes_index-IsInForce_example =
    past_votes_index-IsInForce stamps 25 3 (λ i j le lt. omega arith) (omega arith) (omega arith)
