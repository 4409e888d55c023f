-- ===== src/Escrow/Voting/Supply.antt =====
-- The supply that `_supply_at` of ve/src/vedata.rs computes some time after a point.
use casper_ve_cep.Prelude.{
  ℕ, suc, ◌+◌, ◌-◌, ◌*◌, ◌/◌, ◌%◌, ◌^◌, ◌≤◌, ◌<◌, ◌≡◌, refl, ◌∙◌, ap, ap₂, true, false, ℤ, pos,
  negsuc, ◌*ℤ◌, ◌-ℤ◌, u128_of, add_i128, sub_i128, mul_i128, mul_i128_pos, mul_i128_exact,
  sub_i128_exact, add_u64, ltb, ◌==◌, arith,
}
use casper_ve_cep.Escrow.State.{Escrow, Point, get_slope_changes, week}
use casper_ve_cep.Escrow.CheckPoint.{clamp}
use casper_ve_cep.Escrow.CheckPoint.Schedule.{add_zero}
use casper_ve_cep.Escrow.Voting.{
  supply_slope, decayed, supply_rounds, supply_time, supply_point, supply_at,
}

times_back :
    (a k : ℕ) → a * suc k < 2 ^ 127 → mul_i128 (pos a) (negsuc k) ≡ pos 0 -ℤ pos (a * suc k)
times_back a k h =
    let e : pos a *ℤ negsuc k ≡ pos 0 -ℤ pos (a * suc k) =
      unfold ◌*ℤ◌ in unfold ◌-ℤ◌ in ground arith in
    mul_i128_exact (pos a) (negsuc k) (rw e (unfold ◌-ℤ◌ in ground arith)) ∙ e

sub_back : (x m : ℕ) → x + m < 2 ^ 127 → sub_i128 (pos x) (pos 0 -ℤ pos m) ≡ pos (x + m)
sub_back x m h =
    let e : pos x -ℤ (pos 0 -ℤ pos m) ≡ pos (x + m) = unfold ◌-ℤ◌ in ground arith in
    sub_i128_exact (pos x) (pos 0 -ℤ pos m) (rw e h) ∙ e

sub_forth : (x m : ℕ) → m ≤ x → x < 2 ^ 127 → sub_i128 (pos x) (pos m) ≡ pos (x - m)
sub_forth x m h small =
    let e : pos x -ℤ pos m ≡ pos (x - m) = unfold ◌-ℤ◌ in ground arith in
    sub_i128_exact (pos x) (pos m) (rw e (omega arith)) ∙ e

-- A point read before and after its time.
decayed-forth :
    (p : Point) (a b t : ℕ)
    → p.slope ≡ pos a
    → p.bias ≡ pos b
    → p.ts ≤ t
    → t < 2 ^ 64
    → a * (t - p.ts) ≤ b
    → b < 2 ^ 127
    → decayed p t ≡ pos (b - a * (t - p.ts))
unfolding decayed
decayed-forth p a b t slope bias later small enough fits =
    ap₂ sub_i128 bias (
      ap₂ mul_i128 slope (sub_forth t p.ts later (omega arith))
      ∙ mul_i128_pos a (t - p.ts) (omega arith))
    ∙ sub_forth b (a * (t - p.ts)) enough fits

decayed-back :
    (p : Point) (a b t k : ℕ)
    → p.slope ≡ pos a
    → p.bias ≡ pos b
    → p.ts ≡ t + suc k
    → p.ts < 2 ^ 64
    → b + a * suc k < 2 ^ 127
    → decayed p t ≡ pos (b + a * suc k)
unfolding decayed
decayed-back p a b t k slope bias earlier small fits =
    let e : pos t -ℤ pos p.ts ≡ negsuc k = unfold ◌-ℤ◌ in ground arith in
    ap₂ sub_i128 bias (
      ap₂ mul_i128 slope (sub_i128_exact (pos t) (pos p.ts) (rw e (omega arith)) ∙ e)
      ∙ times_back a k (omega arith))
    ∙ sub_back b (a * suc k) fits

module _ (s : Escrow) (t rounds : ℕ) (p : Point) (t_i : ℕ) where
  supply_rounds-next :
      add_u64 t_i week < t
      → supply_rounds s t (suc rounds) p t_i
        ≡ supply_rounds s t rounds (supply_point s t p t_i) (supply_time s t t_i)
  unfolding supply_rounds
  supply_rounds-next h =
      let f : (supply_time s t t_i == t) ≡ false = ground arith in rw (f, supply_rounds) refl

  supply_rounds-last : t ≤ add_u64 t_i week → supply_rounds s t (suc rounds) p t_i ≡ decayed p t
  unfolding supply_rounds
  supply_rounds-last h =
      let e : supply_time s t t_i ≡ t = ground arith in
      let f : (supply_time s t t_i == t) ≡ true = ground arith in
      rw (f, supply_rounds) (ap (decayed p) e)

module _ (s : Escrow) (p : Point) (t : ℕ) (over : p.ts + week < t) (under : t ≤ p.ts + 2 * week)
    (small : t < 2 ^ 63) where
  supply_rounds-second : supply_rounds s t 255 p p.ts ≡ decayed (supply_point s t p p.ts) t
  supply_rounds-second =
      let e : supply_time s t p.ts ≡ p.ts + week = ground arith in
      supply_rounds-next s t 254 p p.ts (omega arith)
      ∙ supply_rounds-last s t 253 (supply_point s t p p.ts) (supply_time s t p.ts)
          (rw e (omega arith))

  second_point :
      (a b : ℕ)
      → p.slope ≡ pos a
      → p.bias ≡ pos b
      → get_slope_changes s (p.ts + week) ≡ pos 0
      → a * week ≤ b
      → b < 2 ^ 127
      → a < 2 ^ 127
      → let q = supply_point s t p p.ts in
        (q.slope ≡ pos a) × (q.bias ≡ pos (b - a * week)) × (q.ts ≡ 2 * p.ts + week)
  second_point a b slope bias none_due enough fits fits' =
      let e : supply_time s t p.ts ≡ p.ts + week = ground arith in
      let f : ltb t (add_u64 p.ts week) ≡ false = ground arith in
      let g : add_u64 p.ts week ≡ p.ts + week = omega arith in
      let j = ap (get_slope_changes s) g in
      let due : supply_slope s t p.ts ≡ pos 0 = ground arith in
      let d : (p.ts + week) - p.ts ≡ week = omega arith in
      (
        ap₂ add_i128 slope due ∙ add_zero (pos a) fits',
        ap (decayed p) e
            ∙ decayed-forth p a b (p.ts + week) slope bias (omega arith) (omega arith) (rw d enough)
                fits
            ∙ ap (λ (k : ℕ). pos (b - a * k)) d,
        rw e (omega arith),
      )

-- From a point at the start of a week, with no slope change at the start of the next week,
-- `_supply_at` gives for a time in the second week, before `2 * ts + week` and where the values fit
-- their words, the bias less one week of the slope, plus the slope for each second from that time to
-- `2 * ts + week`: the first week's end is added to the time of the point, so that the point seems
-- to lie in the future.
pub supply_at-second_week :
    (s : Escrow) (p : Point) (t a b : ℕ)
    → p.ts % week ≡ 0
    → p.ts + week < t
    → t ≤ p.ts + 2 * week
    → t < 2 * p.ts + week
    → p.ts < 2 ^ 62
    → p.slope ≡ pos a
    → p.bias ≡ pos b
    → get_slope_changes s (p.ts + week) ≡ pos 0
    → a * week ≤ b
    → b < 2 ^ 127
    → a < 2 ^ 127
    → (b - a * week) + a * (2 * p.ts + week - t) < 2 ^ 127
    → supply_at s p t ≡ (b - a * week) + a * (2 * p.ts + week - t)
unfolding supply_at u128_of
supply_at-second_week s p t a b aligned over under early small slope bias none_due enough fits fits'
      room =
    let start : p.ts / week * week ≡ p.ts = omega arith in
    let q = supply_point s t p p.ts in
    let (slope', bias', ts') =
      second_point s p t over under (omega arith) a b slope bias none_due enough fits fits' in
    let k = 2 * p.ts + week - t - 1 in
    let left : suc k ≡ 2 * p.ts + week - t = omega arith in
    let run =
      ap (supply_rounds s t 255 p) start
      ∙ supply_rounds-second s p t over under (omega arith)
      ∙ decayed-back q a (b - a * week) t k slope' bias' (omega (arith, ts')) (omega (arith, ts'))
          (rw left room) in
    ap (λ (x : ℤ). u128_of (clamp x)) run ∙ (rw left (omega arith))
