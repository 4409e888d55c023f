-- ===== src/Calls/Histories.antt =====
-- What all histories of calls keep of the token and of the guard, and what the merge-free ones keep
-- of the numbering of tokens.
use casper_ve_cep.Prelude.{◌≡◌, some, [], ◌∷◌, inl, inr}
use casper_ve_cep.Exec.{Outcome-cases}
use casper_ve_cep.Host.{Env, Key, key_and_value_to_str, immediate_caller}
use casper_ve_cep.Host.Addresses.{NoCollision}
use casper_ve_cep.Contract.World.{World}
use casper_ve_cep.Calls.Dispatch.{Context, History, at, run, execute}
use casper_ve_cep.Calls.Ownership.{Names, IsSound, run-IsSound}

-- The encodings of the host are the same in every call.
module _ {env : Env} {InUse : Key → Type 0} (c : Context) where
  pub NoCollision-at : NoCollision env InUse → NoCollision (at env c) InUse
  unfolding key_and_value_to_str
  NoCollision-at free = record {
    label = free.label;
    label_injective = free.label_injective;
    slot_injective = free.slot_injective;
    id_injective = free.id_injective;
  }

  pub IsSound-at : (w : World) → IsSound env InUse w → IsSound (at env c) InUse w
  unfolding key_and_value_to_str
  IsSound-at w s = record {
    token = record {
      enumerated = record {
        fits = s.token.enumerated.fits;
        filled = s.token.enumerated.filled;
        below = s.token.enumerated.below;
        token_index = s.token.enumerated.token_index;
        index_token = s.token.enumerated.index_token;
      };
      agree = s.token.agree;
      owner_in_use = s.token.owner_in_use;
    };
    unlocked = s.unlocked;
  }

  pub IsSound-from : (w : World) → IsSound (at env c) InUse w → IsSound env InUse w
  unfolding key_and_value_to_str
  IsSound-from w s = record {
    token = record {
      enumerated = record {
        fits = s.token.enumerated.fits;
        filled = s.token.enumerated.filled;
        below = s.token.enumerated.below;
        token_index = s.token.enumerated.token_index;
        index_token = s.token.enumerated.index_token;
      };
      agree = s.token.agree;
      owner_in_use = s.token.owner_in_use;
    };
    unlocked = s.unlocked;
  }

-- Every caller of the history is an address in use, and so is every holder that it names.
abbrev pub IsWithin : Env → (Key → Type 0) → History → Type 0
IsWithin env InUse [] = Unit {0}
IsWithin env InUse ((c, call) ∷ h) =
    ((k : Key) → immediate_caller (at env c) ≡ some k → InUse k)
    × Names InUse call
    × IsWithin env InUse h

-- After any history of calls by addresses in use that name addresses in use as holders, at any times
-- and whatever payments are refused, `merge` included: `Owners` and `OwnedTokens` still tell the
-- same story, and the guard is open, if that was so before.
pub execute-IsSound :
    {env : Env} {InUse : Key → Type 0} (free : NoCollision env InUse) (h : History) (w : World)
    → IsWithin env InUse h
    → IsSound env InUse w
    → IsSound env InUse (execute env h w)
unfolding execute
execute-IsSound {env} {InUse} free [] w within s = s
execute-IsSound {env} {InUse} free ((c, call) ∷ h) w (caller, named, within) s =
    elim (Outcome-cases (run (at env c) call w)) [
      | inl (v, w', e) ↦
          let next =
            run-IsSound (NoCollision-at c free) caller w w' call named (IsSound-at c w s) e in
          rw (execute, e) (execute-IsSound free h w' within (IsSound-from c w' next))
      | inr (inl (x, w', e)) ↦ rw (execute, e) (execute-IsSound free h w within s)
      | inr (inr (r, e)) ↦ rw (execute, e) (execute-IsSound free h w within s)
    ]
