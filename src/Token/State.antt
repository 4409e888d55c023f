-- ===== src/Token/State.antt =====
-- The storage of the CEP-47 token (ve/src/data.rs): the named keys, the dictionaries `Owners`,
-- `Metadata`, `OwnedTokens` and `Allowances`, and the events of ve/src/event.rs as `emit` records them.
use Prim.Native.String.{String}
use mathlib.Core.List.{map}
use casper_ve_cep.Prelude.{ℕ, Option, none, some, List, [], ◌∷◌, ◌++◌, Text, codes}
use casper_ve_cep.Exec.{Exec, ◌>>=◌, modify, or_revert, zoom}
use casper_ve_cep.Host.{
  Env, Key, CallStackElement, session, stored_session, stored_contract, Dict, get, set, remove,
  empty_dict, key_and_string_to_str, get_last_call_stack_item,
}
use casper_ve_cep.Token.OwnedTokens.{OwnedTokens}

-- `BTreeMap<String, String>`
abbrev pub Meta : Type 0
Meta = List (Text × Text)

abbrev pub TokenId : Type 0
TokenId = ℕ

-- One recorded event: the entries of its map in the order of the keys.
abbrev pub EventParams : Type 0
EventParams = List (String × Text)

pub record Token : Type 0 where
  pub name : Text
  pub symbol : Text
  pub meta : Meta
  pub total_supply : ℕ
  pub owners : Dict Key
  pub metadata : Dict Meta
  pub owned : OwnedTokens
  pub allowances : Dict Key
  pub events : List EventParams

-- `enum CEP47Event`
pub data Cep47Event : Type 0 where
  mint_event : Key → List TokenId → Cep47Event
  burn_event : Key → List TokenId → Cep47Event
  approve_event : Key → Key → List TokenId → Cep47Event
  transfer_event : Key → Key → List TokenId → Cep47Event
  metadata_update : TokenId → Cep47Event

-- The state that `CEP47::init` leaves.
unfoldable pub init : Text → Text → Meta → Token
init name symbol meta = record {
  name = name;
  symbol = symbol;
  meta = meta;
  total_supply = 0;
  owners = empty_dict;
  metadata = empty_dict;
  owned = record { tokens = empty_dict; indexes = empty_dict; balances = empty_dict };
  allowances = empty_dict;
  events = [];
}

abbrev pub set_total_supply : ℕ → Exec Token (Unit {0})
set_total_supply supply = modify (λ s. record s { total_supply = supply })

-- An action of `OwnedTokens` on the token's storage.
abbrev pub on_owned : {A : Type 0} → Exec OwnedTokens A → Exec Token A
on_owned = zoom (λ s. s.owned) (λ s o. record s { owned = o })

-- The package hash of the last call stack element, if it is a stored contract.
abbrev pub package_of : CallStackElement → Option ℕ
package_of (stored_contract package_hash contract_hash) = some package_hash
package_of (session a) = none
package_of (stored_session a) = none

module _ (env : Env) where
  open env use {u256_to_string, key_to_string, package_to_string}

  -- Owners
  abbrev pub owners_get : Token → TokenId → Option Key
  owners_get s id = get s.owners (u256_to_string id)

  abbrev pub owners_set : TokenId → Key → Exec Token (Unit {0})
  owners_set id k = modify (λ s. record s { owners = set s.owners (u256_to_string id) k })

  abbrev pub owners_remove : TokenId → Exec Token (Unit {0})
  owners_remove id = modify (λ s. record s { owners = remove s.owners (u256_to_string id) })

  -- Metadata
  abbrev pub metadata_get : Token → TokenId → Option Meta
  metadata_get s id = get s.metadata (u256_to_string id)

  abbrev pub metadata_set : TokenId → Meta → Exec Token (Unit {0})
  metadata_set id m = modify (λ s. record s { metadata = set s.metadata (u256_to_string id) m })

  abbrev pub metadata_remove : TokenId → Exec Token (Unit {0})
  metadata_remove id = modify (λ s. record s { metadata = remove s.metadata (u256_to_string id) })

  -- Allowances
  unfoldable pub allowance_key : Key → TokenId → Text
  allowance_key owner id = key_and_string_to_str env owner (u256_to_string id)

  abbrev pub allowances_get : Token → Key → TokenId → Option Key
  allowances_get s owner id = get s.allowances (allowance_key owner id)

  abbrev pub allowances_set : Key → TokenId → Key → Exec Token (Unit {0})
  allowances_set owner id k =
      modify (λ s. record s { allowances = set s.allowances (allowance_key owner id) k })

  abbrev pub allowances_remove : Key → TokenId → Exec Token (Unit {0})
  allowances_remove owner id =
      modify (λ s. record s { allowances = remove s.allowances (allowance_key owner id) })

  unfoldable pub contract_package_hash : {S : Type 0} → Exec S ℕ
  contract_package_hash = do
    last_entry ← or_revert (get_last_call_stack_item env)
    or_revert (package_of last_entry)

  unfoldable pub event_params : Text → Cep47Event → List EventParams
  event_params p (mint_event recipient ids) =
      map
        (λ id.
          ("contract_package_hash", p)
          ∷ ("event_type", codes "cep47_mint_one")
          ∷ ("recipient", key_to_string recipient)
          ∷ ("token_id", u256_to_string id)
          ∷ [])
        ids
  event_params p (burn_event owner ids) =
      map
        (λ id.
          ("contract_package_hash", p)
          ∷ ("event_type", codes "cep47_burn_one")
          ∷ ("owner", key_to_string owner)
          ∷ ("token_id", u256_to_string id)
          ∷ [])
        ids
  event_params p (approve_event owner spender ids) =
      map
        (λ id.
          ("contract_package_hash", p)
          ∷ ("event_type", codes "cep47_approve_token")
          ∷ ("owner", key_to_string owner)
          ∷ ("spender", key_to_string spender)
          ∷ ("token_id", u256_to_string id)
          ∷ [])
        ids
  event_params p (transfer_event sender recipient ids) =
      map
        (λ id.
          ("contract_package_hash", p)
          ∷ ("event_type", codes "cep47_transfer_token")
          ∷ ("recipient", key_to_string recipient)
          ∷ ("sender", key_to_string sender)
          ∷ ("token_id", u256_to_string id)
          ∷ [])
        ids
  event_params p (metadata_update id) =
      (("contract_package_hash", p)
        ∷ ("event_type", codes "cep47_metadata_update")
        ∷ ("token_id", u256_to_string id)
        ∷ [])
      ∷ []

  -- `data::emit`: one new URef for each recorded map.
  unfoldable pub emit : Cep47Event → Exec Token (Unit {0})
  unfolding contract_package_hash event_params
  emit event = do
    pkg ← contract_package_hash
    modify (λ s. record s { events = s.events ++ event_params (package_to_string pkg) event })
