-- ===== src/Host/Addresses.antt =====
-- Addresses in use and the texts under which dictionaries file them (`key_to_str` and
-- `key_and_value_to_str` of ve/src/utils.rs).
use casper_ve_cep.Prelude.{
  ℕ, ◌≡◌, refl, ap, sym, ◌∙◌, Bool, true, false, ◌&&◌, some, Text, text_eq, text_eq_sound,
  text_eq_refl, ◌==◌, ==_iff, arith,
}
use casper_ve_cep.Host.{Env, Key, account, hash, other, key_eq, key_label, key_and_value_to_str}

-- The addresses that the token knows: each has a name for `key_to_str`, and neither these names nor
-- the hashes of an address with a number collide. An account and a contract with the same 32 bytes
-- would share a name, so the addresses in use are a parameter.
pub record NoCollision (env : Env) (InUse : Key → Type 0) : Type 0 where
  pub label : (k : Key) → InUse k → (l : Text) × (key_label env k ≡ some l)
  pub label_injective : (k j : Key) → InUse k → InUse j → key_label env k ≡ key_label env j → k ≡ j
  pub slot_injective :
      (k j : Key) (a b : ℕ)
      → InUse k
      → InUse j
      → key_and_value_to_str env k a ≡ key_and_value_to_str env j b
      → (k ≡ j) × (a ≡ b)
  pub id_injective : (a b : ℕ) → env.u256_to_string a ≡ env.u256_to_string b → a ≡ b

pub key_eq_sound : (k j : Key) → key_eq k j ≡ true → k ≡ j
key_eq_sound (account a) (account b) h = ap account ((==_iff a b).0 h)
key_eq_sound (hash a) (hash b) h = ap hash ((==_iff a b).0 h)
key_eq_sound (other a) (other b) h = ap other ((==_iff a b).0 h)
key_eq_sound k j h = cc

pub key_eq_refl : (k : Key) → key_eq k k ≡ true
key_eq_refl (account a) = (==_iff a a).1 refl
key_eq_refl (hash a) = (==_iff a a).1 refl
key_eq_refl (other a) = (==_iff a a).1 refl

pub key_eq_complete : (k j : Key) → k ≡ j → key_eq k j ≡ true
key_eq_complete k j e = rw (← e) (key_eq_refl k)

text_eq_complete : (a b : Text) → a ≡ b → text_eq a b ≡ true
text_eq_complete a b e = rw (← e) (text_eq_refl a)

Bool-ext : (a b : Bool) → (a ≡ true → b ≡ true) → (b ≡ true → a ≡ true) → a ≡ b
Bool-ext true b f g = sym (f refl)
Bool-ext false true f g = g refl
Bool-ext false false f g = refl

and_intro : (a b : Bool) → a ≡ true → b ≡ true → (a && b) ≡ true
and_intro a b p q = ground arith

and_elim : (a b : Bool) → (a && b) ≡ true → (a ≡ true) × (b ≡ true)
and_elim a b h = ground arith

module _ {env : Env} {InUse : Key → Type 0} (free : NoCollision env InUse) where
  -- The item keys of two addresses with numbers agree exactly if both parts agree.
  pub text_eq-slot :
      (k j : Key) (a b : ℕ)
      → InUse k
      → InUse j
      → text_eq (key_and_value_to_str env k a) (key_and_value_to_str env j b)
        ≡ (key_eq k j && (a == b))
  text_eq-slot k j a b p q =
      Bool-ext _ _
        (λ h.
          let (e, f) = free.slot_injective k j a b p q (text_eq_sound _ _ h) in
          and_intro _ _ (key_eq_complete k j e) ((==_iff a b).1 f))
        (λ h.
          let (e, f) = and_elim _ _ h in
          text_eq_complete _ _ (
            ap (λ x. key_and_value_to_str env x a) (key_eq_sound k j e)
            ∙ ap (key_and_value_to_str env j) ((==_iff a b).0 f)))

  pub text_eq-label :
      (k j : Key) (l m : Text)
      → InUse k
      → InUse j
      → key_label env k ≡ some l
      → key_label env j ≡ some m
      → text_eq l m ≡ key_eq k j
  text_eq-label k j l m p q lk lj =
      Bool-ext _ _
        (λ h.
          key_eq_complete k j
            (free.label_injective k j p q (lk ∙ ap some (text_eq_sound l m h) ∙ sym lj)))
        (λ h.
          let same : some l ≡ some m = sym lk ∙ ap (key_label env) (key_eq_sound k j h) ∙ lj in
          text_eq_complete l m (cc))

  pub text_eq-id : (a b : ℕ) → text_eq (env.u256_to_string a) (env.u256_to_string b) ≡ (a == b)
  text_eq-id a b =
      Bool-ext _ _ (λ h. (==_iff a b).1 (free.id_injective a b (text_eq_sound _ _ h)))
        (λ h. text_eq_complete _ _ (ap env.u256_to_string ((==_iff a b).0 h)))
