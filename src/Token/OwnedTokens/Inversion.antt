-- ===== src/Token/OwnedTokens/Inversion.antt =====
-- What holds where `set_token` and `remove_token` of ve/src/data.rs have returned.
use casper_ve_cep.Prelude.{
  ℕ, ◌+◌, ◌^◌, ◌<◌, ◌≡◌, ◌∙◌, sym, subst, true, false, inl, inr, Option-cases, arith,
}
use casper_ve_cep.Exec.{Outcome, done}
use casper_ve_cep.Host.{Env, Key}
use casper_ve_cep.Host.Addresses.{NoCollision}
use casper_ve_cep.Token.OwnedTokens.{OwnedTokens, get_index_by_token, set_token, remove_token}
use casper_ve_cep.Token.OwnedTokens.Effects.{balance}
use casper_ve_cep.Token.OwnedTokens.Enumeration.{
  IsEnumerated, holds, Gained, Lost, set_token-Gained, remove_token-Lost,
}

module _ (env : Env) (k : Key) (t : ℕ) (o o' : OwnedTokens) where
  remove_token-holds : remove_token env k t o ≡ done tt o' → holds env o k t ≡ true
  unfolding remove_token
  remove_token-holds h = elim (Option-cases (get_index_by_token env o k t)) [
    | inl missing ↦ ground arith
    | inr (i, found) ↦ ground arith
  ]

  set_token-room : set_token env k t o ≡ done tt o' → balance env o k + 1 < 2 ^ 256
  unfolding set_token
  set_token-room h = ground arith

-- An action returns one state.
done_state :
    {S : Type 0} (o : Outcome S (Unit {0})) (s s' : S) → o ≡ done tt s → o ≡ done tt s' → s ≡ s'
done_state o s s' e f = let g : done tt s ≡ done tt s' = sym e ∙ f in cc

module _ {env : Env} {InUse : Key → Type 0} (free : NoCollision env InUse) (k : Key) (t : ℕ)
    (o o' : OwnedTokens) (p : InUse k) (inv : IsEnumerated env InUse o) where
  pub remove_token-returned :
      remove_token env k t o ≡ done tt o' → (holds env o k t ≡ true) × Lost env InUse k t o o'
  remove_token-returned h =
      let held = remove_token-holds env k t o o' h in
      let (o₁, run, l) = remove_token-Lost free k t o p inv held in
      (held, subst (Lost env InUse k t o) (done_state (remove_token env k t o) o₁ o' run h) l)

  pub set_token-returned :
      holds env o k t ≡ false → set_token env k t o ≡ done tt o' → Gained env InUse k t o o'
  set_token-returned new h =
      let (o₁, run, g) = set_token-Gained free k t o p inv new (set_token-room env k t o o' h) in
      subst (Gained env InUse k t o) (done_state (set_token env k t o) o₁ o' run h) g
