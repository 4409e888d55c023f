-- ===== src/Votes/Undated.antt =====
-- The timestamps of checkpoints of votes (ve/src/vedata.rs, section DAO VOTING LOGIC).
use casper_ve_cep.Prelude.{
  ℕ, zero, suc, ◌+◌, ◌-◌, ◌≡◌, Bool, true, false, List, [], ◌∷◌, Text, get_or, ◌||◌, ◌==◌, arith,
  Bool-cases, Option-cases, inl, inr, length, leb,
}
use casper_ve_cep.Exec.{Exec, done, Outcome-cases, >>=-done, unless, narrow}
use casper_ve_cep.Host.{Env, Key, get, key_eq, key_label, is_null, key_to_str}
use casper_ve_cep.Token.State.{Token}
use casper_ve_cep.Token.Cep47.{owner_of, balance_of}
use casper_ve_cep.Votes.State.{
  Votes, Checkpoint, default_checkpoint, get_check_point_key, get_num_checkpoints,
  set_num_checkpoints, get_delegate, set_delegate, find_what_checkpoint_to_write, delegates_of,
}
use casper_ve_cep.Votes.Delegation.{
  leave_all, join_all, rewrite_without, move_token_delegates, move_all_delegates, delegate_to,
  latest, others_tokens, owned_tokens, token_count, max_delegates,
}

-- Whatever checkpoint is read has the timestamp 0.
abbrev pub IsUndated : Votes → Type 0
IsUndated s = (k : Text) → (get_or (get s.checkpoints k) default_checkpoint).timestamp ≡ 0

-- A step that does not write checkpoints.
module _ {A : Type 0} (m : Exec Votes A) where
  abbrev pub Keeps : Type 0
  Keeps = (s s' : Votes) (a : A) → m s ≡ done a s' → s'.checkpoints ≡ s.checkpoints

module _ (env : Env) where
  get_num_checkpoints-Keeps : (a : Key) → Keeps (get_num_checkpoints env a)
  unfolding get_num_checkpoints key_to_str
  get_num_checkpoints-Keeps a s s' n h = ground arith

  set_num_checkpoints-Keeps : (a : Key) (n : ℕ) → Keeps (set_num_checkpoints env a n)
  unfolding set_num_checkpoints key_to_str
  set_num_checkpoints-Keeps a n s s' u h = ground arith

  find_what_checkpoint_to_write-Keeps : (a : Key) → Keeps (find_what_checkpoint_to_write env a)
  unfolding find_what_checkpoint_to_write get_num_checkpoints key_to_str
  find_what_checkpoint_to_write-Keeps a s s' n h = ground arith

  get_delegate-Keeps : (a : Key) → Keeps (get_delegate env a)
  unfolding get_delegate key_to_str
  get_delegate-Keeps a s s' n h = ground arith

  set_delegate-Keeps : (a d : Key) → Keeps (set_delegate env a d)
  unfolding set_delegate key_to_str
  set_delegate-Keeps a d s s' u h = ground arith

  pub delegates_of-Keeps : (a : Key) → Keeps (delegates_of env a)
  unfolding delegates_of get_delegate key_to_str
  delegates_of-Keeps a s s' u h = ground arith

  token_count-Keeps : (token : Token) (a : Key) → Keeps (token_count env token a)
  unfolding token_count narrow
  token_count-Keeps token a s s' u h = ground arith

  others_tokens-Keeps :
      (token : Token) (a : Key) (ids : List ℕ) → Keeps (others_tokens env token a ids)
  unfolding others_tokens
  others_tokens-Keeps token a [] s s' r h = ground arith
  others_tokens-Keeps token a (id ∷ ids) s s' r h = elim (Option-cases (owner_of env token id)) [
    | inl missing ↦ absurd (ground arith)
    | inr (holder, found) ↦ elim (Outcome-cases (others_tokens env token a ids s)) [
      | inl (rest, s₁, e) ↦ ground (arith, others_tokens-Keeps token a ids s s₁ rest e)
      | inr (inl (x, t, bad)) ↦ absurd (ground arith)
      | inr (inr (f, bad)) ↦ absurd (ground arith)
    ]
  ]

  owned_tokens-Keeps :
      (token : Token) (a : Key) (i count : ℕ) → Keeps (owned_tokens env token a i count)
  unfolding owned_tokens narrow
  owned_tokens-Keeps token a i zero s s' r h = ground arith
  owned_tokens-Keeps token a i (suc count) s s' r h =
      elim (Outcome-cases (owned_tokens env token a (i + 1) count s)) [
        | inl (rest, s₁, e) ↦ ground (arith, owned_tokens-Keeps token a (i + 1) count s s₁ rest e)
        | inr (inl (x, t, bad)) ↦ absurd (ground arith)
        | inr (inr (f, bad)) ↦ absurd (ground arith)
      ]

  rewrite_without-IsUndated :
      (a : Key) (id : ℕ) (room : Checkpoint → Bool) (s s' : Votes)
      → IsUndated s
      → rewrite_without env a id room s ≡ done tt s'
      → IsUndated s'
  unfolding rewrite_without get_num_checkpoints key_to_str set_num_checkpoints
      find_what_checkpoint_to_write
  rewrite_without-IsUndated a id room s s' u h k = elim (Option-cases (key_label env a)) [
    | inl unnamed ↦ absurd (ground arith)
    | inr (l, named) ↦
        let n = get_or (get s.num_checkpoints l) 0 in
        ground (arith, u (get_check_point_key env a (n - 1)), u (get_check_point_key env a n), u k)
  ]

  unless-IsUndated :
      (b : Bool) (m : Exec Votes (Unit {0})) (s s' : Votes)
      → IsUndated s
      → (IsUndated s → m s ≡ done tt s' → IsUndated s')
      → unless b m s ≡ done tt s'
      → IsUndated s'
  unless-IsUndated true m s s' u f h = let same : s ≡ s' = ground arith in rw (← same) u
  unless-IsUndated false m s s' u f h = f u h

  pub move_token_delegates-IsUndated :
      (src dst : Key) (id : ℕ) (s s' : Votes)
      → IsUndated s
      → move_token_delegates env src dst id s ≡ done tt s'
      → IsUndated s'
  unfolding move_token_delegates
  move_token_delegates-IsUndated src dst id s s' u h =
      elim (Bool-cases (key_eq src dst || id == 0)) [
        | inl idle ↦ let same : s ≡ s' = ground arith in rw (← same) u
        | inr moving ↦
            let (x, s₁, first, second) =
              >>=-done (unless (is_null env src) (rewrite_without env src id (λ cp. true)))
                (λ y.
                  unless (is_null env dst) (
                    rewrite_without env dst id (λ cp. leb (length cp.token_ids + 1) max_delegates)))
                s (ground arith) in
            let u₁ =
              unless-IsUndated (is_null env src) _ s s₁ u
                (rewrite_without-IsUndated src id (λ cp. true) s s₁) first in
            unless-IsUndated (is_null env dst) _ s₁ s' u₁
              (rewrite_without-IsUndated dst id (λ cp. leb (length cp.token_ids + 1) max_delegates)
                s₁ s')
              second
      ]

  leave_all-IsUndated :
      (token : Token) (owner a : Key) (s s' : Votes)
      → IsUndated s
      → leave_all env token owner a s ≡ done tt s'
      → IsUndated s'
  unfolding leave_all get_num_checkpoints key_to_str set_num_checkpoints
      find_what_checkpoint_to_write
  leave_all-IsUndated token owner a s s' u h k = elim (Option-cases (key_label env a)) [
    | inl unnamed ↦ absurd (ground arith)
    | inr (l, named) ↦
        let n = get_or (get s.num_checkpoints l) 0 in
        let old = latest env s a n in
        elim (Outcome-cases (others_tokens env token owner old.token_ids s)) [
          | inr (inl (x, t, bad)) ↦ absurd (ground arith)
          | inr (inr (f, bad)) ↦ absurd (ground arith)
          | inl (ids, s₁, e) ↦
              let same = others_tokens-Keeps token owner old.token_ids s s₁ ids e in
              ground
                (arith, u (get_check_point_key env a (n - 1)), u (get_check_point_key env a n), u k)
        ]
  ]

  join_all-IsUndated :
      (token : Token) (owner a : Key) (s s' : Votes)
      → IsUndated s
      → join_all env token owner a s ≡ done tt s'
      → IsUndated s'
  unfolding join_all get_num_checkpoints key_to_str set_num_checkpoints
      find_what_checkpoint_to_write token_count narrow
  join_all-IsUndated token owner a s s' u h k = elim (Option-cases (key_label env a)) [
    | inl unnamed ↦ absurd (ground arith)
    | inr (l, named) ↦
        let n = get_or (get s.num_checkpoints l) 0 in
        elim (Outcome-cases (balance_of env owner token)) [
          | inr (inl (x, t, bad)) ↦ absurd (ground arith)
          | inr (inr (f, bad)) ↦ absurd (ground arith)
          | inl (count, t, counted) ↦
              elim (Outcome-cases (owned_tokens env token owner 0 count s)) [
                | inr (inl (x, t', bad)) ↦ absurd (ground arith)
                | inr (inr (f, bad)) ↦ absurd (ground arith)
                | inl (ids, s₁, e) ↦
                    let same = owned_tokens-Keeps token owner 0 count s s₁ ids e in
                    ground (
                      arith,
                      u (get_check_point_key env a (n - 1)),
                      u (get_check_point_key env a n),
                      u k,
                    )
              ]
        ]
  ]

  move_all_delegates-IsUndated :
      (token : Token) (owner src dst : Key) (s s' : Votes)
      → IsUndated s
      → move_all_delegates env token owner src dst s ≡ done tt s'
      → IsUndated s'
  unfolding move_all_delegates
  move_all_delegates-IsUndated token owner src dst s s' u h = elim (Bool-cases (key_eq src dst)) [
    | inl idle ↦ let same : s ≡ s' = ground arith in rw (← same) u
    | inr moving ↦
        let (x, s₁, first, second) =
          >>=-done (unless (is_null env src) (leave_all env token owner src))
            (λ y. unless (is_null env dst) (join_all env token owner dst)) s (ground arith) in
        let u₁ =
          unless-IsUndated (is_null env src) _ s s₁ u (leave_all-IsUndated token owner src s s₁)
            first in
        unless-IsUndated (is_null env dst) _ s₁ s' u₁ (join_all-IsUndated token owner dst s₁ s')
          second
  ]

  pub delegate_to-IsUndated :
      (token : Token) (delegator delegatee : Key) (s s' : Votes)
      → IsUndated s
      → delegate_to env token delegator delegatee s ≡ done tt s'
      → IsUndated s'
  unfolding delegate_to
  delegate_to-IsUndated token delegator delegatee s s' u h =
      let (current, s₁, found, rest) = >>=-done (get_delegate env delegator) _ s h in
      let (x, s₂, written, moved) = >>=-done (set_delegate env delegator delegatee) _ s₁ rest in
      move_all_delegates-IsUndated token delegator current delegatee s₂ s'
        (rw
          (
            set_delegate-Keeps delegator delegatee s₁ s₂ x written,
            get_delegate-Keeps delegator s s₁ current found,
          )
          u)
        moved
