-- ===== src/Cmd/Ban/Complete.antt =====
-- `Ban` misses nobody where the gateway refuses nothing.
use goop.Base.{
  ℕ, suc, ◌+◌, ◌≡◌, ap, ◌∙◌, inl, inr, List, [], ◌∷◌, ◌++◌, map, append_assoc, append-nil, Option,
  none, arith, Str, codes, Error, Bool-cases, filter, ok,
}
use goop.Gateway.Access.{AccessLevel, access_ban}
use goop.Gateway.Common.{User}
use goop.Gateway.Api.{Gateway, Trigger, ban, set_user_access, respond, History}
use goop.Gateway.Find.{find_user_in_channel}
use goop.Cmd.{Protection, is_protected, quoted, report, or_as_given}
use goop.Cmd.Protected.{targets, passed_over}
use goop.Cmd.Ban.{after_access, after_ban, ban_users, ban_first, ban_execute}

-- The history with each user's level set and the user banned behind it.
abbrev pub bans_onto : List User → History → History
bans_onto [] h = h
bans_onto (u ∷ us) h = bans_onto us (ban u.id ∷ set_user_access u.id access_ban ∷ h)

-- The gateway takes every ban level and every ban.
pub record Accepts (gw : Gateway) : Type 0 where
  pub access :
      (h : History) (uid : Str)
      → (prev : AccessLevel) × (gw.access_result h uid access_ban ≡ ok prev)
  pub ban : (h : History) (uid : Str) → gw.ban_result h uid ≡ none

module _ (gw : Gateway) (c : Protection) (t : Trigger) (accepts : Accepts gw) where
  -- What `ban_users` comes to where it starts at `p` and `l`.
  abbrev pub reported : List User → ℕ → List Str → History → Option Error × History
  reported us p l h =
      let s = report (codes "Banned") p l in
      let h' = bans_onto (targets c t us) h in (gw.respond_result h' s, respond s ∷ h')

  ban_users_complete :
      (us : List User) (p : ℕ) (l : List Str) (h : History)
      → ban_users gw c t us p l h
        ≡ reported us (p + passed_over c t us) (l ++ map (λ u. quoted u.name) (targets c t us)) h
  unfolding ban_users filter after_access after_ban
  ban_users_complete [] p l h =
      let e : p ≡ p + 0 = omega arith in rw (append-nil l) (ap (λ n. reported [] n l h) e)
  ban_users_complete (u ∷ us) p l h = elim (Bool-cases (is_protected c t u)) [
    | inl e ↦
        let n = passed_over c t us in
        let count : p + 1 + n ≡ p + suc n = omega arith in
        rw (e, ban_users, filter)
          (ban_users_complete us (p + 1) l h
            ∙ ap (λ n. reported us n (l ++ map (λ u. quoted u.name) (targets c t us)) h) count)
    | inr e ↦
        let set = set_user_access u.id access_ban in
        rw (e, ban_users, filter, (accepts.access h u.id).1, accepts.ban (set ∷ h) u.id)
          (ban_users_complete us p (l ++ quoted u.name ∷ []) (ban u.id ∷ set ∷ h)
            ∙ ap (λ m. reported us (p + passed_over c t us) m (ban u.id ∷ set ∷ h))
                (append_assoc l (quoted u.name ∷ []) (map (λ u. quoted u.name) (targets c t us))))
  ]

  -- Where the gateway takes every level and every ban, the command sets the ban level of, and then
  -- bans, exactly the users that the argument names (or the one with it as ID, where it names none)
  -- and the guard lets through, in their order, and then gives one answer, which lists their names
  -- and depends on the number of users passed over.
  pub ban_execute_complete :
      (pat : Str) (rest : List Str) (h : History)
      → t.arg ≡ pat ∷ rest
      → let found = or_as_given pat (find_user_in_channel gw h pat) in
        ban_execute gw c t h
        ≡ reported found (passed_over c t found) (map (λ u. quoted u.name) (targets c t found)) h
  unfolding ban_execute ban_first
  ban_execute_complete pat rest h e =
      let found = or_as_given pat (find_user_in_channel gw h pat) in
      let count : 0 + passed_over c t found ≡ passed_over c t found = omega arith in
      ap (λ args. ban_first gw c t args h) e
      ∙ ban_users_complete found 0 [] h
      ∙ ap (λ n. reported found n (map (λ u. quoted u.name) (targets c t found)) h) count
