-- ===== src/Cmd/Kick/Complete.antt =====
-- `Kick` misses nobody where the gateway refuses no kick.
use goop.Base.{
  ℕ, suc, ◌+◌, ◌≡◌, ap, ◌∙◌, inl, inr, List, [], ◌∷◌, ◌++◌, map, append_assoc, append-nil, Option,
  none, arith, Str, codes, Error, Bool-cases, filter,
}
use goop.Gateway.Common.{User}
use goop.Gateway.Api.{Gateway, Trigger, kick, respond, History}
use goop.Gateway.Find.{find_user_in_channel}
use goop.Cmd.{Protection, is_protected, quoted, report}
use goop.Cmd.Protected.{targets, passed_over}
use goop.Cmd.Kick.{after_kick, kick_users, kick_first, kick_execute}

-- The history with a kick of each user behind it.
abbrev pub kicks_onto : List User → History → History
kicks_onto [] h = h
kicks_onto (u ∷ us) h = kicks_onto us (kick u.id ∷ h)

module _ (gw : Gateway) (c : Protection) (t : Trigger)
    (accepts : (h : History) (uid : Str) → gw.kick_result h uid ≡ none) where
  -- The answer to the command, and the history behind it.
  abbrev pub answered : Str → History → Option Error × History
  answered s h = (gw.respond_result h s, respond s ∷ h)

  -- What `kick_users` comes to where it starts at `p` and `l`.
  abbrev pub reported : List User → ℕ → List Str → History → Option Error × History
  reported us p l h = answered (report (codes "Kicked") p l) (kicks_onto (targets c t us) h)

  kick_users_complete :
      (us : List User) (p : ℕ) (l : List Str) (h : History)
      → kick_users gw c t us p l h
        ≡ reported us (p + passed_over c t us) (l ++ map (λ u. quoted u.name) (targets c t us)) h
  unfolding kick_users filter after_kick
  kick_users_complete [] p l h =
      let e : p ≡ p + 0 = omega arith in rw (append-nil l) (ap (λ n. reported [] n l h) e)
  kick_users_complete (u ∷ us) p l h = elim (Bool-cases (is_protected c t u)) [
    | inl e ↦
        let n = passed_over c t us in
        let count : p + 1 + n ≡ p + suc n = omega arith in
        rw (e, kick_users, filter)
          (kick_users_complete us (p + 1) l h
            ∙ ap (λ n. reported us n (l ++ map (λ u. quoted u.name) (targets c t us)) h) count)
    | inr e ↦
        rw (e, kick_users, filter, accepts h u.id)
          (kick_users_complete us p (l ++ quoted u.name ∷ []) (kick u.id ∷ h)
            ∙ ap (λ m. reported us (p + passed_over c t us) m (kick u.id ∷ h))
                (append_assoc l (quoted u.name ∷ []) (map (λ u. quoted u.name) (targets c t us))))
  ]

  -- Where the gateway takes every kick, the command kicks exactly the users that the argument names
  -- and the guard lets through, in their order, and then gives one answer, which lists their names
  -- and depends on the number of users passed over.
  kick_execute_complete :
      (pat : Str) (rest : List Str) (h : History)
      → t.arg ≡ pat ∷ rest
      → let found = find_user_in_channel gw h pat in
        kick_execute gw c t h
        ≡ reported found (passed_over c t found) (map (λ u. quoted u.name) (targets c t found)) h
  unfolding kick_execute kick_first
  kick_execute_complete pat rest h e =
      let found = find_user_in_channel gw h pat in
      let count : 0 + passed_over c t found ≡ passed_over c t found = omega arith in
      ap (λ args. kick_first gw c t args h) e
      ∙ kick_users_complete found 0 [] h
      ∙ ap (λ n. reported found n (map (λ u. quoted u.name) (targets c t found)) h) count
