-- ===== src/Config/Compact/Answers.antt =====
-- What becomes of the relays' configuration when it is written and read again.
use goop.Base.{
  ◌≡◌, ◌≢◌, refl, sym, ap, ◌∙◌, inl, inr, true, false, List, [], ◌∷◌, Option, none, some, Str,
  str_eq, Bool-cases,
}
use goop.Relay.{RelayConfig}
use goop.Goop.{lookup}
use goop.Config.Merge.Entries.{IsFoldMap}
use goop.Config.RelayTable.{
  RelayTo, RelayTable, get_relay, to_entry, from_config, config_or, entry_or,
}
use goop.Config.Compact.{same_config, write_from, zero_config, rewritten}
use goop.Config.Compact.Kept.{
  same_config→eq, same_config_refl, answer_self, answer_default, answer_listed, answer_lost,
  unless_implied, written, default_read, lookup-rewritten, read_entry, rewritten_answer,
  kept_answer,
}

module _ (c : RelayTable) (to from : Str) (maps : IsFoldMap c.to) where
  abbrev Same : Type 0
  Same = (get_relay (rewritten c) to from).0 ≡ (get_relay c to from).0

  same_without_entry : lookup to c.to ≡ none → Same
  unfolding get_relay from_config to_entry rewritten
  same_without_entry none_there =
      ap (λ o. from_config c to from (entry_or c o))
        (lookup-rewritten c to maps ∙ ap (read_entry c to) none_there ∙ sym none_there)

  module _ (e : RelayTo) (found : lookup to c.to ≡ some e) (maps' : IsFoldMap e.from) where
    abbrev again : RelayConfig
    again = default_read c to from e (same_config c.default_relay e.default) (written c to from e)

    abbrev entry : Option RelayConfig
    entry = lookup from e.from

    -- Both answers are of this form.
    by_answer :
        config_or to from c.default_self again
            (unless_implied c.default_self e.default to from entry)
          ≡ config_or to from c.default_self e.default entry
        → Same
    unfolding get_relay
    by_answer h =
        rewritten_answer c to from e found maps maps' ∙ h ∙ sym (kept_answer c to from e found)

    general : e.default ≡ c.default_relay → same_config c.default_relay e.default ≡ true
    general h = ap (same_config c.default_relay) h ∙ same_config_refl c.default_relay

    same_for_itself : str_eq to from ≡ true → Same
    same_for_itself y = by_answer (answer_self c.default_self e.default to from again entry y)

    same_with_default : e.default ≢ c.default_relay → Same
    same_with_default h = by_answer (
        answer_default c.default_self e.default to from again entry
          (elim (Bool-cases (same_config c.default_relay e.default)) [
            | inl y ↦ absurd (h (sym (same_config→eq c.default_relay e.default y)))
            | inr n ↦ rw n refl
          ]))

    same_when_bare : write_from c.default_self e.default to e.from ≡ [] → Same
    same_when_bare bare = by_answer (
        answer_default c.default_self e.default to from again entry
          (elim (Bool-cases (same_config c.default_relay e.default)) [
            | inl y ↦ rw (y, bare) (same_config→eq c.default_relay e.default y)
            | inr n ↦ rw n refl
          ]))

    same_when_own : (get_relay c to from).0 ≢ e.default → Same
    unfolding get_relay
    same_when_own h = elim (Bool-cases (str_eq to from)) [
      | inl y ↦ same_for_itself y
      | inr n ↦ by_answer (
          answer_listed c.default_self e.default to from again entry n
            (λ x. h (kept_answer c to from e found ∙ x)))
    ]

    lost :
        e.default ≡ c.default_relay
        → write_from c.default_self e.default to e.from ≢ []
        → str_eq to from ≡ false
        → (get_relay c to from).0 ≡ e.default
        → (get_relay (rewritten c) to from).0 ≡ zero_config
    unfolding get_relay
    lost g left n h =
        rewritten_answer c to from e found maps maps'
        ∙ answer_lost c.default_self e.default to from again entry n
            (sym (kept_answer c to from e found) ∙ h)
        ∙ ap (λ b. default_read c to from e b (written c to from e)) (general g)
        ∙ zero_again (written c to from e) left
      where
        zero_again :
            (l : List (Str × RelayConfig)) → l ≢ [] → default_read c to from e true l ≡ zero_config
        zero_again [] h = absurd (h refl)
        zero_again (p ∷ m) h = refl

  -- Where no two keys of the section are equal but for their case, nor two of the entry's list (of such
  -- keys, the merge that reads the section keeps one): what is answered for a relay is the same after the section
  -- was written and read again, if the target has no entry; and, if it has one, for a gateway and itself,
  -- if the entry's default is not the general one, if nothing of its list is written, or if the answer is
  -- another than the entry's default. In the case that is left, where the entry's default is the general
  -- one and its list is written, the default is lost: the answer is the zero value, which relays nothing.
  pub rewritten_answers :
      (lookup to c.to ≡ none → Same)
      × ((e : RelayTo)
          → lookup to c.to ≡ some e
          → IsFoldMap e.from
          → (str_eq to from ≡ true → Same)
            × (e.default ≢ c.default_relay → Same)
            × (write_from c.default_self e.default to e.from ≡ [] → Same)
            × ((get_relay c to from).0 ≢ e.default → Same)
            × (e.default ≡ c.default_relay
                → write_from c.default_self e.default to e.from ≢ []
                → str_eq to from ≡ false
                → (get_relay c to from).0 ≡ e.default
                → (get_relay (rewritten c) to from).0 ≡ zero_config))
  rewritten_answers = (
    same_without_entry,
    λ e found maps'. (
      same_for_itself e found maps',
      same_with_default e found maps',
      same_when_bare e found maps',
      same_when_own e found maps',
      lost e found maps',
    ),
  )
