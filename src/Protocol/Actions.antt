-- ===== src/Protocol/Actions.antt =====
-- `Action.UnmarshalJSON` and `Action.MarshalJSON` of protocol.go. The members of the object stand
-- for its text, and what encoding/json does with one member is a parameter.
use worms_ng.Prelude.{
  Bool, Dict, Option, Option-cases, String, [], ap, arith, false, if_elim, if◌then◌else◌, inl, inr,
  length, lookup, none, not, option_elim, pos, refl, some, str_eq, string_eq, subst, ℤ, ◌==◌, ◌||◌,
  ◌∷◌, ◌≡◌,
}
use worms_ng.Protocol.{
  Action, ActionKind, Fault, action_move, action_resign, resign_direction, unknown_action,
  validate_action,
}
use worms_ng.Protocol.Valid.{ValidAction, validate_action_iff}

-- `json.Unmarshal` and `json.Marshal` of the text `R` of one member.
pub record Codec (R : Type 0) : Type 0 where
  pub read_kind : R → Option ActionKind
  pub read_direction : R → Option ℤ
  pub write_kind : ActionKind → R
  pub write_direction : ℤ → R

pub data ReadAction : Type 0 where
  action_read : Action → ReadAction
  not_an_object no_kind bad_kind no_direction bad_number : ReadAction
  unknown_field : ReadAction
  refused : Fault → ReadAction

unfoldable pub known_key : String → Bool
known_key key = str_eq key "kind" || str_eq key "direction"

unfoldable pub unknown_keys : {R : Type 0} → Dict String R → Bool
unknown_keys [] = false
unknown_keys ((key, r) ∷ members) = not (known_key key) || unknown_keys members

-- The last line of `UnmarshalJSON`.
unfoldable pub checked_action : Action → ReadAction
checked_action a = elim (validate_action a) [ none ↦ action_read a | some fault ↦ refused fault ]

-- The direction of an action whose kind has been read.
unfoldable pub read_direction_of : {R : Type 0} → Codec R → Option R → ActionKind → ReadAction
read_direction_of c (some r) action_resign = refused resign_direction
read_direction_of c (some r) k = elim (c.read_direction r) [
  | none ↦ bad_number
  | some d ↦ checked_action (record { kind = k; direction = d })
]
read_direction_of c none action_move = no_direction
read_direction_of c none k = checked_action (record { kind = k; direction = pos 0 })

-- `Action.UnmarshalJSON` behind `strictDecode`.
unfoldable pub unmarshal_action : {R : Type 0} → Codec R → Dict String R → ReadAction
unmarshal_action c members =
    if length members == 0 then not_an_object else elim (lookup "kind" members) [
      | none ↦ no_kind
      | some r ↦ if unknown_keys members then unknown_field else elim (c.read_kind r) [
        | none ↦ bad_kind
        | some k ↦ read_direction_of c (lookup "direction" members) k
      ]
    ]

unfoldable pub action_members : {R : Type 0} → Codec R → Action → Dict String R
action_members c a = elim a.kind [
  | action_move ↦ ("kind", c.write_kind a.kind) ∷ ("direction", c.write_direction a.direction) ∷ []
  | action_resign ↦ ("kind", c.write_kind a.kind) ∷ []
  | unknown_action k ↦ ("kind", c.write_kind a.kind) ∷ []
]

-- `Action.MarshalJSON`, with `none` for its error.
unfoldable pub marshal_action : {R : Type 0} → Codec R → Action → Option (Dict String R)
marshal_action c a = elim (validate_action a) [
  | none ↦ some (action_members c a)
  | some fault ↦ none
]

checked-valid : (a : Action) → validate_action a ≡ none → checked_action a ≡ action_read a
unfolding checked_action
checked-valid a v =
    ap (λ o. elim o as (λ o. ReadAction) [ none ↦ action_read a | some fault ↦ refused fault ]) v

-- An action that is returned has passed its check.
Fine : ReadAction → Type 0
Fine (action_read a) = validate_action a ≡ none
Fine not_an_object = Unit
Fine no_kind = Unit
Fine bad_kind = Unit
Fine no_direction = Unit
Fine bad_number = Unit
Fine unknown_field = Unit
Fine (refused fault) = Unit

checked_action-Fine : (a : Action) → Fine (checked_action a)
unfolding checked_action Fine
checked_action-Fine a = option_elim Fine (validate_action a) (λ v. v) (λ fault e. tt)

module _ {R : Type 0} (c : Codec R) where
  round_trip :
      (k : ActionKind) (d : ℤ)
      → ((k : ActionKind) → c.read_kind (c.write_kind k) ≡ some k)
      → ((d : ℤ) → c.read_direction (c.write_direction d) ≡ some d)
      → validate_action (record { kind = k; direction = d }) ≡ none
      → unmarshal_action c (action_members c (record { kind = k; direction = d }))
        ≡ action_read (record { kind = k; direction = d })
  unfolding unmarshal_action action_members read_direction_of unknown_keys known_key validate_action
  round_trip action_move d hk hd v = rw (hk action_move) (rw (hd d) (checked-valid _ v))
  round_trip action_resign d hk hd v =
      rw (hk action_resign)
        (ground (arith, checked-valid (record { kind = action_resign; direction = pos 0 }) refl))
  round_trip (unknown_action k) d hk hd v = cc

  -- UnmarshalJSON of an action reads back what MarshalJSON wrote, for every action that
  -- MarshalJSON accepts, if the JSON of a kind and of a number is read back as it was written.
  pub unmarshal_action-marshal_action :
      (a : Action) (members : Dict String R)
      → ((k : ActionKind) → c.read_kind (c.write_kind k) ≡ some k)
      → ((d : ℤ) → c.read_direction (c.write_direction d) ≡ some d)
      → marshal_action c a ≡ some members
      → unmarshal_action c members ≡ action_read a
  unfolding marshal_action
  unmarshal_action-marshal_action a members hk hd h = elim (Option-cases (validate_action a)) [
    | inl fine ↦ ground (arith, round_trip a.kind a.direction hk hd fine)
    | inr bad ↦ absurd (ground (arith, bad.1))
  ]

  read_direction_of-Fine : (o : Option R) (k : ActionKind) → Fine (read_direction_of c o k)
  unfolding read_direction_of Fine
  read_direction_of-Fine (some r) action_move =
      option_elim Fine (c.read_direction r) (λ e. tt) (λ d e. checked_action-Fine _)
  read_direction_of-Fine (some r) action_resign = tt
  read_direction_of-Fine (some r) (unknown_action k) =
      option_elim Fine (c.read_direction r) (λ e. tt) (λ d e. checked_action-Fine _)
  read_direction_of-Fine none action_move = tt
  read_direction_of-Fine none action_resign = checked_action-Fine _
  read_direction_of-Fine none (unknown_action k) = checked_action-Fine _

  unmarshal_action-Fine : (members : Dict String R) → Fine (unmarshal_action c members)
  unfolding unmarshal_action Fine
  unmarshal_action-Fine members =
      if_elim Fine (length members == 0) (λ e. tt)
        (λ e.
          option_elim Fine (lookup "kind" members) (λ e. tt)
            (λ r e.
              if_elim Fine (unknown_keys members) (λ e. tt)
                (λ e.
                  option_elim Fine (c.read_kind r) (λ e. tt) (λ k e. read_direction_of-Fine _ k))))

  -- An action that is read is valid.
  pub unmarshal_action-ValidAction :
      (members : Dict String R) (a : Action)
      → unmarshal_action c members ≡ action_read a
      → ValidAction a
  unfolding Fine
  unmarshal_action-ValidAction members a h =
      (validate_action_iff a).0 (subst Fine h (unmarshal_action-Fine members))
