-- ===== src/Protocol/Tests.antt =====
-- The theorems of the protocol at work on small values.
use worms_ng.Prelude.{String, [], none, pos, refl, some, ℤ, ◌↔◌, ◌∷◌, ◌≡◌}
use worms_ng.Protocol.{
  ActionKind, action_move, default_bounds, validate_action, validate_observation,
}
use worms_ng.Protocol.Actions.{
  Codec, action_members, action_read, marshal_action, unmarshal_action,
  unmarshal_action-marshal_action,
}
use worms_ng.Protocol.Json.{
  duplicate_field, failed, open_object, reject_duplicate_fields, scalar, scanned, text,
}
use worms_ng.Protocol.Sample.{go_east, view}
use worms_ng.Protocol.Scan.{Returns, reject_duplicate_fields-Returns}
use worms_ng.Protocol.Trees.{
  Json, array, item, leaf, member, no_items, no_members, object, string, value_tokens,
}
use worms_ng.Protocol.Trees.Distinct.{DistinctFields, reject_duplicate_fields_iff}
use worms_ng.Protocol.Valid.{Conforms, validate_observation_iff}

validate_observation_iff_example :
    (validate_observation default_bounds view ≡ none) ↔ Conforms default_bounds view
validate_observation_iff_example = validate_observation_iff default_bounds view

-- `{"a":[1,"x"],"b":{"a":2}}`, whose keys differ in each object.
abbrev tree : Json
tree = object (
    member "a" (array (item leaf (item (string "x") no_items)))
      (member "b" (object (member "a" leaf no_members)) no_members))

reject_duplicate_fields_iff_example :
    ((reject_duplicate_fields (value_tokens tree []) ≡ scanned []) ↔ DistinctFields tree)
    × (((k : String) × (reject_duplicate_fields (value_tokens tree [])
            ≡ failed (duplicate_field k)))
        ↔ ¬ DistinctFields tree)
reject_duplicate_fields_iff_example = reject_duplicate_fields_iff tree []

-- An object that does not end.
reject_duplicate_fields-Returns_example :
    Returns 3 (reject_duplicate_fields (open_object ∷ text "a" ∷ scalar ∷ []))
reject_duplicate_fields-Returns_example =
    reject_duplicate_fields-Returns (open_object ∷ text "a" ∷ scalar ∷ [])

abbrev Raw : Type 0
Raw = ActionKind × ℤ

-- The text of a member that holds a kind and a number at once.
abbrev plain : Codec Raw
plain = record {
  read_kind = λ r. some r.0;
  read_direction = λ r. some r.1;
  write_kind = λ k. (k, pos 0);
  write_direction = λ d. (action_move, d);
}

unmarshal_action-marshal_action_example :
    unmarshal_action plain (action_members plain go_east) ≡ action_read go_east
unfolding marshal_action validate_action
unmarshal_action-marshal_action_example =
    unmarshal_action-marshal_action plain go_east (action_members plain go_east) (λ k. refl)
      (λ d. refl) refl
