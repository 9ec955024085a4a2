-- ===== src/Guard/Filters.antt =====
-- service_transition_guard.cpp: the guard's filters, and the tests on filters that the engine holds.
-- The keys of the Windows SDK (layers, condition fields, match types) are opaque numbers.
use pokrov_app.Base.{
  Bool, List, Option, [], bytes_eq, false, get_or, if◌then◌else◌, is_empty, leb, length, not, some,
  take, true, ◌%◌, ◌&&◌, ◌+◌, ◌/◌, ◌==◌, ◌^◌, ◌||◌, ◌∷◌, ℕ,
}

pub record Guid : Type 0 where
  pub data1 : ℕ
  pub data2 : ℕ
  pub data3 : ℕ
  pub data4 : List ℕ

unfoldable pub guid_eq : Guid → Guid → Bool
guid_eq a b =
    (a.data1 == b.data1) && (a.data2 == b.data2) && (a.data3 == b.data3) && bytes_eq a.data4 b.data4

abbrev pub sub_layer : Guid
sub_layer = record {
  data1 = 0x541c71c5;
  data2 = 0x2ab4;
  data3 = 0x49b7;
  data4 = 0xa1 ∷ 0xa3 ∷ 0x56 ∷ 0x4f ∷ 0xc8 ∷ 0x5c ∷ 0xef ∷ 0x31 ∷ [];
}

abbrev pub filter_base : Guid
filter_base = record {
  data1 = 0x0a06bf20;
  data2 = 0xc38a;
  data3 = 0x4e21;
  data4 = 0x94 ∷ 0xc6 ∷ 0x30 ∷ 0x06 ∷ 0xa8 ∷ 0x92 ∷ 0x5d ∷ 0x10 ∷ [];
}

abbrev pub filter_count : ℕ
filter_count = 8

pub data Layer : Type 0 where
  auth_connect_v4 auth_connect_v6 auth_recv_accept_v4 auth_recv_accept_v6 : Layer
  other_layer : ℕ → Layer

abbrev pub layers : List Layer
layers = auth_connect_v4 ∷ auth_connect_v6 ∷ auth_recv_accept_v4 ∷ auth_recv_accept_v6 ∷ []

abbrev pub layer_code : Layer → ℕ
layer_code auth_connect_v4 = 0
layer_code auth_connect_v6 = 1
layer_code auth_recv_accept_v4 = 2
layer_code auth_recv_accept_v6 = 3
layer_code (other_layer n) = n + 4

abbrev pub layer_eq : Layer → Layer → Bool
layer_eq a b = layer_code a == layer_code b

pub data Action : Type 0 where
  permit block callout_terminating callout_inspection callout_unknown : Action

abbrev pub action_code : Action → ℕ
action_code permit = 0
action_code block = 1
action_code callout_terminating = 2
action_code callout_inspection = 3
action_code callout_unknown = 4

abbrev pub action_eq : Action → Action → Bool
action_eq a b = action_code a == action_code b

-- The flag bits that the code tests, and the number of all others.
pub record Flags : Type 0 where
  pub persistent : Bool
  pub disabled : Bool
  pub indexed : Bool
  pub clear_action_right : Bool
  pub other : ℕ

abbrev bool_eq : Bool → Bool → Bool
bool_eq true b = b
bool_eq false b = not b

-- `(actual & ~INDEXED) == expected`.
unfoldable pub flags_match : Flags → Flags → Bool
flags_match actual expected =
    bool_eq actual.persistent expected.persistent
    && bool_eq actual.disabled expected.disabled
    && not expected.indexed
    && bool_eq actual.clear_action_right expected.clear_action_right
    && (actual.other == expected.other)

-- FWP_BYTE_BLOB: a size and a pointer that may be null.
pub record Blob : Type 0 where
  pub size : ℕ
  pub bytes : Option (List ℕ)

abbrev same_bytes : ℕ → Option (List ℕ) → Option (List ℕ) → Bool
same_bytes size (some a) (some b) = bytes_eq (take size a) (take size b)
same_bytes size _ _ = false

unfoldable pub same_blob : Option Blob → Option Blob → Bool
same_blob (some a) (some b) =
    (a.size == b.size) && ((a.size == 0) || same_bytes a.size a.bytes b.bytes)
same_blob _ _ = false

pub data ValueType : Type 0 where
  byte_blob security_descriptor : ValueType
  other_value : ℕ → ValueType

abbrev pub value_code : ValueType → ℕ
value_code byte_blob = 0
value_code security_descriptor = 1
value_code (other_value n) = n + 2

-- `byteBlob` and `sd` are members of one union: the same pointer.
pub record Condition : Type 0 where
  pub field_key : ℕ
  pub match_type : ℕ
  pub value_type : ValueType
  pub value : Option Blob

pub record Filter : Type 0 where
  pub filter_key : Guid
  pub flags : Flags
  pub has_provider : Bool
  pub layer_key : Layer
  pub sub_layer_key : Guid
  pub action : Action
  -- The weight, if its type is FWP_UINT64 and its pointer is not null.
  pub weight : Option ℕ
  pub conditions : List Condition

unfoldable pub filter_key_at : ℕ → Guid
filter_key_at index = record filter_base { data1 = (0x0a06bf20 + index) % 2 ^ 32 }

-- The executable's identity and the descriptor of LocalSystem, as `Initialize` obtained them, with
-- the SDK's field keys and the match type `FWP_MATCH_EQUAL`.
pub record Identity : Type 0 where
  pub app : Blob
  pub system : Blob
  pub app_field : ℕ
  pub user_field : ℕ
  pub match_equal : ℕ

unfoldable pub service_conditions : Identity → List Condition
service_conditions i =
    record {
      field_key = i.app_field;
      match_type = i.match_equal;
      value_type = byte_blob;
      value = some i.app;
    }
    ∷ record {
      field_key = i.user_field;
      match_type = i.match_equal;
      value_type = security_descriptor;
      value = some i.system;
    }
    ∷ []

abbrev persistent_only : Flags
persistent_only = record {
  persistent = true;
  disabled = false;
  indexed = false;
  clear_action_right = false;
  other = 0;
}

-- `FilterDefinitions::At`.
unfoldable pub filter_at : Identity → ℕ → Filter
unfolding service_conditions filter_key_at
filter_at i index =
    let is_permit = index % 2 == 0 in
    record {
      filter_key = filter_key_at index;
      flags = persistent_only;
      has_provider = false;
      layer_key = get_or layers (index / 2) auth_connect_v4;
      sub_layer_key = sub_layer;
      action = if is_permit then permit else block;
      weight = if is_permit then some 2 else some 1;
      conditions = if is_permit then service_conditions i else [];
    }

abbrev weight_eq : Option ℕ → Option ℕ → Bool
weight_eq (some a) (some b) = a == b
weight_eq _ _ = false

unfoldable pub condition_matches : Condition → Condition → Bool
unfolding same_blob
condition_matches a e =
    (a.field_key == e.field_key)
    && (a.match_type == e.match_type)
    && (value_code a.value_type == value_code e.value_type)
    && same_blob a.value e.value

-- The loop over the conditions; their numbers have been compared.
abbrev conditions_match : List Condition → List Condition → Bool
conditions_match _ [] = true
conditions_match [] (e ∷ es) = false
conditions_match (a ∷ as') (e ∷ es) = condition_matches a e && conditions_match as' es

unfoldable pub matches : Filter → Filter → Bool
unfolding flags_match condition_matches guid_eq
matches actual expected =
    flags_match actual.flags expected.flags
    && not actual.has_provider
    && guid_eq actual.sub_layer_key expected.sub_layer_key
    && layer_eq actual.layer_key expected.layer_key
    && action_eq actual.action expected.action
    && weight_eq actual.weight expected.weight
    && (length actual.conditions == length expected.conditions)
    && conditions_match actual.conditions expected.conditions

pub record SubLayer : Type 0 where
  pub persistent_only : Bool
  pub has_provider : Bool
  pub weight : ℕ

unfoldable pub matches_sub_layer : SubLayer → Bool
matches_sub_layer actual = actual.persistent_only && not actual.has_provider

abbrev in_layers : Layer → List Layer → Bool
in_layers l [] = false
in_layers l (x ∷ xs) = layer_eq l x || in_layers l xs

unfoldable pub is_potential_guard_override : Filter → Bool
unfolding guid_eq
is_potential_guard_override f =
    if guid_eq f.sub_layer_key sub_layer || f.flags.disabled
    then false
    else if not (in_layers f.layer_key layers)
    then false
    else (action_eq f.action permit && f.flags.clear_action_right)
      || action_eq f.action callout_terminating
      || action_eq f.action callout_unknown

-- The inner loop: some condition of the filter is the expected one.
abbrev any_matches : List Condition → Condition → Bool
any_matches [] e = false
any_matches (a ∷ as') e = condition_matches a e || any_matches as' e

abbrev all_matched : List Condition → List Condition → Bool
all_matched actual [] = true
all_matched actual (e ∷ es) = any_matches actual e && all_matched actual es

unfoldable pub is_guard_service_permit : Filter → Filter → Bool
unfolding condition_matches
is_guard_service_permit f service_permit =
    if not (action_eq f.action permit)
      || not (length f.conditions == length service_permit.conditions)
      || is_empty f.conditions
    then false
    else all_matched f.conditions service_permit.conditions

unfoldable pub can_override_guard : Filter → ℕ → ℕ → Filter → Bool
unfolding is_potential_guard_override is_guard_service_permit
can_override_guard f sublayer_weight guard_weight service_permit =
    leb guard_weight sublayer_weight
    && is_potential_guard_override f
    && not (is_guard_service_permit f service_permit)
