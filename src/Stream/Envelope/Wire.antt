-- ===== src/Stream/Envelope/Wire.antt =====
-- The wire format of an event.
use fd_open_data_mcp.Base.{
  nat_eq, list_eq, pair_eq, Text, get, int_of-str, ◌≡◌, refl, Option, none, some, [], ◌∷◌,
}
use fd_open_data_mcp.Stream.Envelope.{EventEnvelope, or_empty, to_fields, or_none, from_fields}

-- The event with each empty optional text taken as absent.
abbrev pub normal : EventEnvelope → EventEnvelope
normal e = record e {
  value = or_none e.value;
  unit = or_none e.unit;
  payload_ref = or_none e.payload_ref;
}

or_none-or_empty : (o : Option Text) → or_none (some (or_empty o)) ≡ or_none o
or_none-or_empty none = refl
or_none-or_empty (some []) = refl
or_none-or_empty (some (c ∷ t)) = refl

-- An event that is written to the wire is read back, with an empty value, unit or reference read as
-- absent.
pub from_fields-to_fields : (e : EventEnvelope) → from_fields (to_fields e) ≡ some (normal e)
unfolding from_fields to_fields get
from_fields-to_fields e =
    rw
      (
        int_of-str e.concept_id,
        int_of-str e.entity_id,
        int_of-str e.schema_v,
        or_none-or_empty e.value,
        or_none-or_empty e.unit,
        or_none-or_empty e.payload_ref,
      )
      refl
