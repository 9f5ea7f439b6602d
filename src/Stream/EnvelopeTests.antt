-- ===== src/Stream/EnvelopeTests.antt =====
-- Runs of the event ids and of the wire format, at concrete inputs.
use fd_open_data_mcp.Base.{
  nat_eq, list_eq, pair_eq, codes, ℕ, ◌<◌, ◌≡◌, refl, none, some, List, [], ◌∷◌, arith,
}
use fd_open_data_mcp.Stream.Envelope.{
  EventEnvelope, ulid_text, event_id_ms, to_fields, from_fields, encode, nth, next, issue,
  next_rand,
}
use fd_open_data_mcp.Stream.Envelope.Ids.{limit, event_id_ms-ulid_text}
use fd_open_data_mcp.Stream.Envelope.Order.{issued, after, IsClocked, IsRising, issued-IsRising}
use fd_open_data_mcp.Stream.Envelope.Wire.{normal, from_fields-to_fields}

abbrev sample : EventEnvelope
sample = record {
  event_id = ulid_text 1700000000000 5;
  source = codes "akshare";
  concept_id = 12;
  entity_type = codes "stock";
  entity_id = 600000;
  date = codes "2024-05-31";
  granularity = codes "day";
  source_used = codes "sina";
  value = some (codes "10.25");
  unit = some [];
  schema_v = 1;
  emitted_at = codes "2024-06-01T00:00:00+00:00";
  payload_ref = none;
  kind = codes "observation";
}

from_fields-to_fields_example : from_fields (to_fields sample) ≡ some (normal sample)
from_fields-to_fields_example = from_fields-to_fields sample

in_range : 1700000000000 < limit 10
unfolding limit
in_range = ground arith

event_id_ms-ulid_text_example : event_id_ms (ulid_text 1700000000000 5) ≡ some 1700000000000
event_id_ms-ulid_text_example = event_id_ms-ulid_text 1700000000000 5 in_range

id_text : ulid_text 1700000000000 5 ≡ codes "01HF7YAT00-0000000000000005"
unfolding ulid_text encode nth
id_text = refl

-- Two calls within a millisecond and one in the next.
abbrev calls : List (ℕ × ℕ)
calls = (1700000000000, 9) ∷ (1700000000000, 3) ∷ (1700000000001, 2) ∷ []

calls-IsClocked : IsClocked 1700000000000 calls
unfolding IsClocked limit
calls-IsClocked = (
  ground arith,
  ground arith,
  ground arith,
  (ground arith, ground arith, ground arith, (ground arith, ground arith, ground arith, tt)),
)

calls-issued :
    issued (after 1700000000000 5) calls
    ≡ codes "01HF7YAT00-0000000000000006"
      ∷ codes "01HF7YAT00-0000000000000007"
      ∷ codes "01HF7YAT01-0000000000000002"
      ∷ []
unfolding issued next issue next_rand ulid_text encode nth
calls-issued = refl

issued-IsRising_example :
    IsRising (ulid_text 1700000000000 5) (issued (after 1700000000000 5) calls)
issued-IsRising_example = issued-IsRising 1700000000000 5 calls calls-IsClocked
