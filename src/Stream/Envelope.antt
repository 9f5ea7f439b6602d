-- ===== src/Stream/Envelope.antt =====
-- fd_open_data_mcp/stream/envelope.py: the event ids and the wire format of an event. The clock and
-- the ten random bytes are arguments.
pub mod Ids
pub mod Order
pub mod Wire
use fd_open_data_mcp.Base.{
  leb, nat_beq, if◌then◌else◌, get_default, map_option, nat_eq, list_eq, pair_eq, ◌==◌, Text, codes,
  Dict, get, str, int_of, ℕ, zero, suc, ◌+◌, ◌*◌, ◌/◌, ◌%◌, Bool, false, Option, none, some, List,
  [], ◌∷◌, ◌++◌,
}

-- `_B32`, the digits in the order of their codes.
abbrev pub alphabet : List ℕ
alphabet = codes "0123456789ABCDEFGHJKMNPQRSTVWXYZ"

unfoldable pub nth : List ℕ → ℕ → ℕ
nth [] d = 0
nth (x ∷ xs) zero = x
nth (x ∷ xs) (suc d) = nth xs d

-- `v & 0x1F` is the last digit and `v >>= 5` drops it; the list is reversed at the end.
unfoldable pub encode : ℕ → ℕ → Text
unfolding nth
encode zero v = []
encode (suc n) v = encode n (v / 32) ++ (nth alphabet (v % 32) ∷ [])

unfoldable pub ulid_text : ℕ → ℕ → Text
unfolding encode
ulid_text ms rand = encode 10 ms ++ (45 ∷ encode 16 rand)

pub record Ulid : Type 0 where
  pub last_ms : Option ℕ
  pub last_rand : ℕ

-- `1 << 80`
abbrev pub rand_limit : ℕ
rand_limit = 1208925819614629174706176

abbrev pub is_same_ms : Option ℕ → ℕ → Bool
is_same_ms none ms = false
is_same_ms (some last) ms = nat_beq ms last

-- The tail of the next id; `none` where it overflows, which raises.
unfoldable pub next_rand : Ulid → ℕ → ℕ → Option ℕ
next_rand u ms fresh =
    if is_same_ms u.last_ms ms
    then (if leb rand_limit (suc u.last_rand) then none else some (suc u.last_rand))
    else some fresh

unfoldable pub issue : Ulid → ℕ → Option ℕ → Option Text × Ulid
unfolding ulid_text
issue u ms none = (none, u)
issue u ms (some rand) = (some (ulid_text ms rand), record { last_ms = some ms; last_rand = rand })

unfoldable pub next : Ulid → ℕ → ℕ → Option Text × Ulid
unfolding issue next_rand
next u ms fresh = issue u ms (next_rand u ms fresh)

unfoldable pub index_of : List ℕ → ℕ → Option ℕ
index_of [] c = none
index_of (x ∷ xs) c = let rest = map_option suc (index_of xs c) in if x == c then some 0 else rest

abbrev pub next_digit : ℕ → Option ℕ → Option ℕ
next_digit v none = none
next_digit v (some d) = some (v * 32 + d)

-- The loop over the digits; `none` where a character is no digit, which raises.
unfoldable pub decode_from : Text → Option ℕ → Option ℕ
unfolding index_of
decode_from [] v = v
decode_from (c ∷ t) none = none
decode_from (c ∷ t) (some v) = decode_from t (next_digit v (index_of alphabet c))

-- `event_id.split("-")[0]`
unfoldable pub head_of : Text → Text
head_of [] = []
head_of (c ∷ t) = let rest = head_of t in if nat_beq c 45 then [] else c ∷ rest

unfoldable pub event_id_ms : Text → Option ℕ
unfolding decode_from head_of
event_id_ms event_id = decode_from (head_of event_id) (some 0)

pub record EventEnvelope : Type 0 where
  pub event_id : Text
  pub source : Text
  pub concept_id : ℕ
  pub entity_type : Text
  pub entity_id : ℕ
  pub date : Text
  pub granularity : Text
  pub source_used : Text
  pub value : Option Text
  pub unit : Option Text
  pub schema_v : ℕ
  pub emitted_at : Text
  pub payload_ref : Option Text
  pub kind : Text

-- `None` is the empty text on the wire.
abbrev pub or_empty : Option Text → Text
or_empty o = get_default o []

unfoldable pub to_fields : EventEnvelope → Dict Text Text
unfolding str
to_fields e =
    (codes "event_id", e.event_id)
    ∷ (codes "source", e.source)
    ∷ (codes "kind", e.kind)
    ∷ (codes "concept_id", str e.concept_id)
    ∷ (codes "entity_type", e.entity_type)
    ∷ (codes "entity_id", str e.entity_id)
    ∷ (codes "date", e.date)
    ∷ (codes "granularity", e.granularity)
    ∷ (codes "source_used", e.source_used)
    ∷ (codes "value", or_empty e.value)
    ∷ (codes "unit", or_empty e.unit)
    ∷ (codes "schema_v", str e.schema_v)
    ∷ (codes "emitted_at", e.emitted_at)
    ∷ (codes "payload_ref", or_empty e.payload_ref)
    ∷ []

-- `fields.get(key) or None`
abbrev pub or_none : Option Text → Option Text
or_none none = none
or_none (some []) = none
or_none (some (c ∷ t)) = some (c ∷ t)

abbrev pub bind : {A B : Type 0} → Option A → (A → Option B) → Option B
bind none f = none
bind (some a) f = f a

-- `int(fields.get("schema_v", SCHEMA_V))`
abbrev pub schema_of : Option Text → Option ℕ
schema_of none = some 1
schema_of (some t) = int_of t

-- `none` where a required key is missing or a number does not parse, which raises.
unfoldable pub from_fields : Dict Text Text → Option EventEnvelope
from_fields fields = bind (get fields (codes "event_id")) λ event_id.
    bind (get fields (codes "source")) λ source.
      bind (bind (get fields (codes "concept_id")) int_of) λ concept_id.
        bind (get fields (codes "entity_type")) λ entity_type.
          bind (bind (get fields (codes "entity_id")) int_of) λ entity_id.
            bind (get fields (codes "date")) λ date.
              bind (get fields (codes "source_used")) λ source_used.
                bind (schema_of (get fields (codes "schema_v"))) λ schema_v. some (record {
                  event_id = event_id;
                  source = source;
                  concept_id = concept_id;
                  entity_type = entity_type;
                  entity_id = entity_id;
                  date = date;
                  granularity = get_default (get fields (codes "granularity")) (codes "day");
                  source_used = source_used;
                  value = or_none (get fields (codes "value"));
                  unit = or_none (get fields (codes "unit"));
                  schema_v = schema_v;
                  emitted_at = get_default (get fields (codes "emitted_at")) [];
                  payload_ref = or_none (get fields (codes "payload_ref"));
                  kind = get_default (get fields (codes "kind")) (codes "observation");
                })
