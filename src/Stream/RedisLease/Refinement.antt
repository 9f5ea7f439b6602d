-- ===== src/Stream/RedisLease/Refinement.antt =====
-- How the Redis layout stores an in-process queue, call by call.
use fd_open_data_mcp.Base.{
  ltb, nat_beq, if◌then◌else◌, Bool-cases, map_option, all_of, nat_eq, list_eq, pair_eq, ◌==◌, Text,
  get, IsUnique, map_values, get-map_values, remove-map_values, put-map_values, str, int_of-str,
  all_of-str, ℕ, ◌+◌, ◌≡◌, refl, ap, ◌∙◌, inl, inr, true, not, Option, none, some, List, [], ◌∷◌,
  ◌++◌, map, arith,
}
use mathlib.Core.List.{map-append}
use fd_open_data_mcp.Stream.Lease.{
  WorkItem, LeasedItem, Lease, Queue, expired_id, expired_ids, reclaim_one,
}
use fd_open_data_mcp.Stream.Lease
use fd_open_data_mcp.Stream.RedisLease.{
  Json, RedisQueue, split_bar, lease_value, token_of, Expiry, leaves, takes, fails, expiry,
  expiry_rest, expiry_parts, expiry_at, take_back, HashOrder, entries_of, hgetall,
}
use fd_open_data_mcp.Stream.RedisLease

abbrev pub stored_lease : Json → Text → Lease → Text
stored_lease json iid l = lease_value l.token l.until_ms (json.dumps l.held_item)

-- The three Redis structures of an in-process queue.
unfoldable pub stored : Json → Queue → RedisQueue
unfolding lease_value
stored json q = record {
  available = map (λ it. json.dumps it) q.available;
  leased = map_values (stored_lease json) q.leased;
  done = q.done;
}

-- The text has no bar.
abbrev pub IsPlain : Text → Type 0
IsPlain t = all_of (λ c. not (nat_beq c 124)) t ≡ true

split_bar-plain : (s t : Text) → IsPlain s → split_bar (s ++ (124 ∷ t)) ≡ some (s, t)
unfolding split_bar
split_bar-plain [] t h = refl
split_bar-plain (c ∷ s) t h = ground (arith, h, split_bar-plain s t)

digits-IsPlain : (n : ℕ) → IsPlain (str n)
digits-IsPlain n = all_of-str (λ c. not (nat_beq c 124)) (λ d l. ground arith) n

token_of-stored :
    (token : Text) (until : ℕ) (raw : Text)
    → IsPlain token
    → token_of (lease_value token until raw) ≡ token
unfolding token_of lease_value
token_of-stored token until raw h =
    rw (token_of, split_bar-plain token (str until ++ (124 ∷ raw)) h) refl

pub expiry-stored :
    (now : ℕ) (token : Text) (until : ℕ) (raw : Text)
    → IsPlain token
    → expiry now (lease_value token until raw) ≡ (if ltb now until then leaves else takes raw)
unfolding expiry expiry_rest expiry_parts expiry_at lease_value
expiry-stored now token until raw h =
    ap (expiry_rest now) (split_bar-plain token (str until ++ (124 ∷ raw)) h)
    ∙ ap (expiry_parts now) (split_bar-plain (str until) raw (digits-IsPlain until))
    ∙ ap (λ o. expiry_at now o raw) (int_of-str until)
    ∙ refl

-- Each lease has its own key, and a token with no bar.
abbrev pub IsStorable : Queue → Type 0
IsStorable q =
    IsUnique q.leased × ((id : Text) (l : Lease) → get q.leased id ≡ some l → IsPlain l.token)

-- A call on the stored queue gives what the call gives, and stores what it leaves.
module _ (json : Json) where
  pub enqueue-stored :
      (items : List WorkItem) (q : Queue)
      → RedisLease.enqueue json items (stored json q)
        ≡ ((Lease.enqueue items q).0, stored json (Lease.enqueue items q).1)
  unfolding RedisLease.enqueue Lease.enqueue stored
  enqueue-stored items q = rw (map-append (λ (it : WorkItem). json.dumps it) q.available items) refl

  claim_from-stored :
      (avail : List WorkItem) (now : ℕ) (token : Text) (ms : ℕ) (q : Queue)
      → RedisLease.claim_from json (map (λ it. json.dumps it) avail) now token ms (stored json q)
        ≡ (
          some (Lease.claim_from avail now token ms q).0,
          stored json (Lease.claim_from avail now token ms q).1,
        )
  unfolding RedisLease.claim_from RedisLease.claim_item stored
  claim_from-stored [] now token ms q = refl
  claim_from-stored (item ∷ rest) now token ms q =
      rw
        (
          json.loads-dumps item,
          put-map_values (stored_lease json) q.leased item.item_id
              (record { held_item = item; token = token; until_ms = now + ms }),
        )
        refl

  pub claim-stored :
      (now : ℕ) (token : Text) (ms : ℕ) (q : Queue)
      → RedisLease.claim json now token ms (stored json q)
        ≡ (some (Lease.claim now token ms q).0, stored json (Lease.claim now token ms q).1)
  unfolding RedisLease.claim Lease.claim stored
  claim-stored now token ms q = claim_from-stored q.available now token ms q

  ack_held-stored :
      (o : Option Lease) (id token : Text) (q : Queue)
      → ((l : Lease) → o ≡ some l → IsPlain l.token)
      → RedisLease.ack_held (map_option (stored_lease json id) o) id token (stored json q)
        ≡ ((Lease.ack_held o id token q).0, stored json (Lease.ack_held o id token q).1)
  unfolding RedisLease.ack_held stored
  ack_held-stored none id token q plain = refl
  ack_held-stored (some l) id token q plain =
      rw (token_of-stored l.token l.until_ms (json.dumps l.held_item) (plain l refl))
        (elim (Bool-cases (l.token == token)) [
          | inl same ↦ rw (same, remove-map_values (stored_lease json) q.leased id) refl
          | inr other ↦ rw other refl
        ])

  pub ack-stored :
      (id token : Text) (q : Queue)
      → IsStorable q
      → RedisLease.ack id token (stored json q)
        ≡ ((Lease.ack id token q).0, stored json (Lease.ack id token q).1)
  unfolding RedisLease.ack Lease.ack stored
  ack-stored id token q (u, plain) =
      ap (λ o. RedisLease.ack_held o id token (stored json q))
        (get-map_values (stored_lease json) q.leased id)
      ∙ ack_held-stored (get q.leased id) id token q (plain id)
