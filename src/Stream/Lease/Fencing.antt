-- ===== src/Stream/Lease/Fencing.antt =====
-- Fencing: who may acknowledge an item, and what a reclaim takes back.
use fd_open_data_mcp.Base.{
  ℕ, ◌+◌, ◌≤◌, ◌≡◌, ◌≢◌, refl, ap, ◌∙◌, Bool, true, false, Option, none, some, List, [], ◌∷◌, arith,
  if◌then◌else◌, leb, Text, ◌==◌, list_eq, nat_eq, list_beq_iff, get, get-put, get-remove, beq_refl,
  contains, count, collect, Dict, IsUnique,
}
use fd_open_data_mcp.Stream.Lease.Conservation.{ids, held, IsSound, reclaim_loop_keeps}
use fd_open_data_mcp.Stream.Lease.{
  WorkItem, Lease, Queue, claim, claim_from, ack, ack_held, reclaim_one, put_back, reclaim_loop,
  reclaim_expired, expired_id, expired_ids,
}

-- Whether this id is leased under this token.
abbrev pub holds : Option Lease → Text → Bool
holds none token = false
holds (some l) token = l.token == token

ack_held-holds :
    (o : Option Lease) (iid token : Text) (q : Queue)
    → get q.leased iid ≡ o
    → (ack_held o iid token q).0 ≡ holds o token
ack_held-holds none iid token q e = refl
ack_held-holds (some l) iid token q e = ground arith

ack_held-again :
    (o : Option Lease) (iid token again : Text) (q : Queue)
    → get q.leased iid ≡ o
    → (ack_held o iid token q).0 ≡ true
    → (ack iid again (ack_held o iid token q).1).0 ≡ false
unfolding ack
ack_held-again none iid token again q e h = cc
ack_held-again (some l) iid token again q e h =
    ground (arith, get-remove q.leased iid iid, beq_refl iid)

ack_held-refused :
    (o : Option Lease) (iid token : Text) (q : Queue)
    → (ack_held o iid token q).0 ≡ false
    → (ack_held o iid token q).1 ≡ q
ack_held-refused none iid token q h = refl
ack_held-refused (some l) iid token q h = ground arith

-- An ack succeeds exactly when the item is leased under that token; after it succeeds no ack of the
-- item succeeds, under any token; and a refused ack changes nothing.
pub ack_fenced :
    (iid token : Text) (q : Queue)
    → ((ack iid token q).0 ≡ holds (get q.leased iid) token)
      × ((ack iid token q).0 ≡ true
          → (again : Text) → (ack iid again (ack iid token q).1).0 ≡ false)
      × ((ack iid token q).0 ≡ false → (ack iid token q).1 ≡ q)
ack_fenced iid token q = (
  unfold ack in ack_held-holds (get q.leased iid) iid token q refl,
  λ h again. unfold ack in ack_held-again (get q.leased iid) iid token again q refl h,
  λ h. unfold ack in ack_held-refused (get q.leased iid) iid token q h,
)

abbrev pub has_expired : ℕ → Option Lease → Bool
has_expired now none = false
has_expired now (some l) = leb l.until_ms now

abbrev pub survivor : ℕ → Option Lease → Option Lease
survivor now o = if has_expired now o then none else o

contains-expired :
    (now : ℕ) (d : Dict Text Lease) (id : Text)
    → IsUnique d
    → contains (collect (expired_id now) d) id ≡ has_expired now (get d id)
unfolding get
contains-expired now [] id u = refl
contains-expired now ((iid, l) ∷ d) id u =
    ground (arith, list_beq_iff iid id, contains-expired now d id u.1)

leased-put_back :
    (o : Option Lease) (iid id : Text) (q : Queue)
    → get q.leased iid ≡ o
    → get (put_back o iid q).leased id ≡ (if iid == id then none else get q.leased id)
leased-put_back none iid id q e = ground (arith, list_beq_iff iid id)
leased-put_back (some l) iid id q e = get-remove q.leased iid id

leased-reclaim_loop :
    (iids : List Text) (id : Text) (q : Queue)
    → get (reclaim_loop iids q).leased id ≡ (if contains iids id then none else get q.leased id)
unfolding reclaim_loop
leased-reclaim_loop [] id q = refl
leased-reclaim_loop (iid ∷ iids) id q = ground (
  arith,
  leased-reclaim_loop iids id (reclaim_one iid q),
  leased-put_back (get q.leased iid) iid id q refl,
)

done-put_back : (o : Option Lease) (iid : Text) (q : Queue) → (put_back o iid q).done ≡ q.done
done-put_back none iid q = refl
done-put_back (some l) iid q = refl

done-reclaim_loop : (iids : List Text) (q : Queue) → (reclaim_loop iids q).done ≡ q.done
unfolding reclaim_loop
done-reclaim_loop [] q = refl
done-reclaim_loop (iid ∷ iids) q =
    done-reclaim_loop iids (reclaim_one iid q) ∙ done-put_back (get q.leased iid) iid q

-- A reclaim takes back exactly the leases that have run out at this time, and each id becomes
-- available once more exactly when its lease has; the finished ids stay as they are.
pub reclaim_exact :
    (now : ℕ) (q : Queue) (id : Text)
    → IsSound q
    → let q' = (reclaim_expired now q).1 in
      (get q'.leased id ≡ survivor now (get q.leased id))
      × (count id (ids q'.available)
          ≡ count id (ids q.available) + (if has_expired now (get q.leased id) then 1 else 0))
      × (q'.done ≡ q.done)
unfolding reclaim_expired
reclaim_exact now q id h =
    let q' = reclaim_loop (expired_ids now q) q in
    let kept : get q'.leased id ≡ survivor now (get q.leased id) =
      leased-reclaim_loop (expired_ids now q) id q
      ∙ (unfold expired_ids in rw (contains-expired now q.leased id h.distinct)) in
    let finished : q'.done ≡ q.done = done-reclaim_loop (expired_ids now q) q in
    (
      kept,
      ground (
        arith,
        (reclaim_loop_keeps (expired_ids now q) q h).1 id,
        ap (λ o. held o) kept,
        ap (λ d. count id d) finished,
      ),
      finished,
    )

holds-claim_from :
    (avail : List WorkItem) (now : ℕ) (other : Text) (ms : ℕ) (q : Queue) (id token : Text)
    → get q.leased id ≡ none
    → other ≢ token
    → holds (get (claim_from avail now other ms q).1.leased id) token ≡ false
holds-claim_from [] now other ms q id token e ne = rw e
holds-claim_from (item ∷ rest) now other ms q id token e ne =
    let new : Lease = record { held_item = item; token = other; until_ms = now + ms } in
    ground (arith, get-put q.leased item.item_id id new, list_beq_iff other token)

-- A worker that held the item past its lease is refused: after the reclaim, and also after another
-- worker has claimed whatever comes next under another token.
pub late_ack_refused :
    (now : ℕ) (q : Queue) (id : Text) (l : Lease)
    → IsSound q
    → get q.leased id ≡ some l
    → l.until_ms ≤ now
    → let q' = (reclaim_expired now q).1 in
      ((ack id l.token q').0 ≡ false)
      × ((now' ms : ℕ) (other : Text)
          → other ≢ l.token
          → (ack id l.token (claim now' other ms q').1).0 ≡ false)
late_ack_refused now q id l h e late =
    let q' = (reclaim_expired now q).1 in
    let gone : get q'.leased id ≡ none = (reclaim_exact now q id h).0 ∙ rw e (ground arith) in
    (
      (ack_fenced id l.token q').0 ∙ (rw gone),
      λ now' ms other ne.
          (ack_fenced id l.token (claim now' other ms q').1).0
          ∙ unfold claim in holds-claim_from q'.available now' other ms q' id l.token gone ne,
    )
