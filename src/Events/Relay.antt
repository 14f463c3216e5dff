-- ===== src/Events/Relay.antt =====
-- The relay between the outbox and the broker: backend/libs/events/relay.go, with the statements of
-- outbox.go that it runs and `Publish` of publisher.go.
pub mod Rows
pub mod Sending
pub mod Marks
pub mod AtLeastOnce
pub mod Backlog
pub mod Clears
use final_bds.Prelude.{
  ℕ, zero, suc, ℤ, pos, leb_ℤ, String, dec_text, ite, List, [], ◌∷◌, Option, none, some,
  if◌then◌else◌, Bool, true, false, ltb, length, ◌||◌,
}
use final_bds.Errors.{Err, Result, ok, err}
use final_bds.Events.{Envelope, validate}

-- A row of the outbox table: `OutboxRecord` and `published_at`, as a flag.
pub record Row : Type 0 where
  pub id : String
  pub envelope : Envelope
  pub created_at : ℕ
  pub published : Bool

-- The table, and what the broker has taken, the newest first. A rollback does not take back what
-- was sent.
pub record World : Type 0 where
  pub outbox : List Row
  pub sent : List Envelope

-- What the relay meets: the rows that another relay holds locked, the answer of the broker to an
-- event (with its marshalling), and the answer of the database to the commit.
pub record Surroundings : Type 0 where
  pub locked : String → Bool
  pub broker : Envelope → Option Err
  pub commit : Option Err

-- WHERE published_at IS NULL ... FOR UPDATE SKIP LOCKED.
unfoldable pub pending : (String → Bool) → List Row → List Row
pending locked [] = []
pending locked (r ∷ rs) =
    if r.published || locked r.id then pending locked rs else r ∷ pending locked rs

-- ORDER BY created_at.
unfoldable pub insert_by_age : Row → List Row → List Row
insert_by_age r [] = r ∷ []
insert_by_age r (q ∷ qs) =
    if ltb q.created_at r.created_at then q ∷ insert_by_age r qs else r ∷ q ∷ qs

unfoldable pub oldest_first : List Row → List Row
unfolding insert_by_age
oldest_first [] = []
oldest_first (r ∷ rs) = insert_by_age r (oldest_first rs)

-- LIMIT.
unfoldable pub take : ℕ → List Row → List Row
take zero rs = []
take (suc n) [] = []
take (suc n) (r ∷ rs) = r ∷ take n rs

-- `FetchUnpublished`.
unfoldable pub fetch_unpublished : (String → Bool) → ℕ → List Row → List Row
unfolding pending oldest_first take
fetch_unpublished locked limit rows = take limit (oldest_first (pending locked rows))

-- `id = ANY(ids)`.
unfoldable pub in_ids : String → List String → Bool
in_ids x [] = false
in_ids x (i ∷ ids) = ite (dec_text i x) true (in_ids x ids)

-- `MarkPublished`.
unfoldable pub mark_published : List String → List Row → List Row
unfolding in_ids
mark_published ids [] = []
mark_published ids (r ∷ rs) =
    (if in_ids r.id ids then record r { published = true } else r) ∷ mark_published ids rs

abbrev pub answered : Option Err → Envelope → List Envelope → Result (Unit {0}) × List Envelope
answered none e sent = (ok tt, e ∷ sent)
answered (some x) e sent = (err x, sent)

abbrev pub if_valid :
    Result (Unit {0}) → Option Err → Envelope → List Envelope → Result (Unit {0}) × List Envelope
if_valid (err x) answer e sent = (err x, sent)
if_valid (ok u) answer e sent = answered answer e sent

-- `natsPublisher.Publish`: a valid event goes to the broker.
unfoldable pub publish :
    (Envelope → Option Err) → Envelope → List Envelope → Result (Unit {0}) × List Envelope
unfolding validate
publish broker e sent = if_valid (validate e) (broker e) e sent

abbrev pub with_id :
    String → Result (List String) × List Envelope → Result (List String) × List Envelope
with_id i (ok ids, sent) = (ok (i ∷ ids), sent)
with_id i (err x, sent) = (err x, sent)

abbrev pub go_on :
    Result (Unit {0}) × List Envelope
    → String
    → (List Envelope → Result (List String) × List Envelope)
    → Result (List String) × List Envelope
go_on (ok u, sent) i more = with_id i (more sent)
go_on (err x, sent) i more = (err x, sent)

-- The loop of `drain` over the batch: the ids of the rows, or the first error.
unfoldable pub publish_all :
    (Envelope → Option Err) → List Row → List Envelope → Result (List String) × List Envelope
unfolding publish
publish_all broker [] sent = (ok [], sent)
publish_all broker (r ∷ rs) sent =
    go_on (publish broker r.envelope sent) r.id (publish_all broker rs)

-- The end of the transaction of `drain`: what was sent stays sent, the marks only if it commits.
abbrev pub finish : Option Err → Result (List String) × List Envelope → World → Result ℕ × World
finish answer (err x, sent) w = (err x, record w { sent = sent })
finish (some x) (ok ids, sent) w = (err x, record w { sent = sent })
finish none (ok ids, sent) w =
    (ok (length ids), record { outbox = mark_published ids w.outbox; sent = sent })

abbrev pub drain_batch : Surroundings → List Row → World → Result ℕ × World
drain_batch s [] w = (ok 0, w)
drain_batch s (r ∷ rs) w = finish s.commit (publish_all s.broker (r ∷ rs) w.sent) w

-- `drain`.
unfoldable pub drain : Surroundings → ℕ → World → Result ℕ × World
unfolding fetch_unpublished publish_all mark_published
drain s batch w = drain_batch s (fetch_unpublished s.locked batch w.outbox) w

abbrev pub stop_or_go : Bool → World → (World → Option World) → Option World
stop_or_go true w more = some w
stop_or_go false w more = more w

abbrev pub next_round : ℕ → Result ℕ × World → (World → Option World) → Option World
next_round batch (err x, w) more = some w
next_round batch (ok n, w) more = stop_or_go (ltb n batch) w more

-- The inner loop of `Run`, on a tick; `none` means that the fuel ran out.
unfoldable pub tick : ℕ → Surroundings → ℕ → World → Option World
unfolding drain
tick zero s batch w = none
tick (suc fuel) s batch w = next_round batch (drain s batch w) (tick fuel s batch)

-- The batch of `NewRelay`.
unfoldable pub batch_size : ℤ → ℕ
batch_size (pos zero) = 100
batch_size (pos (suc n)) = suc n
batch_size (ℤ.negsuc n) = 100

unfoldable pub holds_id : String → List Row → Bool
holds_id x [] = false
holds_id x (r ∷ rs) = ite (dec_text r.id x) true (holds_id x rs)

abbrev pub add_row : Result (Unit {0}) → Bool → Row → World → World
add_row (err x) taken r w = w
add_row (ok u) true r w = w
add_row (ok u) false r w = record w { outbox = r ∷ w.outbox }

-- `Enqueue`, with the id and the time that the database gives to the row. The primary key refuses an
-- id that is taken.
unfoldable pub enqueue_event : String → ℕ → Envelope → World → World
unfolding validate holds_id
enqueue_event id now e w =
    add_row (validate e) (holds_id id w.outbox)
      (record { id = id; envelope = e; created_at = now; published = false }) w
