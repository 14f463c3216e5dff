-- ===== src/Events/Relay/Clears.antt =====
-- The backlog clears when the broker and the database answer: proofs about Events.Relay.
use final_bds.Prelude.{
  ℕ, zero, suc, ◌≤◌, ◌<◌, String, List, [], ◌∷◌, Option, none, some, true, false, length, ◌≡◌, inl,
  inr, refl, ap, sym, ◌∙◌, arith, Bool-cases, ltb,
}
use mathlib.Core.Path.{subst}
use final_bds.Errors.{Err, Result, ok, err}
use final_bds.Events.{Envelope, validate}
use final_bds.Events.Relay.{
  Row, World, Surroundings, pending, oldest_first, take, fetch_unpublished, in_ids, mark_published,
  publish, publish_all, finish, drain_batch, drain, next_round, tick, go_on, with_id, if_valid,
}
use final_bds.Events.Relay.Rows.{Among, AllRows, AllRows-at, Among-fetch, ids_of, Among-in_ids}
use final_bds.Events.Relay.Sending.{Sent, SentIf}
use final_bds.Events.Relay.Marks.{IsSent}
use final_bds.Events.Relay.AtLeastOnce.{drain-IsSent}
use final_bds.Events.Relay.Backlog.{
  IsHealthy, AllValid, count_pending, count_pending-falls, oldest_first-Among, pending-Among,
  take_all,
}

-- The batch is sent as a whole.
module _ (broker : Envelope → Option Err) (taken : (e : Envelope) → broker e ≡ none) where
  sends_one :
      (v : Result (Unit {0})) (o : Option Err) (e : Envelope) (sent : List Envelope) (i : String)
      (more : List Envelope → Result (List String) × List Envelope) (ids : List String)
      → v ≡ ok tt
      → o ≡ none
      → ((t : List Envelope) → (more t).0 ≡ ok ids)
      → (go_on (if_valid v o e sent) i more).0 ≡ ok (i ∷ ids)
  sends_one v o e sent i more ids hv ho hm =
      rw (hv, ho) (with_id_first i (more (e ∷ sent)) ids (hm (e ∷ sent)))
    where
      with_id_first :
          (j : String) (p : Result (List String) × List Envelope) (js : List String)
          → p.0 ≡ ok js
          → (with_id j p).0 ≡ ok (j ∷ js)
      with_id_first j (ok ks, t) js h = cc
      with_id_first j (err x, t) js h = cc

  sends_all :
      (rs : List Row) (sent : List Envelope)
      → AllValid rs
      → (publish_all broker rs sent).0 ≡ ok (ids_of rs)
  unfolding publish_all publish
  sends_all [] sent v = refl
  sends_all (r ∷ rs) sent (v, vs) =
      sends_one (validate r.envelope) (broker r.envelope) r.envelope sent r.id
        (publish_all broker rs) (ids_of rs) v (taken r.envelope) (λ t. sends_all rs t vs)

-- Rows of a valid table are valid.
valid_part :
    (rs table : List Row) → AllValid table → ((x : Row) → Among x rs → Among x table) → AllValid rs
valid_part [] table v h = tt
valid_part (r ∷ rs) table v h = (
  AllRows-at (λ q. validate q.envelope ≡ ok tt) r table v (h r (inl refl)),
  valid_part rs table v (λ x m. h x (inr m)),
)

-- What a drain leaves when nothing fails.
pub record Drained (s : Surroundings) (batch : ℕ) (w : World) : Type 0 where
  pub answer :
      (drain s batch w).0 ≡ ok (length (ids_of (fetch_unpublished s.locked batch w.outbox)))
  pub table :
      (drain s batch w).1.outbox
      ≡ mark_published (ids_of (fetch_unpublished s.locked batch w.outbox)) w.outbox

finish_healthy :
    (o : Option Err) (p : Result (List String) × List Envelope) (w : World) (ids : List String)
    → o ≡ none
    → p.0 ≡ ok ids
    → ((finish o p w).0 ≡ ok (length ids)) × ((finish o p w).1.outbox ≡ mark_published ids w.outbox)
finish_healthy none (ok js, t) w ids h k =
    let e : js ≡ ids = cc in (ap (λ z. ok (length z)) e, ap (λ z. mark_published z w.outbox) e)
finish_healthy none (err x, t) w ids h k = cc
finish_healthy (some x) (ok js, t) w ids h k = cc
finish_healthy (some x) (err y, t) w ids h k = cc

marks_nothing : (rs : List Row) → mark_published [] rs ≡ rs
unfolding mark_published in_ids
marks_nothing [] = refl
marks_nothing (r ∷ rs) = ap (λ z. r ∷ z) (marks_nothing rs)

drain_batch_healthy :
    (s : Surroundings) (rs : List Row) (w : World)
    → IsHealthy s
    → AllValid rs
    → ((drain_batch s rs w).0 ≡ ok (length (ids_of rs)))
      × ((drain_batch s rs w).1.outbox ≡ mark_published (ids_of rs) w.outbox)
drain_batch_healthy s [] w g v = (refl, sym (marks_nothing w.outbox))
drain_batch_healthy s (r ∷ rs) w g v =
    finish_healthy s.commit (publish_all s.broker (r ∷ rs) w.sent) w (ids_of (r ∷ rs)) g.committed
      (sends_all s.broker g.taken (r ∷ rs) w.sent v)

pub drain-Drained :
    (s : Surroundings) (batch : ℕ) (w : World) → IsHealthy s → AllValid w.outbox → Drained s batch w
unfolding drain
drain-Drained s batch w g v =
    let fs = fetch_unpublished s.locked batch w.outbox in
    let d =
      drain_batch_healthy s fs w g
        (valid_part fs w.outbox v (λ x m. (Among-fetch s.locked batch x w.outbox m).0)) in
    record { answer = d.0; table = d.1 }

all_marked :
    (ids : List String) (rs : List Row)
    → ((x : Row) → Among x rs → x.published ≡ false → in_ids x.id ids ≡ true)
    → AllRows (λ r. r.published ≡ true) (mark_published ids rs)
unfolding mark_published
all_marked ids [] h = tt
all_marked ids (r ∷ rs) h = (
  elim (Bool-cases (in_ids r.id ids)) [
    | inl held ↦ rw held refl
    | inr free ↦ rw free (elim (Bool-cases r.published) [
      | inl done ↦ done
      | inr waits ↦ let c : true ≡ false = sym (h r (inl refl) waits) ∙ free in cc
    ])
  ],
  all_marked ids rs (λ x m. h x (inr m)),
)

valid_marked : (ids : List String) (rs : List Row) → AllValid rs → AllValid (mark_published ids rs)
unfolding mark_published
valid_marked ids [] v = tt
valid_marked ids (r ∷ rs) (v, vs) = (
  elim (Bool-cases (in_ids r.id ids)) [ inl held ↦ rw held v | inr free ↦ rw free v ],
  valid_marked ids rs vs,
)

taken_when_published :
    (rs : List Row) (sent : List Envelope)
    → AllRows (λ r. r.published ≡ true) rs
    → AllRows (λ r. SentIf r.published r.envelope sent) rs
    → AllRows (λ r. Sent r.envelope sent) rs
taken_when_published [] sent p c = tt
taken_when_published (r ∷ rs) sent (p, ps) (c, cs) =
    (subst (λ b. SentIf b r.envelope sent) p c, taken_when_published rs sent ps cs)

length-ids_of : (rs : List Row) → length (ids_of rs) ≡ length rs
length-ids_of [] = refl
length-ids_of (r ∷ rs) = ap suc (length-ids_of rs)

-- A batch that is not full holds all that was pending.
rest_is_empty :
    (s : Surroundings) (batch : ℕ) (rows : List Row)
    → IsHealthy s
    → length (ids_of (fetch_unpublished s.locked batch rows)) < batch
    → (x : Row) → Among x rows
    → x.published ≡ false
    → in_ids x.id (ids_of (fetch_unpublished s.locked batch rows)) ≡ true
unfolding fetch_unpublished
rest_is_empty s batch rows g h x m p =
    let all = oldest_first (pending s.locked rows) in
    let short : length (take batch all) < batch = rw (← length-ids_of (take batch all)) h in
    rw (take_all batch all short) (
      Among-in_ids x all (
        oldest_first-Among x (pending s.locked rows)
          (pending-Among s.locked x rows g.unlocked p m)))

-- A full batch leaves less pending.
full_falls :
    (s : Surroundings) (batch : ℕ) (rows fs : List Row)
    → fetch_unpublished s.locked batch rows ≡ fs
    → 0 < length (ids_of fs)
    → suc (count_pending (mark_published (ids_of fs) rows)) ≤ count_pending rows
full_falls s batch rows [] e h = absurd (omega arith)
full_falls s batch rows (f ∷ fs) e h =
    let here : Among f (f ∷ fs) = inl refl in
    let (m, p) = Among-fetch s.locked batch f rows (subst (Among f) (sym e) here) in
    let unmarked : f.published ≡ false = ground (arith, p) in
    count_pending-falls (ids_of (f ∷ fs)) f rows m unmarked (Among-in_ids f (f ∷ fs) here)

last_round :
    (batch n : ℕ) (p : Result ℕ × World) (more : World → Option World)
    → p.0 ≡ ok n
    → ltb n batch ≡ true
    → next_round batch p more ≡ some p.1
last_round batch n (err x, w) more h k = cc
last_round batch n (ok m, w) more h k = let e : m ≡ n = cc in rw (e, k) refl

full_round :
    (batch n : ℕ) (p : Result ℕ × World) (more : World → Option World)
    → p.0 ≡ ok n
    → ltb n batch ≡ false
    → next_round batch p more ≡ more p.1
full_round batch n (err x, w) more h k = cc
full_round batch n (ok m, w) more h k = let e : m ≡ n = cc in rw (e, k) refl

-- A tick of the relay in healthy surroundings ends within as many drains as there are pending rows,
-- and one more, and leaves no event of the table unsent: every one is with the broker.
pub tick_clears :
    (fuel : ℕ) (s : Surroundings) (batch : ℕ) (w : World)
    → IsHealthy s
    → 0 < batch
    → AllValid w.outbox
    → IsSent w
    → count_pending w.outbox < fuel
    → (w' : World) × (tick fuel s batch w ≡ some w')
      × AllRows (λ r. Sent r.envelope w'.sent) w'.outbox
unfolding tick
tick_clears zero s batch w g b v i h = absurd (omega arith)
tick_clears (suc fuel) s batch w g b v i h =
    let fs = fetch_unpublished s.locked batch w.outbox in
    let n = length (ids_of fs) in
    let d = drain-Drained s batch w g v in
    let i' = drain-IsSent s batch w i in
    elim (Bool-cases (ltb n batch)) [
      | inl last ↦ (
        (drain s batch w).1,
        last_round batch n (drain s batch w) (tick fuel s batch) d.answer last,
        taken_when_published (drain s batch w).1.outbox (drain s batch w).1.sent
            (subst (AllRows (λ r. r.published ≡ true)) (sym d.table) (
              all_marked (ids_of fs) w.outbox
                (rest_is_empty s batch w.outbox g (ground (arith, last)))))
            i'.covered,
      )
      | inr full ↦ rw (full_round batch n (drain s batch w) (tick fuel s batch) d.answer full) (
          tick_clears fuel s batch (drain s batch w).1 g b
            (subst AllValid (sym d.table) (valid_marked (ids_of fs) w.outbox v)) i'
            (subst (λ t. count_pending t < fuel) (sym d.table)
              (omega (arith, full_falls s batch w.outbox fs refl (ground (arith, full))))))
    ]
