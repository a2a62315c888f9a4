-- ===== src/Sync/Session/Completion.antt =====
-- A session whose peer asks, answers and acknowledges ends, with what was asked for stored.
use mariamesh.Base.{
  ℕ, ◌≡◌, ◌≢◌, ◌≤◌, refl, ap, ◌∙◌, true, false, List, [], ◌∷◌, ◌++◌, map, Option-cases,
  Result-cases, Bool-cases, ok, inl, inr, arith, Str,
}
use mariamesh.Apply.{Tables, apply_batch}
use mariamesh.Changelog.{Origin, parse_key}
use mariamesh.Changelog.Missing.{Range}
use mariamesh.Changelog.Vector.{Vector, at_key, origins}
use mariamesh.Store.Log.{has_event}
use mariamesh.Store.Log.Insertion.{HasUniqueKeys}
use mariamesh.Store.Progress.{set_progress, set_progress_keys, set_progress_many}
use mariamesh.Store.Tables.{Db}
use mariamesh.Sync.{Env, Batch, finished, send_ranges}
use mariamesh.Sync.Sending.{ends_complete, ends_complete_mono, send_ranges_completes}
use mariamesh.Sync.Session.{
  Session, Message, need, batch, ack, timed, is_done, receive_batch, step, run_session, receive_all,
}
use mariamesh.Sync.Session.Delivery.{answer_delivers}

-- The state after the peer's Need is answered.
abbrev pub after_need : Env → List Range → Session → Session
after_need env rs s = record s {
  sent_batches = true;
  sent = s.sent ++ map batch (send_ranges env s.db rs).0;
}

-- The state after the peer's ACK.
abbrev pub after_ack : Origin → Vector → Session → Session
after_ack peer v s = record s { got_ack = true; db = set_progress_many peer v s.db }

module _ (env : Env) (tables : Tables) (wall : ℕ → ℕ) where
  -- A batch that is received changes neither of the other flags, and a complete one sets its own.
  receive_batch-flags :
      (b : Batch) (s s' : Session)
      → receive_batch env tables wall b s ≡ ok s'
      → (s'.got_ack ≡ s.got_ack)
        × (s'.sent_batches ≡ s.sent_batches)
        × (b.complete ≡ true → s'.got_complete ≡ true)
  unfolding receive_batch
  receive_batch-flags b s s' h = elim (Bool-cases b.complete) [
    | inr c ↦ (ground arith, ground arith, ground arith)
    | inl c ↦
        elim (Option-cases
          (apply_batch tables env.self (timed wall 0 (s.pending ++ b.events)) s.clock s.db).1) [
            | inl e ↦ ground arith
            | inr (r, e) ↦ elim (Result-cases r) [
              | inl (x, f) ↦ (ground arith, ground arith, ground arith)
              | inr (x, f) ↦ ground arith
            ]
          ]
  ]

  receive_all-flags :
      (bs : List Batch) (s s' : Session)
      → receive_all env tables wall bs s ≡ ok s'
      → (s'.got_ack ≡ s.got_ack)
        × (s'.sent_batches ≡ s.sent_batches)
        × (ends_complete s.got_complete bs ≡ true → s'.got_complete ≡ true)
  unfolding receive_all
  receive_all-flags [] s s' h = (ground arith, ground arith, ground arith)
  receive_all-flags (b ∷ bs) s s' h = elim (Result-cases (receive_batch env tables wall b s)) [
    | inr (x, e) ↦ ground arith
    | inl (s1, e) ↦
        let one = receive_batch-flags b s s1 e in
        let rest = receive_all-flags bs s1 s' (ground arith) in
        (
          rest.0 ∙ one.0,
          rest.1 ∙ one.1,
          λ t. rest.2 (elim (Bool-cases b.complete) [
            | inl c ↦ ground (arith, one.2 c)
            | inr c ↦ ends_complete_mono s1.got_complete bs (ground arith)
          ]),
        )
  ]

  -- While no ACK has come, the loop reads the batches one after the other.
  run_session-batches :
      (peer : Origin) (bs : List Batch) (ms : List Message) (s s' : Session)
      → s.got_ack ≡ false
      → receive_all env tables wall bs s ≡ ok s'
      → run_session env tables peer wall (map batch bs ++ ms) s
        ≡ run_session env tables peer wall ms s'
  unfolding run_session step receive_all
  run_session-batches peer [] ms s s' a h = ground arith
  run_session-batches peer (b ∷ bs) ms s s' a h =
      elim (Result-cases (receive_batch env tables wall b s)) [
        | inr (x, e) ↦ ground arith
        | inl (s1, e) ↦
            let one = receive_batch-flags b s s1 e in
            ground (arith, run_session-batches peer bs ms s1 s' (one.0 ∙ a))
      ]

  run_session-need :
      (peer : Origin) (rs : List Range) (ms : List Message) (s : Session)
      → s.got_ack ≡ false
      → (send_ranges env s.db rs).1 ≡ finished true
      → run_session env tables peer wall (need rs ∷ ms) s
        ≡ run_session env tables peer wall ms (after_need env rs s)
  unfolding run_session step
  run_session-need peer rs ms s a f = ground (arith, Bool-cases s.got_complete)

  run_session-ack :
      (peer : Origin) (v : Vector) (s : Session)
      → s.got_ack ≡ false
      → s.got_complete ≡ true
      → s.sent_batches ≡ true
      → run_session env tables peer wall (ack v ∷ []) s ≡ ok (after_ack peer v s)
  unfolding run_session step
  run_session-ack peer v s a c b = ground arith

set_progress_keys-log :
    (r : Origin) (ks : List Str) (v : Vector) (db : Db) → (set_progress_keys r ks v db).log ≡ db.log
unfolding set_progress_keys set_progress
set_progress_keys-log r [] v db = refl
set_progress_keys-log r (k ∷ ks) v db = elim (Option-cases (parse_key k)) [
  | inl e ↦ ground (arith, set_progress_keys-log r ks v db)
  | inr (o, e) ↦ ground (arith, set_progress_keys-log r ks v (set_progress r o (at_key k v) db))
]

set_progress_many-log :
    (r : Origin) (v : Vector) (db : Db) → (set_progress_many r v db).log ≡ db.log
unfolding set_progress_many
set_progress_many-log r v db = set_progress_keys-log r (origins v) v db

module _ (env : Env) (tables : Tables) (wall : ℕ → ℕ) (o : Origin) (ne : o ≢ env.self) where
  -- A session in which nothing is pending and no ACK has come, and whose peer asks for ranges that are
  -- answered to the end, sends the whole answer to a Need of one range of an origin that is not the
  -- node's, whose batches are all received without an error, and acknowledges: it ends without an error
  -- and with all its three flags set, and its log then has every event of the range that the peer
  -- stores, where both logs have unique keys.
  pub run_session_completes :
      (sender : Env) (peer : Origin) (db : Db) (from to n : ℕ) (rs : List Range) (v : Vector)
      (s s' : Session)
      → HasUniqueKeys db.log
      → HasUniqueKeys s.db.log
      → s.pending ≡ []
      → s.got_ack ≡ false
      → 1 ≤ from
      → from ≤ n
      → n ≤ to
      → has_event o n db.log ≡ true
      → (send_ranges env s.db rs).1 ≡ finished true
      → (send_ranges sender db (record { origin = o; from = from; to = to } ∷ [])).1 ≡ finished true
      → receive_all env tables wall
          (send_ranges sender db (record { origin = o; from = from; to = to } ∷ [])).0
          (after_need env rs s)
        ≡ ok s'
      → (run_session env tables peer wall
            (need rs
              ∷ (map batch
                    (send_ranges sender db (record { origin = o; from = from; to = to } ∷ [])).0
                  ++ ack v ∷ []))
            s
          ≡ ok (after_ack peer v s'))
        × (is_done (after_ack peer v s') ≡ true)
        × (has_event o n (after_ack peer v s').db.log ≡ true)
  run_session_completes sender peer db from to n rs v s s' u w clean a low b c here own ans got =
      let r : Range = record { origin = o; from = from; to = to } in
      let bs = (send_ranges sender db (r ∷ [])).0 in
      let flags = receive_all-flags env tables wall bs (after_need env rs s) s' got in
      let held =
        answer_delivers env tables wall o ne sender db from to n (after_need env rs s) s' u w clean
          low b c here ans got in
      let ends : ends_complete s.got_complete bs ≡ true =
        elim (send_ranges_completes sender db (r ∷ [])) [
          | inl t ↦ absurd (ground arith)
          | inr (f, k) ↦ ends_complete_mono s.got_complete bs k
        ] in
      let log = set_progress_many-log peer v s'.db in
      (
        run_session-need env tables wall peer rs (map batch bs ++ ack v ∷ []) s a own
            ∙ (run_session-batches env tables wall peer bs (ack v ∷ []) (after_need env rs s) s' a
                  got
                ∙ run_session-ack env tables wall peer v s' (flags.0 ∙ a) (flags.2 ends) flags.1),
        ground (arith, flags.2 ends, flags.1),
        ap (has_event o n) log ∙ held,
      )
