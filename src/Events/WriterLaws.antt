-- ===== src/Events/WriterLaws.antt =====
-- Events/Writer: no accepted line is lost or reordered, and the queue and the file stay in bounds.
use pokrov_app.Events.Lines.{
  append, core_event_line, fields_of, journal_line, record_core_event, Queue, append_line,
  max_pending_events,
}
use pokrov_app.Base.{
  Option-cases, append_assoc, if◌then◌else◌, leb→le, &&-left, &&-right, append-nil, ◌%◌, ◌+◌, ◌^◌,
  &&-intro, all_of-append, ◌∙◌, Bool-cases, arith, inl, inr, length-append, ltb, refl, subst, sym,
  ◌<◌, ◌||◌, ◌⊎◌, Bool, List, Option, [], all_of, false, leb, length, none, some, true, ◌++◌, ◌∷◌,
  ◌≡◌, ◌≤◌, ℕ,
}
use pokrov_app.Events.Writer.{
  Action, run, step, wake_with, write_with, max_journal_size, enqueued, Files, Journal, Outcome,
  rotate_if_needed, size_of, wake, write_line, write_pending, appends, appends_core_event, stops,
  wakes, writes,
}

abbrev to_list : Option (List ℕ) → List (List ℕ)
to_list none = []
to_list (some line) = line ∷ []

abbrev fits : List ℕ → Bool
fits line = leb (length line) 512

abbrev all_fit : List (List ℕ) → Bool
all_fit lines = all_of fits lines

abbrev hand_fits : Option (List ℕ) → Bool
hand_fits none = true
hand_fits (some line) = fits line

-- What holds of the threads at any time.
pub record Sound (j : Journal) : Type 0 where
  -- The lines accepted are those attempted, the one in hand and those pending, in this order.
  pub in_order : j.accepted ≡ j.attempted ++ (to_list j.in_hand ++ j.queue.pending)
  pub pending_bound : length j.queue.pending ≤ max_pending_events
  pub pending_fit : all_fit j.queue.pending ≡ true
  pub hand_fit : hand_fits j.in_hand ≡ true
  pub size_bound : size_of j.files.current ≤ max_journal_size
  pub done :
      j.finished ≡ true → (j.in_hand ≡ none) × (j.queue.pending ≡ []) × (j.queue.stopping ≡ true)

-- A line is refused, which leaves the queue as it was, or joins the queue's end.
pub append_line-cases :
    (line : List ℕ) (q : Queue)
    → (append_line line q ≡ (q, false))
      ⊎ ((append_line line q ≡ (record q { pending = q.pending ++ line ∷ [] }, true))
          × (fits line ≡ true)
          × (q.stopping ≡ false)
          × (length q.pending < max_pending_events))
unfolding append_line
append_line-cases line q = elim (Bool-cases (ltb 512 (length line))) [
  | inl long ↦ inl (rw long refl)
  | inr short ↦ elim (Bool-cases (q.stopping || leb max_pending_events (length q.pending))) [
    | inl full ↦ inl (rw (short, full) refl)
    | inr room ↦ inr (rw (short, room) refl, ground arith, ground arith, ground arith)
  ]
]

appended_in_order :
    (accepted attempted hand pending : List (List ℕ)) (line : List ℕ)
    → accepted ≡ attempted ++ (hand ++ pending)
    → accepted ++ line ∷ [] ≡ attempted ++ (hand ++ (pending ++ line ∷ []))
appended_in_order accepted attempted hand pending line h = cc (
  h,
  append_assoc (attempted) (hand ++ pending) (line ∷ []),
  append_assoc hand pending (line ∷ []),
)

enqueued-Sound :
    (line : List ℕ) (j : Journal) (sequence : ℕ)
    → Sound j
    → Sound (enqueued (append_line line (record j.queue { sequence = sequence })) line j)
enqueued-Sound line j sequence v =
    elim (append_line-cases line (record j.queue { sequence = sequence })) [
      | inl h ↦
          subst (λ r. Sound (enqueued r line j)) (sym h)
            (record {
              in_order = v.in_order;
              pending_bound = v.pending_bound;
              pending_fit = v.pending_fit;
              hand_fit = v.hand_fit;
              size_bound = v.size_bound;
              done = v.done;
            })
      | inr (h, f, running, room) ↦
          subst (λ r. Sound (enqueued r line j)) (sym h)
            (record {
              in_order =
                  appended_in_order j.accepted j.attempted (to_list j.in_hand) j.queue.pending line
                    v.in_order;
              pending_bound = omega (arith, length-append j.queue.pending (line ∷ []));
              pending_fit =
                  (all_of-append fits j.queue.pending (line ∷ [])
                    ∙ &&-intro v.pending_fit (&&-intro f refl));
              hand_fit = v.hand_fit;
              size_bound = v.size_bound;
              done = λ e. (let (a, b, c) = v.done e in cc);
            })
    ]

wake_with-Sound :
    (hand : Option (List ℕ)) (pending : List (List ℕ)) (j : Journal)
    → j.in_hand ≡ hand
    → j.queue.pending ≡ pending
    → Sound j
    → Sound (wake_with hand pending j)
wake_with-Sound (some line) pending j e f v = v
wake_with-Sound none [] j e f v = record {
  in_order = v.in_order;
  pending_bound = v.pending_bound;
  pending_fit = v.pending_fit;
  hand_fit = v.hand_fit;
  size_bound = v.size_bound;
  done = λ h. (e, f, stopped h);
}
  where
    stopped : (j.queue.stopping || j.finished) ≡ true → j.queue.stopping ≡ true
    stopped h = elim (Bool-cases j.queue.stopping) [ inl s ↦ s | inr n ↦ (v.done (rw n at h)).2 ]
wake_with-Sound none (line ∷ rest) j e f v = taken j.finished refl
  where
    taken :
        (b : Bool)
        → j.finished ≡ b
        → Sound (
            if b
            then j
            else record j { queue = record j.queue { pending = rest }; in_hand = some line })
    taken true d = v
    taken false d = record {
      in_order = rw (e, f) at v.in_order;
      pending_bound = omega (arith, rw f at v.pending_bound);
      pending_fit = &&-right (fits line) (all_fit rest) (rw f at v.pending_fit);
      hand_fit = &&-left (fits line) (all_fit rest) (rw f at v.pending_fit);
      size_bound = v.size_bound;
      done = λ h. cc;
    }

rotate_if_needed-le :
    (o : Outcome) (incoming_size : ℕ) (files : Files)
    → incoming_size ≤ 512
    → size_of files.current ≤ max_journal_size
    → (size_of (rotate_if_needed o incoming_size files).0.current ≤ max_journal_size)
      × ((rotate_if_needed o incoming_size files).1 ≡ true
          → size_of (rotate_if_needed o incoming_size files).0.current + incoming_size
            ≤ max_journal_size)
unfolding rotate_if_needed
rotate_if_needed-le o n files l h = elim (Option-cases files.current) [
  | inl e ↦ (ground arith, ground arith)
  | inr (size, e) ↦ (ground arith, ground arith)
]

length-write_line-le :
    (o : Outcome) (line : List ℕ) (files : Files)
    → fits line ≡ true
    → size_of files.current ≤ max_journal_size
    → size_of (write_line o line files).0.current ≤ max_journal_size
unfolding write_line
length-write_line-le o line files f h =
    let (kept, room) = rotate_if_needed-le o (length line) files (leb→le (length line) 512 f) h in
    ground arith

write_with-Sound :
    (hand : Option (List ℕ)) (o : Outcome) (j : Journal)
    → j.in_hand ≡ hand
    → Sound j
    → Sound (write_with hand o j)
write_with-Sound none o j e v = v
write_with-Sound (some line) o j e v = record {
  in_order = rw e at v.in_order ∙ sym (append_assoc j.attempted (line ∷ []) j.queue.pending);
  pending_bound = v.pending_bound;
  pending_fit = v.pending_fit;
  hand_fit = refl;
  size_bound = length-write_line-le o line j.files (rw e at v.hand_fit) v.size_bound;
  done = λ h. (let (a, b, c) = v.done h in (refl, b, c));
}

pub step-Sound : (j : Journal) (a : Action) → Sound j → Sound (step j a)
unfolding step append record_core_event wake write_pending
step-Sound j (appends ticks call) v =
    enqueued-Sound (journal_line ticks ((j.queue.sequence + 1) % 2 ^ 64) (fields_of call)) j
      ((j.queue.sequence + 1) % 2 ^ 64) v
step-Sound j (appends_core_event e) v = enqueued-Sound (core_event_line e) j j.queue.sequence v
step-Sound j stops v = record {
  in_order = v.in_order;
  pending_bound = v.pending_bound;
  pending_fit = v.pending_fit;
  hand_fit = v.hand_fit;
  size_bound = v.size_bound;
  done = λ h. (let (a, b, c) = v.done h in (a, b, refl));
}
step-Sound j wakes v = wake_with-Sound j.in_hand j.queue.pending j refl refl v
step-Sound j (writes o) v = write_with-Sound j.in_hand o j refl v

-- Whatever the threads do and Windows answers, the queue holds at most 4096 lines of at most 512
-- bytes, the journal's file at most 256 KiB, and every accepted line has been attempted, is in the
-- writer's hand or waits, in the order of acceptance.
pub run-Sound : (j : Journal) (as' : List Action) → Sound j → Sound (run j as')
unfolding run
run-Sound j [] v = v
run-Sound j (a ∷ as') v = run-Sound (step j a) as' (step-Sound j a v)

-- When the writer has returned, each accepted line has been attempted once, in order.
pub run-done :
    (j : Journal) (as' : List Action)
    → Sound j
    → (run j as').finished ≡ true
    → (run j as').accepted ≡ (run j as').attempted
run-done j as' v h =
    let w = run-Sound j as' v in
    let (a, b, c) = w.done h in rw (a, b) at w.in_order ∙ append-nil (run j as').attempted
