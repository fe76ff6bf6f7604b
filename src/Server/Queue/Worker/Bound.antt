-- ===== src/Server/Queue/Worker/Bound.antt =====
-- The bound on the queue, and what a worker that has stopped leaves.
use mathlib.Core.List.{Perm, append-nil}
use phala_inference_guard.Base.{
  ℕ, ◌+◌, ◌≤◌, ◌≡◌, refl, sym, ◌∙◌, subst, true, false, Option, none, some, List, [], ◌∷◌, ℤ, pos,
  negsuc, pos_part, leb_ℤ, arith, length, length-append, if-both, if-cases,
}
use mathlib.Core.Bool.{true≢false}
use phala_inference_guard.Go.Time.{Time}
use phala_inference_guard.Go.Float.{Float64}
use phala_inference_guard.Admission.Types.{closed}
use phala_inference_guard.Admission.Demand.{TpsRequestDemand}
use phala_inference_guard.Server.Decision.{AdmissionDecision, AdmissionService}
use phala_inference_guard.Server.Queue.{
  PriorityAdmissionRequest, PriorityAdmissionService, new_priority_admission_service_with_config,
}
use phala_inference_guard.Server.Queue.Choice.{Turn}
use phala_inference_guard.Server.Queue.Turns.{Turns, stops, idles, takes, next_item-Turns}
use phala_inference_guard.Server.Queue.Dispatch.{
  Readings, new_request, enter_queue, drain, answer_all, queue_decision,
}
use phala_inference_guard.Server.Queue.Worker.{
  Worker, Event, arrives, turns, serves, elsewhere, shuts, finishes, drained, take_turn, answered,
  idle_turn, serve_hand, happen, Reached, starts, goes, start_worker, close_delegate,
}
use phala_inference_guard.Server.Queue.Worker.Accounts.{
  Keeps, dispatch-Keeps, answer_all-Keeps, whereabouts-Reached, requests_of, whereabouts,
}

-- A queue within its bound.
abbrev pub WithinBound : {S : Type 0} → PriorityAdmissionService S → Type 0
WithinBound s = length s.queue ≤ pos_part s.max_entries

-- What a worker leaves when it stops: nothing in hand, and an empty queue that is closed.
pub record Rests {W S R : Type 0} (w : Worker W S R) : Type 0 where
  pub hand_empty : w.in_hand ≡ none
  pub queue_empty : w.queue_service.queue ≡ []
  pub intake_closed : w.queue_service.is_closed ≡ true

record Holds {W S R : Type 0} (w : Worker W S R) : Type 0 where
  within : WithinBound w.queue_service
  rests : w.stopped ≡ true → Rests w

leb_ℤ-room : (m : ℤ) (n : ℕ) → leb_ℤ m (pos n) ≡ false → n + 1 ≤ pos_part m
leb_ℤ-room (pos m) n h = ground arith
leb_ℤ-room (negsuc m) n h = cc

module _ {W S R : Type 0} ⦃fl : Float64 W⦄ (service : AdmissionService W S R) where
  WithinBound-Keeps :
      (s s' : PriorityAdmissionService S) → Keeps s s' → WithinBound s → WithinBound s'
  WithinBound-Keeps s s' k h =
      subst (λ l. length l ≤ pos_part s'.max_entries) (sym k.queue_kept)
        (subst (λ m. length s.queue ≤ pos_part m) (sym k.bound_kept) h)

  Holds-Keeps :
      (w : Worker W S R) (s : PriorityAdmissionService S)
      → Keeps w.queue_service s
      → Holds w
      → Holds (record w { queue_service = s })
  Holds-Keeps w s k h = record {
    within = WithinBound-Keeps w.queue_service s k h.within;
    rests = λ e. record {
      hand_empty = (h.rests e).hand_empty;
      queue_empty = k.queue_kept ∙ (h.rests e).queue_empty;
      intake_closed = k.closed_kept ∙ (h.rests e).intake_closed;
    };
  }

  same :
      (s s' : PriorityAdmissionService S)
      → s'.queue ≡ s.queue
      → s'.max_entries ≡ s.max_entries
      → s'.is_closed ≡ s.is_closed
      → Keeps s s'
  same s s' p q r = record { queue_kept = p; bound_kept = q; closed_kept = r }

  arrives-Holds :
      (w : Worker W S R) (demand : TpsRequestDemand) (r : Readings)
      → Holds w
      → Holds (happen service w (arrives demand r))
  unfolding happen enter_queue queue_decision
  arrives-Holds w demand r h =
      let s = w.queue_service in
      let P : PriorityAdmissionService S × Option (AdmissionDecision W R) → Type 0 =
        λ a. Holds (record w { queue_service = a.0 }) in
      if-both P r.canceled_before (Holds-Keeps w _ (same s _ refl refl refl) h) (
        if-cases P s.is_closed (λ e. Holds-Keeps w _ (same s _ refl refl refl) h)
          λ intake.
            if-cases P (leb_ℤ s.max_entries (pos (length s.queue)))
              (λ e. Holds-Keeps w _ (same s _ refl refl refl) h)
              λ room. record {
                within =
                    let lt = leb_ℤ-room s.max_entries (length s.queue) room in
                    omega (arith, length-append s.queue (new_request s demand r.now ∷ []));
                rests = λ e. absurd (true≢false (sym (h.rests e).intake_closed ∙ intake));
              })

  take_turn-Holds :
      (w : Worker W S R) (now : Time) (clock : PriorityAdmissionRequest → Time)
      (t : Turn × PriorityAdmissionService S)
      → w.in_hand ≡ none
      → w.stopped ≡ false
      → Turns w.queue_service now t
      → Holds w
      → Holds (take_turn service w clock t)
  unfolding take_turn drained drain
  take_turn-Holds w now clock t empty running (stops shut) h =
      let k =
        answer_all-Keeps service (record w.queue_service { queue = [] }) clock closed
          w.queue_service.queue in
      record {
        within =
            subst
              (λ l.
                length l
                ≤ pos_part
                    (answer_all service (record w.queue_service { queue = [] }) clock closed
                      w.queue_service.queue).0.max_entries)
              (sym k.queue_kept) (omega arith);
        rests = λ e. record {
          hand_empty = empty;
          queue_empty = k.queue_kept;
          intake_closed = k.closed_kept ∙ shut;
        };
      }
  take_turn-Holds w now clock t empty running (idles wait intake) h = record {
    within = h.within;
    rests = λ e. absurd (true≢false (sym e ∙ running));
  }
  take_turn-Holds w now clock t empty running (takes x others intake p n why) h = record {
    within = let le = h.within in omega arith;
    rests = λ e. absurd (true≢false (sym e ∙ running));
  }

  idle_turn-Holds :
      (w : Worker W S R) (now : Time) (clock : PriorityAdmissionRequest → Time)
      (held : Option PriorityAdmissionRequest)
      → w.in_hand ≡ held
      → w.stopped ≡ false
      → Holds w
      → Holds (idle_turn service w held now clock)
  unfolding idle_turn
  idle_turn-Holds w now clock (some x) e running h = h
  idle_turn-Holds w now clock none e running h =
      take_turn-Holds w now clock _ e running (next_item-Turns w.queue_service now) h

  serve_hand-Holds :
      (w : Worker W S R) (held : Option PriorityAdmissionRequest) (r : Readings)
      → w.in_hand ≡ held
      → Holds w
      → Holds (serve_hand service w held r)
  unfolding serve_hand answered
  serve_hand-Holds w none r e h = h
  serve_hand-Holds w (some x) r e h =
      let k = dispatch-Keeps service w.queue_service x r in
      record {
        within = WithinBound-Keeps w.queue_service _ k h.within;
        rests =
            λ stop. absurd (let no_hand : none ≡ some x = sym (h.rests stop).hand_empty ∙ e in cc);
      }

  happen-Holds : (w : Worker W S R) (k : Event S) → Holds w → Holds (happen service w k)
  unfolding happen close_delegate
  happen-Holds w (arrives demand r) h = arrives-Holds w demand r h
  happen-Holds w (turns now clock) h =
      if-cases Holds w.stopped (λ e. h)
        λ running. idle_turn-Holds w now clock w.in_hand refl running h
  happen-Holds w (serves r) h = serve_hand-Holds w w.in_hand r refl h
  happen-Holds w (elsewhere d) h = Holds-Keeps w _ (same w.queue_service _ refl refl refl) h
  happen-Holds w shuts h = record {
    within = h.within;
    rests = λ e. record {
      hand_empty = (h.rests e).hand_empty;
      queue_empty = (h.rests e).queue_empty;
      intake_closed = refl;
    };
  }
  happen-Holds w finishes h =
      if-both Holds w.stopped
        (if-both Holds w.delegate_closed h (
          Holds-Keeps (record w { delegate_closed = true }) _
            (same w.queue_service _ refl refl refl)
            (record {
              within = h.within;
              rests = λ e. record {
                hand_empty = (h.rests e).hand_empty;
                queue_empty = (h.rests e).queue_empty;
                intake_closed = (h.rests e).intake_closed;
              };
            })))
        h

  Holds-Reached :
      (xs : List PriorityAdmissionRequest) (w : Worker W S R) → Reached service xs w → Holds w
  unfolding start_worker new_priority_admission_service_with_config
  Holds-Reached xs w (starts delegate max_entries coalesce max_wait) = record {
    within = omega arith;
    rests = λ e. absurd (true≢false (sym e));
  }
  Holds-Reached xs w (goes ys v k r) = happen-Holds v k (Holds-Reached ys v r)

  -- However calls and the worker's rounds are interleaved, the queue holds no more than its maximum of
  -- entries.
  pub queue-WithinBound :
      (xs : List PriorityAdmissionRequest) (w : Worker W S R)
      → Reached service xs w
      → length w.queue_service.queue ≤ pos_part w.queue_service.max_entries
  queue-WithinBound xs w r = (Holds-Reached xs w r).within

  -- When the worker has stopped, every request that the queue has ever accepted has been answered,
  -- exactly as often as it was accepted.
  pub requests_of-stopped :
      (xs : List PriorityAdmissionRequest) (w : Worker W S R)
      → Reached service xs w
      → w.stopped ≡ true
      → Perm xs (requests_of w.sent)
  requests_of-stopped xs w r e =
      let rest = (Holds-Reached xs w r).rests e in
      let all : whereabouts service w ≡ requests_of w.sent =
        simp (rest.hand_empty, rest.queue_empty, append-nil) refl in
      subst (Perm xs) all (whereabouts-Reached service xs w r)
