-- ===== src/Server/Queue/Worker/Accounts.antt =====
-- The worker's accounts: what is queued, in hand and answered, and the bound on the queue.
use mathlib.Core.List.Perm
use mathlib.Core.List.{Perm, append_assoc, append-nil}
use phala_inference_guard.Base.{
  ◌≡◌, refl, sym, ◌∙◌, ap, subst, false, ◌++◌, Option, none, some, List, [], ◌∷◌, pos, leb_ℤ,
  length, if-both,
}
use phala_inference_guard.Go.Time.{Time}
use phala_inference_guard.Go.Float.{Float64}
use phala_inference_guard.Admission.Types.{Reason, closed}
use phala_inference_guard.Admission.Demand.{TpsRequestDemand}
use phala_inference_guard.Server.Decision.{AdmissionDecision, AdmissionService}
use phala_inference_guard.Server.Queue.{
  PriorityAdmissionRequest, PriorityAdmissionService, new_priority_admission_service_with_config,
}
use phala_inference_guard.Server.Queue.Choice.{Turn, waited}
use phala_inference_guard.Server.Queue.Turns.{Turns, stops, idles, takes, next_item-Turns}
use phala_inference_guard.Server.Queue.Dispatch.{
  Readings, new_request, dispatch, enter_queue, drain, answer_all, queue_decision, deliver,
  safe_priority_delegate_decide,
}
use phala_inference_guard.Server.Queue.Worker.{
  Answer, Worker, Event, arrives, turns, serves, elsewhere, shuts, finishes, drained, take_turn,
  answered, idle_turn, serve_hand, happen, accepts, Reached, starts, goes, start_worker, if_queued,
  close_delegate,
}

abbrev pub hand : Option PriorityAdmissionRequest → List PriorityAdmissionRequest
hand none = []
hand (some x) = x ∷ []

module _ {W R : Type 0} where
  abbrev pub requests_of : List (Answer W R) → List PriorityAdmissionRequest
  requests_of [] = []
  requests_of ((x, d) ∷ answers) = x ∷ requests_of answers

  requests_of-append :
      (xs ys : List (Answer W R)) → requests_of (xs ++ ys) ≡ requests_of xs ++ requests_of ys
  requests_of-append [] ys = refl
  requests_of-append ((x, d) ∷ xs) ys = ap (λ l. x ∷ l) (requests_of-append xs ys)

-- The parts of a queue that a decision leaves as they are: all but the wrapped service and the counts.
pub record Keeps {S : Type 0} (s s' : PriorityAdmissionService S) : Type 0 where
  pub queue_kept : s'.queue ≡ s.queue
  pub bound_kept : s'.max_entries ≡ s.max_entries
  pub closed_kept : s'.is_closed ≡ s.is_closed

module _ {W S R : Type 0} ⦃fl : Float64 W⦄ (service : AdmissionService W S R) where
  -- Every request that the queue has accepted, where it is now.
  abbrev pub whereabouts : Worker W S R → List PriorityAdmissionRequest
  whereabouts w = requests_of w.sent ++ (hand w.in_hand ++ w.queue_service.queue)

  deliver-Keeps :
      (s : PriorityAdmissionService S) (x : PriorityAdmissionRequest) (r : Readings)
      (q : AdmissionDecision W R × S)
      → Keeps s (deliver service s x r q).0
  unfolding deliver queue_decision
  deliver-Keeps s x r (d, delegate) =
      if-both (λ (a : PriorityAdmissionService S × AdmissionDecision W R). Keeps s a.0)
        r.canceled_after (record { queue_kept = refl; bound_kept = refl; closed_kept = refl })
        (record { queue_kept = refl; bound_kept = refl; closed_kept = refl })

  pub dispatch-Keeps :
      (s : PriorityAdmissionService S) (x : PriorityAdmissionRequest) (r : Readings)
      → Keeps s (dispatch service s x r).0
  unfolding dispatch queue_decision
  dispatch-Keeps s x r =
      let P : PriorityAdmissionService S × AdmissionDecision W R → Type 0 = λ a. Keeps s a.0 in
      if-both P r.canceled_before
        (record { queue_kept = refl; bound_kept = refl; closed_kept = refl })
        (if-both P (waited s.max_wait r.now x)
          (record { queue_kept = refl; bound_kept = refl; closed_kept = refl })
          (deliver-Keeps s x r (safe_priority_delegate_decide service s.delegate x.demand r)))

  pub answer_all-Keeps :
      (s : PriorityAdmissionService S) (clock : PriorityAdmissionRequest → Time) (why : Reason)
      (xs : List PriorityAdmissionRequest)
      → Keeps s (answer_all service s clock why xs).0
  unfolding answer_all queue_decision
  answer_all-Keeps s clock why [] = record {
    queue_kept = refl;
    bound_kept = refl;
    closed_kept = refl;
  }
  answer_all-Keeps s clock why (x ∷ xs) =
      let k = answer_all-Keeps (queue_decision service s x.demand why (clock x)).0 clock why xs in
      record { queue_kept = k.queue_kept; bound_kept = k.bound_kept; closed_kept = k.closed_kept }

  requests_of-answer_all :
      (s : PriorityAdmissionService S) (clock : PriorityAdmissionRequest → Time) (why : Reason)
      (xs : List PriorityAdmissionRequest)
      → requests_of (answer_all service s clock why xs).1 ≡ xs
  unfolding answer_all
  requests_of-answer_all s clock why [] = refl
  requests_of-answer_all s clock why (x ∷ xs) =
      ap (λ l. x ∷ l)
        (requests_of-answer_all (queue_decision service s x.demand why (clock x)).0 clock why xs)

  -- A step of the worker's accounts: one event moves requests, and loses or doubles none.
  Moves : List PriorityAdmissionRequest → Worker W S R → Worker W S R → Type 0
  Moves xs w w' = Perm (whereabouts w ++ xs) (whereabouts w')

  Moves-all :
      (xs : List PriorityAdmissionRequest) (w w' : Worker W S R)
      → whereabouts w' ≡ whereabouts w ++ xs
      → Moves xs w w'
  unfolding Moves
  Moves-all xs w w' e = subst (Perm (whereabouts w ++ xs)) (sym e) (Perm.refl (whereabouts w ++ xs))

  Moves-none : (w w' : Worker W S R) → whereabouts w' ≡ whereabouts w → Moves [] w w'
  Moves-none w w' e = Moves-all [] w w' (e ∙ sym (append-nil _))

  drained-Moves :
      (w : Worker W S R) (clock : PriorityAdmissionRequest → Time)
      → w.in_hand ≡ none
      → Moves [] w (drained service w (drain service w.queue_service clock closed))
  unfolding drained drain
  drained-Moves w clock h =
      let s = record w.queue_service { queue = [] } in
      let q = w.queue_service.queue in
      let empty = (answer_all-Keeps s clock closed q).queue_kept in
      let all = requests_of-append w.sent (answer_all service s clock closed q).1 in
      let each = requests_of-answer_all s clock closed q in
      Moves-none w _ (simp (empty, all, each, h, append-nil) refl)

  answered-Moves :
      (w : Worker W S R) (x : PriorityAdmissionRequest) (r : Readings)
      → w.in_hand ≡ some x
      → Moves [] w (answered service w x (dispatch service w.queue_service x r))
  unfolding answered
  answered-Moves w x r h =
      let answer = dispatch service w.queue_service x r in
      let kept = (dispatch-Keeps w.queue_service x r).queue_kept in
      let all = requests_of-append w.sent ((x, answer.1) ∷ []) in
      Moves-none w _ (simp (kept, all, h, append_assoc) refl)

  arrives-Moves :
      (w : Worker W S R) (demand : TpsRequestDemand) (r : Readings)
      → Moves (accepts service w (arrives demand r)) w (happen service w (arrives demand r))
  unfolding happen accepts enter_queue queue_decision
  arrives-Moves w demand r =
      let x = new_request w.queue_service demand r.now in
      let P : PriorityAdmissionService S × Option (AdmissionDecision W R) → Type 0 =
        λ a. Moves (if_queued service x a.1) w (record w { queue_service = a.0 }) in
      if-both P r.canceled_before (Moves-none w _ refl) (
        if-both P w.queue_service.is_closed (Moves-none w _ refl) (
          if-both P (leb_ℤ w.queue_service.max_entries (pos (length w.queue_service.queue)))
            (Moves-none w _ refl) (Moves-all (x ∷ []) w _ (simp append_assoc refl))))

  take_turn-Moves :
      (w : Worker W S R) (now : Time) (clock : PriorityAdmissionRequest → Time)
      (t : Turn × PriorityAdmissionService S)
      → w.in_hand ≡ none
      → Turns w.queue_service now t
      → Moves [] w (take_turn service w clock t)
  unfolding take_turn Moves
  take_turn-Moves w now clock t h (stops shut) = drained-Moves w clock h
  take_turn-Moves w now clock t h (idles wait intake) =
      Moves-none w (take_turn service w clock ((none, wait, false), w.queue_service)) (simp h refl)
  take_turn-Moves w now clock t h (takes x others intake p n why) =
      let rs = requests_of w.sent in
      let e : rs ++ w.queue_service.queue ≡ whereabouts w ++ [] = simp (h, append-nil) refl in
      subst (λ l. Perm l (rs ++ x ∷ others)) e (Perm.append_left rs (Perm.symm p))

  idle_turn-Moves :
      (w : Worker W S R) (now : Time) (clock : PriorityAdmissionRequest → Time)
      (held : Option PriorityAdmissionRequest)
      → w.in_hand ≡ held
      → Moves [] w (idle_turn service w held now clock)
  unfolding idle_turn
  idle_turn-Moves w now clock (some x) h = Moves-none w w refl
  idle_turn-Moves w now clock none h =
      take_turn-Moves w now clock _ h (next_item-Turns w.queue_service now)

  serve_hand-Moves :
      (w : Worker W S R) (held : Option PriorityAdmissionRequest) (r : Readings)
      → w.in_hand ≡ held
      → Moves [] w (serve_hand service w held r)
  unfolding serve_hand
  serve_hand-Moves w none r h = Moves-none w w refl
  serve_hand-Moves w (some x) r h = answered-Moves w x r h

  happen-Moves :
      (w : Worker W S R) (k : Event S) → Moves (accepts service w k) w (happen service w k)
  unfolding happen accepts close_delegate
  happen-Moves w (arrives demand r) = arrives-Moves w demand r
  happen-Moves w (turns now clock) =
      if-both (λ w'. Moves [] w w') w.stopped (Moves-none w w refl)
        (idle_turn-Moves w now clock w.in_hand refl)
  happen-Moves w (serves r) = serve_hand-Moves w w.in_hand r refl
  happen-Moves w (elsewhere d) = Moves-none w _ refl
  happen-Moves w shuts = Moves-none w _ refl
  happen-Moves w finishes =
      if-both (λ w'. Moves [] w w') w.stopped
        (if-both (λ w'. Moves [] w w') w.delegate_closed (Moves-none w w refl)
          (Moves-none w _ refl))
        (Moves-none w w refl)

  -- However calls and the worker's rounds are interleaved, the requests that the queue has accepted
  -- are those that are answered, in the worker's hand or queued, each as often as it was accepted.
  pub whereabouts-Reached :
      (xs : List PriorityAdmissionRequest) (w : Worker W S R)
      → Reached service xs w
      → Perm xs (requests_of w.sent ++ (hand w.in_hand ++ w.queue_service.queue))
  unfolding Moves start_worker new_priority_admission_service_with_config
  whereabouts-Reached xs w (starts delegate max_entries coalesce max_wait) = Perm.nil
  whereabouts-Reached xs w (goes ys v k r) =
      Perm.trans (Perm.append_right (accepts service v k) (whereabouts-Reached ys v r))
        (happen-Moves v k)
