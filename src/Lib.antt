-- ===== src/Lib.antt =====
-- The admission core of phala-inference-guard (PIG): package internal/admission, the priority queue
-- of internal/app/server before it, and the scanner of internal/domain/request that tells how many
-- sequences a request asks for, with the bounds on running scanners of internal/app/request.
--
-- PIG stands before one inference backend. Every request asks the admission controller for a
-- reservation; the request's handler then reports through the reservation's handle that it was
-- forwarded, that its first byte came, and how it ended. A sampler opens a sample window, scrapes the
-- backend's metrics and publishes them as an observation. The controller decides from the last
-- observation, from the overlay of reservations that the observation cannot show yet, and from a
-- rolling window of decode throughput (TPS), under bounds that an administrator can change. Requests
-- reach the controller through a short bounded queue with one worker, which orders them by age and
-- tier. What a request asks for is read off its JSON body, before it is queued.
--
-- What models what:
--   Base, Go            shared names and lemmas; int64 and uint64, time, float64
--   Admission/Types     internal/admission/types.go: actions, reasons, scopes, causes
--   Admission/Demand    tps_demand.go: tiers, TPSRequestDemand
--   Admission/Numeric, Overlay, Reservation, Projection
--                       numeric.go, reservation.go, projector.go: checked sums, contribution,
--                       addOverlay, subtractOverlay, replaceOverlay, project
--   Admission/Exposure  sequence_exposure.go: the 128-bit integrals (addForwarded, addResponse,
--                       remove, snapshot, advance)
--   Admission/Tps, Window, Histogram
--                       tps_window.go and window_concurrency_histogram.go: buckets, observe, snapshot
--   Admission/Gate, Bounds, Policy
--                       tps_gate.go, admission_bounds.go, policy.go: the decision
--   Admission/Controller
--                       controller.go and policy_update.go: State (NewAdmissionController,
--                       failClosedLocked), Decide (Admit, stateLocked), Lifecycle (markForwarded,
--                       markFirstByte, terminate), Publish (StartSampleWindow, PublishObservation),
--                       Reconcile, Update (UpdatePolicy), Capacity (Snapshot, Close). The proofs
--                       stand in Outcomes, Admissions, Sums, Invariant, Steps, Cached, Closed,
--                       Handles, Debts, Monotone, Publications, Revisions.
--   Server/Decision     internal/app/server/admission_runtime.go, admission_http.go:
--                       admissionDecision, the interface admissionService
--   Server/Queue        internal/app/server/priority_admission.go: construction and counters; Choice
--                       (next, chooseIndex), Dispatch (Decide, dispatch, drain), Worker (run, Close).
--                       The proofs stand in Choice/Pick and Order, Turns, Worker/Accounts, Bound and
--                       Answers.
--   Server/Runtime      admission_runtime.go: the controller as the service behind the queue; the
--                       proofs stand in Release.
--   Request             internal/domain/request/tps_shape.go: Bytes (classes of bytes, strings that
--                       are compared), Scanner (the parser's state, parseString, parseNumber), Values
--                       (parseValue, parseObject, parseArray), Numbers, Prompt
--                       (parseCompletionPrompt), Shape (ParseTPSRequestShape); endpoint.go. The
--                       proofs stand in Scanner/Progress, Values/Fuel, NumberText, StringText,
--                       Text, RoundTrip and Depth, Prompt/Progress, Numbers/Decimal and Quoted,
--                       Shape/Total and Sequences.
--   Request/Classifier  internal/app/request/classifier.go, types.go: the tokens and the bytes that
--                       scanners hold; the proofs stand in Bounds.
--   Server/Tests, Request/Tests
--                       runs of the queue and of the scanner
--   Admission/Runs      a concrete float64 and runs of the controller
--   Admission/Tests     the model on concrete inputs
--
-- How the code is read. Each exported method holds the controller's mutex, so it is one function from
-- the state and the readings of the clock to the new state and the result, and a history of
-- concurrent requests is a sequence of calls (Admission/Controller/Steps). A pointer to the controller
-- is its address, a number. The map of reservations is an association list, and a loop over it, which
-- the code makes in any order, goes in the order of the list. An int64 is an integer, and the sums
-- that the code checks are checked against 2 ^ 63 - 1; a uint64 is a native number. An instant is its
-- nanoseconds since the zero Time, and instants before that are left out. float64 is a parameter: a
-- type with the operations that the code applies, of which nothing is assumed, so what is stated holds
-- however they round. The result (value, false) of a Go function is `none`; its value is not read by
-- the callers. A string of a closed set is a data type, with a case for any other string where the
-- code tests for one.
--
-- The loop over the seconds of an interval runs on a fuel of 63 rounds, since a minute touches at
-- most 61 seconds. The scanner's state is the rest of the body, a list of bytes, and the depth; its
-- recursion runs on three units of fuel for each byte and three more, its loops over elements and over
-- the bytes of a string on the number of bytes, since each round takes one. Where the code reads a
-- failed parser, it reads only whether the depth limit is exceeded, so that is what a failure holds.
-- All other loops are structural.
--
-- The classifier's tokens and counters are changed by steps of single channel and atomic operations, in
-- any order (Request/Classifier/Bounds); a loop of compare-and-swap is the step in which it succeeds.
-- The gauge of scanners in flight is an integer, where the code has an int64: nothing reads it but
-- the metrics, and it stays within the number of calls that are running.
--
-- The queue's worker and its callers are a sequence of events (Server/Queue/Worker): the mutex is held
-- for the append of `Decide`, for `next` and for the taking of the items by `drain`. The answer sent
-- on a request's channel is recorded with the request. The wrapped service is any record of its
-- methods, whose state others may change between the events; a context is what the code reads of it,
-- whether it is canceled, at each reading.
--
-- Not modelled: nil receivers; the text forms of tiers and reasons; the queue's wake channel and timer,
-- which only decide when the worker takes its next round; the rest of the server (internal/app), the
-- other parsers and clients (internal/domain/upstreamerror, internal/infra), configuration, metrics,
-- attestation, telemetry, the simulator and the commands.
pub mod Base
pub mod Go
pub mod Admission
pub mod Request
pub mod Server
