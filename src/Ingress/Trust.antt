-- ===== src/Ingress/Trust.antt =====
-- Whatever bytes a peer sends to a ReplicationIngressSession of
-- native/sync/src/transport/replication_ingress.cpp.
use tightrope.Prelude.{
  ℕ, zero, suc, ◌+◌, ◌≤◌, ◌≡◌, refl, ap, sym, subst, ◌∙◌, true, false, if◌then◌else◌, Option, none,
  some, arith, inl, inr,
}
use tightrope.Rpc.Frame.{RpcFrame}
use tightrope.Rpc.Queue.{IngressQueue}
use tightrope.Rpc.Queue
use tightrope.Engine.Wire.{Times, Surroundings}
use tightrope.Ingress.{
  ReplicationIngressOutcome, Node, FrameResult, failed, handshaken, ignored, applied, with_session,
  on_frame, counted, with_queue, consume,
}
use tightrope.Ingress.Frames.{pop-settles, IsAuthentic, Holds, on_frame-Holds}

-- Each frame that was taken is counted once: as ignored, as an applied batch, as the handshake, or as
-- the one that failed.
abbrev pub IsTallied : ReplicationIngressOutcome → Type 0
IsTallied out =
    out.consumed_frames
    ≡ out.ignored_frames
      + out.applied_batches
      + (if out.handshake_accepted then 1 else 0)
      + (if out.ok then 0 else 1)

module _ {D : Type 0} (w : Surroundings D) where
  -- A session that has completed a handshake that it requires has checked it.
  abbrev pub IsTrusted : Node D → Type 0
  IsTrusted n =
      n.session.config.require_initial_handshake ≡ true
      → n.session.handshake_complete ≡ true
      → IsAuthentic w n.session.request

  -- Where a node gets to from another.
  pub record Follows (n n' : Node D) : Type 0 where
    pub trusted : IsTrusted n → IsTrusted n'
    pub complete : n.session.handshake_complete ≡ true → n'.session.handshake_complete ≡ true
    pub untouched : n'.session.handshake_complete ≡ false → n'.rows ≡ n.rows
    pub config : n'.session.config ≡ n.session.config

  pub Follows-refl : (n : Node D) → Follows n n
  Follows-refl n = record {
    trusted = λ t. t;
    complete = λ c. c;
    untouched = λ u. refl;
    config = refl;
  }

  pub Follows-trans : (a b c : Node D) → Follows a b → Follows b c → Follows a c
  Follows-trans a b c x y = record {
    trusted = λ t. y.trusted (x.trusted t);
    complete = λ k. y.complete (x.complete k);
    untouched = λ u. y.untouched u ∙ x.untouched (ground (arith, u, y.complete));
    config = y.config ∙ x.config;
  }

  pub with_queue-Follows : (n : Node D) (q : IngressQueue) → Follows n (with_queue w n q)
  with_queue-Follows n q = record {
    trusted = λ t. t;
    complete = λ c. c;
    untouched = λ u. refl;
    config = refl;
  }

  -- The node that a frame leaves.
  abbrev after_frame : FrameResult D → Node D
  after_frame (failed after err) = after
  after_frame (handshaken after) = after
  after_frame (ignored after) = after
  after_frame (applied after entries) = after

  Holds-Follows : (n : Node D) (r : FrameResult D) → Holds w n r → Follows n (after_frame r)
  Holds-Follows n (failed after err) (rows, complete, request, config) = record {
    trusted = λ t required done.
        let was : n.session.handshake_complete ≡ true = sym complete ∙ done in
        subst (IsAuthentic w) (sym (request was))
          (t (subst (λ c. c.require_initial_handshake ≡ true) config required) was);
    complete = λ c. complete ∙ c;
    untouched = λ u. rows;
    config = config;
  }
  Holds-Follows n (handshaken after) (early, complete, rows, authentic, config) = record {
    trusted = λ t required done. authentic;
    complete = λ c. complete;
    untouched = λ u. rows;
    config = config;
  }
  Holds-Follows n (ignored after) same = subst (Follows n) (sym same) (Follows-refl n)
  Holds-Follows n (applied after entries) (complete, session) = record {
    trusted = λ t.
        subst
          (λ s.
            s.config.require_initial_handshake ≡ true
            → s.handshake_complete ≡ true
            → IsAuthentic w s.request)
          (sym session) t;
    complete = λ c. ap (λ s. s.handshake_complete) session ∙ c;
    untouched = λ u. absurd (ground (arith, u, complete, session));
    config = ap (λ s. s.config) session;
  }

  -- What the loop comes to from an outcome so far.
  abbrev pub Consumes :
      ℕ → Node D → ReplicationIngressOutcome → Option (Node D × ReplicationIngressOutcome) → Type 0
  Consumes left n out end =
      (n' : Node D) × (out' : ReplicationIngressOutcome) × (end ≡ some (n', out'))
      × Follows n n'
      × IsTallied out'
      × (out'.consumed_frames ≤ out.consumed_frames + left)
      × (out'.handshake_complete ≡ n'.session.handshake_complete)

  -- An outcome while the loop runs.
  abbrev pub IsRunning : Node D → ReplicationIngressOutcome → Type 0
  IsRunning n out =
      (out.ok ≡ true)
      × IsTallied out
      × (out.handshake_accepted ≡ true → n.session.handshake_complete ≡ true)

  Follows-frame :
      (n : Node D) (q : IngressQueue) (r : FrameResult D)
      → Holds w (with_queue w n q) r
      → Follows n (after_frame r)
  Follows-frame n q r holds =
      Follows-trans n (with_queue w n q) (after_frame r) (with_queue-Follows n q)
        (Holds-Follows (with_queue w n q) r holds)

  -- A round that goes on.
  goes_on :
      (left : ℕ) (n after : Node D) (out out2 : ReplicationIngressOutcome)
      (end : Option (Node D × ReplicationIngressOutcome))
      → Follows n after
      → out2.consumed_frames ≡ suc out.consumed_frames
      → Consumes left after out2 end
      → Consumes (suc left) n out end
  goes_on left n after out out2 end f c (n', out', e, follows, tally, count, complete) =
      (n', out', e, Follows-trans n after n' f follows, tally, omega (arith, c, count), complete)

  consume-round :
      (times : ℕ → Times) (left : ℕ) (n : Node D) (out : ReplicationIngressOutcome)
      (frame : RpcFrame) (q : IngressQueue) (r : FrameResult D)
      → Queue.pop n.session.ingress_queue ≡ some (some frame, q)
      → on_frame w (times left) (with_queue w n q) frame ≡ r
      → Holds w (with_queue w n q) r
      → IsRunning n out
      → ((n2 : Node D) (out2 : ReplicationIngressOutcome)
          → IsRunning n2 out2
          → Consumes left n2 out2 (consume w times left n2 out2))
      → Consumes (suc left) n out (consume w times (suc left) n out)
  unfolding consume with_session
  consume-round times left n out frame q (failed after err) popped e holds (ok, tally, early)
        again =
      (
        after,
        with_session after.session (record (counted w out) { ok = false; error = err }),
        ground (arith, popped, e),
        Follows-frame n q (failed after err) holds,
        ground (arith, tally, ok),
        omega arith,
        refl,
      )
  consume-round times left n out frame q (handshaken after) popped e holds (ok, tally, early)
        again =
      let out2 : ReplicationIngressOutcome = record (counted w out) { handshake_accepted = true } in
      let step : consume w times (suc left) n out ≡ consume w times left after out2 =
        ground (arith, popped, e) in
      subst (Consumes (suc left) n out) (sym step) (
        goes_on left n after out out2 (consume w times left after out2)
          (Follows-frame n q (handshaken after) holds) (omega arith)
          (again after out2 (ok, ground (arith, tally, ok, early, holds.0), λ h. holds.1)))
  consume-round times left n out frame q (ignored after) popped e holds (ok, tally, early) again =
      let out2 : ReplicationIngressOutcome = record (counted w out) {
        ignored_frames = out.ignored_frames + 1;
      } in
      let step : consume w times (suc left) n out ≡ consume w times left after out2 =
        ground (arith, popped, e) in
      subst (Consumes (suc left) n out) (sym step) (
        goes_on left n after out out2 (consume w times left after out2)
          (Follows-frame n q (ignored after) holds) (omega arith)
          (again after out2 (
            ok,
            omega (arith, tally),
            λ h. (Follows-frame n q (ignored after) holds).complete (early h),
          )))
  consume-round times left n out frame q (applied after entries) popped e holds (ok, tally, early)
        again =
      let out2 : ReplicationIngressOutcome = record (counted w out) {
        applied_batches = out.applied_batches + 1;
        applied_entries = out.applied_entries + entries;
      } in
      let step : consume w times (suc left) n out ≡ consume w times left after out2 =
        ground (arith, popped, e) in
      subst (Consumes (suc left) n out) (sym step) (
        goes_on left n after out out2 (consume w times left after out2)
          (Follows-frame n q (applied after entries) holds) (omega arith)
          (again after out2 (
            ok,
            omega (arith, tally),
            λ h. (Follows-frame n q (applied after entries) holds).complete (early h),
          )))

  consume-empty :
      (times : ℕ → Times) (left : ℕ) (n : Node D) (out : ReplicationIngressOutcome)
      → Queue.pop n.session.ingress_queue ≡ some (none, n.session.ingress_queue)
      → consume w times (suc left) n out ≡ some (n, with_session n.session out)
  unfolding consume
  consume-empty times left n out nothing = ground (arith, nothing)

  pub consume-Consumes :
      (times : ℕ → Times) (left : ℕ) (n : Node D) (out : ReplicationIngressOutcome)
      → IsRunning n out
      → Consumes left n out (consume w times left n out)
  unfolding consume with_session
  consume-Consumes times zero n out (ok, tally, early) =
      (n, with_session n.session out, refl, Follows-refl n, tally, omega arith, refl)
  consume-Consumes times (suc left) n out (ok, tally, early) =
      let again = consume-Consumes times left in
      elim (pop-settles n.session.ingress_queue) [
        | inl nothing ↦ (
          n,
          with_session n.session out,
          consume-empty times left n out nothing,
          Follows-refl n,
          tally,
          omega arith,
          refl,
        )
        | inr (frame, q, popped) ↦
            consume-round times left n out frame q
              (on_frame w (times left) (with_queue w n q) frame) popped refl
              (on_frame-Holds w (times left) (with_queue w n q) frame) (ok, tally, early) again
      ]
