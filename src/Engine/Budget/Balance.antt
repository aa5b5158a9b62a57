-- ===== src/Engine/Budget/Balance.antt =====
-- Guards of native/sync/src/sync_engine.cpp that are acquired and released in any order.
use tightrope.Prelude.{
  ℕ, ◌+◌, ◌-◌, ◌≤◌, ◌<◌, ◌≡◌, ◌↔◌, refl, sym, subst, if◌then◌else◌, List, ◌∷◌, none, arith,
}
use tightrope.Prelude.Maps.{nat_ordered, key_eq, key_eq-eq, lookup, insert}
use tightrope.Engine.Budget.{
  IngressLimits, InflightWire, peer_state, add_size, charged, acquire, release,
}
use tightrope.Engine.Budget.Guards.{
  peer_state-release, release_total, Guard, held_bytes, peer_batches, peer_bytes, Picks, Reached,
  IsSized, IsBalanced, held_bytes-Picks, peer_batches-Picks, peer_bytes-Picks, peer_state-insert,
  peer_state-insert_self, acquire-entered, acquire-refused, started, entered, refused, left,
}

module _ (limits : IngressLimits) (sized : IsSized limits) where
  charged-IsBalanced :
      (site wire_bytes : ℕ) (s : InflightWire) (held : List Guard)
      → s.total_bytes + wire_bytes ≤ limits.max_inflight_wire_bytes
      → (peer_state site s.by_peer).batches < limits.max_inflight_wire_batches_per_peer
      → (peer_state site s.by_peer).bytes + wire_bytes ≤ limits.max_inflight_wire_bytes_per_peer
      → IsBalanced limits s held
      → IsBalanced limits
          (record {
            total_bytes = add_size s.total_bytes wire_bytes;
            by_peer = insert site (charged wire_bytes (peer_state site s.by_peer)) s.by_peer;
          })
          ((site, wire_bytes) ∷ held)
  unfolding peer_batches peer_bytes
  charged-IsBalanced site wire_bytes s held t n p b = record {
    total = ground (arith, t, b.total, sized.0);
    total_limit = ground (arith, t, sized.0);
    batches = λ k. ground (arith, at k, n, b.batches k, key_eq-eq site k, sized.2);
    bytes = λ k. ground (arith, at k, p, b.bytes k, key_eq-eq site k, sized.1);
    batches_limit = λ k. ground (arith, at k, n, b.batches_limit k, key_eq-eq site k, sized.2);
    bytes_limit = λ k. ground (arith, at k, p, b.bytes_limit k, key_eq-eq site k, sized.1);
  }
    where
      at :
          (k : ℕ)
          → peer_state k (insert site (charged wire_bytes (peer_state site s.by_peer)) s.by_peer)
            ≡ (if key_eq site k
                then charged wire_bytes (peer_state site s.by_peer)
                else peer_state k s.by_peer)
      at k = peer_state-insert k site (charged wire_bytes (peer_state site s.by_peer)) s.by_peer

  seen-IsBalanced :
      (site : ℕ) (s : InflightWire) (held : List Guard)
      → IsBalanced limits s held
      → IsBalanced limits
          (record s { by_peer = insert site (peer_state site s.by_peer) s.by_peer })
          held
  seen-IsBalanced site s held b = record {
    total = b.total;
    total_limit = b.total_limit;
    batches = λ k. rw (peer_state-insert_self k site s.by_peer) (b.batches k);
    bytes = λ k. rw (peer_state-insert_self k site s.by_peer) (b.bytes k);
    batches_limit = λ k. rw (peer_state-insert_self k site s.by_peer) (b.batches_limit k);
    bytes_limit = λ k. rw (peer_state-insert_self k site s.by_peer) (b.bytes_limit k);
  }

  release-IsBalanced :
      (g : Guard) (s : InflightWire) (held rest : List Guard)
      → Picks g held rest
      → IsBalanced limits s held
      → IsBalanced limits (release g.0 g.1 s) rest
  release-IsBalanced g s held rest p b = record {
    total = ground (arith, total, held_bytes-Picks g held rest p, b.total);
    total_limit = ground (arith, total, b.total_limit);
    batches =
        λ k. ground (arith, at k, b.batches k, peer_batches-Picks k g held rest p, key_eq-eq g.0 k);
    bytes = λ k. ground (arith, at k, b.bytes k, peer_bytes-Picks k g held rest p, key_eq-eq g.0 k);
    batches_limit = λ k. ground (arith, at k, b.batches_limit k);
    bytes_limit = λ k. ground (arith, at k, b.bytes_limit k);
  }
    where
      total : (release g.0 g.1 s).total_bytes ≡ s.total_bytes - g.1
      total = release_total g.0 g.1 s

      at :
          (k : ℕ)
          → peer_state k (release g.0 g.1 s).by_peer ≡ (
              if key_eq g.0 k
              then (record (peer_state k s.by_peer) {
                batches = (peer_state k s.by_peer).batches - 1;
                bytes = (peer_state k s.by_peer).bytes - g.1;
              })
              else peer_state k s.by_peer)
      at k = peer_state-release k g.0 g.1 s

  -- Whatever guards are acquired, refused and released, in any order, with limits that std::size_t
  -- holds: the total is the sum of the bytes of the guards held, each peer's batches and bytes are
  -- those of its own guards, and none of them is over its limit.
  pub acquire-IsBalanced :
      (s : InflightWire) (held : List Guard) → Reached limits s held → IsBalanced limits s held
  unfolding peer_state peer_batches peer_bytes lookup
  acquire-IsBalanced _ _ started = record {
    total = refl;
    total_limit = omega arith;
    batches = λ k. refl;
    bytes = λ k. refl;
    batches_limit = λ k. omega arith;
    bytes_limit = λ k. omega arith;
  }
  acquire-IsBalanced _ _ (entered site wire_bytes {s} {held} h r) =
      let (t, n, p, e) = acquire-entered limits site wire_bytes s h in
      subst (λ x. IsBalanced limits x ((site, wire_bytes) ∷ held)) (sym e)
        (charged-IsBalanced site wire_bytes s held t n p (acquire-IsBalanced s held r))
  acquire-IsBalanced _ _ (refused site wire_bytes err {s} {held} h r) =
      subst (λ x. IsBalanced limits x held) (sym (acquire-refused limits site wire_bytes err s h))
        (seen-IsBalanced site s held (acquire-IsBalanced s held r))
  acquire-IsBalanced _ _ (left g {s} {held} {rest} p r) =
      release-IsBalanced g s held rest p (acquire-IsBalanced s held r)

  acquire_free :
      (site wire_bytes : ℕ) (s : InflightWire)
      → s.total_bytes + wire_bytes ≤ limits.max_inflight_wire_bytes
      → (peer_state site s.by_peer).batches < limits.max_inflight_wire_batches_per_peer
      → (peer_state site s.by_peer).bytes + wire_bytes ≤ limits.max_inflight_wire_bytes_per_peer
      → (acquire limits site wire_bytes s).1 ≡ none
  unfolding acquire
  acquire_free site wire_bytes s t n p = ground (arith, t, n, p)

  -- No budget is lost: in every state that is reached with limits that std::size_t holds, a guard is
  -- acquired exactly if the guards held leave room for it, in bytes, in the peer's batches and in the
  -- peer's bytes.
  pub acquire-none :
      (s : InflightWire) (held : List Guard) (site wire_bytes : ℕ)
      → Reached limits s held
      → ((acquire limits site wire_bytes s).1 ≡ none) ↔ (
          (held_bytes held + wire_bytes ≤ limits.max_inflight_wire_bytes)
          × (peer_batches site held < limits.max_inflight_wire_batches_per_peer)
          × (peer_bytes site held + wire_bytes ≤ limits.max_inflight_wire_bytes_per_peer))
  acquire-none s held site wire_bytes r =
      let b = acquire-IsBalanced s held r in
      (
        (λ h.
            let (t, n, p, e) = acquire-entered limits site wire_bytes s h in
            (
              omega (arith, t, b.total),
              omega (arith, n, b.batches site),
              omega (arith, p, b.bytes site),
            )),
        (λ (t, n, p).
            acquire_free site wire_bytes s (omega (arith, t, b.total))
              (omega (arith, n, b.batches site)) (omega (arith, p, b.bytes site))),
      )
