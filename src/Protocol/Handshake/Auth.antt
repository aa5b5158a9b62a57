-- ===== src/Protocol/Handshake/Auth.antt =====
-- What handshake authentication (native/sync/src/sync_protocol.cpp) accepts.
use tightrope.Prelude.{
  ◌≡◌, ◌≢◌, refl, sym, ◌↔◌, ◌⊎◌, inl, inr, Bool, false, [], some, arith, length, ap, ◌∙◌,
  Option-cases, subst,
}
use tightrope.Wire.{Bytes}
use tightrope.Text.Hex.{hex_encode, hex_decode_into}
use tightrope.Text.Hex.RoundTrip.{hex_decode_into-encode, length-hex_encode}
use tightrope.Protocol.Handshake.{
  HandshakeFrame, Sodium, accepted, sign_handshake, validate_handshake_auth, handshake_auth_payload,
}

module _ (s : Sodium) where
  -- The digest that the secret gives to the four signed fields of a frame.
  unfoldable pub digest : HandshakeFrame → Bytes → Bytes
  digest f secret = s.hmac_sha256 secret (handshake_auth_payload f)

  decode-digest :
      (f : HandshakeFrame) (secret : Bytes)
      → hex_decode_into 32 (hex_encode (digest f secret)) ≡ some (digest f secret)
  unfolding digest
  decode-digest f secret =
      subst
        (λ n.
          hex_decode_into n (hex_encode (s.hmac_sha256 secret (handshake_auth_payload f)))
          ≡ some (s.hmac_sha256 secret (handshake_auth_payload f)))
        (s.hmac_size secret (handshake_auth_payload f))
        (hex_decode_into-encode (s.hmac_sha256 secret (handshake_auth_payload f))
          (s.hmac_bytes secret (handshake_auth_payload f)))

  -- A frame is accepted exactly when it carries no signature and none is required, or a secret is
  -- configured and the signature is the hexadecimal form of the digest of the frame's own fields.
  pub validate_auth_iff :
      (f : HandshakeFrame) (secret : Bytes) (required : Bool)
      → (validate_handshake_auth s f secret required ≡ accepted) ↔ (
          ((f.auth_hmac_hex ≡ []) × (required ≡ false))
          ⊎ ((f.auth_hmac_hex ≢ [])
              × (secret ≢ [])
              × (hex_decode_into 32 f.auth_hmac_hex ≡ some (digest f secret))))
  unfolding validate_handshake_auth digest
  validate_auth_iff f secret required = (
    λ h. elim (Option-cases (hex_decode_into 32 f.auth_hmac_hex)) [
      | inl e ↦ ground arith
      | inr (p, e) ↦ ground (arith, decode-digest f secret, s.verify_iff p (digest f secret))
    ],
    λ h. ground (arith, decode-digest f secret, s.verify_iff (digest f secret) (digest f secret)),
  )

  sign_handshake_lem :
      (f : HandshakeFrame) (secret : Bytes)
      → secret ≢ []
      → sign_handshake s f secret ≡ record f { auth_hmac_hex = hex_encode (digest f secret) }
  unfolding sign_handshake digest
  sign_handshake_lem f secret h = ground arith

  hex-digest-ne : (f : HandshakeFrame) (secret : Bytes) → hex_encode (digest f secret) ≢ []
  unfolding digest
  hex-digest-ne f secret e = absurd (
      omega (
        arith,
        ap length e,
        length-hex_encode (s.hmac_sha256 secret (handshake_auth_payload f)),
        s.hmac_size secret (handshake_auth_payload f),
      ))

  digest-resigned :
      (f : HandshakeFrame) (secret hmac : Bytes)
      → digest (record f { auth_hmac_hex = hmac }) secret ≡ digest f secret
  unfolding digest handshake_auth_payload
  digest-resigned f secret hmac = refl

  -- A frame that was signed with a configured secret is accepted by every peer that has it.
  pub validate-sign_handshake :
      (f : HandshakeFrame) (secret : Bytes) (required : Bool)
      → secret ≢ []
      → validate_handshake_auth s (sign_handshake s f secret) secret required ≡ accepted
  validate-sign_handshake f secret required h =
      let signed : HandshakeFrame = record f { auth_hmac_hex = hex_encode (digest f secret) } in
      rw (sign_handshake_lem f secret h) (
        (validate_auth_iff signed secret required).1 (
          inr (
            hex-digest-ne f secret,
            h,
            decode-digest f secret
                ∙ ap some (sym (digest-resigned f secret (hex_encode (digest f secret)))),
          )))
