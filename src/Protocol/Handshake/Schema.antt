-- ===== src/Protocol/Handshake/Schema.antt =====
-- What schema negotiation (native/sync/src/sync_protocol.cpp) accepts.
use Prim.Native.Nat.{min}
use tightrope.Prelude.{ℕ, ◌<◌, ◌≤◌, ◌≡◌, ◌≢◌, ◌↔◌, ◌⊎◌, Bool, true, arith}
use tightrope.Protocol.Handshake.{
  HandshakeFrame, negotiated, incompatible, no_compatible, validate_handshake_schema_version,
}

-- A version is negotiated exactly when a minimum is set, both peers reach it, and they agree or a
-- downgrade is allowed; it is the lower of the two versions. The last error of the source never
-- occurs.
pub validate_schema_iff :
    (remote : HandshakeFrame) (local least v : ℕ) (downgrade : Bool)
    → ((validate_handshake_schema_version remote local downgrade least ≡ negotiated v) ↔ (
        (0 < least)
        × (least ≤ local)
        × (least ≤ remote.schema_version)
        × ((remote.schema_version ≡ local) ⊎ (downgrade ≡ true))
        × (v ≡ min local remote.schema_version)))
      × (validate_handshake_schema_version remote local downgrade least
          ≢ incompatible no_compatible)
unfolding validate_handshake_schema_version
validate_schema_iff remote local least v downgrade =
    ((λ h. ground arith, λ h. ground arith), λ h. ground arith)
