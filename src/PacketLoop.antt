-- ===== src/PacketLoop.antt =====
-- The loop that takes packets from a read buffer, which src/main.rs and src/bridge.rs both have.
pub mod Laws
use pipistrelle.Prelude.{ℕ, zero, suc, ◌+◌, Bool, true, false, List, [], ◌∷◌, length, drop}
use pipistrelle.Codec.Outcome.{
  CodecError, incomplete, invalid_varint, malformed_packet, unsupported_protocol_version, Result,
  ok, err, panic, stuck,
}
use pipistrelle.Codec.Packet.{Packet}
use pipistrelle.Codec.Decode.{decode_packet}

-- What handling a packet gives: `Ok`, or the error by which the loop ends.
pub data Handled {ℓ} (S : Type ℓ) : Type ℓ where
  done : S → Handled S
  refused : S → Handled S

-- `waiting`: the packet in the buffer is incomplete. `failed`: the loop returns an error, of the codec or
-- of the handling. `panicked`: the codec has panicked. `spent`: the loop of the model is out of fuel.
pub data Drained {ℓ} (S : Type ℓ) : Type ℓ where
  waiting : List ℕ → S → Drained S
  failed : S → Drained S
  panicked : S → Drained S
  spent : S → Drained S

module _ {ℓ} {S : Type ℓ} where
  abbrev pub on_error : CodecError → List ℕ → S → Drained S
  on_error incomplete read_buf state = waiting read_buf state
  on_error invalid_varint read_buf state = failed state
  on_error malformed_packet read_buf state = failed state
  on_error (unsupported_protocol_version version) read_buf state = failed state

  abbrev pub on_handled : (S → Drained S) → Handled S → Drained S
  on_handled next (done state) = next state
  on_handled next (refused state) = failed state

  -- `match decode_packet(&read_buf)`; `next` is the loop's next round.
  abbrev pub on_decoded :
      (Packet → S → Handled S) → (ℕ → S → Drained S) → List ℕ → S → Result (Packet × ℕ) → Drained S
  on_decoded handle next read_buf state (ok (packet, bytes_read)) =
      on_handled (next bytes_read) (handle packet state)
  on_decoded handle next read_buf state (err e) = on_error e read_buf state
  on_decoded handle next read_buf state panic = panicked state
  on_decoded handle next read_buf state stuck = spent state

  unfoldable pub drain_loop : (Packet → S → Handled S) → ℕ → List ℕ → S → Drained S
  drain_loop handle zero read_buf state = spent state
  drain_loop handle (suc fuel) read_buf state =
      on_decoded handle (λ bytes_read. drain_loop handle fuel (drop bytes_read read_buf)) read_buf
        state (decode_packet read_buf)

  -- Each packet takes a byte or more.
  unfoldable pub drain : (Packet → S → Handled S) → List ℕ → S → Drained S
  unfolding drain_loop
  drain handle read_buf state = drain_loop handle (suc (length read_buf)) read_buf state

module _ {ℓ κ} {S : Type ℓ} where
  -- What holds of the state, however the handling or the loop has ended.
  abbrev pub OnHandled : (S → Type κ) → Handled S → Type κ
  OnHandled P (done s) = P s
  OnHandled P (refused s) = P s

  abbrev pub OnDrained : (S → Type κ) → Drained S → Type κ
  OnDrained P (waiting buf s) = P s
  OnDrained P (failed s) = P s
  OnDrained P (panicked s) = P s
  OnDrained P (spent s) = P s
