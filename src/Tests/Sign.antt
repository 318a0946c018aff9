-- ===== src/Tests/Sign.antt =====
-- Signing at concrete requests. The MAC is a checksum of two bytes.
use nomctl.Prelude.{
  ℕ, ◌+◌, ◌*◌, ◌%◌, ◌≤◌, ◌≡◌, refl, ◌↔◌, none, some, [], ◌∷◌, Text, bytes, arith, pos, length,
}
use nomctl.Time.{Time, second}
use nomctl.AlertProto.Sign.{hex_decode, message, sign, verify, replay_window, unix_epoch}
use nomctl.AlertProto.Sign.Laws.{
  AreBytes, IsFresh, message-injective, verify_iff, verify-sign, verify_replay,
}

abbrev mac : Text → Text → Text
mac k m = length k % 256 ∷ length m % 256 ∷ []

mac_bytes : (k m : Text) → AreBytes (mac k m)
mac_bytes k m = (omega arith, (omega arith, tt))

-- The clock at a second of Unix time.
abbrev clock : ℕ → Time
clock t = (unix_epoch + t) * second

abbrev secret : Text
secret = bytes "secret"

abbrev body : Text
body = bytes "{}"

fresh : (t now : ℕ) → t ≤ now → now ≤ t + 300 → IsFresh (pos t) (clock now)
fresh t now p q = record { not_old = omega arith; not_ahead = omega arith }

verify_iff_example : (verify mac secret (pos 1000) body (bytes "060A") (clock 1010) ≡ none) ↔ (
    IsFresh (pos 1000) (clock 1010)
    × (hex_decode (bytes "060A") ≡ some (mac secret (message (pos 1000) body))))
verify_iff_example = verify_iff mac mac_bytes secret (pos 1000) body (bytes "060A") (clock 1010)

message-injective_example : (pos 1000 ≡ pos 1000) × (body ≡ body)
message-injective_example = message-injective (pos 1000) (pos 1000) body body refl

verify-sign_example :
    verify mac secret (pos 1000) body (sign mac secret (pos 1000) body) (clock 1200) ≡ none
verify-sign_example =
    verify-sign mac mac_bytes secret (pos 1000) body (clock 1200)
      (fresh 1000 1200 (omega arith) (omega arith))

verify_replay_example : clock 1200 ≤ clock 1000 + 2 * replay_window
verify_replay_example =
    verify_replay mac mac_bytes secret (pos 1000) body (sign mac secret (pos 1000) body)
      (clock 1000) (clock 1200)
      (verify-sign mac mac_bytes secret (pos 1000) body (clock 1000)
        (fresh 1000 1000 (omega arith) (omega arith)))
      (verify-sign mac mac_bytes secret (pos 1000) body (clock 1200)
        (fresh 1000 1200 (omega arith) (omega arith)))
