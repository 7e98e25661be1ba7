-- ===== src/Tests/Codec.antt =====
-- Instances of the theorems on base64 and on the memory budget.
use crosspoint_simulator_ios.Base.{
  ◌+◌, ◌≡◌, true, not, ◌&&◌, [], ◌∷◌, some, none, arith, ltb, ◌==◌, Bytes, length, if◌then◌else◌,
}
use crosspoint_simulator_ios.Base64.{encode, Decoded, decode}
use crosspoint_simulator_ios.Base64.RoundTrip.{decode-encode}
use crosspoint_simulator_ios.Memory.{Psram, allocate_psram, delete_psram, get_psram_heap}
use crosspoint_simulator_ios.Memory.Budget.{Step, Reach, sum, psram_budget}

abbrev four_bytes : Bytes
four_bytes = 0 ∷ 255 ∷ 16 ∷ 131 ∷ []

decode-encode_example :
    (decode none (encode four_bytes) ≡ Decoded.too_small (length four_bytes))
    × (decode (some 6) (encode four_bytes) ≡ Decoded.ok four_bytes)
decode-encode_example =
    decode-encode four_bytes 6 (omega arith, (omega arith, (omega arith, (omega arith, tt))))
      (omega arith) (omega arith)

abbrev fresh : Psram
fresh = record { total = 8388608; used = 0; live = [] }

abbrev filled : Psram
filled = (allocate_psram true 8000000 (delete_psram (some 0) (allocate_psram true 4096 fresh).1)).1

psram_budget_example :
    ((get_psram_heap filled).free_bytes + sum filled.live ≡ 8388608)
    × ((allocate_psram true 400000 filled).0 ≡ (
        if not (8388608 == 0) && not (ltb (get_psram_heap filled).free_bytes 400000)
        then some 400000
        else none))
psram_budget_example = psram_budget 8388608 400000 {m = filled} (omega arith) (
    Reach.next (Reach.next (Reach.next Reach.here (Step.allocate true 4096)) (Step.delete (some 0)))
      (Step.allocate true 8000000))
