-- ===== src/Tests/Wire.antt =====
-- Constants, messages, transactions and the send buffer on small inputs.
use adb_shell.Common.{ℕ, ◌^◌, ◌<◌, ◌≤◌, ◌≡◌, ◌≢◌, refl, List, [], ◌∷◌, none, some, arith, length}
use adb_shell.Errors.{ok, err, struct_error}
use adb_shell.Constants.{clse, wrte, wire_to_id}
use adb_shell.Message.{new_message, pack, unpack}
use adb_shell.Message.RoundTrip.{unpack-pack, pack_cases, header}
use adb_shell.Device.Streams.LocalId.{local_ids_distinct, id_after}

-- The integer of `CLSE`, as the protocol has it.
clse_wire : wire_to_id 0x45534c43 ≡ some clse
unfolding wire_to_id
clse_wire = refl

unpack-pack_example :
    (packed : List ℕ) × (pack (new_message wrte (some 1) (some 5) (200 ∷ 100 ∷ [])) ≡ ok packed)
    × (length packed ≡ 24)
    × (unpack packed ≡ ok (header wrte 1 5 (200 ∷ 100 ∷ [])))
unpack-pack_example =
    unpack-pack wrte 1 5 (200 ∷ 100 ∷ []) (omega arith) (omega arith) (omega arith)

pack_cases_example : pack (new_message wrte (some 1) none (200 ∷ [])) ≡ err struct_error
unfolding new_message
pack_cases_example = pack_cases wrte (some 1) none (200 ∷ [])

-- At the wrap-around: the ids 1 and 2 follow 2 ^ 32 - 1.
local_ids_distinct_example :
    (1 ≤ id_after 1 4294967295)
    × (id_after 1 4294967295 < 2 ^ 32)
    × (id_after 1 4294967295 ≢ id_after 2 4294967295)
local_ids_distinct_example =
    local_ids_distinct 4294967295 0 1 (omega arith) (omega arith) (omega arith)
