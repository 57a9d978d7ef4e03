-- ===== src/Request.antt =====
-- RequestIdGenerator of include/event_hub/request.hpp: the counter is the generator's state.
use event_hub_cpp.Prelude.{ℕ, ◌==◌, if◌then◌else◌, add_one64}

abbrev pub invalid_request_id : ℕ
invalid_request_id = 0

abbrev pub RequestIdGenerator : Type 0
RequestIdGenerator = ℕ

abbrev pub new_generator : RequestIdGenerator
new_generator = 1

-- The id, and the generator afterwards.
unfoldable pub next : RequestIdGenerator → ℕ × RequestIdGenerator
next counter =
    if counter == invalid_request_id
    then (add_one64 counter, add_one64 (add_one64 counter))
    else (counter, add_one64 counter)
