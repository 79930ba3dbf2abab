-- ===== src/State/Digest.antt =====
-- The order-independent digests of streams, and the high-water marks.
pub mod Order
use fleece.Prelude.{ℕ, Bool, not, ◌&&◌, List, [], ◌∷◌, ◌==◌, if◌then◌else◌, ltb, length}
use fleece.Prelude.Sums.{add64}
use fleece.State.{StateManager, FieldEntry, shared_owner_id}
use fleece.State.Hash.{fnv64_mix, fnv64_mix_uint}
use fleece.State.Fields.{is_empty}

-- entry_digest
unfoldable pub entry_digest : FieldEntry → ℕ
entry_digest f =
    let named = fnv64_mix (fnv64_mix 0xcbf2_9ce4_8422_2325 f.name) (0xff ∷ []) in
    let authored = fnv64_mix_uint named f.origin_node_id in
    let stamped = fnv64_mix_uint authored f.timestamp in
    fnv64_mix (fnv64_mix_uint stamped (length f.bytes)) f.bytes

-- A named entry of the stream, and a live one.
unfoldable pub in_stream : ℕ → FieldEntry → Bool
in_stream owner f = f.exists && (f.node_id == owner && not (is_empty f.name))

unfoldable pub live_in_stream : ℕ → FieldEntry → Bool
live_in_stream owner f = not f.is_tombstone && in_stream owner f

unfoldable pub digest_loop : ℕ → List FieldEntry → ℕ → ℕ
digest_loop owner [] sum = sum
digest_loop owner (f ∷ fs) sum =
    digest_loop owner fs (if live_in_stream owner f then add64 sum (entry_digest f) else sum)

-- compute_stream_digest
unfoldable pub compute_stream_digest : StateManager → ℕ → ℕ
compute_stream_digest m owner = digest_loop owner m.fields 0

-- The maximum of the timestamps of the entries that satisfy a test.
unfoldable pub max_timestamp : (FieldEntry → Bool) → List FieldEntry → ℕ → ℕ
max_timestamp p [] hw = hw
max_timestamp p (f ∷ fs) hw =
    max_timestamp p fs (if p f && ltb hw f.timestamp then f.timestamp else hw)

-- max_timestamp_for_owner
unfoldable pub max_timestamp_for_owner : StateManager → ℕ → ℕ
max_timestamp_for_owner m owner = max_timestamp (λ f. f.exists && f.node_id == owner) m.fields 0

-- fleece_state_manager_get_self_hw, get_shared_hw, get_peer_self_hw
unfoldable pub get_self_hw : StateManager → ℕ
get_self_hw m = max_timestamp_for_owner m m.node_id

unfoldable pub get_shared_hw : StateManager → ℕ
get_shared_hw m = max_timestamp_for_owner m shared_owner_id

unfoldable pub get_peer_self_hw : StateManager → ℕ → ℕ
get_peer_self_hw m peer_id =
    if peer_id == shared_owner_id then 0 else max_timestamp_for_owner m peer_id
