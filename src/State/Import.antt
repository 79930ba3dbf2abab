-- ===== src/State/Import.antt =====
-- import_impl: a gossip frame is parsed, its records are merged, and the digests are compared. The
-- position in the frame is the list of the bytes from there on.
pub mod Records
pub mod RoundTrip
use fleece.Prelude.{
  c_string, ℕ, zero, suc, ◌+◌, ◌-◌, Bool, true, false, not, ◌&&◌, ◌||◌, Option, none, some, List,
  [], ◌∷◌, ◌==◌, if◌then◌else◌, length, take, drop,
}
use fleece.Prelude.Maybe.{◌>>=◌, ◌>>◌, require}
use fleece.Cbor.{read_head, bounds_ok}
use fleece.State.{StateManager, field_name_max, shared_owner_id}
use fleece.State.Fields.{is_empty}
use fleece.State.Peers.{touch_peer}
use fleece.State.Merge.{Remote, merge_named, merge_shared}
use fleece.State.Digest.{compute_stream_digest}

-- if (!fleece_cbor_read_head(…, &major, &value) || major != k) return -1;
unfoldable pub expect : ℕ → List ℕ → Option (ℕ × List ℕ)
expect k bs = do (major, value, rest) ← read_head bs; require (major == k); some (value, rest)

-- A head of the major type `k` with as many bytes behind it; `size` is that of the frame.
unfoldable pub expect_bytes : ℕ → ℕ → List ℕ → Option (List ℕ × List ℕ)
expect_bytes size k bs = do
  (value, rest) ← expect k bs
  require (bounds_ok (size - length rest) value size)
  some (take value rest, drop value rest)

-- A Boolean: major type 7 with the argument 20 or 21.
unfoldable pub expect_bool : List ℕ → Option (Bool × List ℕ)
expect_bool bs = do
  (value, rest) ← expect 7 bs
  require (value == 20 || value == 21)
  some (value == 21, rest)

-- The author of a record: the owner of the stream, unless it is the shared one.
unfoldable pub read_origin : Bool → ℕ → List ℕ → Option (ℕ × List ℕ)
read_origin true owner bs = expect 0 bs
read_origin false owner bs = some (owner, bs)

-- What a record's items stand for: the name is copied up to FLEECE_FIELD_NAME_MAX - 1 bytes, and a
-- tombstone has no data.
unfoldable pub received : ℕ → Bool → List ℕ → ℕ → List ℕ → Remote
received origin dead text timestamp bytes = record {
  origin_node_id = origin;
  name = take (field_name_max - 1) text;
  bytes = if dead then [] else bytes;
  timestamp = timestamp;
  is_tombstone = dead;
}

-- One record of the frame.
unfoldable pub read_record : ℕ → Bool → ℕ → List ℕ → Option (Remote × List ℕ)
read_record size shared owner bs = do
  (arity, r0) ← expect 4 bs
  require (arity == (if shared then 5 else 4))
  (origin, r1) ← read_origin shared owner r0
  (dead, r2) ← expect_bool r1
  (text, r3) ← expect_bytes size 3 r2
  (timestamp, r4) ← expect 0 r3
  (bytes, r5) ← expect_bytes size 2 r4
  some (received origin dead text timestamp bytes, r5)

-- A record with an empty name is skipped; what the merge returns is not looked at.
unfoldable pub merge_record : (ℕ → Bool) → Bool → ℕ → StateManager → Remote → StateManager
merge_record alloc shared owner m r =
    if is_empty r.name
    then m
    else let r' = record r { name = c_string r.name } in
      if shared then (merge_shared alloc m r').0 else (merge_named alloc m owner r').0

-- The loop over the records; what was merged before a malformed record stays merged.
unfoldable pub import_records :
    (ℕ → Bool) → ℕ → Bool → ℕ → ℕ → StateManager → List ℕ → StateManager × Bool
import_records alloc size shared owner zero m bs = (m, true)
import_records alloc size shared owner (suc n) m bs = elim (read_record size shared owner bs) [
  | none ↦ (m, false)
  | some (r, rest) ↦
      import_records alloc size shared owner n (merge_record alloc shared owner m r) rest
]

-- The header up to the digest.
pub record Header : Type 0 where
  pub sender : ℕ
  pub owner : ℕ
  pub digest : ℕ
  pub rest : List ℕ

unfoldable pub is_gossip : List ℕ → Bool
is_gossip (a ∷ b ∷ v ∷ _) = a == b'F' && (b == b'G' && v == 5)
is_gossip _ = false

unfoldable pub read_header : ℕ → List ℕ → Option Header
read_header node_id frame = do
  require (is_gossip frame)
  (arity, r0) ← expect 4 (drop 3 frame)
  require (arity == 5)
  (sender, r1) ← expect 0 r0
  require (not (sender == node_id || sender == shared_owner_id))
  (owner, r2) ← expect 0 r1
  require (owner == shared_owner_id || not (owner == node_id))
  (hw, r3) ← expect 0 r2
  (digest, r4) ← expect 0 r3
  some (record { sender = sender; owner = owner; digest = digest; rest = r4 })

-- `*behind_self`, `*behind_shared` and `*sender_node_id` of a frame that was imported.
pub record Report : Type 0 where
  pub sender : ℕ
  pub behind_self : Bool
  pub behind_shared : Bool

unfoldable pub report : StateManager → Header → Report
report m h =
    let shared = h.owner == shared_owner_id in
    let behind = not (compute_stream_digest m h.owner == h.digest) in
    record {
      sender = h.sender;
      behind_self = not shared && behind;
      behind_shared = shared && behind;
    }

unfoldable finish_import : Header → StateManager × Bool → StateManager × Option Report
finish_import h (m, false) = (m, none)
finish_import h (m, true) = (m, some (report m h))

-- import_impl; the report is `none` where it returns -1
unfoldable pub import_impl : (ℕ → Bool) → StateManager → List ℕ → StateManager × Option Report
unfolding finish_import
import_impl alloc m frame = elim (read_header m.node_id frame) [
  | none ↦ (m, none)
  | some h ↦
      let heard = touch_peer m h.sender in
      elim (expect 4 h.rest) [
        | none ↦ (heard, none)
        | some (count, rest) ↦ finish_import h (
            import_records alloc (length frame) (h.owner == shared_owner_id) h.owner count heard
              rest)
      ]
]
