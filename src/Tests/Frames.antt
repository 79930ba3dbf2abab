-- ===== src/Tests/Frames.antt =====
-- Frames that are written, read back and merged.
use fleece.Prelude.{
  ◌++◌, List, ◌≡◌, refl, true, false, not, [], ◌∷◌, ◌++◌, some, ◌==◌, arith, ◌≤◌, ◌<◌, ◌⊎◌, All,
  length,
}
use fleece.Cbor.{
  write_array_header, write_uint, write_bool, write_text, write_bytes, be_bytes, read_head,
  write_head,
}
use fleece.Cbor.RoundTrip.{read_head-write_head}
use fleece.State.{zero_entry, StateManager, shared_owner_id}
use fleece.State.Digest.{compute_stream_digest, in_stream}
use fleece.State.Export.{eligible, frame_of, buffer_size, write_record}
use fleece.State.Export.Sizes.{length-frame_of}
use fleece.State.Import.{import_impl, read_record}
use fleece.State.Import.Records.{IsStorable, remote_of, read_record-write_record}
use fleece.State.Import.RoundTrip.{IsSendable, import_impl-frame_of, merged}
use fleece.State.Bounded.{is_taken, packed_delta, included_max_ts}
use fleece.State.Bounded.Watermark.{watermark-IsSafe}
use fleece.State.Digest.Order.{compute_stream_digest-Perm}
use fleece.State.Hash.{hash_name}
use fleece.State.Repair.{index_frame, index_buffer_size, values_frame, values_buffer_size}
use fleece.State.Repair.Sizes.{length-index_frame, length-values_frame}
use mathlib.Core.List.{Permᴰ}
use fleece.Tests.Samples.{always, pos_entry, bat_entry, small_store, empty_store}

read_head-write_head_example : read_head (write_head 3 70000 ++ 1 ∷ []) ≡ some (3, 70000, 1 ∷ [])
read_head-write_head_example = read_head-write_head 3 70000 (1 ∷ []) (omega arith) (omega arith)

small_store-IsStorable : All IsStorable small_store.fields
small_store-IsStorable = (
  record {
    origin_fits = omega arith;
    timestamp_fits = omega arith;
    name_fits = omega arith;
    bytes_fit = omega arith;
    name_chars =
        ((λ e. omega (arith, e)), ((λ e. omega (arith, e)), ((λ e. omega (arith, e)), tt)));
  },
  (
    record {
      origin_fits = omega arith;
      timestamp_fits = omega arith;
      name_fits = omega arith;
      bytes_fit = omega arith;
      name_chars =
          ((λ e. omega (arith, e)), ((λ e. omega (arith, e)), ((λ e. omega (arith, e)), tt)));
    },
    (free_slot, (free_slot, tt)),
  ),
)
  where
    free_slot : IsStorable zero_entry
    free_slot = record {
      origin_fits = omega arith;
      timestamp_fits = omega arith;
      name_fits = omega arith;
      bytes_fit = omega arith;
      name_chars = tt;
    }

small_store-IsSendable : IsSendable small_store
small_store-IsSendable = record {
  node_fits = omega arith;
  not_shared = λ e. omega (arith, e);
  capacity_fits = omega arith;
  storable = small_store-IsStorable;
}

length-frame_of_example : length (frame_of small_store 0 2) ≡ buffer_size small_store 0 2
length-frame_of_example = length-frame_of small_store 0 2

pos_record_fits : length (write_record true pos_entry ++ 1 ∷ []) ≤ 100
unfolding write_record write_array_header write_uint write_bool write_text write_bytes write_head
    be_bytes
pos_record_fits = omega arith

read_record-write_record_example :
    read_record 100 true 0 (write_record true pos_entry ++ 1 ∷ [])
    ≡ some (remote_of pos_entry, 1 ∷ [])
read_record-write_record_example =
    read_record-write_record 100 pos_entry 0 (1 ∷ []) small_store-IsStorable.0 pos_record_fits

import_impl-frame_of_example :
    import_impl always empty_store (frame_of small_store shared_owner_id 2) ≡ (
      merged small_store empty_store 2 small_store-IsSendable always,
      some (record {
        sender = 5;
        behind_self = false;
        behind_shared = not (
            compute_stream_digest
              (merged small_store empty_store 2 small_store-IsSendable always)
              shared_owner_id
            == compute_stream_digest small_store shared_owner_id);
      }),
    )
import_impl-frame_of_example =
    import_impl-frame_of small_store empty_store 2 small_store-IsSendable always
      (λ e. omega (arith, e))

-- Two shared fields, of which a frame of one byte takes only the first.
abbrev busy_store : StateManager
busy_store = record small_store {
  fields = pos_entry ∷ record bat_entry { node_id = 0; timestamp = 9 } ∷ [];
}

watermark-IsSafe_example :
    (is_taken (packed_delta busy_store 0 1).taken 1 ≡ true) ⊎ (included_max_ts busy_store 0 1 < 9)
unfolding eligible in_stream
watermark-IsSafe_example =
    watermark-IsSafe busy_store 0 1 1 (record bat_entry { node_id = 0; timestamp = 9 }) refl refl
      (omega arith)

length-index_frame_example : length (index_frame busy_store) ≤ index_buffer_size busy_store
unfolding hash_name
length-index_frame_example = length-index_frame busy_store (omega arith, (omega arith, tt))

length-values_frame_example :
    length (values_frame busy_store (1 ∷ 2 ∷ [])) ≤ values_buffer_size busy_store (1 ∷ 2 ∷ [])
length-values_frame_example = length-values_frame busy_store (1 ∷ 2 ∷ [])

compute_stream_digest-Perm_example :
    compute_stream_digest busy_store 0
    ≡ compute_stream_digest
        (record busy_store {
          fields = record bat_entry { node_id = 0; timestamp = 9 } ∷ pos_entry ∷ [];
        })
        0
compute_stream_digest-Perm_example =
    compute_stream_digest-Perm busy_store
      (record busy_store {
        fields = record bat_entry { node_id = 0; timestamp = 9 } ∷ pos_entry ∷ [];
      })
      0 (Permᴰ.swap refl refl)
